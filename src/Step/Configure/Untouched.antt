-- ===== src/Step/Configure/Untouched.antt =====
-- What `configure` leaves alone: an entry other than .config and the marker.
use kernelbuild_buildkit.Common.{
  Bool, true, false, List, [], ◌∷◌, ◌++◌, ◌≡◌, ◌∙◌, Option, none, some, Bytes, codes, beq, fields,
  inl, inr, All, Bool-cases, is_empty, trim_space,
}
use kernelbuild_buildkit.Step.Configure.{
  config_name, marker_name, is_same, append_config, run_make, arch_args, config_id, append_fragment,
  write_config, reconfigure, configure_with, configure, made_of,
}
use kernelbuild_buildkit.Step.Mount.{Mount, get, get-put, get-delete}
use kernelbuild_buildkit.Step.Rules.{Meets, Meets->>=, Ends}
use kernelbuild_buildkit.Step.Run.{Run, write, remove}
use kernelbuild_buildkit.Step.World.{World}

abbrev pub Anywhere : Mount → Type 0
Anywhere _ = Unit

All-Anywhere : (t : List Mount) → All Anywhere t
All-Anywhere [] = tt
All-Anywhere (m ∷ t) = (tt, All-Anywhere t)

-- make leaves the entry as it is.
abbrev pub MakesNot : World → Bytes → Type 0
MakesNot w k = (args : List Bytes) (m : Mount) → get k (w.make args m).left ≡ get k m

module _ (w : World) (k : Bytes) (v : Option Bytes) (honest : MakesNot w k)
    (not_config : beq config_name k ≡ false) (not_marker : beq marker_name k ≡ false) where
  abbrev IsKept : Mount → Type 0
  IsKept n = get k n ≡ v

  abbrev Keeps : Run (Unit {0}) → Type 0
  Keeps r = Meets Anywhere (λ _ n. IsKept n) r

  run_make-Keeps : (args : List Bytes) (m : Mount) → IsKept m → Keeps (run_make w args m)
  unfolding run_make
  run_make-Keeps args m h = record {
    along = All-Anywhere (w.make args m).between;
    ends = at_end (w.make args m).success;
  }
    where
      at_end : (b : Bool) → Ends (λ _ n. IsKept n) (made_of w args b) (w.make args m).left
      at_end true = honest args m ∙ h
      at_end false = tt

  write-Keeps : (j t : Bytes) (m : Mount) → beq j k ≡ false → IsKept m → Keeps (write j t m)
  write-Keeps j t m ne h = record { along = (tt, tt); ends = get-put k j t m ∙ rw ne h }

  remove-Keeps : (j : Bytes) (m : Mount) → beq j k ≡ false → IsKept m → Keeps (remove j m)
  remove-Keeps j m ne h = record { along = (tt, tt); ends = get-delete k j m ∙ rw ne h }

  append_config-Keeps :
      (cfg : Bytes) (o : Option Bytes) (m : Mount) → IsKept m → Keeps (append_config cfg o m)
  append_config-Keeps cfg none m h = record { along = tt; ends = tt }
  append_config-Keeps cfg (some old) m h =
      write-Keeps config_name (old ++ (codes "\n" ++ cfg)) m not_config h

  append_fragment-Keeps : (cfg : Bytes) (m : Mount) → IsKept m → Keeps (append_fragment w cfg m)
  unfolding append_fragment
  append_fragment-Keeps cfg m h = elim (Bool-cases (is_empty (trim_space cfg))) [
    | inl e ↦ rw e (record { along = tt; ends = h })
    | inr e ↦ rw e (append_config-Keeps cfg (get config_name m) m h)
  ]

  write_config-Keeps :
      (base : List Bytes) (cfg : Bytes) (m : Mount) → IsKept m → Keeps (write_config w base cfg m)
  unfolding write_config
  write_config-Keeps [] cfg m h = write-Keeps config_name cfg m not_config h
  write_config-Keeps (t ∷ ts) cfg m h =
      Meets->>= Anywhere (λ _ n. IsKept n) (λ _ n. IsKept n) (run_make w (arch_args w (t ∷ ts))) _ m
        (run_make-Keeps (arch_args w (t ∷ ts)) m h) (λ _ n q. append_fragment-Keeps cfg n q)

  reconfigure-Keeps : (cfg : Bytes) (m : Mount) → IsKept m → Keeps (reconfigure w cfg m)
  unfolding reconfigure
  reconfigure-Keeps cfg m h =
      let K : Unit {0} → Mount → Type 0 = λ _ n. IsKept n in
      Meets->>= Anywhere K K (remove marker_name) _ m (remove-Keeps marker_name m not_marker h)
        (λ _ n q.
          Meets->>= Anywhere K K (write_config w (fields w.env.base_make) cfg) _ n
            (write_config-Keeps (fields w.env.base_make) cfg n q)
            (λ _ i q.
              Meets->>= Anywhere K K (run_make w (arch_args w (codes "olddefconfig" ∷ []))) _ i
                (run_make-Keeps (arch_args w (codes "olddefconfig" ∷ [])) i q)
                (λ _ j q. write-Keeps marker_name (config_id w cfg) j not_marker q)))

  configure_with-Keeps : (o : Option Bytes) (m : Mount) → IsKept m → Keeps (configure_with w o m)
  unfolding configure_with
  configure_with-Keeps none m h = record { along = tt; ends = tt }
  configure_with-Keeps (some cfg) m h =
      elim (Bool-cases (is_same (get marker_name m) (config_id w cfg))) [
        | inl e ↦ rw e (record { along = tt; ends = h })
        | inr e ↦ rw e (reconfigure-Keeps cfg m h)
      ]

  pub configure-Keeps : (m : Mount) → IsKept m → Keeps (configure w m)
  unfolding configure
  configure-Keeps m h = configure_with-Keeps w.kernel_config m h
