-- ===== src/Step/Configure/Marker.antt =====
-- The marker .kbf-config-src names the configuration that .config was made from.
use kernelbuild_buildkit.Common.{
  Bool, true, false, List, [], ◌∷◌, ◌++◌, ◌≡◌, refl, ap, Option, none, some, Bytes, codes, beq,
  beq_refl, fields, inl, inr, All, Bool-cases, is_empty, trim_space,
}
use kernelbuild_buildkit.Step.Configure.{
  config_name, marker_name, is_same, append_config, run_make, arch_args, config_id, append_fragment,
  write_config, reconfigure, configure_with, configure, made_of,
}
use kernelbuild_buildkit.Step.Mount.{Mount, get, put, delete, get-put, get-delete}
use kernelbuild_buildkit.Step.Rules.{Meets, MeetsUntilLast, Meets->>=, MeetsUntilLast->>=, Ends}
use kernelbuild_buildkit.Step.Run.{done, write, remove}
use kernelbuild_buildkit.Step.World.{World}

abbrev pub IsUnmarked : Mount → Type 0
IsUnmarked n = get marker_name n ≡ none

-- make leaves the marker alone.
abbrev pub MakesNoMarker : World → Type 0
MakesNoMarker w =
    (args : List Bytes) (m : Mount)
    → IsUnmarked m
    → All IsUnmarked (w.make args m).between × IsUnmarked (w.make args m).left

module _ (w : World) (honest : MakesNoMarker w) where
  -- .config is what a run of olddefconfig that succeeded left.
  pub record IsConfigured (n : Mount) : Type 0 where
    pub before : Mount
    pub succeeded : (w.make (arch_args w (codes "olddefconfig" ∷ [])) before).success ≡ true
    pub config :
        get config_name n
        ≡ get config_name (w.make (arch_args w (codes "olddefconfig" ∷ [])) before).left

  abbrev IsMade : List Bytes → Unit {0} → Mount → Type 0
  IsMade args _ n =
      IsUnmarked n × ((k : Mount) × (((w.make args k).success ≡ true) × (n ≡ (w.make args k).left)))

  run_make-IsMade :
      (args : List Bytes) (m : Mount)
      → IsUnmarked m
      → Meets IsUnmarked (IsMade args) (run_make w args m)
  unfolding run_make
  run_make-IsMade args m u =
      let h = honest args m u in record { along = h.0; ends = at_end (w.make args m).success refl }
    where
      at_end :
          (b : Bool)
          → (w.make args m).success ≡ b
          → Ends (IsMade args) (made_of w args b) (w.make args m).left
      at_end true e = ((honest args m u).1, (m, (e, refl)))
      at_end false e = tt

  put_config-IsUnmarked : (v : Bytes) (m : Mount) → IsUnmarked m → IsUnmarked (put config_name v m)
  unfolding beq
  put_config-IsUnmarked v m u = rw get-put u

  append_config-IsUnmarked :
      (cfg : Bytes) (o : Option Bytes) (m : Mount)
      → IsUnmarked m
      → Meets IsUnmarked (λ _ n. IsUnmarked n) (append_config cfg o m)
  append_config-IsUnmarked cfg none m u = record { along = tt; ends = tt }
  append_config-IsUnmarked cfg (some old) m u =
      let v = put_config-IsUnmarked (old ++ (codes "\n" ++ cfg)) m u in
      record { along = (v, tt); ends = v }

  append_fragment-IsUnmarked :
      (cfg : Bytes) (m : Mount)
      → IsUnmarked m
      → Meets IsUnmarked (λ _ n. IsUnmarked n) (append_fragment w cfg m)
  unfolding append_fragment
  append_fragment-IsUnmarked cfg m u = elim (Bool-cases (is_empty (trim_space cfg))) [
    | inl e ↦ rw e (record { along = tt; ends = u })
    | inr e ↦ rw e (append_config-IsUnmarked cfg (get config_name m) m u)
  ]

  write_config-IsUnmarked :
      (base : List Bytes) (cfg : Bytes) (m : Mount)
      → IsUnmarked m
      → Meets IsUnmarked (λ _ n. IsUnmarked n) (write_config w base cfg m)
  unfolding write_config
  write_config-IsUnmarked [] cfg m u =
      let v = put_config-IsUnmarked cfg m u in record { along = (v, tt); ends = v }
  write_config-IsUnmarked (t ∷ ts) cfg m u =
      Meets->>= IsUnmarked (IsMade (arch_args w (t ∷ ts))) (λ _ n. IsUnmarked n)
        (run_make w (arch_args w (t ∷ ts))) _ m (run_make-IsMade (arch_args w (t ∷ ts)) m u)
        (λ _ n q. append_fragment-IsUnmarked cfg n q.0)

  -- What `configure` comes to when it succeeds: the marker of this configuration over the .config that
  -- olddefconfig left.
  abbrev pub IsMarked : Bytes → Mount → Type 0
  IsMarked cfg n = (get marker_name n ≡ some (config_id w cfg)) × IsConfigured n

  mark :
      (cfg : Bytes) (n : Mount)
      → IsMade (arch_args w (codes "olddefconfig" ∷ [])) tt n
      → MeetsUntilLast IsUnmarked (λ _ n. IsMarked cfg n) (write marker_name (config_id w cfg) n)
  unfolding beq
  mark cfg n (u, (k, (s, e))) = record {
    along = tt;
    ends = (rw get-put refl, record { before = k; succeeded = s; config = rw get-put (rw e refl) });
  }

  reconfigure-marks :
      (cfg : Bytes) (m : Mount)
      → MeetsUntilLast IsUnmarked (λ _ n. IsMarked cfg n) (reconfigure w cfg m)
  unfolding reconfigure beq
  reconfigure-marks cfg m =
      let u : IsUnmarked (delete marker_name m) = rw get-delete refl in
      let removed : Meets IsUnmarked (λ _ n. IsUnmarked n) (remove marker_name m) = record {
        along = (u, tt);
        ends = u;
      } in
      MeetsUntilLast->>= IsUnmarked (λ _ n. IsUnmarked n) (λ _ n. IsMarked cfg n)
        (remove marker_name) _ m removed
        (λ _ n q.
          MeetsUntilLast->>= IsUnmarked (λ _ n. IsUnmarked n) (λ _ n. IsMarked cfg n)
            (write_config w (fields w.env.base_make) cfg) _ n
            (write_config-IsUnmarked (fields w.env.base_make) cfg n q)
            (λ _ k q.
              MeetsUntilLast->>= IsUnmarked (IsMade (arch_args w (codes "olddefconfig" ∷ [])))
                (λ _ n. IsMarked cfg n) (run_make w (arch_args w (codes "olddefconfig" ∷ []))) _ k
                (run_make-IsMade (arch_args w (codes "olddefconfig" ∷ [])) k q)
                (λ _ n q. mark cfg n q)))

pub configure-at :
    (w : World) (cfg : Bytes) (m : Mount)
    → w.kernel_config ≡ some cfg
    → configure w m ≡ configure_with w (some cfg) m
unfolding configure
configure-at w cfg m c = ap (λ o. configure_with w o m) c

pub configure_with-new :
    (w : World) (cfg : Bytes) (m : Mount)
    → is_same (get marker_name m) (config_id w cfg) ≡ false
    → configure_with w (some cfg) m ≡ reconfigure w cfg m
unfolding configure_with
configure_with-new w cfg m e = rw e refl

-- A configuration that the marker does not name: from the first change that `configure` makes to the
-- one before the last there is no marker, on an error too, and a run that succeeds ends with the
-- marker of this configuration over the .config of a run of olddefconfig that succeeded. make itself
-- leaves the marker alone.
pub configure-marks :
    (w : World) (cfg : Bytes) (m : Mount) (honest : MakesNoMarker w)
    → w.kernel_config ≡ some cfg
    → is_same (get marker_name m) (config_id w cfg) ≡ false
    → MeetsUntilLast IsUnmarked (λ _ n. IsMarked w honest cfg n) (configure w m)
configure-marks w cfg m honest c e =
    rw (configure-at w cfg m c, configure_with-new w cfg m e) (reconfigure-marks w honest cfg m)

-- A configuration that the marker names is not made again: nothing changes.
pub configure-skips :
    (w : World) (cfg : Bytes) (m : Mount)
    → w.kernel_config ≡ some cfg
    → get marker_name m ≡ some (config_id w cfg)
    → configure w m ≡ record { outcome = done tt; mount = m; trail = [] }
unfolding configure_with
configure-skips w cfg m c e = rw (configure-at w cfg m c) (rw (e, beq_refl) refl)
