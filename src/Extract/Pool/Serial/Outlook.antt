-- ===== src/Extract/Pool/Serial/Outlook.antt =====
-- What a state of the pool will come to.
use kernelbuild_buildkit.Common.{
  ℕ, ◌<◌, List, [], ◌∷◌, ◌≡◌, ◌∙◌, refl, sym, ap, fun_ext, Bytes, arith, Option, none, some, ◌⊎◌,
  inl, inr, All, length,
}
use kernelbuild_buildkit.Extract.{Action, untar_serial}
use kernelbuild_buildkit.Extract.Disk.{
  Root, CallError, ok_state, ◌and_then◌, and_then_assoc, and_then-some,
}
use kernelbuild_buildkit.Extract.Pool.{Channels, shard_of, Reader, reading, stopped, Pool, inline}
use kernelbuild_buildkit.Extract.Pool.Laws.{drain, KeepsFine}
use kernelbuild_buildkit.Extract.Pool.Serial.Filed.{
  save, act_state, serial, serial-cons, Orderly, Filed,
}

abbrev pub fails : {S T : Type 0} → S → Option T
fails s = none

pub and_then-none : {S T : Type 0} → (o : Option S) → (o and_then fails {T = T}) ≡ none
and_then-none none = refl
and_then-none (some s) = refl

module _ (d : Root) (Known : Action → Type 0) (Fine : d.State → Type 0)
    (orderly : Orderly d Known Fine) (n : ℕ) (positive : 0 < n) where
  open d use {State}

  abbrev pub drained : Channels → State → Option State
  drained = drain (save d) Fine

  -- What the serial extraction makes of the rest, once the jobs are written.
  abbrev pub ahead : Reader → Channels → State → Option State
  ahead (reading acts) qs s = drained qs s and_then serial d acts
  ahead (stopped none) qs s = drained qs s
  ahead (stopped (some e)) qs s = none

  abbrev pub outlook_of : Option CallError → Reader → Channels → State → Option State
  outlook_of none r qs s = ahead r qs s
  outlook_of (some e) r qs s = none

  abbrev pub outlook : Pool State → Option State
  outlook p = outlook_of p.first_error p.reader p.channels p.disk

  abbrev pub ReaderKnown : Reader → Type 0
  ReaderKnown (reading acts) = All Known acts
  ReaderKnown (stopped none) = Unit
  ReaderKnown (stopped (some e)) = ⊥

  pub record IsLive (p : Pool State) : Type 0 where
    pub well : p.first_error ≡ none
    pub count : length p.channels ≡ n
    pub filed : Filed d Known Fine orderly n 0 p.channels
    pub fine : Fine p.disk
    pub known : ReaderKnown p.reader

  abbrev pub IsLost : Pool State → Type 0
  IsLost p =
      ((e : CallError) × (p.first_error ≡ some e))
      ⊎ ((e : CallError) × (p.reader ≡ stopped (some e)))

  abbrev pub Inv : Pool State → Type 0
  Inv p = IsLive p ⊎ IsLost p

  -- The pool is well after a turn, and its outlook is as before.
  abbrev pub Goes : Option State → Option (Pool State) → Type 0
  Goes o none = Unit
  Goes o (some q) = Inv q × (outlook q ≡ o)

  abbrev pub pool : Reader → Channels → State → Option CallError → Pool State
  pool r qs s e = record { reader = r; channels = qs; disk = s; first_error = e }

  abbrev pub Here : Channels → State → Type 0
  Here qs s = (length qs ≡ n) × Filed d Known Fine orderly n 0 qs × Fine s

  pub live :
      {r : Reader} {qs : Channels} {s : State}
      → Here qs s
      → ReaderKnown r
      → IsLive (pool r qs s none)
  live (c, f, fine) k = record { well = refl; count = c; filed = f; fine = fine; known = k }

  -- A call of the reader's own that comes to the same before the jobs in the channels.
  pub inline-Goes :
      (f : State → State × Option CallError) (qs : Channels) (s : State) (acts : List Action)
      → Here qs s
      → All Known acts
      → KeepsFine (save d) Fine (λ t. ok_state (f t))
      → (drained qs s and_then λ t. ok_state (f t)) ≡ (ok_state (f s) and_then drained qs)
      → (r : Reader)
      → Goes
          (drained qs s and_then λ t. (ok_state (f t) and_then serial d acts))
          (some (inline d (f s) acts (pool r qs s none)))
  inline-Goes f qs s acts (c, h, fine) k keeps e r = by_result (f s) refl (
      sym (and_then_assoc (drained qs s) (λ t. ok_state (f t)) (serial d acts))
      ∙ ap (λ o. o and_then serial d acts) e)
    where
      by_result :
          (x : State × Option CallError)
          → f s ≡ x
          → (drained qs s and_then λ t. (ok_state (f t) and_then serial d acts))
            ≡ ((ok_state (f s) and_then drained qs) and_then serial d acts)
          → Goes
              (drained qs s and_then λ t. (ok_state (f t) and_then serial d acts))
              (some (inline d x acts (pool r qs s none)))
      by_result (t, none) g o = (
        inl (live (c, h, keeps s t fine (ap ok_state g)) k),
        sym (o ∙ ap (λ x. (ok_state x and_then drained qs) and_then serial d acts) g),
      )
      by_result (t, some e) g o = (
        inr (inr (e, refl)),
        sym (o ∙ ap (λ x. (ok_state x and_then drained qs) and_then serial d acts) g),
      )

  pub rest-cons :
      (a : Action) (acts : List Action) (qs : Channels) (s : State)
      → (drained qs s and_then serial d (a ∷ acts))
        ≡ (drained qs s and_then λ t. (act_state d a t and_then serial d acts))
  rest-cons a acts qs s =
      ap (λ (g : State → Option State). drained qs s and_then g) (fun_ext (serial-cons d a acts))

  pub shard-lt : (name : Bytes) (qs : Channels) → length qs ≡ n → shard_of n name < length qs
  unfolding shard_of
  shard-lt name qs c = grind arith

  serial-nil : serial d [] ≡ some
  unfolding untar_serial
  serial-nil = refl

  pub rest-nil : (qs : Channels) (s : State) → (drained qs s and_then serial d []) ≡ drained qs s
  rest-nil qs s =
      ap (λ (g : State → Option State). drained qs s and_then g) serial-nil
      ∙ and_then-some (drained qs s)

  pub ahead-eq :
      (r : Reader) (qs rest : Channels) (s t : State)
      → drained qs s ≡ drained rest t
      → ahead r rest t ≡ ahead r qs s
  ahead-eq (reading acts) qs rest s t e = ap (λ o. o and_then serial d acts) (sym e)
  ahead-eq (stopped none) qs rest s t e = sym e
  ahead-eq (stopped (some x)) qs rest s t e = refl

  pub ahead-none :
      (r : Reader) (qs : Channels) (s : State) → drained qs s ≡ none → ahead r qs s ≡ none
  ahead-none (reading acts) qs s e = ap (λ o. o and_then serial d acts) e
  ahead-none (stopped none) qs s e = e
  ahead-none (stopped (some x)) qs s e = refl
