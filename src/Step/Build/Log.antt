-- ===== src/Step/Build/Log.antt =====
-- How to reason about what a part of `run` exports, and from which mounts.
use kernelbuild_buildkit.Common.{
  List, [], ◌∷◌, ◌++◌, ◌≡◌, ◌∙◌, refl, sym, subst, ap, Result, ok, err,
}
use kernelbuild_buildkit.Step.Mount.{Mount}
use kernelbuild_buildkit.Step.Report.{
  RunError, Export, Event, changed, exported, Report, R, ◌>>=◌, proceed, behind, lift, changes,
  outcome_result, give,
}
use kernelbuild_buildkit.Step.Rules.{Ends}
use kernelbuild_buildkit.Step.Run.{M, Outcome, done, failed}

abbrev pub exports : List Event → List (Mount × Export)
exports [] = []
exports (changed m ∷ es) = exports es
exports (exported m x ∷ es) = (m, x) ∷ exports es

pub exports-append : (es fs : List Event) → exports (es ++ fs) ≡ exports es ++ exports fs
exports-append [] fs = refl
exports-append (changed m ∷ es) fs = exports-append es fs
exports-append (exported m x ∷ es) fs = ap (λ l. (m, x) ∷ l) (exports-append es fs)

pub exports-changes : (t : List Mount) → exports (changes t) ≡ []
exports-changes [] = refl
exports-changes (m ∷ t) = exports-changes t

-- What holds at the end of a success.
abbrev pub EndsIn : {A : Type 0} → (Mount → Type 0) → Result RunError A → Mount → Type 0
EndsIn Q (ok a) m = Q m
EndsIn Q (err e) m = Unit

-- Each export is made from a mount with `P`.
abbrev pub AllFrom : (Mount → Type 0) → List (Mount × Export) → Type 0
AllFrom P [] = Unit
AllFrom P ((m, x) ∷ rest) = P m × AllFrom P rest

-- Nothing is exported, and a success ends in `Q`.
pub record IsQuiet {A : Type 0} (Q : Mount → Type 0) (r : Report A) : Type 0 where
  pub nothing : exports r.events ≡ []
  pub ends : EndsIn Q r.outcome r.mount

module _ (P : Mount → Type 0) where
  AllFrom-append : (l k : List (Mount × Export)) → AllFrom P l → AllFrom P k → AllFrom P (l ++ k)
  AllFrom-append [] k h j = j
  AllFrom-append ((m, x) ∷ l) k (p, h) j = (p, AllFrom-append l k h j)

  -- Each export is made from a mount with `P`, and a success ends in `P`.
  pub record Goes {A : Type 0} (r : Report A) : Type 0 where
    pub all : AllFrom P (exports r.events)
    pub last : EndsIn P r.outcome r.mount

  pub IsQuiet-Goes : {A : Type 0} → (r : Report A) → IsQuiet P r → Goes r
  IsQuiet-Goes r q = record { all = rw (q.nothing) tt; last = q.ends }

  module _ {A B : Type 0} (p : R A) (f : A → R B) (m : Mount) where
    behind-Goes :
        AllFrom P (exports (p m).events) → (r : Report B) → Goes r → Goes (behind (p m).events r)
    behind-Goes h r g = record {
      all =
          subst (AllFrom P) (sym (exports-append (p m).events r.events))
            (AllFrom-append (exports (p m).events) (exports r.events) h g.all);
      last = g.last;
    }

    -- After a part that exports nothing; what it gives is known.
    pub Goes-after_known :
        (Q : Mount → Type 0)
        → IsQuiet Q (p m)
        → ((a : A) → (p m).outcome ≡ ok a → Q (p m).mount → Goes (f a (p m).mount))
        → Goes ((p >>= f) m)
    Goes-after_known Q h k = by_outcome (p m).outcome refl h.ends
      where
        none_yet : AllFrom P (exports (p m).events)
        none_yet = rw (h.nothing) tt

        by_outcome :
            (o : Result RunError A)
            → (p m).outcome ≡ o
            → EndsIn Q o (p m).mount
            → Goes (proceed o (p m).mount (p m).events f)
        by_outcome (err e) same q = record { all = none_yet; last = tt }
        by_outcome (ok a) same q = behind-Goes none_yet (f a (p m).mount) (k a same q)

    pub Goes-after_quiet :
        (Q : Mount → Type 0)
        → IsQuiet Q (p m)
        → ((a : A) (n : Mount) → Q n → Goes (f a n))
        → Goes ((p >>= f) m)
    Goes-after_quiet Q h k = Goes-after_known Q h (λ a same q. k a (p m).mount q)

    pub Goes->>= : Goes (p m) → ((a : A) (n : Mount) → P n → Goes (f a n)) → Goes ((p >>= f) m)
    Goes->>= g k = by_outcome (p m).outcome g.last
      where
        by_outcome :
            (o : Result RunError A)
            → EndsIn P o (p m).mount
            → Goes (proceed o (p m).mount (p m).events f)
        by_outcome (err e) q = record { all = g.all; last = tt }
        by_outcome (ok a) q = behind-Goes g.all (f a (p m).mount) (k a (p m).mount q)

pub IsQuiet->>= :
    {A B : Type 0}
    → (Q S : Mount → Type 0) (p : R A) (f : A → R B) (m : Mount) → IsQuiet Q (p m)
    → ((a : A) (n : Mount) → Q n → IsQuiet S (f a n))
    → IsQuiet S ((p >>= f) m)
IsQuiet->>= {A} {B} Q S p f m h k = by_outcome (p m).outcome h.ends
  where
    continue : (r : Report B) → IsQuiet S r → IsQuiet S (behind (p m).events r)
    continue r q = record {
      nothing =
          exports-append (p m).events r.events
          ∙ (ap (λ l. l ++ exports r.events) h.nothing ∙ q.nothing);
      ends = q.ends;
    }

    by_outcome :
        (o : Result RunError A)
        → EndsIn Q o (p m).mount
        → IsQuiet S (proceed o (p m).mount (p m).events f)
    by_outcome (err e) q = record { nothing = h.nothing; ends = tt }
    by_outcome (ok a) q = continue (f a (p m).mount) (k a (p m).mount q)

pub give-IsQuiet :
    {A : Type 0}
    → (Q : Mount → Type 0) (r : Result RunError A) (m : Mount) → Q m
    → IsQuiet Q (give r m)
give-IsQuiet Q (ok a) m h = record { nothing = refl; ends = h }
give-IsQuiet Q (err e) m h = record { nothing = refl; ends = tt }

-- A part that works on the mount only is quiet.
pub lift-IsQuiet :
    {A : Type 0}
    → (Q : Mount → Type 0) (p : M A) (m : Mount) → Ends (λ _ n. Q n) (p m).outcome (p m).mount
    → IsQuiet Q (lift p m)
lift-IsQuiet {A} Q p m h = record {
  nothing = exports-changes (p m).trail;
  ends = by_outcome (p m).outcome h;
}
  where
    by_outcome :
        (o : Outcome A) → Ends (λ _ n. Q n) o (p m).mount → EndsIn Q (outcome_result o) (p m).mount
    by_outcome (done a) q = q
    by_outcome (failed e) q = tt

-- An end with an error, with nothing exported.
abbrev pub EndsEarly : {A : Type 0} → RunError → Report A → Type 0
EndsEarly e r = (r.outcome ≡ err e) × (exports r.events ≡ [])

module _ {A B : Type 0} (p : R A) (f : A → R B) (m : Mount) (e : RunError) (Q : Mount → Type 0)
    (quiet : IsQuiet Q (p m)) where
  pub EndsEarly-first : (p m).outcome ≡ err e → EndsEarly e ((p >>= f) m)
  EndsEarly-first h =
      let same : (p >>= f) m
          ≡ record { outcome = err e; mount = (p m).mount; events = (p m).events } =
        ap (λ o. proceed o (p m).mount (p m).events f) h in
      (ap (λ r. r.outcome) same, ap (λ r. exports r.events) same ∙ quiet.nothing)

  pub EndsEarly-second :
      (a : A) → (p m).outcome ≡ ok a → EndsEarly e (f a (p m).mount) → EndsEarly e ((p >>= f) m)
  EndsEarly-second a h (o, n) =
      let same : (p >>= f) m ≡ behind (p m).events (f a (p m).mount) =
        ap (λ o. proceed o (p m).mount (p m).events f) h in
      (
        ap (λ r. r.outcome) same ∙ o,
        ap (λ r. exports r.events) same
            ∙ (exports-append (p m).events (f a (p m).mount).events
                ∙ (ap (λ l. l ++ exports (f a (p m).mount).events) quiet.nothing ∙ n)),
      )
