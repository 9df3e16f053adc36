-- ===== src/Step/Build/Has.antt =====
-- What is on the log of a run in two parts that succeeds.
use kernelbuild_buildkit.Common.{
  ◌≡◌, refl, sym, ◌⊎◌, inl, inr, List, [], ◌∷◌, ◌++◌, Result, ok, err, subst,
}
use kernelbuild_buildkit.Step.Build.Log.{exports, exports-append}
use kernelbuild_buildkit.Step.Mount.{Mount}
use kernelbuild_buildkit.Step.Report.{RunError, Export, R, ◌>>=◌, proceed}

-- An export is on the log, from a mount with `P`.
abbrev pub Has : (Mount → Type 0) → Export → List (Mount × Export) → Type 0
Has P x [] = ⊥
Has P x ((m, y) ∷ l) = ((y ≡ x) × P m) ⊎ Has P x l

module _ (P : Mount → Type 0) (x : Export) where
  pub Has-front : (l k : List (Mount × Export)) → Has P x l → Has P x (l ++ k)
  Has-front [] k h = absurd h
  Has-front ((m, y) ∷ l) k (inl e) = inl e
  Has-front ((m, y) ∷ l) k (inr h) = inr (Has-front l k h)

  pub Has-back : (l k : List (Mount × Export)) → Has P x k → Has P x (l ++ k)
  Has-back [] k h = h
  Has-back ((m, y) ∷ l) k h = inr (Has-back l k h)

-- A run in two parts that succeeds: both have succeeded, and the log has what either has.
pub record BothOk {A B : Type 0} (p : R A) (f : A → R B) (m : Mount) (c : B) : Type 0 where
  pub value : A
  pub first : (p m).outcome ≡ ok value
  pub second : (f value (p m).mount).outcome ≡ ok c
  pub log :
      exports ((p >>= f) m).events ≡ exports (p m).events ++ exports (f value (p m).mount).events

pub both_ok :
    {A B : Type 0}
    → (p : R A) (f : A → R B) (m : Mount) (c : B) → ((p >>= f) m).outcome ≡ ok c
    → BothOk p f m c
both_ok {A} {B} p f m c h =
    let (a, e, g, l) = by_outcome (p m).outcome h in
    record { value = a; first = e; second = g; log = l }
  where
    by_outcome :
        (o : Result RunError A)
        → (proceed o (p m).mount (p m).events f).outcome ≡ ok c
        → (a : A) × (o ≡ ok a)
          × ((f a (p m).mount).outcome ≡ ok c)
          × (exports (proceed o (p m).mount (p m).events f).events
              ≡ exports (p m).events ++ exports (f a (p m).mount).events)
    by_outcome (err e) k = cc
    by_outcome (ok a) k = (a, refl, k, exports-append (p m).events (f a (p m).mount).events)

-- Whatever is on the first log is on the second.
abbrev pub Within : List (Mount × Export) → List (Mount × Export) → Type 1
Within u v = (P : Mount → Type 0) (x : Export) → Has P x u → Has P x v

module _ {A B : Type 0} (p : R A) (f : A → R B) (m : Mount) (c : B) (b : BothOk p f m c) where
  pub first-Within : Within (exports (p m).events) (exports ((p >>= f) m).events)
  first-Within P x h =
      subst (Has P x) (sym b.log)
        (Has-front P x (exports (p m).events) (exports (f b.value (p m).mount).events) h)

  pub second-Within : Within (exports (f b.value (p m).mount).events) (exports ((p >>= f) m).events)
  second-Within P x h =
      subst (Has P x) (sym b.log)
        (Has-back P x (exports (p m).events) (exports (f b.value (p m).mount).events) h)
