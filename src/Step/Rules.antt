-- ===== src/Step/Rules.antt =====
-- How to reason about a run: what holds of every mount on its trail, and what holds at its end.
use kernelbuild_buildkit.Common.{
  Bool, true, false, List, [], ◌∷◌, ◌++◌, ◌≡◌, refl, All, append-nil, if◌then◌else◌, ◌⊎◌, inl, inr,
}
use kernelbuild_buildkit.Step.Mount.{Mount}
use kernelbuild_buildkit.Step.Run.{Outcome, done, failed, Run, M, after, continue, ◌>>=◌}

abbrev pub Ends : {A : Type 0} → (A → Mount → Type 0) → Outcome A → Mount → Type 0
Ends Q (done a) m = Q a m
Ends Q (failed e) m = Unit

-- Every mount on the trail satisfies `T`, and a run that succeeds ends in `Q`.
pub record Meets {A : Type 0} (T : Mount → Type 0) (Q : A → Mount → Type 0) (r : Run A)
    : Type 0 where
  pub along : All T r.trail
  pub ends : Ends Q r.outcome r.mount

-- The mounts that a killed runner can leave: all of the trail, but the last one of a success.
abbrev pub before_last : {A : Type 0} → List A → List A
before_last [] = []
before_last (x ∷ []) = []
before_last (x ∷ y ∷ xs) = x ∷ before_last (y ∷ xs)

abbrev pub unfinished : {A : Type 0} → Outcome A → List Mount → List Mount
unfinished (done a) t = before_last t
unfinished (failed e) t = t

pub record MeetsUntilLast {A : Type 0} (T : Mount → Type 0) (Q : A → Mount → Type 0) (r : Run A)
    : Type 0 where
  pub along : All T (unfinished r.outcome r.trail)
  pub ends : Ends Q r.outcome r.mount

pub All-append : (T : Mount → Type 0) (xs ys : List Mount) → All T xs → All T ys → All T (xs ++ ys)
All-append T [] ys h k = k
All-append T (x ∷ xs) ys (h, hs) k = (h, All-append T xs ys hs k)

All-before_last : (T : Mount → Type 0) (xs : List Mount) → All T xs → All T (before_last xs)
All-before_last T [] h = h
All-before_last T (x ∷ []) h = tt
All-before_last T (x ∷ y ∷ xs) (h, hs) = (h, All-before_last T (y ∷ xs) hs)

before_last-append :
    (T : Mount → Type 0) (xs ys : List Mount)
    → All T xs
    → All T (before_last ys)
    → All T (before_last (xs ++ ys))
before_last-append T [] ys h k = k
before_last-append T (x ∷ []) [] h k = tt
before_last-append T (x ∷ []) (y ∷ ys) (h, _) k = (h, k)
before_last-append T (x ∷ z ∷ xs) ys (h, hs) k = (h, before_last-append T (z ∷ xs) ys hs k)

module _ {B : Type 0} (T : Mount → Type 0) (R : B → Mount → Type 0) where
  Meets-after : (t : List Mount) (r : Run B) → All T t → Meets T R r → Meets T R (after t r)
  Meets-after t r h k = record { along = All-append T t r.trail h k.along; ends = k.ends }

  unfinished-append :
      (o : Outcome B) (t s : List Mount)
      → All T t
      → All T (unfinished o s)
      → All T (unfinished o (t ++ s))
  unfinished-append (done b) t s h k = before_last-append T t s h k
  unfinished-append (failed e) t s h k = All-append T t s h k

  MeetsUntilLast-after :
      (t : List Mount) (r : Run B) → All T t → MeetsUntilLast T R r → MeetsUntilLast T R (after t r)
  MeetsUntilLast-after t r h k = record {
    along = unfinished-append r.outcome t r.trail h k.along;
    ends = k.ends;
  }

  -- A run that meets `T` all along and may go on, or does so until its last change and is at its end.
  abbrev pub MeetsEither : (B → Mount → Type 0) → Run B → Type 0
  MeetsEither S r = Meets T R r ⊎ MeetsUntilLast T S r

module _ {A B : Type 0} (T : Mount → Type 0) where
  pub Meets->>= :
      (Q : A → Mount → Type 0) (R : B → Mount → Type 0) (p : M A) (f : A → M B) (m : Mount)
      → Meets T Q (p m)
      → ((a : A) (n : Mount) → Q a n → Meets T R (f a n))
      → Meets T R ((p >>= f) m)
  Meets->>= Q R p f m h k = by_outcome (p m).outcome (p m).mount (p m).trail h.along h.ends
    where
      by_outcome :
          (o : Outcome A) (n : Mount) (t : List Mount)
          → All T t
          → Ends Q o n
          → Meets T R (continue o n t f)
      by_outcome (done a) n t al en = Meets-after T R t (f a n) al (k a n en)
      by_outcome (failed e) n t al en = record { along = al; ends = tt }

  pub MeetsUntilLast->>= :
      (Q : A → Mount → Type 0) (R : B → Mount → Type 0) (p : M A) (f : A → M B) (m : Mount)
      → Meets T Q (p m)
      → ((a : A) (n : Mount) → Q a n → MeetsUntilLast T R (f a n))
      → MeetsUntilLast T R ((p >>= f) m)
  MeetsUntilLast->>= Q R p f m h k = by_outcome (p m).outcome (p m).mount (p m).trail h.along h.ends
    where
      by_outcome :
          (o : Outcome A) (n : Mount) (t : List Mount)
          → All T t
          → Ends Q o n
          → MeetsUntilLast T R (continue o n t f)
      by_outcome (done a) n t al en = MeetsUntilLast-after T R t (f a n) al (k a n en)
      by_outcome (failed e) n t al en = record { along = al; ends = tt }

  pub MeetsEither->>= :
      (Q : A → Mount → Type 0) (R S : B → Mount → Type 0) (p : M A) (f : A → M B) (m : Mount)
      → Meets T Q (p m)
      → ((a : A) (n : Mount) → Q a n → MeetsEither T R S (f a n))
      → MeetsEither T R S ((p >>= f) m)
  MeetsEither->>= Q R S p f m h k = by_outcome (p m).outcome (p m).mount (p m).trail h.along h.ends
    where
      by_outcome :
          (o : Outcome A) (n : Mount) (t : List Mount)
          → All T t
          → Ends Q o n
          → MeetsEither T R S (continue o n t f)
      by_outcome (done a) n t al en = elim (k a n en) [
        | inl h ↦ inl (Meets-after T R t (f a n) al h)
        | inr h ↦ inr (MeetsUntilLast-after T S t (f a n) al h)
      ]
      by_outcome (failed e) n t al en = inl (record { along = al; ends = tt })

  -- After a run that came to its end, what follows changes nothing.
  pub MeetsUntilLast-idle :
      (S : A → Mount → Type 0) (R : B → Mount → Type 0) (p : M A) (f : A → M B) (m : Mount)
      → MeetsUntilLast T S (p m)
      → ((a : A) (n : Mount)
          → S a n
          → (b : B) × ((f a n ≡ record { outcome = done b; mount = n; trail = [] }) × R b n))
      → MeetsUntilLast T R ((p >>= f) m)
  MeetsUntilLast-idle S R p f m h k =
      by_outcome (p m).outcome (p m).mount (p m).trail h.along h.ends
    where
      by_outcome :
          (o : Outcome A) (n : Mount) (t : List Mount)
          → All T (unfinished o t)
          → Ends S o n
          → MeetsUntilLast T R (continue o n t f)
      by_outcome (done a) n t al en =
          let q = k a n en in rw (q.1.0, append-nil t) (record { along = al; ends = q.1.1 })
      by_outcome (failed e) n t al en = record { along = al; ends = tt }

module _ {A : Type 0} (T : Mount → Type 0) (Q : A → Mount → Type 0) where
  -- A run that meets `T` all along does so until its last change.
  pub Meets-until_last : (r : Run A) → Meets T Q r → MeetsUntilLast T Q r
  Meets-until_last r h = record { along = by_outcome r.outcome; ends = h.ends }
    where
      by_outcome : (o : Outcome A) → All T (unfinished o r.trail)
      by_outcome (done a) = All-before_last T r.trail h.along
      by_outcome (failed e) = h.along

  pub Meets-mono :
      (S : Mount → Type 0) (R : A → Mount → Type 0) (r : Run A)
      → ((m : Mount) → T m → S m)
      → ((a : A) (m : Mount) → Q a m → R a m)
      → Meets T Q r
      → Meets S R r
  Meets-mono S R r f g h = record { along = all r.trail h.along; ends = at_end r.outcome h.ends }
    where
      all : (t : List Mount) → All T t → All S t
      all [] k = tt
      all (m ∷ t) (k, ks) = (f m k, all t ks)

      at_end : (o : Outcome A) → Ends Q o r.mount → Ends R o r.mount
      at_end (done a) k = g a r.mount k
      at_end (failed e) k = tt

  pub Meets-if :
      (b : Bool) (p q : Run A)
      → (b ≡ true → Meets T Q p)
      → (b ≡ false → Meets T Q q)
      → Meets T Q (if b then p else q)
  Meets-if true p q h k = h refl
  Meets-if false p q h k = k refl

All-mono : (T S : Mount → Type 0) (t : List Mount) → ((m : Mount) → T m → S m) → All T t → All S t
All-mono T S [] f h = tt
All-mono T S (m ∷ t) f (h, hs) = (f m h, All-mono T S t f hs)

pub MeetsUntilLast-mono :
    {A : Type 0}
    → (T S : Mount → Type 0) (Q : A → Mount → Type 0) (r : Run A) → ((m : Mount) → T m → S m)
    → MeetsUntilLast T Q r
    → MeetsUntilLast S Q r
MeetsUntilLast-mono T S Q r f h = record {
  along = All-mono T S (unfinished r.outcome r.trail) f h.along;
  ends = h.ends;
}
