-- ===== src/Common/Errors.antt =====
-- Go's `(value, error)` pairs as a result type, with early return as the bind.
use mathlib.Core.Path.{◌≡◌, refl}
use mathlib.Core.Bool.{Bool, true, false}

pub data Result {ℓ κ} (E : Type ℓ) (A : Type κ) : Type (ℓ ⊔ κ) where
  err : E → Result E A
  ok : A → Result E A

module _ {ℓ κ μ} {E : Type ℓ} {A : Type κ} {B : Type μ} where
  infixl 5 ◌>>=◌
  abbrev pub ◌>>=◌ : Result E A → (A → Result E B) → Result E B
  err e >>= next = err e
  ok a >>= next = next a

  -- What a call that went on to a success had given.
  pub >>=-eq-ok :
      (call : Result E A) (next : A → Result E B) {b : B}
      → (call >>= next) ≡ ok b
      → (a : A) × (call ≡ ok a) × (next a ≡ ok b)
  >>=-eq-ok (err e) next h = cc
  >>=-eq-ok (ok a) next h = (a, refl, h)

module _ {ℓ κ} {E : Type ℓ} {B : Type κ} where
  infixl 5 ◌>>◌
  abbrev pub ◌>>◌ : Result E (Unit {0}) → Result E B → Result E B
  check >> rest = check >>= λ _. rest

  pub >>-eq-ok :
      (check : Result E (Unit {0})) (rest : Result E B) {b : B}
      → (check >> rest) ≡ ok b
      → (check ≡ ok tt) × (rest ≡ ok b)
  >>-eq-ok (err e) rest h = cc
  >>-eq-ok (ok tt) rest h = (refl, h)

-- `if b { return e }`
module _ {ℓ} {E : Type ℓ} where
  abbrev pub reject : Bool → E → Result E (Unit {0})
  reject false e = ok tt
  reject true e = err e

  pub reject-eq-ok : (b : Bool) (e : E) → reject b e ≡ ok tt → b ≡ false
  reject-eq-ok false e h = refl
  reject-eq-ok true e h = cc
