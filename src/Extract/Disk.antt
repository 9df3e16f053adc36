-- ===== src/Extract/Disk.antt =====
-- The calls of os.Root that the extraction makes. The file system is the operating system's, so it is a
-- parameter: a state and, for each call, the state after it and its error if it fails.
use kernelbuild_buildkit.Common.{ℕ, Option, none, some, Bytes, ◌≡◌, refl}

pub data CallError : Type 0 where
  not_exist : CallError
  refused : Bytes → CallError
  -- the tar stream: a header or a body that cannot be read
  bad_stream : CallError

abbrev pub Call : Type 0 → Type 0
Call S = S → S × Option CallError

-- `if err := p; err != nil { return err }`, and then `q`
abbrev pub carry : {S : Type 0} → S × Option CallError → Call S → S × Option CallError
carry (s, none) q = q s
carry (s, some e) q = (s, some e)

infixl 5 ◌>>◌
abbrev pub ◌>>◌ : {S : Type 0} → Call S → Call S → Call S
◌>>◌ p q s = carry (p s) q

pub record Root : Type 1 where
  pub State : Type 0
  pub mkdir_all : Bytes → Call State
  pub remove : Bytes → Call State
  -- OpenFile with O_CREATE, O_EXCL and O_WRONLY and a mode
  pub create : Bytes → ℕ → Call State
  -- Write and Close on the file that `create` has opened under this name
  pub write : Bytes → Bytes → Call State
  pub close : Bytes → Call State
  pub chmod : Bytes → ℕ → Call State
  pub chtimes : Bytes → ℕ → Call State
  pub symlink : Bytes → Bytes → Call State
  pub link : Bytes → Bytes → Call State

-- `err != nil && !os.IsNotExist(err)`
abbrev pub unless_missing : {S : Type 0} → S × Option CallError → S × Option CallError
unless_missing (s, some not_exist) = (s, none)
unless_missing (s, e) = (s, e)

-- The state after a call that succeeds.
abbrev pub ok_state : {S : Type 0} → S × Option CallError → Option S
ok_state (s, none) = some s
ok_state (s, some e) = none

infixl 5 ◌and_then◌
abbrev pub ◌and_then◌ : {S T : Type 0} → Option S → (S → Option T) → Option T
none and_then f = none
some s and_then f = f s

module _ {S : Type 0} where
  pub ok_state-carry :
      (r : S × Option CallError) (q : Call S)
      → ok_state (carry r q) ≡ (ok_state r and_then λ s. ok_state (q s))
  ok_state-carry (s, none) q = refl
  ok_state-carry (s, some e) q = refl

  pub and_then_assoc :
      {T U : Type 0}
      → (o : Option S) (f : S → Option T) (g : T → Option U)
      → (o and_then f and_then g) ≡ (o and_then λ s. (f s and_then g))
  and_then_assoc none f g = refl
  and_then_assoc (some s) f g = refl

  pub and_then-some : (o : Option S) → (o and_then some) ≡ o
  and_then-some none = refl
  and_then-some (some s) = refl

  pub and_then-eq-some :
      {T : Type 0}
      → (o : Option S) (f : S → Option T) {t : T} → (o and_then f) ≡ some t
      → (s : S) × (o ≡ some s) × (f s ≡ some t)
  and_then-eq-some none f h = cc
  and_then-eq-some (some s) f h = (s, refl, h)
