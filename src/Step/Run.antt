-- ===== src/Step/Run.antt =====
-- How the runner's functions are modelled: each takes the mount and ends with a result, the mount that
-- it leaves, on an error too, and the trail of mounts in between. The trail has the mount after each
-- single change, so it holds every mount that a runner killed midway can leave behind.
use kernelbuild_buildkit.Common.{List, [], ◌∷◌, ◌++◌, Option, Bytes}
use kernelbuild_buildkit.Step.Mount.{Mount, get, put, delete}

pub data StepError : Type 0 where
  no_patches : StepError
  unreadable_source : Bytes → StepError
  bad_local_name : Bytes → StepError
  unsupported_source : Bytes → StepError
  download_failed : StepError
  sha256_mismatch : Bytes → Bytes → StepError
  extract_failed : StepError
  patch_failed : StepError
  seed_pull_failed : StepError
  no_config : StepError
  make_failed : List Bytes → StepError

pub data Outcome (A : Type 0) : Type 0 where
  done : A → Outcome A
  failed : StepError → Outcome A

pub record Run (A : Type 0) : Type 0 where
  pub outcome : Outcome A
  pub mount : Mount
  pub trail : List Mount

abbrev pub M : Type 0 → Type 0
M A = Mount → Run A

abbrev pub after : {B : Type 0} → List Mount → Run B → Run B
after t r = record r { trail = t ++ r.trail }

abbrev pub continue : {A B : Type 0} → Outcome A → Mount → List Mount → (A → M B) → Run B
continue (done a) m t f = after t (f a m)
continue (failed e) m t f = record { outcome = failed e; mount = m; trail = t }

infixl 5 ◌>>=◌ ◌>>◌
abbrev pub ◌>>=◌ : {A B : Type 0} → M A → (A → M B) → M B
◌>>=◌ p f m = let r = p m in continue r.outcome r.mount r.trail f

abbrev pub ◌>>◌ : {B : Type 0} → M (Unit {0}) → M B → M B
p >> q = p >>= λ _. q

abbrev pub return : {A : Type 0} → A → M A
return a m = record { outcome = done a; mount = m; trail = [] }

abbrev pub fail : {A : Type 0} → StepError → M A
fail e m = record { outcome = failed e; mount = m; trail = [] }

abbrev pub read : Bytes → M (Option Bytes)
read name m = return (get name m) m

-- A change of the mount in one step.
abbrev pub change : (Mount → Mount) → M (Unit {0})
change f m = record { outcome = done tt; mount = f m; trail = f m ∷ [] }

abbrev pub write : Bytes → Bytes → M (Unit {0})
write name text = change (put name text)

abbrev pub remove : Bytes → M (Unit {0})
remove name = change (delete name)
