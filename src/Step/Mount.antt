-- ===== src/Step/Mount.antt =====
-- The mount /build as the runner sees it: its top-level entries by name, in the order of their names,
-- which is the order that os.ReadDir lists them in. A directory is an entry like a file; what is
-- in it does not matter here.
use kernelbuild_buildkit.Common.{
  ◌==◌, ltb, Bool, true, false, ◌&&◌, ◌||◌, List, [], ◌∷◌, ◌≡◌, refl, arith, if◌then◌else◌, Option,
  none, some, Bytes, beq, beq_iff,
}

abbrev pub Mount : Type 0
Mount = List (Bytes × Bytes)

-- The order of names, byte by byte.
unfoldable pub name_lt : Bytes → Bytes → Bool
name_lt [] [] = false
name_lt [] (d ∷ t) = true
name_lt (c ∷ s) [] = false
name_lt (c ∷ s) (d ∷ t) = ltb c d || (c == d && name_lt s t)

-- The contents of an entry; `none` if it is not there.
unfoldable pub get : Bytes → Mount → Option Bytes
unfolding beq
get k [] = none
get k ((j, v) ∷ m) = if beq j k then some v else get k m

unfoldable pub put : Bytes → Bytes → Mount → Mount
unfolding beq name_lt
put k v [] = (k, v) ∷ []
put k v ((j, w) ∷ m) =
    if beq j k then (k, v) ∷ m else if name_lt k j then (k, v) ∷ (j, w) ∷ m else (j, w) ∷ put k v m

unfoldable pub delete : Bytes → Mount → Mount
unfolding beq
delete k [] = []
delete k ((j, w) ∷ m) = let rest = delete k m in if beq j k then rest else (j, w) ∷ rest

-- os.ReadDir
unfoldable pub names : Mount → List Bytes
names [] = []
names ((j, w) ∷ m) = j ∷ names m

pub get-put :
    (i k v : Bytes) (m : Mount) → get i (put k v m) ≡ (if beq k i then some v else get i m)
unfolding get put
get-put i k v [] = refl
get-put i k v ((j, w) ∷ m) = ground (arith, beq_iff j k, beq_iff j i, beq_iff k i, get-put i k v m)

pub get-delete :
    (i k : Bytes) (m : Mount) → get i (delete k m) ≡ (if beq k i then none else get i m)
unfolding get delete
get-delete i k [] = ground arith
get-delete i k ((j, w) ∷ m) =
    ground (arith, beq_iff j k, beq_iff j i, beq_iff k i, get-delete i k m)
