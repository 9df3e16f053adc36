-- ===== src/Kernelfile/Similar.antt =====
-- Parser states that agree up to the line numbers noted for the keys, and how entries act on them.
use kernelbuild_buildkit.Common.{
  ℕ, true, List, ◌∷◌, ◌≡◌, ◌≢◌, refl, sym, ap, ◌∙◌, arith, Option, none, some, Bytes, beq_iff, ok,
}
use kernelbuild_buildkit.Spec.{Spec}
use kernelbuild_buildkit.Kernelfile.{Key, kernel, Parser, key_of, seen_on, apply_entry, finish}
use kernelbuild_buildkit.Kernelfile.Order.{
  is_some, accepted, assign, assign_comm, set_key-eq-ok, set_key-accepted, key_of-name,
}

pub record IsSimilar (p q : Parser) : Type 0 where
  pub same_spec : p.spec ≡ q.spec
  pub same_kernel : p.saw_kernel ≡ q.saw_kernel
  pub same_url : p.saw_url ≡ q.saw_url
  pub same_sha : p.saw_sha ≡ q.saw_sha
  pub same_seen : (k : Bytes) → is_some (seen_on k p.seen) ≡ is_some (seen_on k q.seen)

pub IsSimilar-refl : (p : Parser) → IsSimilar p p
IsSimilar-refl p = record {
  same_spec = refl;
  same_kernel = refl;
  same_url = refl;
  same_sha = refl;
  same_seen = λ k. refl;
}

pub IsSimilar-trans : {p q r : Parser} → IsSimilar p q → IsSimilar q r → IsSimilar p r
IsSimilar-trans a b = record {
  same_spec = a.same_spec ∙ b.same_spec;
  same_kernel = a.same_kernel ∙ b.same_kernel;
  same_url = a.same_url ∙ b.same_url;
  same_sha = a.same_sha ∙ b.same_sha;
  same_seen = λ k. a.same_seen k ∙ b.same_seen k;
}

pub finish-IsSimilar : (p q : Parser) → IsSimilar p q → finish p ≡ finish q
unfolding finish
finish-IsSimilar p q a = cc (a.same_spec, a.same_kernel, a.same_url, a.same_sha)

-- The key of an entry is noted with its line.
abbrev pub note : Parser → Bytes → ℕ → Parser
note p key n = record p { seen = (key, n) ∷ p.seen }

assign-seen : (k : Key) (v : Bytes) (p : Parser) → (assign k v p).seen ≡ p.seen
unfolding assign
assign-seen kernel v p = refl
assign-seen _ v p = refl

assign-note :
    (k : Key) (v : Bytes) (p : Parser) (key : Bytes) (n : ℕ)
    → note (assign k v p) key n ≡ assign k v (note p key n)
unfolding assign
assign-note kernel v p key n = refl
assign-note _ v p key n = refl

assign-IsSimilar :
    (k : Key) (v : Bytes) (p q : Parser) → IsSimilar p q → IsSimilar (assign k v p) (assign k v q)
unfolding assign
assign-IsSimilar kernel v p q a = record {
  same_spec = ap (λ (s : Spec). record s { kernel_version = v }) a.same_spec;
  same_kernel = refl;
  same_url = a.same_url;
  same_sha = a.same_sha;
  same_seen = a.same_seen;
}
assign-IsSimilar _ v p q a = record {
  same_spec = cc (a.same_spec);
  same_kernel = cc (a.same_kernel);
  same_url = cc (a.same_url);
  same_sha = cc (a.same_sha);
  same_seen = a.same_seen;
}

note-IsSimilar :
    (p q : Parser) (key : Bytes) (n m : ℕ) → IsSimilar p q → IsSimilar (note p key n) (note q key m)
unfolding seen_on
note-IsSimilar p q key n m a = record {
  same_spec = a.same_spec;
  same_kernel = a.same_kernel;
  same_url = a.same_url;
  same_sha = a.same_sha;
  same_seen = λ k. ground (arith, a.same_seen k);
}

note_swap :
    (p : Parser) (j k : Bytes) (n m : ℕ) → IsSimilar (note (note p j n) k m) (note (note p k m) j n)
unfolding seen_on
note_swap p j k n m = record {
  same_spec = refl;
  same_kernel = refl;
  same_url = refl;
  same_sha = refl;
  same_seen = λ x. ground arith;
}

-- What an entry that is taken shows, and what it leaves.
pub record Taken (key v : Bytes) (n : ℕ) (p q : Parser) : Type 0 where
  pub name : Key
  pub known : key_of key ≡ some name
  pub fresh : seen_on key p.seen ≡ none
  pub value : accepted name v ≡ true
  pub result : q ≡ assign name v (note p key n)

pub apply_entry-Taken :
    (n : ℕ) (key v : Bytes) (p q : Parser) → apply_entry n key v p ≡ ok q → Taken key v n p q
unfolding apply_entry
apply_entry-Taken n key v p q h = by_seen (seen_on key p.seen) refl
  where
    by_key : (o : Option Key) → seen_on key p.seen ≡ none → key_of key ≡ o → Taken key v n p q
    by_key none f e = ground arith
    by_key (some k) f e =
        let (a, r) = set_key-eq-ok k n v (note p key n) {q = q} (ground arith) in
        record { name = k; known = e; fresh = f; value = a; result = r }

    by_seen : (o : Option ℕ) → seen_on key p.seen ≡ o → Taken key v n p q
    by_seen none e = by_key (key_of key) e refl
    by_seen (some first) e = ground arith

take_entry :
    (n : ℕ) (key v : Bytes) (p : Parser) (k : Key)
    → seen_on key p.seen ≡ none
    → key_of key ≡ some k
    → accepted k v ≡ true
    → apply_entry n key v p ≡ ok (assign k v (note p key n))
unfolding apply_entry
take_entry n key v p k f e a = ground (arith, set_key-accepted k n v (note p key n) a)

none_of_similar : (a b : Option ℕ) → is_some a ≡ is_some b → a ≡ none → b ≡ none
none_of_similar a none s e = refl
none_of_similar a (some x) s e = ground arith

-- Similar states take the same entries, whatever the line, and stay similar.
pub apply_entry-IsSimilar :
    (n m : ℕ) (key v : Bytes) (p q p' : Parser)
    → IsSimilar p p'
    → apply_entry n key v p ≡ ok q
    → (q' : Parser) × (apply_entry m key v p' ≡ ok q') × IsSimilar q q'
apply_entry-IsSimilar n m key v p q p' a h =
    let t = apply_entry-Taken n key v p q h in
    let f = none_of_similar _ _ (a.same_seen key) t.fresh in
    (
      assign t.name v (note p' key m),
      take_entry m key v p' t.name f t.known t.value,
      rw (t.result) (assign-IsSimilar t.name v _ _ (note-IsSimilar p p' key n m a)),
    )

seen_on-cons :
    (k j : Bytes) (n : ℕ) (seen : List (Bytes × ℕ))
    → seen_on k ((j, n) ∷ seen) ≡ none
    → (k ≢ j) × (seen_on k seen ≡ none)
unfolding seen_on
seen_on-cons k j n seen h = (λ e. ground (arith, beq_iff k j), ground arith)

seen_on_of :
    (k j : Bytes) (n : ℕ) (seen : List (Bytes × ℕ))
    → k ≢ j
    → seen_on k seen ≡ none
    → seen_on k ((j, n) ∷ seen) ≡ none
unfolding seen_on
seen_on_of k j n seen d h = ground (arith, beq_iff k j)

-- Entries of different names commute, up to the lines.
swapped-IsSimilar :
    (j k : Key) (x y v w : Bytes) (n m : ℕ) (p : Parser)
    → j ≢ k
    → IsSimilar
        (assign k w (note (assign j v (note p x n)) y m))
        (assign j v (note (assign k w (note p y m)) x n))
swapped-IsSimilar j k x y v w n m p d = rw (assign-note j v (note p x n) y m) (
    rw (assign-note k w (note p y m) x n) (
      rw (assign_comm j k v w (note (note p y m) x n) d)
        (assign-IsSimilar k w _ _ (assign-IsSimilar j v _ _ (note_swap p x y n m)))))

-- Two entries that are taken one after the other are taken the other way round.
pub apply_entry_swap :
    (n m : ℕ) (j v k w : Bytes) (p q r : Parser)
    → apply_entry n j v p ≡ ok q
    → apply_entry m k w q ≡ ok r
    → (q' : Parser) × (r' : Parser) × (apply_entry m k w p ≡ ok q')
      × (apply_entry n j v q' ≡ ok r')
      × IsSimilar r r'
apply_entry_swap n m j v k w p q r h₁ h₂ =
    let t = apply_entry-Taken n j v p q h₁ in
    let u = apply_entry-Taken m k w q r h₂ in
    let q_seen : q.seen ≡ (j, n) ∷ p.seen =
      ap (λ (x : Parser). x.seen) t.result ∙ assign-seen t.name v (note p j n) in
    let (k_ne_j, k_fresh) = seen_on-cons k j n p.seen (rw q_seen at u.fresh) in
    let names : t.name ≢ u.name =
      λ e. k_ne_j (cc (key_of-name j t.name t.known, key_of-name k u.name u.known, e)) in
    let q' = assign u.name w (note p k m) in
    let q'_seen : q'.seen ≡ (k, m) ∷ p.seen = assign-seen u.name w (note p k m) in
    let j_fresh : seen_on j q'.seen ≡ none =
      rw q'_seen (seen_on_of j k m p.seen (λ e. k_ne_j (sym e)) t.fresh) in
    (
      q',
      assign t.name v (note q' j n),
      take_entry m k w p u.name k_fresh u.known u.value,
      take_entry n j v q' t.name j_fresh t.known t.value,
      rw (u.result) (rw (t.result) (swapped-IsSimilar t.name u.name j k v w n m p names)),
    )
