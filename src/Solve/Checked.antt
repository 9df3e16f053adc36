-- ===== src/Solve/Checked.antt =====
-- What `GatewaySolve` has made sure of when it solves a graph.
use kernelbuild_buildkit.Common.{
  Bool, true, false, ◌||◌, List, [], ◌∷◌, ◌++◌, ◌≡◌, refl, sym, ap, subst, arith, Option, none,
  some, Bytes, codes, is_empty, append-nil, contains, cut, if◌then◌else◌, Result, ok, err, ◌>>=◌,
  >>-eq-ok, >>=-eq-ok, Bool-cases, inl, inr,
}
use kernelbuild_buildkit.Graph.{GraphError, graph_of, kernel_llb}
use kernelbuild_buildkit.Graph.Key.{kernel_llb-graph, kernel_llb-valid}
use kernelbuild_buildkit.Graph.Vertices.{Graph}
use kernelbuild_buildkit.Solve.{
  SolveError, unreadable_context, Daemon, wrap_spec, wrap_graph, pinned_ref, context_files,
  has_patch, check_listed, check_files, check_patches, check_context, pin_base, gateway_solve,
}
use kernelbuild_buildkit.Spec.{Spec}
use kernelbuild_buildkit.Spec.Validate.{SpecError, validate}

-- The files of the context that the graph mounts are there.
pub record IsComplete (d : Daemon) (s : Spec) : Type 0 where
  pub config : d.has_file s.config_name ≡ true
  pub expect : (is_empty s.expect_name || d.has_file s.expect_name) ≡ true
  pub proxy_ca : (is_empty s.proxy_ca_file || d.has_file s.proxy_ca_file) ≡ true
  pub patches :
      s.apply_patches ≡ true → (ps : List Bytes) × ((d.patches ≡ some ps) × (has_patch ps ≡ true))

-- The base that the graph has: the one of the Spec, if it has an "@"; otherwise the name that the resolver
-- has found for it, with a digest that is not empty.
pub record IsPinned (d : Daemon) (mode : Bytes) (s p : Spec) : Type 0 where
  pub others : p ≡ record s { base = p.base }
  pub given : contains s.base (codes "@") ≡ true → p.base ≡ s.base
  pub resolved :
      contains s.base (codes "@") ≡ false
      → (found digest : Bytes) × (d.resolve s.base mode ≡ some (found, digest))
        × (is_empty digest ≡ false)
        × (p.base ≡ (cut b'@' found).0 ++ (b'@' ∷ digest))

-- The graph is that of the Spec with such a base, which is valid, over a complete context.
pub record IsSolved (d : Daemon) (sum256 : Bytes → Bytes) (action mode : Bytes) (s : Spec)
    (g : Graph) : Type 0 where
  pub pinned : Spec
  pub pin : IsPinned d mode s pinned
  pub complete : IsComplete d pinned
  pub graph : g ≡ graph_of sum256 action pinned
  pub valid : validate s ≡ ok tt
  pub pinned_valid : validate pinned ≡ ok tt

abbrev given : Spec → Result SolveError Spec
given s = ok s

-- The base that the resolver's answer makes.
IsFound : Option (Bytes × Bytes) → Bytes → Type 0
IsFound o base =
    (found digest : Bytes) × (o ≡ some (found, digest))
    × (is_empty digest ≡ false)
    × (base ≡ (cut b'@' found).0 ++ (b'@' ∷ digest))

pinned_ref-IsFound :
    (ref : Bytes) (o : Option (Bytes × Bytes)) (base : Bytes)
    → pinned_ref ref o ≡ ok base
    → IsFound o base
unfolding IsFound
pinned_ref-IsFound ref none base h = cc
pinned_ref-IsFound ref (some (found, digest)) base h = elim (Bool-cases (is_empty digest)) [
  | inl e ↦ ground arith
  | inr e ↦
      let same : (cut b'@' found).0 ++ (b'@' ∷ digest) ≡ base = ground arith in
      (found, digest, refl, e, sym same)
]

repinned :
    (r : Result SolveError Bytes) (s p : Spec)
    → (r >>= λ base. given (record s { base = base })) ≡ ok p
    → (p ≡ record s { base = p.base }) × (r ≡ ok p.base)
repinned (ok base) s p h =
    let e : record s { base = base } ≡ p = cc in
    subst (λ (x : Spec). (x ≡ record s { base = x.base }) × (given_base base ≡ ok x.base)) e
      (refl, refl)
  where
    given_base : Bytes → Result SolveError Bytes
    given_base b = ok b
repinned (err e) s p h = cc

pin_base-IsPinned :
    (d : Daemon) (mode : Bytes) (s p : Spec) → pin_base d mode s ≡ ok p → IsPinned d mode s p
unfolding pin_base IsFound
pin_base-IsPinned d mode s p h = by_pin (contains s.base (codes "@")) refl h
  where
    by_pin :
        (b : Bool)
        → contains s.base (codes "@") ≡ b
        → (if b
            then given s
            else (pinned_ref s.base (d.resolve s.base mode) >>= λ base.
                given (record s { base = base })))
          ≡ ok p
        → IsPinned d mode s p
    by_pin true e h =
        let q : s ≡ p = cc in
        record {
          others = subst (λ (x : Spec). x ≡ record s { base = x.base }) q refl;
          given = λ _. sym (ap (λ (x : Spec). x.base) q);
          resolved = λ k. cc;
        }
    by_pin false e h =
        let (o, r) = repinned (pinned_ref s.base (d.resolve s.base mode)) s p h in
        record {
          others = o;
          given = λ k. cc;
          resolved = λ k. pinned_ref-IsFound s.base (d.resolve s.base mode) p.base r;
        }

check_files-there :
    (d : Daemon) (key name : Bytes) (fs : List (Bytes × Bytes))
    → check_files d ((key, name) ∷ fs) ≡ ok tt
    → (d.has_file name ≡ true) × (check_files d fs ≡ ok tt)
unfolding check_files
check_files-there d key name fs h = elim (Bool-cases (d.has_file name)) [
  | inl e ↦ (e, ground arith)
  | inr e ↦ ground arith
]

-- A file that is looked for only if it is named.
optional_file :
    (d : Daemon) (key name : Bytes) (fs : List (Bytes × Bytes))
    → check_files d ((if is_empty name then [] else (key, name) ∷ []) ++ fs) ≡ ok tt
    → ((is_empty name || d.has_file name) ≡ true) × (check_files d fs ≡ ok tt)
optional_file d key [] fs h = (refl, h)
optional_file d key (c ∷ name) fs h = check_files-there d key (c ∷ name) fs h

check_listed-has_patch :
    (o : Option (List Bytes))
    → check_listed o ≡ ok tt
    → (ps : List Bytes) × ((o ≡ some ps) × (has_patch ps ≡ true))
check_listed-has_patch none h = cc
check_listed-has_patch (some ps) h = (ps, (refl, ground arith))

check_patches-has_patch :
    (d : Daemon) (s : Spec)
    → check_patches d s ≡ ok tt
    → s.apply_patches ≡ true
    → (ps : List Bytes) × ((d.patches ≡ some ps) × (has_patch ps ≡ true))
unfolding check_patches
check_patches-has_patch d s h e =
    let listed : check_listed d.patches ≡ ok tt = ground arith in
    check_listed-has_patch d.patches listed

check_context-IsComplete : (d : Daemon) (s : Spec) → check_context d s ≡ ok tt → IsComplete d s
unfolding check_context context_files
check_context-IsComplete d s h =
    let (_, rest) = >>-eq-ok (if d.has_context then ok tt else err unreadable_context) _ h in
    let (files, patches) = >>-eq-ok (check_files d (context_files s)) _ rest in
    let (config, named) = check_files-there d (codes "CONFIG") s.config_name _ files in
    let (expect, last) = optional_file d (codes "EXPECT") s.expect_name _ named in
    let ca : check_files d (
          (if is_empty s.proxy_ca_file then [] else (codes "PROXY_CA", s.proxy_ca_file) ∷ []) ++ [])
        ≡ ok tt =
      rw append-nil last in
    let (proxy_ca, _) = optional_file d (codes "PROXY_CA") s.proxy_ca_file [] ca in
    record {
      config = config;
      expect = expect;
      proxy_ca = proxy_ca;
      patches = λ e. check_patches-has_patch d s patches e;
    }

wrap_spec-eq-ok : (r : Result SpecError (Unit {0})) → wrap_spec r ≡ ok tt → r ≡ ok tt
wrap_spec-eq-ok (ok u) h = refl
wrap_spec-eq-ok (err e) h = cc

wrap_graph-eq-ok : (r : Result GraphError Graph) (g : Graph) → wrap_graph r ≡ ok g → r ≡ ok g
wrap_graph-eq-ok (ok g') g h = cc
wrap_graph-eq-ok (err e) g h = cc

-- When `GatewaySolve` solves a graph, the Spec was valid, and the graph is that of a valid Spec which
-- differs from it in the base at most: a base with an "@" is kept as it is, and every other one becomes
-- the name that the resolver has found, with its digest, which is not empty; and the context has the
-- configuration, the expectations and the proxy's certificate where they are named, and a file *.patch
-- if the patches are on.
pub gateway_solve-IsSolved :
    (d : Daemon) (sum256 : Bytes → Bytes) (action mode : Bytes) (s : Spec) (g : Graph)
    → gateway_solve d sum256 action mode s ≡ ok g
    → IsSolved d sum256 action mode s g
unfolding gateway_solve
gateway_solve-IsSolved d sum256 action mode s g h =
    let (valid, rest) = >>-eq-ok (wrap_spec (validate s)) _ h in
    let (p, pinned, rest2) = >>=-eq-ok (pin_base d mode s) _ rest in
    let (context, last) = >>-eq-ok (check_context d p) _ rest2 in
    record {
      pinned = p;
      pin = pin_base-IsPinned d mode s p pinned;
      complete = check_context-IsComplete d p context;
      graph =
          kernel_llb-graph sum256 action p g (wrap_graph-eq-ok (kernel_llb sum256 action p) g last);
      valid = wrap_spec-eq-ok (validate s) valid;
      pinned_valid =
          kernel_llb-valid sum256 action p g (wrap_graph-eq-ok (kernel_llb sum256 action p) g last);
    }
