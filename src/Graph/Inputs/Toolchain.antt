-- ===== src/Graph/Inputs/Toolchain.antt =====
-- What the vertex of the toolchain (llb.go) tells of the Spec: its script, and the certificate.
use kernelbuild_buildkit.Common.{
  Bool, true, false, List, [], ◌∷◌, ◌≡◌, refl, sym, ap, ◌∙◌, Option, none, some, Bytes, codes, beq,
  beq_iff, is_empty, Bool-cases, inl, inr,
}
use kernelbuild_buildkit.Graph.{toolchain_of}
use kernelbuild_buildkit.Graph.Key.{hashed_option, variable}
use kernelbuild_buildkit.Graph.Scripts.{toolchain_script, ca_only_script}
use kernelbuild_buildkit.Graph.Vertices.{Exec}
use kernelbuild_buildkit.Spec.{Spec}

-- The script of the toolchain, and the file of the certificate, of a vertex that may not be there.
abbrev pub script_of : Option Exec → List Bytes
script_of none = []
script_of (some e) = e.args

abbrev pub ca_file_of : Option Exec → Bytes
ca_file_of none = []
ca_file_of (some e) = variable (codes "CA_FILE") e.env

pub is_empty-eq : (x : Bytes) → is_empty x ≡ true → x ≡ []
is_empty-eq [] h = refl
is_empty-eq (c ∷ x) h = cc

pub ca_file_of-toolchain_of :
    (s : Spec) → ca_file_of (hashed_option (toolchain_of s)) ≡ s.proxy_ca_file
unfolding toolchain_of beq
ca_file_of-toolchain_of s = elim (Bool-cases (is_empty s.proxy_ca_file)) [
  | inl e ↦ elim (Bool-cases s.toolchain_ready) [
    | inl r ↦ rw (e, r) (sym (is_empty-eq s.proxy_ca_file e))
    | inr r ↦ rw (e, r) (sym (is_empty-eq s.proxy_ca_file e))
  ]
  | inr e ↦ elim (Bool-cases s.toolchain_ready) [ inl r ↦ rw (e, r) refl | inr r ↦ rw (e, r) refl ]
]

abbrev shell : Bytes → List Bytes
shell script = codes "bash" ∷ codes "-c" ∷ script ∷ []

-- By whether the toolchain is ready, and whether there is no certificate.
abbrev scripts : Bool → Bool → List Bytes
scripts true true = []
scripts true false = shell ca_only_script
scripts false e = shell toolchain_script

script_of-toolchain_of :
    (s : Spec)
    → script_of (hashed_option (toolchain_of s))
      ≡ scripts s.toolchain_ready (is_empty s.proxy_ca_file)
unfolding toolchain_of
script_of-toolchain_of s = elim (Bool-cases (is_empty s.proxy_ca_file)) [
  | inl e ↦ elim (Bool-cases s.toolchain_ready) [ inl r ↦ rw (e, r) refl | inr r ↦ rw (e, r) refl ]
  | inr e ↦ elim (Bool-cases s.toolchain_ready) [ inl r ↦ rw (e, r) refl | inr r ↦ rw (e, r) refl ]
]

abbrev script_in : List Bytes → Bytes
script_in [] = []
script_in (x ∷ []) = x
script_in (x ∷ y ∷ ys) = script_in (y ∷ ys)

two_scripts : ¬ (ca_only_script ≡ toolchain_script)
two_scripts h =
    let other : beq ca_only_script toolchain_script ≡ false =
      unfold beq ca_only_script toolchain_script in refl in
    let same : beq ca_only_script toolchain_script ≡ true =
      (beq_iff ca_only_script toolchain_script).1 h in
    cc

no_script : ¬ (toolchain_script ≡ [])
unfolding toolchain_script
no_script h = cc

scripts-injective : (r q e f : Bool) → scripts r e ≡ scripts q f → r ≡ q
scripts-injective true true e f h = refl
scripts-injective false false e f h = refl
scripts-injective true false true f h = absurd (no_script (ap script_in (sym h)))
scripts-injective true false false f h = absurd (two_scripts (ap script_in h))
scripts-injective false true e true h = absurd (no_script (ap script_in h))
scripts-injective false true e false h = absurd (two_scripts (ap script_in (sym h)))

pub toolchain-ready :
    (s t : Spec)
    → script_of (hashed_option (toolchain_of s)) ≡ script_of (hashed_option (toolchain_of t))
    → s.toolchain_ready ≡ t.toolchain_ready
toolchain-ready s t h =
    scripts-injective s.toolchain_ready t.toolchain_ready (is_empty s.proxy_ca_file)
      (is_empty t.proxy_ca_file) (sym (script_of-toolchain_of s) ∙ (h ∙ script_of-toolchain_of t))
