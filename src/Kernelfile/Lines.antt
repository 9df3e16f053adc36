-- ===== src/Kernelfile/Lines.antt =====
-- The order of the lines of a Kernelfile does not matter.
use mathlib.Core.List.{Permᴰ}
use mathlib.Core.List.Permᴰ.{nil, cons, swap, trans}
use kernelbuild_buildkit.Common.{
  ℕ, ◌+◌, List, [], ◌∷◌, ◌≡◌, refl, arith, Option, none, some, Bytes, length, leb, Result, ok,
  ◌>>=◌, ◌>>◌, reject, >>=-eq-ok, >>-eq-ok,
}
use kernelbuild_buildkit.Spec.{Spec}
use kernelbuild_buildkit.Kernelfile.{
  Parser, start, apply_entry, apply_option, read_line, parse_line, raw_lines, drop_return, max_line,
  parse_lines, parse_kernelfile, KernelfileError, line_too_long,
}
use kernelbuild_buildkit.Kernelfile.Similar.{
  IsSimilar, IsSimilar-refl, IsSimilar-trans, finish-IsSimilar, apply_entry-IsSimilar,
  apply_entry_swap,
}

abbrev pub Entries : Type 0
Entries = List (Bytes × Bytes)

abbrev add_entry : Option (Bytes × Bytes) → Entries → Entries
add_entry none es = es
add_entry (some e) es = e ∷ es

-- The entries of the lines, in order.
unfoldable pub read_lines : ℕ → List Bytes → Result KernelfileError Entries
read_lines n [] = ok []
read_lines n (l ∷ ls) = do
  reject (leb max_line (length l)) line_too_long
  entry ← read_line n (drop_return l)
  es ← read_lines (n + 1) ls
  ok (add_entry entry es)

-- The entries that a Kernelfile holds.
unfoldable pub entries : Bytes → Result KernelfileError Entries
entries file = read_lines 1 (raw_lines file)

-- The entries of a file, applied in order.
unfoldable pub apply_all : Entries → Parser → Result KernelfileError Parser
apply_all [] p = ok p
apply_all ((key, v) ∷ es) p = do q ← apply_entry 0 key v p; apply_all es q

abbrev pub Leads : Entries → Parser → Parser → Type 0
Leads es p q = (q' : Parser) × (apply_all es p ≡ ok q') × IsSimilar q q'

apply_all-IsSimilar :
    (es : Entries) (p q p' : Parser) → IsSimilar p p' → apply_all es p ≡ ok q → Leads es p' q
unfolding apply_all
apply_all-IsSimilar [] p q p' a h = (p', refl, ground arith)
apply_all-IsSimilar ((key, v) ∷ es) p q p' a h =
    let (p₁, h₁, h₂) = >>=-eq-ok (apply_entry 0 key v p) (apply_all es) h in
    let (p₁', h₁', a₁) = apply_entry-IsSimilar 0 0 key v p p₁ p' a h₁ in
    rw h₁' (apply_all-IsSimilar es p₁ q p₁' a₁ h₂)

apply_all_swap :
    (x y : Bytes × Bytes) (es : Entries) (p q p' : Parser)
    → IsSimilar p p'
    → apply_all (x ∷ y ∷ es) p ≡ ok q
    → Leads (y ∷ x ∷ es) p' q
unfolding apply_all
apply_all_swap x y es p q p' a h =
    let (p₁, h₁, k₁) = >>=-eq-ok (apply_entry 0 x.0 x.1 p) _ h in
    let (p₂, h₂, k₂) = >>=-eq-ok (apply_entry 0 y.0 y.1 p₁) (apply_all es) k₁ in
    let (s₁, s₂, g₁, g₂, b) = apply_entry_swap 0 0 x.0 x.1 y.0 y.1 p p₁ p₂ h₁ h₂ in
    let (r, hr, ar) = apply_all-IsSimilar es p₂ q s₂ b k₂ in
    let whole : apply_all (y ∷ x ∷ es) p ≡ ok r = rw g₁ (rw g₂ hr) in
    let (q', hq, aq) = apply_all-IsSimilar (y ∷ x ∷ es) p r p' a whole in
    (q', hq, IsSimilar-trans ar aq)

apply_all-perm :
    {es fs : Entries}
    → Permᴰ es fs
    → (p q p' : Parser) → IsSimilar p p'
    → apply_all es p ≡ ok q
    → Leads fs p' q
unfolding apply_all
apply_all-perm nil p q p' a h = apply_all-IsSimilar [] p q p' a h
apply_all-perm (cons {a = x} {l₁ = es} e d) p q p' a h =
    let (p₁, h₁, h₂) = >>=-eq-ok (apply_entry 0 x.0 x.1 p) (apply_all es) h in
    let (p₁', h₁', a₁) = apply_entry-IsSimilar 0 0 x.0 x.1 p p₁ p' a h₁ in
    rw (← e) (rw h₁' (apply_all-perm d p₁ q p₁' a₁ h₂))
apply_all-perm (swap {a = x} {b = y} {l = es} e f) p q p' a h =
    rw (← e) (rw (← f) (apply_all_swap x y es p q p' a h))
apply_all-perm (trans d f) p q p' a h =
    let (q₁, h₁, a₁) = apply_all-perm d p q p' a h in
    let (q₂, h₂, a₂) = apply_all-perm f p' q₁ p' (IsSimilar-refl p') h₁ in
    (q₂, h₂, IsSimilar-trans a₁ a₂)

-- The reading of the first line, and of the lines behind it.
record FirstLine (n : ℕ) (l : Bytes) (ls : List Bytes) (es : Entries) : Type 0 where
  entry : Option (Bytes × Bytes)
  rest : Entries
  fits : reject (leb max_line (length l)) line_too_long ≡ ok tt
  reads : read_line n (drop_return l) ≡ ok entry
  reads_rest : read_lines (n + 1) ls ≡ ok rest
  together : add_entry entry rest ≡ es

read_lines-FirstLine :
    (n : ℕ) (l : Bytes) (ls : List Bytes) {es : Entries}
    → read_lines n (l ∷ ls) ≡ ok es
    → FirstLine n l ls es
unfolding read_lines
read_lines-FirstLine n l ls h =
    let (fits, h₁) = >>-eq-ok (reject (leb max_line (length l)) line_too_long) _ h in
    let (entry, reads, h₂) = >>=-eq-ok (read_line n (drop_return l)) _ h₁ in
    let (rest, reads_rest, h₃) = >>=-eq-ok (read_lines (n + 1) ls) _ h₂ in
    record {
      entry = entry;
      rest = rest;
      fits = fits;
      reads = reads;
      reads_rest = reads_rest;
      together = ground arith;
    }

apply_option-Leads :
    (n : ℕ) (entry : Option (Bytes × Bytes)) (es : Entries) (p p₁ q p' : Parser)
    → IsSimilar p p'
    → apply_option n entry p ≡ ok p₁
    → ((r : Parser) → IsSimilar p₁ r → Leads es r q)
    → Leads (add_entry entry es) p' q
unfolding apply_all
apply_option-Leads n none es p p₁ q p' a h k = let e : p ≡ p₁ = ground arith in k p' (rw e at a)
apply_option-Leads n (some (key, v)) es p p₁ q p' a h k =
    let (p₁', h', a₁) = apply_entry-IsSimilar n 0 key v p p₁ p' a h in rw h' (k p₁' a₁)

pub parse_lines-Leads :
    (n : ℕ) (ls : List Bytes) (es : Entries) (p q p' : Parser)
    → IsSimilar p p'
    → read_lines n ls ≡ ok es
    → parse_lines n ls p ≡ ok q
    → Leads es p' q
unfolding parse_lines parse_line
parse_lines-Leads n [] es p q p' a r h =
    apply_all-IsSimilar es p q p' a (unfold apply_all read_lines in ground arith)
parse_lines-Leads n (l ∷ ls) es p q p' a r h =
    let f = read_lines-FirstLine n l ls r in
    let (_, h₁) = >>-eq-ok (reject (leb max_line (length l)) line_too_long) _ h in
    let (p₁, h₂, h₃) = >>=-eq-ok (parse_line n (drop_return l) p) (parse_lines (n + 1) ls) h₁ in
    let taken : apply_option n f.entry p ≡ ok p₁ = rw (f.reads) at h₂ in
    rw (← f.together) (
      apply_option-Leads n f.entry f.rest p p₁ q p' a taken
        (λ s b. parse_lines-Leads (n + 1) ls f.rest p₁ q s b f.reads_rest h₃))

-- The other way: entries that can be applied are lines that can be parsed.
abbrev Parses : ℕ → List Bytes → Parser → Parser → Type 0
Parses n ls p q = (q' : Parser) × (parse_lines n ls p ≡ ok q') × IsSimilar q q'

apply_all-option :
    (n : ℕ) (entry : Option (Bytes × Bytes)) (es : Entries) (p q p' : Parser)
    → IsSimilar p p'
    → apply_all (add_entry entry es) p ≡ ok q
    → (p₁ : Parser) × (p₁' : Parser) × (apply_option n entry p' ≡ ok p₁')
      × (apply_all es p₁ ≡ ok q)
      × IsSimilar p₁ p₁'
unfolding apply_all
apply_all-option n none es p q p' a h = (p, p', refl, h, a)
apply_all-option n (some (key, v)) es p q p' a h =
    let (p₁, h₁, h₂) = >>=-eq-ok (apply_entry 0 key v p) (apply_all es) h in
    let (p₁', h', a₁) = apply_entry-IsSimilar 0 n key v p p₁ p' a h₁ in (p₁, p₁', h', h₂, a₁)

apply_all-Parses :
    (n : ℕ) (ls : List Bytes) (es : Entries) (p q p' : Parser)
    → IsSimilar p p'
    → read_lines n ls ≡ ok es
    → apply_all es p ≡ ok q
    → Parses n ls p' q
unfolding parse_lines parse_line
apply_all-Parses n [] es p q p' a r h = (p', refl, unfold apply_all read_lines in ground arith)
apply_all-Parses n (l ∷ ls) es p q p' a r h =
    let f = read_lines-FirstLine n l ls r in
    let whole : apply_all (add_entry f.entry f.rest) p ≡ ok q = rw (f.together) h in
    let (p₁, p₁', h₁, h₂, a₁) = apply_all-option n f.entry f.rest p q p' a whole in
    rw (f.fits)
      (rw (f.reads) (rw h₁ (apply_all-Parses (n + 1) ls f.rest p₁ q p₁' a₁ f.reads_rest h₂)))

-- Two Kernelfiles that hold the same entries in another order, with whatever comments and blank
-- lines between them, describe the same build.
pub parse_kernelfile-perm :
    (file file' : Bytes) (s t : Spec) (es fs : Entries)
    → entries file ≡ ok es
    → entries file' ≡ ok fs
    → Permᴰ es fs
    → parse_kernelfile file s ≡ ok t
    → parse_kernelfile file' s ≡ ok t
unfolding parse_kernelfile entries
parse_kernelfile-perm file file' s t es fs r r' d h =
    let (q, h₁, h₂) = >>=-eq-ok (parse_lines 1 (raw_lines file) (start s)) _ h in
    let same = IsSimilar-refl (start s) in
    let (q₁, k₁, a₁) = parse_lines-Leads 1 (raw_lines file) es (start s) q (start s) same r h₁ in
    let (q₂, k₂, a₂) = apply_all-perm d (start s) q₁ (start s) same k₁ in
    let (q₃, k₃, a₃) = apply_all-Parses 1 (raw_lines file') fs (start s) q₂ (start s) same r' k₂ in
    let all = IsSimilar-trans a₁ (IsSimilar-trans a₂ a₃) in
    rw k₃ (rw (← finish-IsSimilar q q₃ all) h₂)
