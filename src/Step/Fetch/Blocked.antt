-- ===== src/Step/Fetch/Blocked.antt =====
-- Which addresses the dialer refuses (cmd/kbuild-step/main.go, `downloadClient`), by the groups of 16
-- bits in which an IPv6 address is written; an IPv4 address stands below ::ffff:0:0.
use kernelbuild_buildkit.Common.{
  ℕ, ◌+◌, ◌*◌, ◌/◌, ◌%◌, ◌<◌, ◌==◌, Bool, true, false, ◌&&◌, ◌||◌, List, [], ◌∷◌, ◌++◌, Bytes, beq,
  length, if◌then◌else◌, ◌≡◌, ◌∙◌, refl, sym, arith, Bool-cases, inl, inr,
}
use kernelbuild_buildkit.Step.Fetch.{
  Ip, to4, equal, aws_imds_v6, is_link_local_unicast, is_link_local_multicast, is_refused,
  v4_in_v6_prefix, starts_169_254, starts_224_0_0,
}

-- An address of the resolver: 4 bytes or 16.
pub data IsAddress : Ip → Type 0 where
  v4 : (a b c d : ℕ) → a < 256 → b < 256 → c < 256 → d < 256 → IsAddress (a ∷ b ∷ c ∷ d ∷ [])
  v6 :
      (a b c d e f g h : ℕ) (i j k l m n o p : ℕ)
      → a < 256
      → b < 256
      → c < 256
      → d < 256
      → e < 256
      → f < 256
      → g < 256
      → h < 256
      → i < 256
      → j < 256
      → k < 256
      → l < 256
      → m < 256
      → n < 256
      → o < 256
      → p < 256
      → IsAddress (a ∷ b ∷ c ∷ d ∷ e ∷ f ∷ g ∷ h ∷ i ∷ j ∷ k ∷ l ∷ m ∷ n ∷ o ∷ p ∷ [])

abbrev pub groups : Bytes → List ℕ
groups (a ∷ b ∷ rest) = (a * 256 + b) ∷ groups rest
groups bytes = []

abbrev pub groups_of : Ip → List ℕ
groups_of ip = groups (if length ip == 4 then v4_in_v6_prefix ++ ip else ip)

-- 169.254.0.0/16 or 224.0.0.0/24, by the last two groups
abbrev pub is_blocked_v4 : ℕ → ℕ → Bool
is_blocked_v4 s t = s == 0xa9fe || (s == 0xe000 && t / 256 == 0)

-- ::ffff:0:0/96
abbrev pub is_mapped : List ℕ → Bool
is_mapped (a ∷ b ∷ c ∷ d ∷ e ∷ f ∷ gs) =
    a == 0 && (b == 0 && (c == 0 && (d == 0 && (e == 0 && f == 0xffff))))
is_mapped gs = false

-- fe80::/10, or ffx2::/16
abbrev pub is_local_v6 : ℕ → Bool
is_local_v6 a = a / 64 == 0x3fa || (a / 256 == 0xff && a % 16 == 2)

-- fd00:ec2::254
abbrev pub metadata_v6 : List ℕ
metadata_v6 = 0xfd00 ∷ 0xec2 ∷ 0 ∷ 0 ∷ 0 ∷ 0 ∷ 0 ∷ 0x254 ∷ []

abbrev pub is_blocked : List ℕ → Bool
is_blocked (a ∷ b ∷ c ∷ d ∷ e ∷ f ∷ g ∷ h ∷ []) =
    is_local_v6 a
    || (is_mapped (a ∷ b ∷ c ∷ d ∷ e ∷ f ∷ []) && is_blocked_v4 g h
        || beq (a ∷ b ∷ c ∷ d ∷ e ∷ f ∷ g ∷ h ∷ []) metadata_v6)
is_blocked gs = false

is_refused-v4 :
    (a b c d : ℕ)
    → a < 256
    → b < 256
    → c < 256
    → d < 256
    → is_refused (a ∷ b ∷ c ∷ d ∷ []) ≡ is_blocked (groups_of (a ∷ b ∷ c ∷ d ∷ []))
unfolding is_refused is_link_local_unicast is_link_local_multicast equal to4 beq
is_refused-v4 a b c d p q r s = ground arith

word_eq : (a b c d : ℕ) → b < 256 → d < 256 → (a * 256 + b == c * 256 + d) ≡ (a == c && b == d)
word_eq a b c d p q = ground arith

word_zero : (a b : ℕ) → (a * 256 + b == 0) ≡ (a == 0 && b == 0)
word_zero a b = ground arith

local_word :
    (a b : ℕ)
    → b < 256
    → is_local_v6 (a * 256 + b) ≡ ((a == 0xfe && b / 64 == 2) || (a == 0xff && b % 16 == 2))
local_word a b p = ground arith

v4_words :
    (a b c d : ℕ)
    → a < 256
    → b < 256
    → c < 256
    → d < 256
    → is_blocked_v4 (a * 256 + b) (c * 256 + d)
      ≡ (starts_169_254 (a ∷ b ∷ c ∷ d ∷ []) || starts_224_0_0 (a ∷ b ∷ c ∷ d ∷ []))
v4_words a b c d p q r s = ground arith

mapped_words :
    (a b c d e f g h i j k l : ℕ)
    → l < 256
    → is_mapped (groups (a ∷ b ∷ c ∷ d ∷ e ∷ f ∷ g ∷ h ∷ i ∷ j ∷ k ∷ l ∷ []))
      ≡ beq (a ∷ b ∷ c ∷ d ∷ e ∷ f ∷ g ∷ h ∷ i ∷ j ∷ k ∷ l ∷ []) v4_in_v6_prefix
unfolding beq
mapped_words a b c d e f g h i j k l p =
    rw
      (
        word_zero a b,
        word_zero c d,
        word_zero e f,
        word_zero g h,
        word_zero i j,
        word_eq k l 0xff 0xff p (omega arith),
      )
      (ground arith)

metadata_words :
    (a b c d e f g h i j k l m n o p : ℕ)
    → b < 256
    → d < 256
    → p < 256
    → beq (groups (a ∷ b ∷ c ∷ d ∷ e ∷ f ∷ g ∷ h ∷ i ∷ j ∷ k ∷ l ∷ m ∷ n ∷ o ∷ p ∷ [])) metadata_v6
      ≡ beq (a ∷ b ∷ c ∷ d ∷ e ∷ f ∷ g ∷ h ∷ i ∷ j ∷ k ∷ l ∷ m ∷ n ∷ o ∷ p ∷ []) aws_imds_v6
unfolding beq
metadata_words a b c d e f g h i j k l m n o p q r s =
    rw
      (
        word_eq a b 0xfd 0 q (omega arith),
        word_eq c d 0x0e 0xc2 r (omega arith),
        word_zero e f,
        word_zero g h,
        word_zero i j,
        word_zero k l,
        word_zero m n,
        word_eq o p 0x02 0x54 s (omega arith),
      )
      (ground arith)

first_zero : (a : ℕ) (rest : Bytes) → beq (a ∷ rest) v4_in_v6_prefix ≡ true → a ≡ 0
unfolding beq
first_zero a rest h = ground arith

refused_parts :
    (a b c d e f g h : ℕ) (i j k l m n o p : ℕ)
    → is_refused (a ∷ b ∷ c ∷ d ∷ e ∷ f ∷ g ∷ h ∷ i ∷ j ∷ k ∷ l ∷ m ∷ n ∷ o ∷ p ∷ []) ≡ (
        ((a == 0xfe && b / 64 == 2) || (a == 0xff && b % 16 == 2))
        || (beq (a ∷ b ∷ c ∷ d ∷ e ∷ f ∷ g ∷ h ∷ i ∷ j ∷ k ∷ l ∷ []) v4_in_v6_prefix
              && (starts_169_254 (m ∷ n ∷ o ∷ p ∷ []) || starts_224_0_0 (m ∷ n ∷ o ∷ p ∷ []))
            || beq
                (a ∷ b ∷ c ∷ d ∷ e ∷ f ∷ g ∷ h ∷ i ∷ j ∷ k ∷ l ∷ m ∷ n ∷ o ∷ p ∷ [])
                aws_imds_v6))
unfolding is_refused is_link_local_unicast is_link_local_multicast equal to4
refused_parts a b c d e f g h i j k l m n o p =
    elim (Bool-cases (beq (a ∷ b ∷ c ∷ d ∷ e ∷ f ∷ g ∷ h ∷ i ∷ j ∷ k ∷ l ∷ []) v4_in_v6_prefix)) [
      | inl y ↦
          let z = first_zero a (b ∷ c ∷ d ∷ e ∷ f ∷ g ∷ h ∷ i ∷ j ∷ k ∷ l ∷ []) y in
          rw y (ground arith)
      | inr y ↦ rw y (ground arith)
    ]

is_refused-v6 :
    (a b c d e f g h : ℕ) (i j k l m n o p : ℕ)
    → b < 256
    → d < 256
    → l < 256
    → m < 256
    → n < 256
    → o < 256
    → p < 256
    → is_refused (a ∷ b ∷ c ∷ d ∷ e ∷ f ∷ g ∷ h ∷ i ∷ j ∷ k ∷ l ∷ m ∷ n ∷ o ∷ p ∷ [])
      ≡ is_blocked (groups_of (a ∷ b ∷ c ∷ d ∷ e ∷ f ∷ g ∷ h ∷ i ∷ j ∷ k ∷ l ∷ m ∷ n ∷ o ∷ p ∷ []))
is_refused-v6 a b c d e f g h i j k l m n o p b' d' l' m' n' o' p' =
    refused_parts a b c d e f g h i j k l m n o p
    ∙ sym (
        rw
          (
            local_word a b b',
            mapped_words a b c d e f g h i j k l l',
            v4_words m n o p m' n' o' p',
            metadata_words a b c d e f g h i j k l m n o p b' d' p',
          )
          refl)

-- The dialer refuses an address of 4 or of 16 bytes exactly if its groups say that it is link-local,
-- for one host or for many, an IPv4 address also in its form as an IPv6 one, or that it is the
-- address fd00:ec2::254 of the metadata service.
pub is_refused-is_blocked : (ip : Ip) → IsAddress ip → is_refused ip ≡ is_blocked (groups_of ip)
is_refused-is_blocked _ (v4 a b c d a' b' c' d') = is_refused-v4 a b c d a' b' c' d'
is_refused-is_blocked _
      (v6 a b c d e f g h i j k l m n o p a' b' c' d' e' f' g' h' i' j' k' l' m' n' o' p') =
    is_refused-v6 a b c d e f g h i j k l m n o p b' d' l' m' n' o' p'
