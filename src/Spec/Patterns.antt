-- ===== src/Spec/Patterns.antt =====
-- The regular expressions of spec.go, written as they stand there.
use kernelbuild_buildkit.Common.{
  ℕ, Bool, ◌&&◌, ◌||◌, not, ◌==◌, within, is_digit, is_graphic, codes,
}
use kernelbuild_buildkit.Regex.{Regex, class, cat, alt, star, char, literal, plus, optional, repeat}

abbrev pub is_lower : ℕ → Bool
is_lower c = within b'a' b'z' c

-- [A-Za-z0-9]
abbrev pub is_alnum : ℕ → Bool
is_alnum c = within b'A' b'Z' c || is_lower c || is_digit c

-- [A-Za-z0-9._/-]
abbrev pub is_path_byte : ℕ → Bool
is_path_byte c = is_alnum c || c == b'.' || c == b'_' || c == b'/' || c == b'-'

-- [A-Za-z0-9._-]
abbrev pub is_name_byte : ℕ → Bool
is_name_byte c = is_alnum c || c == b'.' || c == b'_' || c == b'-'

-- [A-Za-z0-9._:/@-]
abbrev pub is_ref_byte : ℕ → Bool
is_ref_byte c = is_path_byte c || c == b':' || c == b'@'

-- [A-Za-z0-9._~:/?#@!$&'()*+,;=%[\]-]: the graphic bytes but " < > \ ^ ` { | }
abbrev pub is_url_byte : ℕ → Bool
is_url_byte c =
    is_graphic c
    && not (c == 0x22 || c == 0x3c || c == 0x3e || c == 0x5c || c == 0x5e || c == 0x60)
    && not (c == 0x7b || c == 0x7c || c == 0x7d)

unfoldable pub version_re : Regex
version_re = cat (plus (class is_digit)) (
    cat (char b'.') (
      cat (plus (class is_digit)) (
        cat (optional (cat (char b'.') (plus (class is_digit))))
          (optional (cat (literal (codes "-rc")) (plus (class is_digit)))))))

unfoldable pub file_re : Regex
file_re = cat (class is_alnum) (star (class is_path_byte))

-- `prefixRe` is the same expression as `fileRe`.
unfoldable pub prefix_re : Regex
prefix_re = cat (class is_alnum) (star (class is_path_byte))

-- [0-9a-f]
abbrev pub is_hex_digit : ℕ → Bool
is_hex_digit c = is_digit c || within b'a' b'f' c

unfoldable pub sha256_re : Regex
sha256_re = repeat 64 (class is_hex_digit)

unfoldable pub base_make_re : Regex
base_make_re = cat (class is_alnum) (star (class is_name_byte))

unfoldable pub cross_re : Regex
cross_re = cat (plus (class is_name_byte)) (char b'-')

unfoldable pub epoch_re : Regex
epoch_re = alt (char b'0') (cat (class (within b'1' b'9')) (star (class is_digit)))

unfoldable pub seed_url_re : Regex
seed_url_re = cat (literal (codes "https://")) (plus (class is_url_byte))

unfoldable pub image_ref_re : Regex
image_ref_re = cat (class is_alnum) (star (class is_ref_byte))

unfoldable pub proxy_re : Regex
proxy_re = cat (class is_lower) (
    cat (star (class (λ c. is_lower c || is_digit c || c == b'+' || c == b'.' || c == b'-')))
      (cat (literal (codes "://")) (plus (class is_graphic))))

unfoldable pub no_proxy_re : Regex
no_proxy_re = star (class is_graphic)

unfoldable pub token_re : Regex
token_re = plus (class is_graphic)
