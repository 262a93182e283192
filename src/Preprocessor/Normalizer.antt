-- ===== src/Preprocessor/Normalizer.antt =====
-- src/preprocessor/normalizer.py: domains, hosts and the paths of URIs. The digits of Unicode are an
-- argument.
pub mod Stable
use nt204_r11_antn_nguyen_th.Base.{
  ℕ, suc, Bool, true, false, not, ◌&&◌, ◌||◌, Option, none, some, List, [], ◌∷◌, ◌++◌, any, take,
  drop, if◌then◌else◌, leb, ◌==◌, Text, codes, text_eq, lower, upper, upper_code, strip, heads,
  ends_with, without_last, has_prefix, rfind_char, is_digit, all,
}

unfoldable pub normalize_domain : Text → Text
normalize_domain domain =
    let d = lower (strip domain) in if ends_with b'.' d then without_last d else d

abbrev all_digits : (ℕ → Bool) → Text → Bool
all_digits isdigit [] = false
all_digits isdigit (c ∷ cs) = all isdigit (c ∷ cs)

-- `isdigit` tells the characters that `str.isdigit` takes for digits.
module _ (isdigit : ℕ → Bool) where
  -- The split at the last colon, when a port stands behind it.
  unfoldable pub normalize_named : Text → Text
  normalize_named host = elim (rfind_char b':' host) [
    | none ↦ normalize_domain host
    | some i ↦
        if all_digits isdigit (drop (suc i) host)
        then normalize_domain (take i host) ++ b':' ∷ drop (suc i) host
        else normalize_domain host
  ]

  -- A host that begins with a bracket.
  unfoldable pub normalize_bracketed : Text → Text
  normalize_bracketed host = elim (rfind_char b']' host) [
    | none ↦ normalize_named host
    | some i ↦ b'[' ∷ lower (drop 1 (take i host)) ++ b']' ∷ drop (suc i) host
  ]

  unfoldable pub normalize_host : Text → Text
  normalize_host host =
      let h = strip host in if heads b'[' h then normalize_bracketed h else normalize_named h

abbrev pub is_hex : ℕ → Bool
is_hex c = is_digit c || leb b'A' c && leb c b'F' || leb b'a' c && leb c b'f'

-- `_HEX_PCT_RE` at the head of a text.
unfoldable pub is_escape : ℕ → ℕ → ℕ → Bool
is_escape c h l = c == b'%' && is_hex h && is_hex l

-- `_HEX_PCT_RE.sub(_uppercase_hex, path)`
unfoldable pub uppercase_hex : Text → Text
uppercase_hex [] = []
uppercase_hex (c ∷ []) = c ∷ []
uppercase_hex (c ∷ h ∷ []) = c ∷ h ∷ []
uppercase_hex (c ∷ h ∷ l ∷ cs) = elim (is_escape c h l) [
  | true ↦ c ∷ upper_code h ∷ upper_code l ∷ uppercase_hex cs
  | false ↦ c ∷ uppercase_hex (h ∷ l ∷ cs)
]

abbrev pub valid_starts : List Text
valid_starts =
    codes "http://"
    ∷ codes "https://"
    ∷ codes "ftp://"
    ∷ codes "ws://"
    ∷ codes "wss://"
    ∷ codes "urn:"
    ∷ codes "*"
    ∷ codes "/"
    ∷ []

unfoldable pub has_valid_start : Text → Bool
has_valid_start path = any (λ s. has_prefix s (lower path)) valid_starts

abbrev pub is_connect : Option Text → Bool
is_connect none = false
is_connect (some method) = text_eq (upper method) (codes "CONNECT")

unfoldable pub add_slash : Text → Text
add_slash path = if has_valid_start path then path else b'/' ∷ path

unfoldable pub normalize_uri_path : Text → Option Text → Text
normalize_uri_path [] method = b'/' ∷ []
normalize_uri_path (c ∷ cs) method =
    let path = uppercase_hex (c ∷ cs) in if is_connect method then path else add_slash path
