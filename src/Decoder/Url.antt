-- ===== src/Decoder/Url.antt =====
-- src/decoder/url_decoder.py on bytes: percent encoding, URIs and forms.
pub mod Passes
pub mod Written
pub mod Forms
use nt204_r11_antn_nguyen_th.Base.{
  ℕ, zero, suc, ◌+◌, ◌*◌, Bool, true, false, not, ◌&&◌, ◌||◌, Option, none, some, List, [], ◌∷◌,
  ◌++◌, map, any, length, take, drop, ltb, ◌==◌, if◌then◌else◌, Text, codes, text_eq, text_le,
  find_char, split_on, partition, Parts,
}
use nt204_r11_antn_nguyen_th.Rules.Parser.Decode.{hex_value}
use nt204_r11_antn_nguyen_th.Decoder.Charset.{
  DecodeStatus, full, partial_text, failed, skipped, Info, Decoded, decode_bytes,
}

-- The byte that two hex digits stand for.
unfoldable pub hex_pair : ℕ → ℕ → Option ℕ
hex_pair h l = elim (hex_value h) [
  | none ↦ none
  | some m ↦ elim (hex_value l) [ none ↦ none | some n ↦ some (16 * m + n) ]
]

-- The byte behind an escape `%hl` at the head of the bytes.
unfoldable pub escape_at : ℕ → ℕ → ℕ → Option ℕ
escape_at c h l = if c == b'%' then hex_pair h l else none

-- `unquote_to_bytes`: an escape that is malformed stays as it is.
unfoldable pub unquote_to_bytes : List ℕ → List ℕ
unquote_to_bytes [] = []
unquote_to_bytes (c ∷ []) = c ∷ []
unquote_to_bytes (c ∷ h ∷ []) = c ∷ h ∷ []
unquote_to_bytes (c ∷ h ∷ l ∷ bs) = elim (escape_at c h l) [
  | none ↦ c ∷ unquote_to_bytes (h ∷ l ∷ bs)
  | some b ↦ b ∷ unquote_to_bytes bs
]

abbrev pub has_pair : List ℕ → Bool
has_pair [] = false
has_pair (h ∷ []) = false
has_pair (h ∷ l ∷ bs) = elim (hex_pair h l) [ none ↦ false | some b ↦ true ]

-- `_INVALID_PERCENT_RE`
unfoldable pub has_invalid_percent : List ℕ → Bool
has_invalid_percent [] = false
has_invalid_percent (c ∷ bs) = c == b'%' && not (has_pair bs) || has_invalid_percent bs

abbrev pub has_percent : List ℕ → Bool
has_percent bs = any (λ c. c == b'%') bs

-- What the loop of `percent_decode` leaves.
pub record Unquoted : Type 0 where
  pub current_bytes : List ℕ
  pub encodings : List Text
  pub invalid_percent : Bool

abbrev stop_with : List ℕ → Bool → Unquoted
stop_with bs invalid = record { current_bytes = bs; encodings = []; invalid_percent = invalid }

abbrev add_pass : Bool → Unquoted → Unquoted
add_pass invalid p = record p {
  encodings = codes "percent" ∷ p.encodings;
  invalid_percent = invalid || p.invalid_percent;
}

unfoldable pub percent_passes : ℕ → List ℕ → Unquoted
percent_passes zero bs = stop_with bs false
percent_passes (suc passes) bs = elim (has_percent bs) [
  | false ↦ stop_with bs false
  | true ↦ elim (text_eq (unquote_to_bytes bs) bs) [
    | true ↦ stop_with bs (has_invalid_percent bs)
    | false ↦ add_pass (has_invalid_percent bs) (percent_passes passes (unquote_to_bytes bs))
  ]
]

abbrev pub plus_to_space : List ℕ → List ℕ
plus_to_space = map (λ c. if c == b'+' then b' ' else c)

abbrev set_encodings : List Text → Decoded → Decoded
set_encodings [] d = d
set_encodings (e ∷ es) d = record d { info = record d.info { encodings = some (e ∷ es) } }

abbrev downgrade : DecodeStatus → DecodeStatus
downgrade full = partial_text
downgrade status = status

abbrev set_invalid : Bool → Decoded → Decoded
set_invalid false d = d
set_invalid true d = record d {
  status = downgrade d.status;
  info = record d.info { reason = some (codes "invalid_percent_sequence") };
}

unfoldable pub percent_decode : (Text → Option Text) → List ℕ → ℕ → Bool → Option Text → Decoded
percent_decode lookup bytes passes plus_as_space hint =
    let p = percent_passes passes (if plus_as_space then plus_to_space bytes else bytes) in
    set_invalid p.invalid_percent
      (set_encodings p.encodings (decode_bytes lookup p.current_bytes hint false))

-- The `+` behind the first `?`.
unfoldable pub plus_in_query : List ℕ → List ℕ
plus_in_query raw = elim (find_char b'?' raw) [
  | none ↦ raw
  | some start ↦ take (suc start) raw ++ plus_to_space (drop (suc start) raw)
]

unfoldable pub decode_uri : (Text → Option Text) → List ℕ → ℕ → Bool → Decoded
decode_uri lookup uri passes plus_as_space_in_query =
    percent_decode lookup (if plus_as_space_in_query then plus_in_query uri else uri) passes false
      none

-- What `_decode_x_www_form_urlencoded` has collected.
pub record Form : Type 0 where
  pub pairs : List (Text × Text)
  pub overall_status : DecodeStatus
  pub max_encodings : List Text
  pub reasons : List Text
  pub invalid_byte_total : ℕ

-- A set of reasons, in order.
abbrev add_reason : Text → List Text → List Text
add_reason r [] = r ∷ []
add_reason r (s ∷ ss) =
    let rest = add_reason r ss in
    if text_eq r s then s ∷ ss else if text_le r s then r ∷ s ∷ ss else s ∷ rest

abbrev worse : DecodeStatus → DecodeStatus → DecodeStatus
worse overall failed = failed
worse failed partial_text = failed
worse overall partial_text = partial_text
worse overall full = overall
worse overall skipped = overall

abbrev or_empty : Option (List Text) → List Text
or_empty none = []
or_empty (some es) = es

abbrev longer : Option (List Text) → List Text → List Text
longer es most = if ltb (length most) (length (or_empty es)) then or_empty es else most

abbrev collect_reason : Option Text → List Text → List Text
collect_reason none rs = rs
collect_reason (some r) rs = add_reason r rs

abbrev or_none : Option ℕ → ℕ
or_none none = 0
or_none (some n) = n

unfoldable pub aggregate : Decoded → Form → Form
aggregate d f = record f {
  overall_status = worse f.overall_status d.status;
  max_encodings = longer d.info.encodings f.max_encodings;
  reasons = collect_reason d.info.reason f.reasons;
  invalid_byte_total = f.invalid_byte_total + or_none d.info.invalid_byte_count;
}

abbrev add_pair : Text × Text → Form → Form
add_pair p f = record f { pairs = f.pairs ++ p ∷ [] }

abbrev pub new_form : Form
new_form = record {
  pairs = [];
  overall_status = full;
  max_encodings = [];
  reasons = [];
  invalid_byte_total = 0;
}

-- The dictionary of a form; `none` is a key that is not set.
pub record FormResult : Type 0 where
  pub value : List (Text × Text)
  pub status : DecodeStatus
  pub encodings : Option (List Text)
  pub reason : Option Text
  pub invalid_byte_count : Option ℕ

abbrev no_form : FormResult
no_form = record {
  value = [];
  status = skipped;
  encodings = none;
  reason = none;
  invalid_byte_count = none;
}

-- `", ".join(reasons)`
abbrev join : List Text → Text
join [] = []
join (r ∷ []) = r
join (r ∷ s ∷ ss) = r ++ b',' ∷ b' ' ∷ join (s ∷ ss)

abbrev set_if : {A : Type 0} → Bool → A → Option A
set_if true x = some x
set_if false x = none

unfoldable pub form_result : Form → FormResult
form_result f = record {
  value = f.pairs;
  status = f.overall_status;
  encodings = set_if (ltb 0 (length f.max_encodings)) f.max_encodings;
  reason = set_if (ltb 0 (length f.reasons)) (join f.reasons);
  invalid_byte_count = set_if (ltb 0 f.invalid_byte_total) f.invalid_byte_total;
}

module _ (lookup : Text → Option Text) (passes : ℕ) (plus_as_space : Bool)
    (hint : Option Text) where
  unfoldable pub form_pair : List ℕ → Form → Form
  form_pair [] f = f
  form_pair (b ∷ bs) f =
      let parts = partition b'=' (b ∷ bs) in
      let key = percent_decode lookup parts.before passes plus_as_space hint in
      let value = percent_decode lookup parts.after passes plus_as_space hint in
      aggregate value (aggregate key (add_pair (key.text, value.text) f))

  unfoldable pub form_pairs : List (List ℕ) → Form → Form
  form_pairs [] f = f
  form_pairs (p ∷ ps) f = form_pairs ps (form_pair p f)

  -- `_decode_x_www_form_urlencoded`
  unfoldable pub decode_form : List ℕ → FormResult
  decode_form [] = no_form
  decode_form (b ∷ bs) = form_result (form_pairs (split_on b'&' (b ∷ bs)) new_form)
