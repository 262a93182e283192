-- ===== src/Rules/Parser/Content.antt =====
-- src/rules/parser.py: `content` and its modifiers.
pub mod Bounds
pub mod Errors
use nt204_r11_antn_nguyen_th.Base.{
  ℕ, zero, suc, ◌+◌, ◌-◌, ◌*◌, ◌/◌, ◌%◌, Bool, true, false, not, ◌&&◌, ◌||◌, Option, none, some,
  List, [], ◌∷◌, ◌++◌, length, drop, ltb, leb, ◌==◌, if◌then◌else◌, Text, codes, text_eq, one_of,
  heads, is_digit, ℤ, pos, negsuc, has_prefix,
}
use nt204_r11_antn_nguyen_th.Models.Rule.{ContentSpec}
use nt204_r11_antn_nguyen_th.Rules.Syntax.{
  Reason, invalid, unsupported, Result, ok, err, need, raise_if, ◌>>=◌,
}
use nt204_r11_antn_nguyen_th.Rules.Parser.Tokens.{OptionPair}
use nt204_r11_antn_nguyen_th.Rules.Parser.Decode.{decode_content}
use nt204_r11_antn_nguyen_th.Rules.Parser.Ident.{
  bad_value, duplicate, quoted_text, unescaped, non_negative_int,
}

abbrev pub content_modifiers : List Text
content_modifiers =
    codes "nocase" ∷ codes "offset" ∷ codes "depth" ∷ codes "distance" ∷ codes "within" ∷ []

-- `-n`
abbrev minus : ℕ → ℤ
minus zero = pos 0
minus (suc n) = negsuc n

-- The integer of `distance`, which may have a sign.
unfoldable pub signed : Text → Option ℤ
signed text =
    if heads b'-' text
    then elim (non_negative_int (drop 1 text)) [ none ↦ none | some n ↦ some (minus n) ]
    else elim (non_negative_int text) [ none ↦ none | some n ↦ some (pos n) ]

-- The modifiers that are not negative.
unfoldable pub set_number : Text → ℕ → ContentSpec → Result ContentSpec
set_number key n spec =
    if text_eq key (codes "offset")
    then ok (record spec { offset = some n })
    else if text_eq key (codes "depth")
    then ok (record spec { depth = some n })
    else raise_if (ltb n 1) (bad_value key) (ok (record spec { within = some n }))

-- `current["mods"][key] = _modifier_value(key, value)`, where the options of a content are fields.
unfoldable pub set_modifier : Text → Option Text → ContentSpec → Result ContentSpec
unfolding signed set_number
set_modifier key none spec =
    if text_eq key (codes "nocase") then ok (record spec { nocase = true }) else err (bad_value key)
set_modifier key (some text) spec =
    if text_eq key (codes "nocase")
    then err (bad_value key)
    else if text_eq key (codes "distance")
    then (do z ← need (signed text) (bad_value key); ok (record spec { distance = some z }))
    else (do n ← need (non_negative_int text) (bad_value key); set_number key n spec)

-- The content that is being built, with the modifiers that it has had.
pub record Building : Type 0 where
  pub spec : ContentSpec
  pub seen : List Text

-- The variables of `parse_contents_full`.
pub record Contents : Type 0 where
  pub done : List ContentSpec
  pub current : Option Building
  pub negation : Option Reason

unfoldable pub close_content : Contents → List ContentSpec
close_content c = elim c.current [ none ↦ c.done | some b ↦ c.done ++ b.spec ∷ [] ]

unfoldable pub new_content : Text × List ℕ → Building
new_content (raw, pattern) = record {
  spec = record {
    raw = raw;
    pattern = pattern;
    nocase = false;
    offset = none;
    depth = none;
    distance = none;
    within = none;
  };
  seen = [];
}

-- `value[1:]` of a value that is not missing.
unfoldable pub without_first : Option Text → Option Text
without_first none = none
without_first (some value) = some (drop 1 value)

-- A `content` option whose value has been decoded; a negated one is read to the end all the same.
unfoldable pub add_decoded : Option Text → Contents → Result (Text × List ℕ) → Result Contents
unfolding new_content without_first
add_decoded value c (ok read) =
    ok (record c { done = close_content c; current = some (new_content read) })
add_decoded value c (err (invalid t)) = err (invalid t)
add_decoded value c (err (unsupported t)) = do
  read ← decode_content (without_first value)
  ok (record {
    done = close_content c;
    current = some (new_content read);
    negation = some (unsupported t);
  })

unfoldable pub add_content : Option Text → Contents → Result Contents
unfolding add_decoded
add_content value c = add_decoded value c (decode_content value)

-- A modifier of the content right before it.
unfoldable pub add_modifier : Text → Option Text → Option Building → Contents → Result Contents
add_modifier key value none c = err (invalid (codes "modifier_without_content"))
add_modifier key value (some b) c = raise_if (one_of key b.seen) (duplicate key) (do
  spec ← set_modifier key value b.spec
  ok (record c { current = some (record { spec = spec; seen = key ∷ b.seen }) }))

-- The loop body of `parse_contents_full`.
unfoldable pub read_content : OptionPair → Contents → Result Contents
unfolding add_content add_modifier
read_content (key, value) c =
    if text_eq key (codes "content")
    then add_content value c
    else if one_of key content_modifiers
    then add_modifier key value c.current c
    else ok c

unfoldable pub read_contents : List OptionPair → Contents → Result Contents
read_contents [] c = ok c
read_contents (o ∷ os) c = do d ← read_content o c; read_contents os d

unfoldable pub no_contents : Contents
no_contents = record { done = []; current = none; negation = none }

-- The contents, and the reason why they are not supported, if one is negated.
unfoldable pub parse_contents_full : List OptionPair → Result (List ContentSpec × Option Reason)
unfolding no_contents
parse_contents_full options = do
  c ← read_contents options no_contents
  ok (close_content c, c.negation)

-- `parse_contents`
unfoldable pub parse_contents : List OptionPair → Result (List ContentSpec)
parse_contents options = do
  (contents, negation) ← parse_contents_full options
  elim negation [ none ↦ ok contents | some why ↦ err why ]
