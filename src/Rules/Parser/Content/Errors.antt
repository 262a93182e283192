-- ===== src/Rules/Parser/Content/Errors.antt =====
-- src/rules/parser.py: the reasons that the contents may be rejected for.
use nt204_r11_antn_nguyen_th.Base.{
  ℕ, true, ◌≡◌, refl, Option, none, some, List, [], ◌∷◌, ltb, length, Text, codes, text_eq, one_of,
  arith,
}
use nt204_r11_antn_nguyen_th.Models.Rule.{ContentSpec}
use nt204_r11_antn_nguyen_th.Models.RuleReport.{is_valid_reason}
use nt204_r11_antn_nguyen_th.Rules.Syntax.{invalid, unsupported, Result, ok, err, need}
use nt204_r11_antn_nguyen_th.Rules.Syntax.Errors.{
  is_declared, is_declared_unsupported, Raises, ok-Raises, err-Raises, raise_if-Raises, cond-Raises,
  cases-Raises, need-Raises, bind-Raises, set-Raises, raises_option,
}
use nt204_r11_antn_nguyen_th.Rules.Syntax.Returns.{
  Returns, ok-Returns, raise_if-Returns, cond-Returns, bind-Returns, err-Returns, returned_lem,
}
use nt204_r11_antn_nguyen_th.Rules.Parser.Tokens.{OptionPair}
use nt204_r11_antn_nguyen_th.Rules.Parser.Ident.{bad_value, duplicate, non_negative_int}
use nt204_r11_antn_nguyen_th.Rules.Parser.Ident.Errors.{value_declared, duplicate_declared}
use nt204_r11_antn_nguyen_th.Rules.Parser.Decode.{
  bad_content, decode_content, decode_raw, decode_from, in_text, inner_text, is_negated,
}
use nt204_r11_antn_nguyen_th.Rules.Parser.Content.{
  content_modifiers, signed, set_number, set_modifier, Building, Contents, without_first,
  add_decoded, add_content, add_modifier, read_content, read_contents, no_contents,
  parse_contents_full,
}

content_declared : is_declared bad_content ≡ true
content_declared = value_declared (codes "content") refl

decode_raw-Raises : (raw : Text) → Raises is_declared (decode_raw raw)
unfolding decode_raw
decode_raw-Raises raw =
    let P = is_declared in
    bind-Raises P (need (decode_from in_text raw) bad_content) _
      (need-Raises P (decode_from in_text raw) bad_content content_declared)
      (λ bytes h. raise_if-Raises P _ bad_content _ (λ e. content_declared) (ok-Raises P bytes))

decode_content-Raises : (value : Option Text) → Raises is_declared (decode_content value)
unfolding decode_content is_valid_reason text_eq
decode_content-Raises value =
    let P = is_declared in
    raise_if-Raises P (is_negated value) (unsupported (codes "content_negation")) _ (λ e. refl)
      (bind-Raises P (need (inner_text value) bad_content) _
        (need-Raises P (inner_text value) bad_content content_declared)
        (λ raw h.
          bind-Raises P (decode_raw raw) _ (decode_raw-Raises raw)
            (λ pattern h. ok-Raises P (raw, pattern))))

modifier-nonempty : (k : Text) → one_of k content_modifiers ≡ true → ltb 0 (length k) ≡ true
unfolding text_eq
modifier-nonempty [] h = cc
modifier-nonempty (c ∷ cs) h = ground (arith)

set_number-Raises :
    (key : Text) (n : ℕ) (spec : ContentSpec)
    → is_declared (bad_value key) ≡ true
    → Raises is_declared (set_number key n spec)
unfolding set_number
set_number-Raises key n spec h =
    let P = is_declared in
    cond-Raises P (text_eq key (codes "offset")) _ _ (ok-Raises P _) (
      cond-Raises P (text_eq key (codes "depth")) _ _ (ok-Raises P _)
        (raise_if-Raises P (ltb n 1) (bad_value key) _ (λ e. h) (ok-Raises P _)))

set_modifier-Raises :
    (key : Text) (value : Option Text) (spec : ContentSpec)
    → is_declared (bad_value key) ≡ true
    → Raises is_declared (set_modifier key value spec)
unfolding set_modifier
set_modifier-Raises key none spec h =
    let P = is_declared in
    cond-Raises P (text_eq key (codes "nocase")) _ _ (ok-Raises P _)
      (err-Raises _ P (bad_value key) h)
set_modifier-Raises key (some text) spec h =
    let P = is_declared in
    cond-Raises P (text_eq key (codes "nocase")) _ _ (err-Raises _ P (bad_value key) h) (
      cond-Raises P (text_eq key (codes "distance")) _ _
        (set-Raises P (signed text) (bad_value key) _ h)
        (bind-Raises P (need (non_negative_int text) (bad_value key)) _
          (need-Raises P (non_negative_int text) (bad_value key) h)
          (λ n e. set_number-Raises key n spec h)))

add_decoded-Raises :
    (value : Option Text) (c : Contents) (read : Result (Text × List ℕ))
    → Raises is_declared read
    → Raises is_declared (add_decoded value c read)
unfolding add_decoded Raises
add_decoded-Raises value c (ok read) h = tt
add_decoded-Raises value c (err (invalid t)) h = h
add_decoded-Raises value c (err (unsupported t)) h =
    bind-Raises is_declared (decode_content (without_first value)) _
      (decode_content-Raises (without_first value)) (λ read e. tt)

add_modifier-Raises :
    (key : Text) (value : Option Text) (current : Option Building) (c : Contents)
    → ltb 0 (length key) ≡ true
    → Raises is_declared (add_modifier key value current c)
unfolding add_modifier is_valid_reason text_eq
add_modifier-Raises key value none c h = err-Raises _ is_declared _ refl
add_modifier-Raises key value (some b) c h =
    let P = is_declared in
    raise_if-Raises P (one_of key b.seen) (duplicate key) _ (λ e. duplicate_declared key h)
      (bind-Raises P (set_modifier key value b.spec) _
        (set_modifier-Raises key value b.spec (value_declared key h)) (λ spec e. ok-Raises P _))

read_content-Raises : (o : OptionPair) (c : Contents) → Raises is_declared (read_content o c)
unfolding read_content add_content
read_content-Raises (key, value) c =
    let P = is_declared in
    cond-Raises P (text_eq key (codes "content")) _ _
      (add_decoded-Raises value c (decode_content value) (decode_content-Raises value))
      (cases-Raises P (one_of key content_modifiers) _ _
        (λ e. add_modifier-Raises key value c.current c (modifier-nonempty key e))
        (λ e. ok-Raises P c))

read_contents-Raises :
    (os : List OptionPair) (c : Contents) → Raises is_declared (read_contents os c)
unfolding read_contents
read_contents-Raises [] c = ok-Raises is_declared c
read_contents-Raises (o ∷ os) c =
    bind-Raises is_declared (read_content o c) _ (read_content-Raises o c)
      (λ d h. read_contents-Raises os d)

pub parse_contents_full-Raises :
    (options : List OptionPair) → Raises is_declared (parse_contents_full options)
unfolding parse_contents_full
parse_contents_full-Raises options =
    bind-Raises is_declared (read_contents options no_contents) _
      (read_contents-Raises options no_contents) (λ c h. ok-Raises is_declared _)

-- The reason that is kept for a negated content is one of the kind `unsupported`.
abbrev HasNegation : Contents → Type 0
HasNegation c = raises_option is_declared_unsupported c.negation ≡ true

add_decoded-HasNegation :
    (value : Option Text) (c : Contents) (read : Result (Text × List ℕ))
    → Raises is_declared read
    → HasNegation c
    → Returns HasNegation (add_decoded value c read)
unfolding add_decoded Raises Returns
add_decoded-HasNegation value c (ok read) h k = k
add_decoded-HasNegation value c (err (invalid t)) h k = tt
add_decoded-HasNegation value c (err (unsupported t)) h k =
    bind-Returns HasNegation (decode_content (without_first value)) _ (λ read e. h)

add_modifier-HasNegation :
    (key : Text) (value : Option Text) (current : Option Building) (c : Contents)
    → HasNegation c
    → Returns HasNegation (add_modifier key value current c)
unfolding add_modifier
add_modifier-HasNegation key value none c h = err-Returns HasNegation _
add_modifier-HasNegation key value (some b) c h =
    raise_if-Returns HasNegation (one_of key b.seen) (duplicate key) _ (λ e.
      bind-Returns HasNegation (set_modifier key value b.spec) _
        (λ spec e. ok-Returns HasNegation _ h))

read_content-HasNegation :
    (o : OptionPair) (c : Contents) → HasNegation c → Returns HasNegation (read_content o c)
unfolding read_content add_content
read_content-HasNegation (key, value) c h =
    let Q = HasNegation in
    cond-Returns Q (text_eq key (codes "content")) _ _
      (add_decoded-HasNegation value c (decode_content value) (decode_content-Raises value) h)
      (cond-Returns Q (one_of key content_modifiers) _ _
        (add_modifier-HasNegation key value c.current c h) (ok-Returns Q c h))

read_contents-HasNegation :
    (os : List OptionPair) (c : Contents) → HasNegation c → Returns HasNegation (read_contents os c)
unfolding read_contents
read_contents-HasNegation [] c h = ok-Returns HasNegation c h
read_contents-HasNegation (o ∷ os) c h = bind-Returns HasNegation (read_content o c) _ (λ d e.
    read_contents-HasNegation os d
      (returned_lem HasNegation (read_content o c) d (read_content-HasNegation o c h) e))

-- A rule with a negated content is unsupported.
pub parse_contents_full-negation :
    (options : List OptionPair)
    → Returns (λ r. raises_option is_declared_unsupported r.1 ≡ true) (parse_contents_full options)
unfolding parse_contents_full no_contents
parse_contents_full-negation options = bind-Returns _ (read_contents options no_contents) _ (λ c e.
    ok-Returns _ _ (
      returned_lem HasNegation (read_contents options no_contents) c
        (read_contents-HasNegation options no_contents refl) e))
