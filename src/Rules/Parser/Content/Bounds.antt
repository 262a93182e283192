-- ===== src/Rules/Parser/Content/Bounds.antt =====
-- src/rules/parser.py: no content that is built has an empty pattern.
use nt204_r11_antn_nguyen_th.Base.{
  ℕ, Bool, true, ◌&&◌, ◌≡◌, refl, Option, none, some, List, [], ◌∷◌, length, all, all-append, ltb,
  ◌==◌, Text, codes, text_eq, one_of, arith,
}
use nt204_r11_antn_nguyen_th.Models.Rule.{ContentSpec, content_spec_ok, option_ok}
use nt204_r11_antn_nguyen_th.Rules.Syntax.{Result, ok, err, need, invalid, unsupported}
use nt204_r11_antn_nguyen_th.Rules.Syntax.Returns.{
  Returns, ok-Returns, err-Returns, raise_if-Returns, cond-Returns, bind-Returns, set-Returns,
  returned_lem,
}
use nt204_r11_antn_nguyen_th.Rules.Parser.Tokens.{OptionPair}
use nt204_r11_antn_nguyen_th.Rules.Parser.Ident.{bad_value, duplicate, non_negative_int}
use nt204_r11_antn_nguyen_th.Rules.Parser.Decode.{
  bad_content, decode_content, decode_raw, decode_from, in_text, inner_text, is_negated,
}
use nt204_r11_antn_nguyen_th.Rules.Parser.Content.{
  content_modifiers, signed, set_number, set_modifier, Building, Contents, close_content,
  new_content, without_first, add_decoded, add_content, add_modifier, read_content, read_contents,
  no_contents, parse_contents_full,
}

-- What `decode_content` returns is not empty.
abbrev pub Decoded : Text × List ℕ → Type 0
Decoded read = ltb 0 (length read.1) ≡ true

decode_raw-filled : (raw : Text) → Returns (λ bytes. ltb 0 (length bytes) ≡ true) (decode_raw raw)
unfolding decode_raw
decode_raw-filled raw = bind-Returns _ (need (decode_from in_text raw) bad_content) _ (λ bytes h.
    raise_if-Returns _ (length bytes == 0) bad_content _
      (λ e. ok-Returns _ bytes (ground (arith, e))))

pub decode_content-Decoded : (value : Option Text) → Returns Decoded (decode_content value)
unfolding decode_content
decode_content-Decoded value = raise_if-Returns Decoded (is_negated value) _ _ (λ e.
    bind-Returns Decoded (need (inner_text value) bad_content) _ (λ raw h.
      bind-Returns Decoded (decode_raw raw) _ (λ pattern k.
        ok-Returns Decoded (raw, pattern)
          (returned_lem _ (decode_raw raw) pattern (decode_raw-filled raw) k))))

abbrev SpecOk : ContentSpec → Type 0
SpecOk spec = content_spec_ok spec ≡ true

set_number-ok :
    (key : Text) (n : ℕ) (spec : ContentSpec) → SpecOk spec → Returns SpecOk (set_number key n spec)
unfolding set_number
set_number-ok key n spec h =
    cond-Returns SpecOk (text_eq key (codes "offset")) _ _ (ok-Returns SpecOk _ h) (
      cond-Returns SpecOk (text_eq key (codes "depth")) _ _ (ok-Returns SpecOk _ h)
        (raise_if-Returns SpecOk (ltb n 1) (bad_value key) _ (λ e. ok-Returns SpecOk _ h)))

set_modifier-ok :
    (key : Text) (value : Option Text) (spec : ContentSpec)
    → SpecOk spec
    → Returns SpecOk (set_modifier key value spec)
unfolding set_modifier
set_modifier-ok key none spec h =
    cond-Returns SpecOk (text_eq key (codes "nocase")) _ _ (ok-Returns SpecOk _ h)
      (err-Returns SpecOk (bad_value key))
set_modifier-ok key (some text) spec h =
    cond-Returns SpecOk (text_eq key (codes "nocase")) _ _ (err-Returns SpecOk (bad_value key)) (
      cond-Returns SpecOk (text_eq key (codes "distance")) _ _
        (set-Returns SpecOk (signed text) (bad_value key) _ (λ z e. h))
        (bind-Returns SpecOk (need (non_negative_int text) (bad_value key)) _
          (λ n e. set_number-ok key n spec h)))

abbrev contents_ok : Contents → Bool
contents_ok c = all content_spec_ok c.done && option_ok (λ b. content_spec_ok b.spec) c.current

abbrev ContentsOk : Contents → Type 0
ContentsOk c = contents_ok c ≡ true

close_content-ok : (c : Contents) → ContentsOk c → all content_spec_ok (close_content c) ≡ true
unfolding close_content
close_content-ok c h = closed c.current h
  where
    closed :
        (current : Option Building)
        → (all content_spec_ok c.done && option_ok (λ b. content_spec_ok b.spec) current) ≡ true
        → all content_spec_ok (close_content (record c { current = current })) ≡ true
    closed none h = ground (arith, h)
    closed (some b) h =
        all-append content_spec_ok c.done (b.spec ∷ []) (ground (arith, h)) (ground (arith, h))

add_decoded-ok :
    (value : Option Text) (c : Contents) (read : Result (Text × List ℕ))
    → Returns Decoded read
    → ContentsOk c
    → Returns ContentsOk (add_decoded value c read)
unfolding add_decoded Returns new_content
add_decoded-ok value c (ok read) h k = ground (arith, h, close_content-ok c k)
add_decoded-ok value c (err (invalid t)) h k = tt
add_decoded-ok value c (err (unsupported t)) h k =
    bind-Returns ContentsOk (decode_content (without_first value)) _ (λ read e. ground (
      arith,
      close_content-ok c k,
      returned_lem Decoded _ read (decode_content-Decoded (without_first value)) e,
    ))

add_modifier-ok :
    (key : Text) (value : Option Text) (current : Option Building) (c : Contents)
    → c.current ≡ current
    → ContentsOk c
    → Returns ContentsOk (add_modifier key value current c)
unfolding add_modifier
add_modifier-ok key value none c e h = err-Returns ContentsOk _
add_modifier-ok key value (some b) c e h =
    raise_if-Returns ContentsOk (one_of key b.seen) (duplicate key) _ (λ f.
      bind-Returns ContentsOk (set_modifier key value b.spec) _ (λ spec g.
        let s =
          returned_lem SpecOk _ spec (set_modifier-ok key value b.spec (ground (arith, e, h))) g in
        ok-Returns ContentsOk _ (ground (arith, h, s))))

read_content-ok :
    (o : OptionPair) (c : Contents) → ContentsOk c → Returns ContentsOk (read_content o c)
unfolding read_content add_content
read_content-ok (key, value) c h =
    let Q = ContentsOk in
    cond-Returns Q (text_eq key (codes "content")) _ _
      (add_decoded-ok value c (decode_content value) (decode_content-Decoded value) h)
      (cond-Returns Q (one_of key content_modifiers) _ _
        (add_modifier-ok key value c.current c refl h) (ok-Returns Q c h))

read_contents-ok :
    (os : List OptionPair) (c : Contents) → ContentsOk c → Returns ContentsOk (read_contents os c)
unfolding read_contents
read_contents-ok [] c h = ok-Returns ContentsOk c h
read_contents-ok (o ∷ os) c h = bind-Returns ContentsOk (read_content o c) _ (λ d e.
    read_contents-ok os d (returned_lem ContentsOk (read_content o c) d (read_content-ok o c h) e))

-- Every pattern has a byte at least.
pub parse_contents_full-ok :
    (options : List OptionPair)
    → Returns (λ r. all content_spec_ok r.0 ≡ true) (parse_contents_full options)
unfolding parse_contents_full no_contents
parse_contents_full-ok options = bind-Returns _ (read_contents options no_contents) _ (λ c e.
    ok-Returns _ (close_content c, c.negation)
      (close_content-ok c (
        returned_lem ContentsOk (read_contents options no_contents) c
          (read_contents-ok options no_contents refl) e)))
