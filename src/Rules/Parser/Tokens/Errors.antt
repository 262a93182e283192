-- ===== src/Rules/Parser/Tokens/Errors.antt =====
-- src/rules/parser.py, `tokenize_rule`: the reasons that it may raise, and the keys that it returns.
use nt204_r11_antn_nguyen_th.Base.{
  ℕ, Bool, true, false, ◌≡◌, refl, Option, none, some, List, [], ◌∷◌, all, ltb, length, ◌==◌, Text,
  text_eq, strip, partition, find_char, rfind_char, arith,
}
use nt204_r11_antn_nguyen_th.Models.RuleReport.{is_valid_reason}
use nt204_r11_antn_nguyen_th.Rules.Syntax.Errors.{
  is_declared_invalid, Raises, ok-Raises, err-Raises, raise_if-Raises, cond-Raises, bind-Raises,
}
use nt204_r11_antn_nguyen_th.Rules.Syntax.Returns.{
  Returns, ok-Returns, err-Returns, raise_if-Returns, cond-Returns, bind-Returns, returned_lem,
}
use nt204_r11_antn_nguyen_th.Rules.Parser.Tokens.{
  OptionPair, bad_header, malformed, read_pieces, read_scanned, scan_options, split_options,
  cut_rule, tokenize_rule,
}
use nt204_r11_antn_nguyen_th.Rules.Parser.Header.Errors.{header_declared}

-- Every option has a key.
abbrev pub all_keyed : List OptionPair → Bool
all_keyed options = all (λ o. ltb 0 (length o.0)) options

abbrev pub Keyed : List OptionPair → Type 0
Keyed options = all_keyed options ≡ true

malformed_declared : is_declared_invalid malformed ≡ true
unfolding malformed is_valid_reason text_eq
malformed_declared = refl

read_pieces-Keyed : (ps : List Text) → Returns Keyed (read_pieces ps)
unfolding read_pieces
read_pieces-Keyed [] = ok-Returns Keyed [] refl
read_pieces-Keyed (p ∷ ps) =
    let key = strip (partition b':' (strip p)).before in
    cond-Returns Keyed (length (strip p) == 0) _ _ (read_pieces-Keyed ps) (
      raise_if-Returns Keyed (length key == 0) malformed _ (λ e.
        bind-Returns Keyed (read_pieces ps) _ (λ os h.
          ok-Returns Keyed _
            (ground (arith, e, returned_lem Keyed (read_pieces ps) os (read_pieces-Keyed ps) h)))))

read_pieces-Raises : (ps : List Text) → Raises is_declared_invalid (read_pieces ps)
unfolding read_pieces
read_pieces-Raises [] = ok-Raises is_declared_invalid []
read_pieces-Raises (p ∷ ps) =
    let rest = read_pieces-Raises ps in
    cond-Raises is_declared_invalid (length (strip p) == 0) _ _ rest (
      raise_if-Raises is_declared_invalid _ malformed _ (λ e. malformed_declared)
        (bind-Raises is_declared_invalid (read_pieces ps) _ rest
          (λ os h. ok-Raises is_declared_invalid _)))

split_options-Raises : (body : Text) → Raises is_declared_invalid (split_options body)
unfolding split_options
split_options-Raises body = scanned (scan_options false false body)
  where
    scanned : (pieces : Option (List Text)) → Raises is_declared_invalid (read_scanned pieces)
    scanned none = err-Raises _ is_declared_invalid malformed malformed_declared
    scanned (some ps) = read_pieces-Raises ps

split_options-Keyed : (body : Text) → Returns Keyed (split_options body)
unfolding split_options
split_options-Keyed body = scanned (scan_options false false body)
  where
    scanned : (pieces : Option (List Text)) → Returns Keyed (read_scanned pieces)
    scanned none = err-Returns Keyed malformed
    scanned (some ps) = read_pieces-Keyed ps

cut_rule-Raises : (text : Text) (i j : Option ℕ) → Raises is_declared_invalid (cut_rule text i j)
unfolding cut_rule
cut_rule-Raises text none j = err-Raises _ is_declared_invalid malformed malformed_declared
cut_rule-Raises text (some i) none = err-Raises _ is_declared_invalid malformed malformed_declared
cut_rule-Raises text (some i) (some j) =
    raise_if-Raises is_declared_invalid _ malformed _ (λ e. malformed_declared)
      (ok-Raises is_declared_invalid _)

-- The reasons of the tokenizer, which are all of the kind `invalid`.
pub tokenize_rule-Raises : (line : Text) → Raises is_declared_invalid (tokenize_rule line)
unfolding tokenize_rule
tokenize_rule-Raises line =
    let text = strip line in
    let cut = cut_rule text (find_char b'(' text) (rfind_char b')' text) in
    bind-Raises is_declared_invalid cut _
      (cut_rule-Raises text (find_char b'(' text) (rfind_char b')' text))
      (λ parts h.
        bind-Raises is_declared_invalid (split_options parts.1) _ (split_options-Raises parts.1)
          (λ options h.
            raise_if-Raises is_declared_invalid _ bad_header _ (λ e. header_declared)
              (ok-Raises is_declared_invalid _)))

-- The options of the tokenizer have keys.
pub tokenize_rule-Keyed : (line : Text) → Returns (λ r. Keyed r.1) (tokenize_rule line)
unfolding tokenize_rule
tokenize_rule-Keyed line =
    let text = strip line in
    let cut = cut_rule text (find_char b'(' text) (rfind_char b')' text) in
    bind-Returns (λ r. Keyed r.1) cut _
      (λ parts h.
        bind-Returns (λ r. Keyed r.1) (split_options parts.1) _
          (λ options h.
            raise_if-Returns (λ r. Keyed r.1) _ bad_header _
              (λ e.
                ok-Returns (λ r. Keyed r.1) _
                  (returned_lem Keyed (split_options parts.1) options (split_options-Keyed parts.1)
                    h))))
