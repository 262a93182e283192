-- ===== src/Rules/Parser/Specs/Bounds.antt =====
-- src/rules/parser.py: the specifications of `flags` and `dsize` pass the checks of their classes.
use nt204_r11_antn_nguyen_th.Base.{
  ℕ, Bool, true, false, not, ◌||◌, ◌≡◌, refl, Option, none, some, List, [], ◌∷◌, length, any, all,
  ltb, leb, ◌==◌, Text, codes, text_eq, strip, partition, arith, if◌then◌else◌,
}
use nt204_r11_antn_nguyen_th.Models.Rule.{
  FlagsMode, FlagsSpec, flags_spec_ok, is_exact, tcp_flag_names, DsizeOp, eq, lt, gt, range,
  DsizeSpec, dsize_ok, dsize_spec_ok, option_ok,
}
use nt204_r11_antn_nguyen_th.Rules.Syntax.{Result, need, is_given}
use nt204_r11_antn_nguyen_th.Rules.Syntax.Returns.{
  Returns, ok-Returns, err-Returns, raise_if-Returns, cond-Returns, bind-Returns, returned_lem,
  need-ok,
}
use nt204_r11_antn_nguyen_th.Rules.Parser.Tokens.{OptionPair}
use nt204_r11_antn_nguyen_th.Rules.Parser.Ident.{non_negative_int}
use nt204_r11_antn_nguyen_th.Rules.Parser.Specs.{
  bad_flags, flags_mode, flags_spec, parse_flags_value, bad_dsize, span_digits, dsize_parts,
  dsize_spec, parse_dsize_value, single_option, parse_found, parse_option, parse_flags, parse_dsize,
}

abbrev FlagsOk : FlagsSpec → Type 0
FlagsOk s = flags_spec_ok s ≡ true

all_names :
    (letters : Text)
    → any (λ c. not (any (λ g. c == g) tcp_flag_names)) letters ≡ false
    → all (λ f. any (λ g. f == g) tcp_flag_names) letters ≡ true
all_names [] h = refl
all_names (c ∷ cs) h = ground (arith, h, all_names cs)

flags_spec-ok : (mode : FlagsMode) (letters : Text) → Returns FlagsOk (flags_spec mode letters)
unfolding flags_spec
flags_spec-ok mode letters =
    cond-Returns FlagsOk (text_eq letters (codes "0")) _ _
      (raise_if-Returns FlagsOk (not (is_exact mode)) bad_flags _
        (λ e. ok-Returns FlagsOk _ (ground (arith, e))))
      (raise_if-Returns FlagsOk
        (length letters == 0 || any (λ c. not (any (λ g. c == g) tcp_flag_names)) letters) bad_flags
        _ (λ e. ok-Returns FlagsOk _ (ground (arith, e, all_names letters))))

parse_flags_value-ok : (value : Option Text) → Returns FlagsOk (parse_flags_value value)
unfolding parse_flags_value
parse_flags_value-ok none = err-Returns FlagsOk bad_flags
parse_flags_value-ok (some value) =
    let parts = partition b',' value in
    let split = flags_mode parts.before in
    bind-Returns FlagsOk (flags_spec split.0 split.1) _ (λ spec e.
      raise_if-Returns FlagsOk parts.found _ _ (λ f.
        ok-Returns FlagsOk spec (returned_lem FlagsOk _ spec (flags_spec-ok split.0 split.1) e)))

abbrev DsizeOk : DsizeSpec → Type 0
DsizeOk s = dsize_spec_ok s ≡ true

-- Only a range has an upper bound, and it has one.
abbrev is_range : DsizeOp → Bool
is_range range = true
is_range _ = false

abbrev fits : DsizeOp → Option Text → Bool
fits op b = if is_range op then is_given b else not (is_given b)

dsize_parts-fits :
    (front rest : Text) (op : DsizeOp) (a : Text) (b : Option Text)
    → dsize_parts front rest ≡ some (op, a, b)
    → fits op b ≡ true
unfolding dsize_parts
dsize_parts-fits (d ∷ ds) [] op a b h = ground (arith, h)
dsize_parts-fits [] [] op a b h = cc
dsize_parts-fits [] (c ∷ cs) op a b h = ground (arith, h)
dsize_parts-fits (d ∷ ds) (c ∷ cs) op a b h = ground (arith, h)

dsize_ok-fits :
    (op : DsizeOp) (a : ℕ) (b : Option ℕ)
    → (if is_range op then is_given b else not (is_given b)) ≡ true
    → option_ok (leb a) b ≡ true
    → dsize_ok op a b ≡ true
unfolding dsize_ok
dsize_ok-fits range a none h k = h
dsize_ok-fits range a (some b) h k = k
dsize_ok-fits eq a none h k = refl
dsize_ok-fits eq a (some b) h k = h
dsize_ok-fits lt a none h k = refl
dsize_ok-fits lt a (some b) h k = h
dsize_ok-fits gt a none h k = refl
dsize_ok-fits gt a (some b) h k = h

dsize_spec-ok :
    (op : DsizeOp) (a : Option ℕ) (b : Option Text)
    → fits op b ≡ true
    → Returns DsizeOk (dsize_spec op a b)
unfolding dsize_spec dsize_spec_ok
dsize_spec-ok op none b h = err-Returns DsizeOk bad_dsize
dsize_spec-ok op (some a) none h = ok-Returns DsizeOk _ (dsize_ok-fits op a none h refl)
dsize_spec-ok op (some a) (some text) h =
    bind-Returns DsizeOk (need (non_negative_int text) bad_dsize) _ (λ b e.
      raise_if-Returns DsizeOk (ltb b a) bad_dsize _
        (λ f. ok-Returns DsizeOk _ (dsize_ok-fits op a (some b) h (ground (arith, f)))))

parse_dsize_value-ok : (value : Option Text) → Returns DsizeOk (parse_dsize_value value)
unfolding parse_dsize_value
parse_dsize_value-ok none = err-Returns DsizeOk bad_dsize
parse_dsize_value-ok (some value) =
    let split = span_digits (strip value) in
    bind-Returns DsizeOk (need (dsize_parts split.0 split.1) bad_dsize) _ (λ found e.
      dsize_spec-ok found.0 (non_negative_int found.1) found.2 (
        dsize_parts-fits split.0 split.1 found.0 found.1 found.2
          (need-ok (dsize_parts split.0 split.1) bad_dsize found e)))

-- An option that is missing has no specification to check.
parse_found-ok :
    {A : Type 0} (p : A → Bool) (parse : Option Text → Result A) (found : Option (Option Text))
    → ((value : Option Text) → Returns (λ a. p a ≡ true) (parse value))
    → Returns (λ o. option_ok p o ≡ true) (parse_found parse found)
unfolding parse_found
parse_found-ok p parse none h = ok-Returns _ none refl
parse_found-ok p parse (some value) h = bind-Returns _ (parse value) _ (λ spec e.
    ok-Returns _ (some spec) (returned_lem (λ a. p a ≡ true) (parse value) spec (h value) e))

parse_option-ok :
    {A : Type 0} (p : A → Bool) (name : Text) (parse : Option Text → Result A)
    → (options : List OptionPair)
    → ((value : Option Text) → Returns (λ a. p a ≡ true) (parse value))
    → Returns (λ o. option_ok p o ≡ true) (parse_option name parse options)
unfolding parse_option
parse_option-ok p name parse options h =
    bind-Returns _ (single_option name none options) _ (λ found e. parse_found-ok p parse found h)

pub parse_flags-ok :
    (options : List OptionPair)
    → Returns (λ o. option_ok flags_spec_ok o ≡ true) (parse_flags options)
unfolding parse_flags
parse_flags-ok options =
    parse_option-ok flags_spec_ok (codes "flags") _ options parse_flags_value-ok

pub parse_dsize-ok :
    (options : List OptionPair)
    → Returns (λ o. option_ok dsize_spec_ok o ≡ true) (parse_dsize options)
unfolding parse_dsize
parse_dsize-ok options =
    parse_option-ok dsize_spec_ok (codes "dsize") _ options parse_dsize_value-ok
