-- ===== src/Rules/Parser/Specs/Errors.antt =====
-- src/rules/parser.py: the reasons that `flow`, `flags` and `dsize` may be rejected for.
use nt204_r11_antn_nguyen_th.Base.{
  ℕ, true, false, not, ◌||◌, ◌≡◌, refl, Option, none, some, List, [], ◌∷◌, ◌++◌, map, any, ltb,
  length, if◌then◌else◌, Text, codes, text_eq, has_prefix, split_on, strip, partition, arith, ◌==◌,
}
use nt204_r11_antn_nguyen_th.Models.Rule.{FlowSpec, FlagsMode, is_exact, DsizeOp}
use nt204_r11_antn_nguyen_th.Models.RuleReport.{is_valid_reason}
use nt204_r11_antn_nguyen_th.Rules.Syntax.{invalid, unsupported, Result, need}
use nt204_r11_antn_nguyen_th.Rules.Syntax.Errors.{
  is_declared, Raises, ok-Raises, err-Raises, raise_if-Raises, unless-Raises, cond-Raises,
  need-Raises, bind-Raises,
}
use nt204_r11_antn_nguyen_th.Rules.Parser.Tokens.{OptionPair}
use nt204_r11_antn_nguyen_th.Rules.Parser.Ident.{duplicate, non_negative_int}
use nt204_r11_antn_nguyen_th.Rules.Parser.Ident.Errors.{value_declared, duplicate_declared}
use nt204_r11_antn_nguyen_th.Rules.Parser.Specs.{
  is_other, flow_item, bad_flow, other_words, flow_spec, parse_flow_value, bad_flags, flags_mode,
  flags_spec, parse_flags_value, bad_dsize, span_digits, dsize_parts, dsize_spec, parse_dsize_value,
  single_option, parse_found, parse_option, parse_flow, parse_flags, parse_dsize,
}

conflict_declared : is_declared (invalid (codes "conflicting_flow")) ≡ true
unfolding is_valid_reason text_eq
conflict_declared = refl

mask_declared : is_declared (unsupported (codes "flags_mask")) ≡ true
unfolding is_valid_reason text_eq
mask_declared = refl

flow_declared : is_declared bad_flow ≡ true
unfolding bad_flow
flow_declared = value_declared (codes "flow") refl

flags_declared : is_declared bad_flags ≡ true
unfolding bad_flags
flags_declared = value_declared (codes "flags") refl

dsize_declared : is_declared bad_dsize ≡ true
unfolding bad_dsize
dsize_declared = value_declared (codes "dsize") refl

item_declared :
    (i : Text)
    → ltb 0 (length i) ≡ true
    → is_declared (unsupported (codes "flow_option:" ++ i)) ≡ true
unfolding is_valid_reason text_eq has_prefix
item_declared [] h = cc
item_declared (c ∷ cs) h = ground (arith)

-- No word of the list is empty.
abbrev AllFilled : List Text → Type 0
AllFilled items = any (λ i. length i == 0) items ≡ false

other_words-Raises :
    (items : List Text) (m : Result FlowSpec)
    → AllFilled items
    → Raises is_declared m
    → Raises is_declared (other_words items m)
unfolding other_words
other_words-Raises [] m h k = k
other_words-Raises (i ∷ is) m h k =
    cond-Raises is_declared (is_other (flow_item i)) _ _
      (err-Raises _ is_declared _ (item_declared i (ground (arith, h))))
      (other_words-Raises is m (ground (arith, h)) k)

flow_spec-Raises : (items : List Text) → AllFilled items → Raises is_declared (flow_spec items)
unfolding flow_spec
flow_spec-Raises items h =
    raise_if-Raises is_declared _ (invalid (codes "conflicting_flow")) _ (λ e. conflict_declared)
      (other_words-Raises items _ h (ok-Raises is_declared _))

parse_flow_value-Raises : (value : Option Text) → Raises is_declared (parse_flow_value value)
unfolding parse_flow_value
parse_flow_value-Raises none = err-Raises _ is_declared bad_flow flow_declared
parse_flow_value-Raises (some value) =
    let items = map strip (split_on b',' value) in
    unless-Raises is_declared (length (strip value) == 0 || any (λ i. length i == 0) items) bad_flow
      _ flow_declared (λ e. flow_spec-Raises items (ground (arith, e)))

flags_spec-Raises :
    (mode : FlagsMode) (letters : Text) → Raises is_declared (flags_spec mode letters)
unfolding flags_spec
flags_spec-Raises mode letters =
    cond-Raises is_declared (text_eq letters (codes "0")) _ _
      (raise_if-Raises is_declared (not (is_exact mode)) bad_flags _ (λ e. flags_declared)
        (ok-Raises is_declared _))
      (raise_if-Raises is_declared _ bad_flags _ (λ e. flags_declared) (ok-Raises is_declared _))

parse_flags_value-Raises : (value : Option Text) → Raises is_declared (parse_flags_value value)
unfolding parse_flags_value
parse_flags_value-Raises none = err-Raises _ is_declared bad_flags flags_declared
parse_flags_value-Raises (some value) =
    let parts = partition b',' value in
    let split = flags_mode parts.before in
    bind-Raises is_declared (flags_spec split.0 split.1) _ (flags_spec-Raises split.0 split.1)
      (λ spec e.
        raise_if-Raises is_declared parts.found (unsupported (codes "flags_mask")) _
          (λ e. mask_declared) (ok-Raises is_declared spec))

dsize_spec-Raises :
    (op : DsizeOp) (a : Option ℕ) (b : Option Text) → Raises is_declared (dsize_spec op a b)
unfolding dsize_spec
dsize_spec-Raises op none b = err-Raises _ is_declared bad_dsize dsize_declared
dsize_spec-Raises op (some a) none = ok-Raises is_declared _
dsize_spec-Raises op (some a) (some text) =
    bind-Raises is_declared (need (non_negative_int text) bad_dsize) _
      (need-Raises is_declared (non_negative_int text) bad_dsize dsize_declared)
      (λ b e.
        raise_if-Raises is_declared (ltb b a) bad_dsize _ (λ e. dsize_declared)
          (ok-Raises is_declared _))

parse_dsize_value-Raises : (value : Option Text) → Raises is_declared (parse_dsize_value value)
unfolding parse_dsize_value
parse_dsize_value-Raises none = err-Raises _ is_declared bad_dsize dsize_declared
parse_dsize_value-Raises (some value) =
    let split = span_digits (strip value) in
    bind-Raises is_declared (need (dsize_parts split.0 split.1) bad_dsize) _
      (need-Raises is_declared (dsize_parts split.0 split.1) bad_dsize dsize_declared)
      (λ found e. dsize_spec-Raises found.0 (non_negative_int found.1) found.2)

single_option-Raises :
    (name : Text) (found : Option (Option Text)) (os : List OptionPair)
    → ltb 0 (length name) ≡ true
    → Raises is_declared (single_option name found os)
unfolding single_option
single_option-Raises name found [] h = ok-Raises is_declared found
single_option-Raises name found ((key, value) ∷ os) h =
    raise_if-Raises is_declared _ (duplicate name) _ (λ e. duplicate_declared name h)
      (single_option-Raises name (if text_eq key name then some value else found) os h)

parse_found-Raises :
    {A : Type 0} (parse : Option Text → Result A) (found : Option (Option Text))
    → ((value : Option Text) → Raises is_declared (parse value))
    → Raises is_declared (parse_found parse found)
unfolding parse_found
parse_found-Raises parse none k = ok-Raises is_declared none
parse_found-Raises parse (some value) k =
    bind-Raises is_declared (parse value) _ (k value) (λ spec e. ok-Raises is_declared (some spec))

parse_option-Raises :
    {A : Type 0} (name : Text) (parse : Option Text → Result A) (options : List OptionPair)
    → ltb 0 (length name) ≡ true
    → ((value : Option Text) → Raises is_declared (parse value))
    → Raises is_declared (parse_option name parse options)
unfolding parse_option parse_found
parse_option-Raises name parse options h k =
    bind-Raises is_declared (single_option name none options) _
      (single_option-Raises name none options h) (λ found e. parse_found-Raises parse found k)

pub parse_flow-Raises : (options : List OptionPair) → Raises is_declared (parse_flow options)
unfolding parse_flow
parse_flow-Raises options =
    parse_option-Raises (codes "flow") parse_flow_value options refl parse_flow_value-Raises

pub parse_flags-Raises : (options : List OptionPair) → Raises is_declared (parse_flags options)
unfolding parse_flags
parse_flags-Raises options =
    parse_option-Raises (codes "flags") parse_flags_value options refl parse_flags_value-Raises

pub parse_dsize-Raises : (options : List OptionPair) → Raises is_declared (parse_dsize options)
unfolding parse_dsize
parse_dsize-Raises options =
    parse_option-Raises (codes "dsize") parse_dsize_value options refl parse_dsize_value-Raises
