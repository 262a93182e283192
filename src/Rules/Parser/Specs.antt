-- ===== src/Rules/Parser/Specs.antt =====
-- src/rules/parser.py: the values of `flow`, `flags` and `dsize`.
pub mod Bounds
pub mod Errors
use nt204_r11_antn_nguyen_th.Base.{
  ℕ, zero, suc, ◌-◌, Bool, true, false, not, ◌&&◌, ◌||◌, Option, none, some, List, [], ◌∷◌, ◌++◌,
  map, length, any, all, drop, ltb, leb, ◌==◌, if◌then◌else◌, Text, codes, text_eq, one_of, heads,
  ends_with, without_last, is_digit, is_ascii_digits, strip, lstrip, split_on, Parts, partition,
  has_prefix,
}
use nt204_r11_antn_nguyen_th.Models.Rule.{
  FlowRole, to_server, to_client, FlowStateSpec, established, not_established, FlowSpec, FlagsMode,
  exact, all_of, any_of, none_of, FlagsSpec, tcp_flag_names, is_exact, DsizeOp, eq, lt, gt, range,
  DsizeSpec,
}
use nt204_r11_antn_nguyen_th.Rules.Syntax.{
  Reason, invalid, unsupported, Result, ok, err, need, raise_if, is_given, ◌>>=◌,
}
use nt204_r11_antn_nguyen_th.Rules.Parser.Tokens.{OptionPair}
use nt204_r11_antn_nguyen_th.Rules.Parser.Ident.{bad_value, duplicate, non_negative_int}

-- A word of `flow`, by `_FLOW_ROLES` and `_FLOW_STATES`.
pub data FlowItem : Type 0 where
  role_item : FlowRole → FlowItem
  state_item : FlowStateSpec → FlowItem
  other_item : FlowItem

unfoldable pub flow_item : Text → FlowItem
flow_item t =
    if one_of t (codes "to_server" ∷ codes "from_client" ∷ [])
    then role_item to_server
    else if one_of t (codes "to_client" ∷ codes "from_server" ∷ [])
    then role_item to_client
    else if text_eq t (codes "established")
    then state_item established
    else if text_eq t (codes "not_established")
    then state_item not_established
    else other_item

abbrev names_server : FlowItem → Bool
names_server (role_item to_server) = true
names_server _ = false

abbrev names_client : FlowItem → Bool
names_client (role_item to_client) = true
names_client _ = false

abbrev names_established : FlowItem → Bool
names_established (state_item established) = true
names_established _ = false

abbrev names_not_established : FlowItem → Bool
names_not_established (state_item not_established) = true
names_not_established _ = false

abbrev is_other : FlowItem → Bool
is_other other_item = true
is_other _ = false

-- Whether the set `roles` or `states` has the element.
abbrev pub has_server : List Text → Bool
has_server items = any (λ i. names_server (flow_item i)) items

abbrev pub has_client : List Text → Bool
has_client items = any (λ i. names_client (flow_item i)) items

abbrev pub has_established : List Text → Bool
has_established items = any (λ i. names_established (flow_item i)) items

abbrev pub has_not_established : List Text → Bool
has_not_established items = any (λ i. names_not_established (flow_item i)) items

-- The element of a set of one at most.
abbrev only : {A : Type 0} → Bool → A → Bool → A → Option A
only b x c y = if b then some x else if c then some y else none

unfoldable pub bad_flow : Reason
bad_flow = bad_value (codes "flow")

-- The first word that is in neither table is raised.
unfoldable pub other_words : List Text → Result FlowSpec → Result FlowSpec
other_words [] m = m
other_words (i ∷ is) m =
    if is_other (flow_item i)
    then err (unsupported (codes "flow_option:" ++ i))
    else other_words is m

unfoldable pub flow_spec : List Text → Result FlowSpec
flow_spec items =
    raise_if
      (has_server items && has_client items || has_established items && has_not_established items)
      (invalid (codes "conflicting_flow"))
      (other_words items (
        ok (record {
          role = only (has_server items) to_server (has_client items) to_client;
          state =
              only (has_established items) established (has_not_established items) not_established;
        })))

unfoldable pub parse_flow_value : Option Text → Result FlowSpec
unfolding bad_flow
parse_flow_value none = err bad_flow
parse_flow_value (some value) =
    let items = map strip (split_on b',' value) in
    raise_if (length (strip value) == 0 || any (λ i. length i == 0) items) bad_flow
      (flow_spec items)

unfoldable pub bad_flags : Reason
bad_flags = bad_value (codes "flags")

-- The mode, and the text without its modifier.
unfoldable pub flags_mode : Text → FlagsMode × Text
flags_mode main =
    if heads b'!' main
    then (none_of, drop 1 main)
    else if ends_with b'+' main
    then (all_of, without_last main)
    else if ends_with b'*' main
    then (any_of, without_last main)
    else (exact, main)

-- A set of letters is a text, in which a letter may stand twice.
unfoldable pub flags_spec : FlagsMode → Text → Result FlagsSpec
unfolding bad_flags
flags_spec mode letters =
    if text_eq letters (codes "0")
    then raise_if (not (is_exact mode)) bad_flags (ok (record { mode = mode; flags = [] }))
    else raise_if (length letters == 0 || any (λ c. not (any (λ g. c == g) tcp_flag_names)) letters)
        bad_flags (ok (record { mode = mode; flags = letters }))

unfoldable pub parse_flags_value : Option Text → Result FlagsSpec
unfolding bad_flags
parse_flags_value none = err bad_flags
parse_flags_value (some value) = do
  let parts = partition b',' value
  let (mode, letters) = flags_mode parts.before
  spec ← flags_spec mode letters
  raise_if parts.found (unsupported (codes "flags_mask")) (ok spec)

unfoldable pub bad_dsize : Reason
bad_dsize = bad_value (codes "dsize")

abbrev add_digit : ℕ → Text × Text → Text × Text
add_digit c (ds, rest) = (c ∷ ds, rest)

-- The ASCII digits at the front of a text, and the rest.
unfoldable pub span_digits : Text → Text × Text
span_digits [] = ([], [])
span_digits (c ∷ cs) = if is_digit c then add_digit c (span_digits cs) else ([], c ∷ cs)

-- `[0-9]+` for the whole text.
abbrev digits_only : Text → Option Text
digits_only t = if is_ascii_digits t then some t else none

-- The operator and the digits of `_DSIZE_EQ`, `_DSIZE_CMP` or `_DSIZE_RANGE` in a text that starts
-- with the digits `a`, behind which `rest` stands.
unfoldable pub dsize_parts : Text → Text → Option (DsizeOp × Text × Option Text)
dsize_parts (d ∷ ds) [] = some (eq, d ∷ ds, none)
dsize_parts [] [] = none
dsize_parts [] (c ∷ cs) =
    if c == b'<' || c == b'>'
    then elim (digits_only (lstrip cs)) [
      | none ↦ none
      | some a ↦ some (if c == b'<' then lt else gt, a, none)
    ]
    else none
dsize_parts (d ∷ ds) (c ∷ cs) =
    let rest = lstrip (c ∷ cs) in
    if has_prefix (codes "<>") rest
    then elim (digits_only (lstrip (drop 2 rest))) [
      | none ↦ none
      | some b ↦ some (range, d ∷ ds, some b)
    ]
    else none

-- The numbers, where an upper bound is no less than the lower one.
unfoldable pub dsize_spec : DsizeOp → Option ℕ → Option Text → Result DsizeSpec
unfolding bad_dsize
dsize_spec op none b = err bad_dsize
dsize_spec op (some a) none = ok (record { op = op; a = a; b = none })
dsize_spec op (some a) (some text) = do
  b ← need (non_negative_int text) bad_dsize
  raise_if (ltb b a) bad_dsize (ok (record { op = op; a = a; b = some b }))

unfoldable pub parse_dsize_value : Option Text → Result DsizeSpec
unfolding bad_dsize dsize_spec dsize_parts
parse_dsize_value none = err bad_dsize
parse_dsize_value (some value) = do
  let (front, rest) = span_digits (strip value)
  (op, a, b) ← need (dsize_parts front rest) bad_dsize
  dsize_spec op (non_negative_int a) b

-- `_single_option`: the value, if the option is there; one that stands twice is raised.
unfoldable pub single_option :
    Text → Option (Option Text) → List OptionPair → Result (Option (Option Text))
single_option name found [] = ok found
single_option name found ((key, value) ∷ os) =
    let matches = text_eq key name in
    raise_if (matches && is_given found) (duplicate name)
      (single_option name (if matches then some value else found) os)

-- The parser of an option that may be missing.
unfoldable pub parse_found :
    {A : Type 0} → (Option Text → Result A) → Option (Option Text) → Result (Option A)
parse_found parse none = ok none
parse_found parse (some value) = do spec ← parse value; ok (some spec)

-- `parse_flow`, `parse_flags` and `parse_dsize`
abbrev pub parse_option :
    {A : Type 0} → Text → (Option Text → Result A) → List OptionPair → Result (Option A)
unfolding parse_found
parse_option name parse options = do
  found ← single_option name none options
  parse_found parse found

unfoldable pub parse_flow : List OptionPair → Result (Option FlowSpec)
parse_flow options = parse_option (codes "flow") parse_flow_value options

unfoldable pub parse_flags : List OptionPair → Result (Option FlagsSpec)
parse_flags options = parse_option (codes "flags") parse_flags_value options

unfoldable pub parse_dsize : List OptionPair → Result (Option DsizeSpec)
parse_dsize options = parse_option (codes "dsize") parse_dsize_value options
