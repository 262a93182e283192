-- ===== src/Rules/Parser/Ident.antt =====
-- src/rules/parser.py: the identification of a rule, and the keywords of the options.
pub mod Bounds
pub mod Quoted
pub mod Errors
use nt204_r11_antn_nguyen_th.Base.{
  ℕ, zero, suc, ◌-◌, Bool, true, false, not, ◌&&◌, ◌||◌, Option, none, some, List, [], ◌∷◌, ◌++◌,
  length, all, leb, ◌==◌, if◌then◌else◌, Text, codes, text_eq, one_of, heads, ends_with,
  without_last, is_digit, is_ascii_digits, int_of,
}
use nt204_r11_antn_nguyen_th.Rules.Syntax.{
  Reason, invalid, unsupported, Result, ok, err, need, raise_if, ◌>>=◌,
}
use nt204_r11_antn_nguyen_th.Rules.Parser.Tokens.{OptionPair}

abbrev pub identification_keywords : List Text
identification_keywords =
    codes "msg" ∷ codes "sid" ∷ codes "rev" ∷ codes "classtype" ∷ codes "priority" ∷ []

abbrev pub passive_keywords : List Text
passive_keywords = codes "reference" ∷ codes "metadata" ∷ codes "gid" ∷ []

abbrev pub match_keywords : List Text
match_keywords =
    codes "content"
    ∷ codes "nocase"
    ∷ codes "offset"
    ∷ codes "depth"
    ∷ codes "distance"
    ∷ codes "within"
    ∷ codes "flow"
    ∷ codes "flags"
    ∷ codes "dsize"
    ∷ []

abbrev pub supported_keywords : List Text
supported_keywords = identification_keywords ++ passive_keywords ++ match_keywords

unfoldable pub unsupported_keyword : List OptionPair → Option Reason
unsupported_keyword [] = none
unsupported_keyword ((key, value) ∷ os) =
    if one_of key supported_keywords
    then unsupported_keyword os
    else some (unsupported (codes "keyword:" ++ key))

abbrev pub bad_value : Text → Reason
bad_value key = invalid (codes "bad_option_value:" ++ key)

abbrev pub duplicate : Text → Reason
duplicate key = invalid (codes "duplicate_option:" ++ key)

abbrev pub prepend_text : Text → Option Text → Option Text
prepend_text cs none = none
prepend_text cs (some t) = some (cs ++ t)

-- What a backslash and a character stand for.
abbrev pub unescaped : ℕ → Text
unescaped c = if c == b';' || c == b'"' || c == b'\\' then c ∷ [] else b'\\' ∷ c ∷ []

-- The loop of `unquote_string`. `escaped` holds behind a backslash, where the loop takes two
-- characters at once.
unfoldable pub unquote_from : Bool → Text → Option Text
unquote_from true [] = none
unquote_from false [] = some []
unquote_from true (c ∷ cs) = prepend_text (unescaped c) (unquote_from false cs)
unquote_from false (c ∷ cs) =
    let escapes = c == b'\\' in
    let rest = unquote_from escapes cs in
    if escapes then rest else if c == b'"' then none else prepend_text (c ∷ []) rest

-- `value[1:-1]` of a value that starts and ends with a quote.
unfoldable pub quoted_text : Text → Option Text
quoted_text [] = none
quoted_text (c ∷ []) = none
quoted_text (c ∷ d ∷ ds) =
    if c == b'"' && ends_with b'"' (d ∷ ds) then some (without_last (d ∷ ds)) else none

unfoldable pub unquoted : Option Text → Option Text
unquoted none = none
unquoted (some inner) = unquote_from false inner

unfoldable pub unquote_string : Option Text → Option Text
unfolding unquoted
unquote_string none = none
unquote_string (some value) = unquoted (quoted_text value)

abbrev pub max_option_int : ℕ
max_option_int = 0xFFFFFFFF

abbrev at_most : ℕ → ℕ → Option ℕ → Option ℕ
at_most low high none = none
at_most low high (some n) = if leb low n && leb n high then some n else none

-- `_non_negative_int`
unfoldable pub non_negative_int : Text → Option ℕ
non_negative_int text =
    if is_ascii_digits text then at_most 0 max_option_int (int_of text) else none

-- `_positive_int`
unfoldable pub positive_int : Option Text → Option ℕ
positive_int none = none
positive_int (some text) =
    if is_ascii_digits text then at_most 1 max_option_int (int_of text) else none

abbrev is_class_char : ℕ → Bool
is_class_char c =
    leb b'A' c && leb c b'Z' || leb b'a' c && leb c b'z' || is_digit c || c == b'_' || c == b'-'

-- `_CLASSTYPE_RE.fullmatch`
unfoldable pub class_name : Option Text → Option Text
class_name none = none
class_name (some []) = none
class_name (some (c ∷ cs)) = if all is_class_char (c ∷ cs) then some (c ∷ cs) else none

-- The variables of `parse_identification`.
pub record Found : Type 0 where
  pub seen : List Text
  pub msg : Option Text
  pub sid : Option ℕ
  pub rev : ℕ
  pub classtype : Option Text
  pub priority : ℕ
  pub passive : List OptionPair

-- The value of one identification option.
unfoldable pub set_option : Text → Option Text → Found → Result Found
set_option key value f =
    if text_eq key (codes "msg")
    then (do
      t ← need (unquote_string value) (invalid (codes "missing_msg"))
      ok (record f { msg = some t }))
    else if text_eq key (codes "sid")
    then (do
      n ← need (positive_int value) (invalid (codes "bad_sid"))
      ok (record f { sid = some n }))
    else if text_eq key (codes "rev")
    then (do n ← need (positive_int value) (bad_value (codes "rev")); ok (record f { rev = n }))
    else if text_eq key (codes "priority")
    then (do
      n ← need (positive_int value) (bad_value (codes "priority"))
      ok (record f { priority = n }))
    else (do
      t ← need (class_name value) (bad_value (codes "classtype"))
      ok (record f { classtype = some t }))

-- The loop body of `parse_identification`.
unfoldable pub identify : OptionPair → Found → Result Found
identify (key, value) f =
    if one_of key passive_keywords
    then ok (record f { passive = f.passive ++ (key, value) ∷ [] })
    else if not (one_of key identification_keywords)
    then ok f
    else raise_if (one_of key f.seen) (duplicate key)
        (set_option key value (record f { seen = key ∷ f.seen }))

unfoldable pub identify_all : List OptionPair → Found → Result Found
identify_all [] f = ok f
identify_all (o ∷ os) f = do g ← identify o f; identify_all os g

pub record Identification : Type 0 where
  pub msg : Text
  pub sid : ℕ
  pub rev : ℕ
  pub classtype : Option Text
  pub priority : ℕ
  pub passive_options : List OptionPair

unfoldable pub nothing_found : ℕ → Found
nothing_found default_priority = record {
  seen = [];
  msg = none;
  sid = none;
  rev = 1;
  classtype = none;
  priority = default_priority;
  passive = [];
}

unfoldable pub parse_identification : List OptionPair → ℕ → Result Identification
unfolding nothing_found
parse_identification options default_priority = do
  f ← identify_all options (nothing_found default_priority)
  sid ← need f.sid (invalid (codes "missing_sid"))
  msg ← need f.msg (invalid (codes "missing_msg"))
  ok (record {
    msg = msg;
    sid = sid;
    rev = f.rev;
    classtype = f.classtype;
    priority = f.priority;
    passive_options = f.passive;
  })
