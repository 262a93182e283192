-- ===== src/Rules/Parser/Ident/Errors.antt =====
-- src/rules/parser.py: the reasons that the identification of a rule may be rejected for.
use nt204_r11_antn_nguyen_th.Base.{
  ℕ, true, not, ◌≡◌, refl, Option, List, [], ◌∷◌, ◌++◌, ltb, length, Text, codes, text_eq, one_of,
  has_prefix, arith,
}
use nt204_r11_antn_nguyen_th.Models.RuleReport.{is_valid_reason}
use nt204_r11_antn_nguyen_th.Rules.Syntax.{invalid, unsupported, need}
use nt204_r11_antn_nguyen_th.Rules.Syntax.Errors.{
  is_declared_invalid, is_declared_unsupported, Raises, ok-Raises, raise_if-Raises, cond-Raises,
  cases-Raises, need-Raises, bind-Raises, set-Raises,
}
use nt204_r11_antn_nguyen_th.Rules.Parser.Tokens.{OptionPair}
use nt204_r11_antn_nguyen_th.Rules.Parser.Ident.{
  identification_keywords, passive_keywords, bad_value, duplicate, unquote_string, positive_int,
  class_name, Found, set_option, identify, identify_all, nothing_found, parse_identification,
}

-- The value of a code has a character at least.
pub value_declared : (k : Text) → ltb 0 (length k) ≡ true → is_declared_invalid (bad_value k) ≡ true
unfolding is_valid_reason text_eq has_prefix
value_declared [] h = cc
value_declared (c ∷ cs) h = ground (arith)

pub duplicate_declared :
    (k : Text) → ltb 0 (length k) ≡ true → is_declared_invalid (duplicate k) ≡ true
unfolding is_valid_reason text_eq has_prefix
duplicate_declared [] h = cc
duplicate_declared (c ∷ cs) h = ground (arith)

pub keyword_declared :
    (k : Text)
    → ltb 0 (length k) ≡ true
    → is_declared_unsupported (unsupported (codes "keyword:" ++ k)) ≡ true
unfolding is_valid_reason text_eq has_prefix
keyword_declared [] h = cc
keyword_declared (c ∷ cs) h = ground (arith)

identification-nonempty :
    (k : Text) → one_of k identification_keywords ≡ true → ltb 0 (length k) ≡ true
unfolding text_eq
identification-nonempty [] h = cc
identification-nonempty (c ∷ cs) h = ground (arith)

msg_declared : is_declared_invalid (invalid (codes "missing_msg")) ≡ true
unfolding is_valid_reason text_eq
msg_declared = refl

bad_sid_declared : is_declared_invalid (invalid (codes "bad_sid")) ≡ true
unfolding is_valid_reason text_eq
bad_sid_declared = refl

missing_sid_declared : is_declared_invalid (invalid (codes "missing_sid")) ≡ true
unfolding is_valid_reason text_eq
missing_sid_declared = refl

set_option-Raises :
    (key : Text) (value : Option Text) (f : Found)
    → Raises is_declared_invalid (set_option key value f)
unfolding set_option
set_option-Raises key value f =
    let P = is_declared_invalid in
    cond-Raises P (text_eq key (codes "msg")) _ _
      (set-Raises P (unquote_string value) (invalid (codes "missing_msg")) _ msg_declared)
      (cond-Raises P (text_eq key (codes "sid")) _ _
        (set-Raises P (positive_int value) (invalid (codes "bad_sid")) _ bad_sid_declared)
        (cond-Raises P (text_eq key (codes "rev")) _ _
          (set-Raises P (positive_int value) (bad_value (codes "rev")) _
            (value_declared (codes "rev") refl))
          (cond-Raises P (text_eq key (codes "priority")) _ _
            (set-Raises P (positive_int value) (bad_value (codes "priority")) _
              (value_declared (codes "priority") refl))
            (set-Raises P (class_name value) (bad_value (codes "classtype")) _
              (value_declared (codes "classtype") refl)))))

identify-Raises : (o : OptionPair) (f : Found) → Raises is_declared_invalid (identify o f)
unfolding identify
identify-Raises (key, value) f =
    let P = is_declared_invalid in
    cond-Raises P (one_of key passive_keywords) _ _ (ok-Raises P _) (
      cases-Raises P (not (one_of key identification_keywords)) _ _ (λ e. ok-Raises P _)
        (λ e.
          raise_if-Raises P (one_of key f.seen) (duplicate key) _
            (λ d. duplicate_declared key (identification-nonempty key (ground (arith, e))))
            (set_option-Raises key value (record f { seen = key ∷ f.seen }))))

identify_all-Raises :
    (os : List OptionPair) (f : Found) → Raises is_declared_invalid (identify_all os f)
unfolding identify_all
identify_all-Raises [] f = ok-Raises is_declared_invalid f
identify_all-Raises (o ∷ os) f =
    bind-Raises is_declared_invalid (identify o f) _ (identify-Raises o f)
      (λ g h. identify_all-Raises os g)

-- The identification is rejected for an invalid option only.
pub parse_identification-Raises :
    (options : List OptionPair) (priority : ℕ)
    → Raises is_declared_invalid (parse_identification options priority)
unfolding parse_identification
parse_identification-Raises options priority =
    let P = is_declared_invalid in
    bind-Raises P (identify_all options (nothing_found priority)) _ (identify_all-Raises options _)
      (λ f h. bind-Raises P (need f.sid _) _ (need-Raises P f.sid _ missing_sid_declared) (λ sid h.
        bind-Raises P (need f.msg _) _ (need-Raises P f.msg _ msg_declared)
          (λ msg h. ok-Raises P _)))
