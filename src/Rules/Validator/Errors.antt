-- ===== src/Rules/Validator/Errors.antt =====
-- src/rules/validator.py: the reasons that a rule line may be rejected for.
use nt204_r11_antn_nguyen_th.Base.{
  ℕ, Bool, true, false, ◌≡◌, refl, Option, none, some, List, [], ◌∷◌, ◌++◌, all, all-append, length,
  if◌then◌else◌, Text, codes, text_eq, one_of, has_prefix, Bool-cases, inl, inr, arith,
}
use nt204_r11_antn_nguyen_th.Models.Rule.{ContentSpec, Rule}
use nt204_r11_antn_nguyen_th.Models.RuleReport.{
  is_valid_reason, rejected, is_invalid, parse_result_ok,
}
use nt204_r11_antn_nguyen_th.Rules.Syntax.{
  Reason, invalid, unsupported, kind, reason_text, Result, ok, err, noted, ◌>>=◌,
}
use nt204_r11_antn_nguyen_th.Rules.Syntax.Errors.{
  is_declared, is_declared_invalid, is_declared_unsupported, invalid-declared, unsupported-declared,
  Raises, ok-Raises, err-Raises, raise_first-Raises, bind-Raises, noted-Raises, raises_option,
}
use nt204_r11_antn_nguyen_th.Rules.Syntax.Returns.{Returns}
use nt204_r11_antn_nguyen_th.Rules.Parser.Tokens.{OptionPair, tokenize_rule}
use nt204_r11_antn_nguyen_th.Rules.Parser.Tokens.Errors.{
  Keyed, tokenize_rule-Raises, tokenize_rule-Keyed,
}
use nt204_r11_antn_nguyen_th.Rules.Parser.Header.{Header, parse_header}
use nt204_r11_antn_nguyen_th.Rules.Parser.Header.Errors.{parse_header-Raises}
use nt204_r11_antn_nguyen_th.Rules.Parser.Ident.{
  supported_keywords, parse_identification, Identification, unsupported_keyword,
}
use nt204_r11_antn_nguyen_th.Rules.Parser.Ident.Errors.{
  parse_identification-Raises, keyword_declared,
}
use nt204_r11_antn_nguyen_th.Rules.Parser.Content.{parse_contents_full}
use nt204_r11_antn_nguyen_th.Rules.Parser.Specs.{parse_flow, parse_flags, parse_dsize}
use nt204_r11_antn_nguyen_th.Rules.Parser.Content.Errors.{
  parse_contents_full-Raises, parse_contents_full-negation,
}
use nt204_r11_antn_nguyen_th.Rules.Parser.Specs.Errors.{
  parse_flow-Raises, parse_flags-Raises, parse_dsize-Raises,
}
use nt204_r11_antn_nguyen_th.Rules.Validator.{
  is_short, or_else, content_error, validate_contents, validate_flags_protocol, listed, optional,
  raise_some, judge, judge_rest, RuleParts, build_rule, finished, verdict, internal_error,
  parse_tokens, parse_rule,
}

depth_declared : is_declared (invalid (codes "depth_lt_pattern")) ≡ true
unfolding is_valid_reason text_eq
depth_declared = refl

within_declared : is_declared (invalid (codes "within_lt_pattern")) ≡ true
unfolding is_valid_reason text_eq
within_declared = refl

mixed_declared : is_declared (invalid (codes "mixed_absolute_relative")) ≡ true
unfolding is_valid_reason text_eq
mixed_declared = refl

tcp_declared : is_declared (invalid (codes "flags_requires_tcp")) ≡ true
unfolding is_valid_reason text_eq
tcp_declared = refl

-- The errors across the options are of the kind `invalid`.
option_if :
    (P : Reason → Bool) (b : Bool) (why : Reason) (o : Option Reason)
    → P why ≡ true
    → raises_option P o ≡ true
    → raises_option P (if b then some why else o) ≡ true
option_if P true why o h k = h
option_if P false why o h k = k

content_error-Raises :
    (c : ContentSpec) → raises_option is_declared_invalid (content_error c) ≡ true
unfolding content_error
content_error-Raises c =
    let P = is_declared_invalid in
    option_if P (is_short c.depth (length c.pattern)) _ _ depth_declared (
      option_if P (is_short c.within (length c.pattern)) _ _ within_declared
        (option_if P _ (invalid (codes "mixed_absolute_relative")) none mixed_declared refl))

option-or_else :
    (P : Reason → Bool) (o p : Option Reason)
    → raises_option P o ≡ true
    → raises_option P p ≡ true
    → raises_option P (or_else o p) ≡ true
option-or_else P none p h k = k
option-or_else P (some why) p h k = h

pub validate_contents-Raises :
    (cs : List ContentSpec) → raises_option is_declared_invalid (validate_contents cs) ≡ true
unfolding validate_contents
validate_contents-Raises [] = refl
validate_contents-Raises (c ∷ cs) =
    option-or_else is_declared_invalid (content_error c) _ (content_error-Raises c)
      (validate_contents-Raises cs)

pub validate_flags_protocol-Raises :
    (token : Option Text) (b : Bool)
    → raises_option is_declared_invalid (validate_flags_protocol token b) ≡ true
unfolding validate_flags_protocol
validate_flags_protocol-Raises token b = option_if is_declared_invalid _ _ none tcp_declared refl

pub unsupported_keyword-Raises :
    (options : List OptionPair)
    → Keyed options
    → raises_option is_declared_unsupported (unsupported_keyword options) ≡ true
unfolding unsupported_keyword
unsupported_keyword-Raises [] h = refl
unsupported_keyword-Raises ((key, value) ∷ os) h =
    elim (Bool-cases (one_of key supported_keywords)) [
      | inl e ↦ rw (e) (unsupported_keyword-Raises os (ground (arith, h)))
      | inr e ↦ rw (e) (keyword_declared key (ground (arith, h)))
    ]

listed-declared :
    (o : Option Reason)
    → raises_option is_declared_unsupported o ≡ true
    → all is_declared (listed o) ≡ true
listed-declared none h = refl
listed-declared (some why) h = ground (arith, unsupported-declared why h)

raise_some-Raises :
    {A : Type 0} (o : Option Reason) (m : Result A)
    → raises_option is_declared_invalid o ≡ true
    → Raises is_declared m
    → Raises is_declared (raise_some o m)
unfolding raise_some
raise_some-Raises none m h k = k
raise_some-Raises (some why) m h k = err-Raises _ is_declared why (invalid-declared why h)

optional-Raises : (m : Result Header) → Raises is_declared m → Raises is_declared (optional m)
unfolding optional Raises
optional-Raises (ok h) k = tt
optional-Raises (err why) k = k

weaken-Raises : {A : Type 0} (m : Result A) → Raises is_declared_invalid m → Raises is_declared m
unfolding Raises
weaken-Raises (ok a) h = tt
weaken-Raises (err why) h = invalid-declared why h

-- The contents go on with the reason of a negated one.
noted_contents-Raises :
    {B : Type 0} (m : Result (List ContentSpec × Option Reason)) (us : List Reason)
    → (f : List ContentSpec → List Reason → Result B) → Raises is_declared m
    → Returns (λ r. raises_option is_declared_unsupported r.1 ≡ true) m
    → all is_declared us ≡ true
    → ((cs : List ContentSpec) (vs : List Reason)
        → all is_declared vs ≡ true
        → Raises is_declared (f cs vs))
    → Raises is_declared (noted ([], none) m us >>= λ r. f r.0.0 (r.1 ++ listed r.0.1))
unfolding noted Raises Returns
noted_contents-Raises (ok (cs, o)) us f h k l next =
    next cs (us ++ listed o) (all-append is_declared us _ l (listed-declared o k))
noted_contents-Raises (err (invalid t)) us f h k l next = h
noted_contents-Raises (err (unsupported t)) us f h k l next =
    next [] _ (all-append is_declared _ [] (all-append is_declared us _ l (ground (arith, h))) refl)

judge_rest-Raises :
    (tokens : List Text) (options : List OptionPair) (header : Option Header)
    → (ident : Identification) (contents : List ContentSpec) (us : List Reason) → Keyed options
    → all is_declared us ≡ true
    → Raises is_declared (judge_rest tokens options header ident contents us)
unfolding judge_rest
judge_rest-Raises tokens options header ident contents us keyed h =
    let P = is_declared in
    let keywords = listed-declared _ (unsupported_keyword-Raises options keyed) in
    noted-Raises P none (parse_flow options) us _ (parse_flow-Raises options) h (λ flow us h.
      noted-Raises P none (parse_flags options) us _ (parse_flags-Raises options) h (λ flags us h.
        noted-Raises P none (parse_dsize options) us _ (parse_dsize-Raises options) h (λ dsize us h.
          raise_some-Raises (validate_contents contents) _ (validate_contents-Raises contents) (
            raise_some-Raises _ _ (validate_flags_protocol-Raises _ _)
              (raise_first-Raises P _ _ (all-append P us _ h keywords) (ok-Raises P _))))))

-- The body of `_parse_rule` raises declared reasons only.
pub judge-Raises :
    (tokens : List Text) (options : List OptionPair) (priority : ℕ)
    → Keyed options
    → Raises is_declared (judge tokens options priority)
unfolding judge
judge-Raises tokens options priority keyed =
    let P = is_declared in
    noted-Raises P none (optional (parse_header tokens)) [] _
      (optional-Raises _ (parse_header-Raises tokens)) refl
      (λ header us h.
        bind-Raises P (parse_identification options priority) _
          (weaken-Raises _ (parse_identification-Raises options priority))
          (λ ident e.
            noted_contents-Raises (parse_contents_full options) us
              (judge_rest tokens options header ident) (parse_contents_full-Raises options)
              (parse_contents_full-negation options) h
              (λ contents us h. judge_rest-Raises tokens options header ident contents us keyed h)))

reason-status :
    (why : Reason) (sid : Option ℕ)
    → is_declared why ≡ true
    → parse_result_ok (rejected (kind why) (reason_text why) sid) ≡ true
unfolding parse_result_ok has_prefix
reason-status (invalid t) sid h = ground (arith, h)
reason-status (unsupported t) sid h = ground (arith, h)

finished-parse_result_ok : (rule : Option Rule) → parse_result_ok (finished rule) ≡ true
unfolding finished internal_error parse_result_ok is_valid_reason text_eq has_prefix
finished-parse_result_ok none = refl
finished-parse_result_ok (some rule) = refl

verdict-parse_result_ok :
    (text source_file : Text) (line_no : ℕ) (sid : Option ℕ) (m : Result RuleParts)
    → Raises is_declared m
    → parse_result_ok (verdict text source_file line_no sid m) ≡ true
unfolding verdict Raises
verdict-parse_result_ok text source_file line_no sid (err why) h = reason-status why sid h
verdict-parse_result_ok text source_file line_no sid (ok p) h =
    finished-parse_result_ok (build_rule text source_file line_no p p.header)

invalid-status :
    (why : Reason)
    → is_declared_invalid why ≡ true
    → parse_result_ok (rejected is_invalid (reason_text why) none) ≡ true
invalid-status (invalid t) h = reason-status (invalid t) none h
invalid-status (unsupported t) h = cc

parse_tokens-parse_result_ok :
    (cfg : Option ℕ) (text source_file : Text) (line_no : ℕ)
    → (m : Result (List Text × List OptionPair)) → Raises is_declared_invalid m
    → Returns (λ r. Keyed r.1) m
    → parse_result_ok (parse_tokens cfg text source_file line_no m) ≡ true
unfolding parse_tokens Raises Returns
parse_tokens-parse_result_ok cfg text source_file line_no (err why) h k = invalid-status why h
parse_tokens-parse_result_ok cfg text source_file line_no (ok (tokens, options)) h k =
    verdict-parse_result_ok text source_file line_no _ _ (judge-Raises tokens options _ k)

-- Whatever the line and the configuration, the reason of a rejected rule is a declared code that
-- starts with its status, so that neither `RuleSyntaxError` nor `ParseResult` refuses it.
pub parse_rule-parse_result_ok :
    (cfg : Option ℕ) (text source_file : Text) (line_no : ℕ)
    → parse_result_ok (parse_rule cfg text source_file line_no) ≡ true
unfolding parse_rule
parse_rule-parse_result_ok cfg text source_file line_no =
    parse_tokens-parse_result_ok cfg text source_file line_no (tokenize_rule text)
      (tokenize_rule-Raises text) (tokenize_rule-Keyed text)
