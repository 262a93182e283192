-- ===== src/Rules/Validator/Verdict.antt =====
-- src/rules/validator.py, `_parse_rule`: which of the problems of a rule line is reported.
use nt204_r11_antn_nguyen_th.Base.{
  ℕ, true, ◌≡◌, refl, ◌∙◌, sym, Option, none, some, List, [], ◌∷◌, ◌++◌, append_assoc, append-nil,
  any, get_elem?, Text, codes, text_eq,
}
use nt204_r11_antn_nguyen_th.Models.Rule.{ContentSpec}
use nt204_r11_antn_nguyen_th.Models.RuleReport.{rejected}
use nt204_r11_antn_nguyen_th.Rules.Syntax.{
  Reason, invalid, unsupported, kind, reason_text, Result, ok, err,
}
use nt204_r11_antn_nguyen_th.Rules.Syntax.Errors.{
  Raises, is_declared_invalid, is_declared_unsupported, raises_option,
}
use nt204_r11_antn_nguyen_th.Rules.Syntax.Returns.{Returns, returned_lem}
use nt204_r11_antn_nguyen_th.Rules.Syntax.Outcome.{
  problem, value_or, outcome, outcome_after, unsupporteds, noted_lem, bind-outcome, raise_first_lem,
}
use nt204_r11_antn_nguyen_th.Rules.Parser.Tokens.{OptionPair, tokenize_rule}
use nt204_r11_antn_nguyen_th.Rules.Parser.Header.{Header, parse_header}
use nt204_r11_antn_nguyen_th.Rules.Parser.Ident.{
  Identification, parse_identification, unsupported_keyword,
}
use nt204_r11_antn_nguyen_th.Rules.Parser.Ident.Errors.{parse_identification-Raises}
use nt204_r11_antn_nguyen_th.Rules.Parser.Content.{parse_contents_full}
use nt204_r11_antn_nguyen_th.Rules.Parser.Content.Errors.{parse_contents_full-negation}
use nt204_r11_antn_nguyen_th.Rules.Parser.Specs.{parse_flow, parse_flags, parse_dsize}
use nt204_r11_antn_nguyen_th.Rules.Validator.{
  validate_contents, validate_flags_protocol, listed, optional, raise_some, judge, judge_rest,
  configured_priority, best_effort_sid, verdict, parse_tokens, parse_rule,
}
use nt204_r11_antn_nguyen_th.Rules.Parser.Tokens.Errors.{Keyed, tokenize_rule-Keyed}
use nt204_r11_antn_nguyen_th.Rules.Validator.Errors.{
  validate_contents-Raises, validate_flags_protocol-Raises, unsupported_keyword-Raises,
}

-- The problems behind the contents, in the order in which the source documents them.
abbrev pub rest_problems : List Text → List OptionPair → List ContentSpec → List (Option Reason)
rest_problems tokens options contents =
    problem (parse_flow options)
    ∷ problem (parse_flags options)
    ∷ problem (parse_dsize options)
    ∷ validate_contents contents
    ∷ validate_flags_protocol (get_elem? tokens 1) (any (λ o. text_eq o.0 (codes "flags")) options)
    ∷ unsupported_keyword options
    ∷ []

-- The problems of all parts of a rule line, each of which is read whatever the others say.
abbrev pub problems : List Text → List OptionPair → ℕ → List (Option Reason)
problems tokens options priority =
    problem (parse_header tokens)
    ∷ problem (parse_identification options priority)
    ∷ problem (parse_contents_full options)
    ∷ (value_or ([], none) (parse_contents_full options)).1
    ∷ rest_problems tokens options (value_or ([], none) (parse_contents_full options)).0

listed_lem :
    (o : Option Reason) (us : List Reason) (ps : List (Option Reason))
    → raises_option is_declared_unsupported o ≡ true
    → outcome_after (us ++ listed o) ps ≡ outcome_after us (o ∷ ps)
listed_lem none us ps h = rw (append-nil us) refl
listed_lem (some (invalid t)) us ps h = cc
listed_lem (some (unsupported t)) us ps h =
    rw (append_assoc us (unsupported t ∷ []) (unsupporteds ps)) refl

raise_some_lem :
    {A : Type 0} (o : Option Reason) (us : List Reason) (m : Result A) (ps : List (Option Reason))
    → raises_option is_declared_invalid o ≡ true
    → problem m ≡ outcome_after us ps
    → problem (raise_some o m) ≡ outcome_after us (o ∷ ps)
unfolding raise_some
raise_some_lem none us m ps h k = k
raise_some_lem (some (invalid t)) us m ps h k = refl
raise_some_lem (some (unsupported t)) us m ps h k = cc

optional_lem : (m : Result Header) → problem (optional m) ≡ problem m
unfolding optional
optional_lem (ok h) = refl
optional_lem (err why) = refl

only_invalid :
    {A : Type 0} (m : Result A) → Raises is_declared_invalid m → unsupporteds (problem m ∷ []) ≡ []
unfolding Raises
only_invalid (ok a) h = refl
only_invalid (err (invalid t)) h = refl
only_invalid (err (unsupported t)) h = cc

negation_lem :
    (m : Result (List ContentSpec × Option Reason))
    → Returns (λ r. raises_option is_declared_unsupported r.1 ≡ true) m
    → raises_option is_declared_unsupported (value_or ([], none) m).1 ≡ true
unfolding Returns
negation_lem (ok r) h = h
negation_lem (err why) h = refl

judge_rest_lem :
    (tokens : List Text) (options : List OptionPair) (header : Option Header)
    → (ident : Identification) (contents : List ContentSpec) (us : List Reason) → Keyed options
    → problem (judge_rest tokens options header ident contents us)
      ≡ outcome_after us (rest_problems tokens options contents)
unfolding judge_rest
judge_rest_lem tokens options header ident contents us keyed =
    noted_lem none (parse_flow options) us _ _ (λ us.
      noted_lem none (parse_flags options) us _ _ (λ us.
        noted_lem none (parse_dsize options) us _ _ (λ us.
          raise_some_lem (validate_contents contents) us _ _ (validate_contents-Raises contents) (
            raise_some_lem _ us _ _ (validate_flags_protocol-Raises _ _) (
              raise_first_lem (us ++ listed (unsupported_keyword options)) _
              ∙ listed_lem (unsupported_keyword options) us []
                  (unsupported_keyword-Raises options keyed))))))

-- Of the problems of a line whose options have keys, the first invalid one in the documented order
-- is reported, or else the first unsupported one, and a line without a problem is accepted.
pub judge_lem :
    (tokens : List Text) (options : List OptionPair) (priority : ℕ)
    → Keyed options
    → problem (judge tokens options priority) ≡ outcome (problems tokens options priority)
unfolding judge
judge_lem tokens options priority keyed = rw (sym (optional_lem (parse_header tokens))) (
    noted_lem none (optional (parse_header tokens)) [] _ _ (λ us.
      bind-outcome (parse_identification options priority) us _ _
        (λ ident e.
          noted_lem ([], none) (parse_contents_full options) us _ _
            (λ us.
              let read = value_or ([], none) (parse_contents_full options) in
              judge_rest_lem tokens options _ ident read.0 (us ++ listed read.1) keyed
              ∙ listed_lem read.1 us (rest_problems tokens options read.0) (
                  negation_lem (parse_contents_full options)
                    (parse_contents_full-negation options))))
        (only_invalid (parse_identification options priority)
          (parse_identification-Raises options priority))))

problem-err : {A : Type 0} (m : Result A) (why : Reason) → problem m ≡ some why → m ≡ err why
problem-err (ok a) why h = cc
problem-err (err w) why h = cc

-- A line that the tokenizer splits and that has a problem is rejected for the first invalid problem
-- in the documented order, or else for the first unsupported one, with the status of that problem
-- and the sid, if the line has exactly one good one.
pub parse_rule_rejects :
    (cfg : Option ℕ) (text source_file : Text) (line_no : ℕ)
    → (tokens : List Text) (options : List OptionPair) (why : Reason)
    → tokenize_rule text ≡ ok (tokens, options)
    → outcome (problems tokens options (configured_priority cfg)) ≡ some why
    → parse_rule cfg text source_file line_no
      ≡ rejected (kind why) (reason_text why) (best_effort_sid options)
unfolding parse_rule parse_tokens verdict
parse_rule_rejects cfg text source_file line_no tokens options why h k =
    let keyed =
      returned_lem _ (tokenize_rule text) (tokens, options) (tokenize_rule-Keyed text) h in
    let judged =
      problem-err (judge tokens options (configured_priority cfg)) why
        (judge_lem tokens options (configured_priority cfg) keyed ∙ k) in
    rw (h, judged) refl
