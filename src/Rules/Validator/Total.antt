-- ===== src/Rules/Validator/Total.antt =====
-- src/rules/validator.py: rule lines without a problem.
use nt204_r11_antn_nguyen_th.Base.{
  ℕ, true, ◌≡◌, ◌≢◌, refl, ◌∙◌, Option, none, some, List, [], ◌∷◌, ◌++◌, leb, Text, arith,
}
use nt204_r11_antn_nguyen_th.Models.Rule.{ContentSpec, Rule}
use nt204_r11_antn_nguyen_th.Models.RuleReport.{accepted}
use nt204_r11_antn_nguyen_th.Rules.Syntax.{Reason, invalid, unsupported, Result, ok, err, noted}
use nt204_r11_antn_nguyen_th.Rules.Syntax.Returns.{
  Returns, Anything, anything, ok-Returns, bind-Returns, noted-Returns, raise_first-Returns,
  returned_lem,
}
use nt204_r11_antn_nguyen_th.Rules.Syntax.Outcome.{problem, prefer, first_invalid, outcome}
use nt204_r11_antn_nguyen_th.Rules.Parser.Tokens.{OptionPair, tokenize_rule}
use nt204_r11_antn_nguyen_th.Rules.Parser.Header.{Header, parse_header}
use nt204_r11_antn_nguyen_th.Rules.Parser.Ident.{
  Identification, parse_identification, unsupported_keyword,
}
use nt204_r11_antn_nguyen_th.Rules.Parser.Content.{parse_contents_full}
use nt204_r11_antn_nguyen_th.Rules.Parser.Specs.{parse_flow, parse_flags, parse_dsize}
use nt204_r11_antn_nguyen_th.Rules.Validator.{
  RuleParts, validate_contents, listed, optional, judge, judge_rest, configured_priority,
  build_rule, finished, verdict, parse_tokens, parse_rule,
}
use nt204_r11_antn_nguyen_th.Rules.Parser.Tokens.Errors.{tokenize_rule-Keyed}
use nt204_r11_antn_nguyen_th.Rules.Validator.Verdict.{problems, judge_lem}
use nt204_r11_antn_nguyen_th.Rules.Validator.Accepted.{judge-ok, raise_some-Returns}

prefer-some : (o : Option Reason) (why : Reason) → prefer o (some why) ≢ none
prefer-some none why h = cc
prefer-some (some w) why h = cc

-- A list of problems without an outcome starts with none.
outcome-none : (o : Option Reason) (ps : List (Option Reason)) → outcome (o ∷ ps) ≡ none → o ≡ none
outcome-none none ps h = refl
outcome-none (some (invalid t)) ps h = cc
outcome-none (some (unsupported t)) ps h = absurd (prefer-some (first_invalid ps) _ h)

problem-ok : {A : Type 0} (m : Result A) → problem m ≡ none → (a : A) × (m ≡ ok a)
problem-ok (ok a) h = (a, refl)
problem-ok (err why) h = cc

abbrev HasHeader : Header → RuleParts → Type 0
HasHeader header p = p.header ≡ some header

judge_rest-HasHeader :
    (tokens : List Text) (options : List OptionPair) (header : Header)
    → (ident : Identification) (contents : List ContentSpec) (us : List Reason)
    → Returns (HasHeader header) (judge_rest tokens options (some header) ident contents us)
unfolding judge_rest
judge_rest-HasHeader tokens options header ident contents us =
    let Q = HasHeader header in
    noted-Returns Q Anything none _ us _ (anything (parse_flow options)) tt (λ flow us k.
      noted-Returns Q Anything none _ us _ (anything (parse_flags options)) tt (λ flags us k.
        noted-Returns Q Anything none _ us _ (anything (parse_dsize options)) tt (λ dsize us k.
          raise_some-Returns Q (validate_contents contents) _ (λ v. raise_some-Returns Q _ _ (λ w.
            raise_first-Returns Q (us ++ listed (unsupported_keyword options)) _
              (ok-Returns Q _ refl))))))

judge-HasHeader :
    (tokens : List Text) (options : List OptionPair) (priority : ℕ) (header : Header)
    → parse_header tokens ≡ ok header
    → Returns (HasHeader header) (judge tokens options priority)
unfolding judge optional noted
judge-HasHeader tokens options priority header h =
    let Q = HasHeader header in
    rw (h) (
      bind-Returns Q (parse_identification options priority) _ (λ ident e.
        noted-Returns Q Anything ([], none) _ [] _ (anything (parse_contents_full options)) tt
          (λ r us c. judge_rest-HasHeader tokens options header ident r.0 (us ++ listed r.1))))

finished-build :
    (text source_file : Text) (line_no : ℕ) (p : RuleParts) (header : Option Header) (h : Header)
    → header ≡ some h
    → leb 1 p.ident.priority ≡ true
    → (rule : Rule) × (finished (build_rule text source_file line_no p header) ≡ accepted rule)
unfolding build_rule finished
finished-build text source_file line_no p none h e k = cc
finished-build text source_file line_no p (some header) h e k = rw (k) (_, refl)

-- If the tokenizer splits the line, no part has a problem and the default priority is positive, then
-- the line is accepted: the parser has no internal error.
pub parse_rule_accepts :
    (cfg : Option ℕ) (text source_file : Text) (line_no : ℕ)
    → (tokens : List Text) (options : List OptionPair) → tokenize_rule text ≡ ok (tokens, options)
    → outcome (problems tokens options (configured_priority cfg)) ≡ none
    → leb 1 (configured_priority cfg) ≡ true
    → (rule : Rule) × (parse_rule cfg text source_file line_no ≡ accepted rule)
unfolding parse_rule parse_tokens verdict
parse_rule_accepts cfg text source_file line_no tokens options h k l =
    let priority = configured_priority cfg in
    let keyed =
      returned_lem _ (tokenize_rule text) (tokens, options) (tokenize_rule-Keyed text) h in
    let judged =
      problem-ok (judge tokens options priority) (judge_lem tokens options priority keyed ∙ k) in
    let good = problem-ok (parse_header tokens) (outcome-none _ _ k) in
    let header =
      returned_lem _ _ judged.0 (judge-HasHeader tokens options priority good.0 good.1) judged.1 in
    let parts =
      returned_lem _ _ judged.0 (judge-ok 1 tokens options priority (omega arith) l) judged.1 in
    rw (h, judged.1)
      (finished-build text source_file line_no judged.0 judged.0.header good.0 header
        (ground (arith, parts.0)))
