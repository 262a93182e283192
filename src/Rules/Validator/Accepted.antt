-- ===== src/Rules/Validator/Accepted.antt =====
-- src/rules/validator.py: what an accepted rule line becomes.
use nt204_r11_antn_nguyen_th.Base.{
  ℕ, Bool, true, false, ◌&&◌, ◌≤◌, ◌≡◌, refl, subst, if◌then◌else◌, Option, none, some, List, [],
  ◌++◌, all, leb, Text, arith,
}
use nt204_r11_antn_nguyen_th.Models.Rule.{
  ContentSpec, content_spec_ok, flags_spec_ok, dsize_spec_ok, option_ok, Rule, rule_ok,
}
use nt204_r11_antn_nguyen_th.Models.RuleReport.{ParseResult, accepted, rejected}
use nt204_r11_antn_nguyen_th.Rules.Syntax.{Reason, Result, ok, err}
use nt204_r11_antn_nguyen_th.Rules.Syntax.Returns.{
  Returns, Anything, anything, ok-Returns, bind-Returns, noted-Returns, raise_first-Returns,
  returned_lem,
}
use nt204_r11_antn_nguyen_th.Rules.Parser.Tokens.{OptionPair, tokenize_rule}
use nt204_r11_antn_nguyen_th.Rules.Parser.Header.{Header, parse_header}
use nt204_r11_antn_nguyen_th.Rules.Parser.Header.Bounds.{header_ok, parse_header-ok}
use nt204_r11_antn_nguyen_th.Rules.Parser.Ident.{Identification, parse_identification}
use nt204_r11_antn_nguyen_th.Rules.Parser.Ident.Bounds.{
  is_option_int, ident_ok, parse_identification-ok,
}
use nt204_r11_antn_nguyen_th.Rules.Parser.Content.Bounds.{parse_contents_full-ok}
use nt204_r11_antn_nguyen_th.Rules.Parser.Specs.{parse_flow}
use nt204_r11_antn_nguyen_th.Rules.Parser.Specs.Bounds.{parse_flags-ok, parse_dsize-ok}
use nt204_r11_antn_nguyen_th.Rules.Validator.{
  RuleParts, validate_contents, unsupported_keyword, listed, optional, raise_some, judge,
  judge_rest, build_rule, finished, verdict, parse_tokens, parse_rule, configured_priority,
  internal_error,
}

-- The checks of the parts, where the priority is at least `low`.
abbrev pub parts_ok : ℕ → RuleParts → Bool
parts_ok low p =
    option_ok header_ok p.header
    && ident_ok low p.ident
    && all content_spec_ok p.contents
    && option_ok flags_spec_ok p.flags
    && option_ok dsize_spec_ok p.dsize

-- The checks, and those across the options.
abbrev pub PartsOk : ℕ → RuleParts → Type 0
PartsOk low p = (parts_ok low p ≡ true) × (validate_contents p.contents ≡ none)

pub raise_some-Returns :
    {A : Type 0} (Q : A → Type 0) (o : Option Reason) (m : Result A)
    → (o ≡ none → Returns Q m)
    → Returns Q (raise_some o m)
unfolding raise_some Returns
raise_some-Returns Q none m h = h refl
raise_some-Returns Q (some why) m h = tt

optional-ok :
    (m : Result Header)
    → Returns (λ h. header_ok h ≡ true) m
    → Returns (λ o. option_ok header_ok o ≡ true) (optional m)
unfolding optional Returns
optional-ok (ok h) k = k
optional-ok (err why) k = tt

module _ (low : ℕ) where
  judge_rest-ok :
      (tokens : List Text) (options : List OptionPair) (header : Option Header)
      → (ident : Identification) (contents : List ContentSpec) (us : List Reason)
      → option_ok header_ok header ≡ true
      → ident_ok low ident ≡ true
      → all content_spec_ok contents ≡ true
      → Returns (PartsOk low) (judge_rest tokens options header ident contents us)
  unfolding judge_rest
  judge_rest-ok tokens options header ident contents us h i c =
      let Q = PartsOk low in
      noted-Returns Q Anything none _ us _ (anything (parse_flow options)) tt (λ flow us k.
        noted-Returns Q (λ o. option_ok flags_spec_ok o ≡ true) none _ us _ (parse_flags-ok options)
          refl
          (λ flags us f.
            noted-Returns Q (λ o. option_ok dsize_spec_ok o ≡ true) none _ us _
              (parse_dsize-ok options) refl
              (λ dsize us d. raise_some-Returns Q (validate_contents contents) _ (λ v.
                raise_some-Returns Q _ _ (λ w.
                  raise_first-Returns Q (us ++ listed (unsupported_keyword options)) _
                    (ok-Returns Q _ (ground (arith, h, i, c, f, d), v)))))))

  -- What is not rejected passes the checks of all parts.
  pub judge-ok :
      (tokens : List Text) (options : List OptionPair) (priority : ℕ)
      → low ≤ 1
      → leb low priority ≡ true
      → Returns (PartsOk low) (judge tokens options priority)
  unfolding judge
  judge-ok tokens options priority l p =
      let Q = PartsOk low in
      noted-Returns Q (λ o. option_ok header_ok o ≡ true) none _ [] _
        (optional-ok (parse_header tokens) (parse_header-ok tokens)) refl
        (λ header us h. bind-Returns Q (parse_identification options priority) _ (λ ident e.
          let i = returned_lem _ _ ident (parse_identification-ok low l options priority p) e in
          noted-Returns Q (λ r. all content_spec_ok r.0 ≡ true) ([], none) _ us _
            (parse_contents_full-ok options) refl
            (λ r us c. judge_rest-ok tokens options header ident r.0 (us ++ listed r.1) h i c)))

-- The rule of a result, if it is accepted, is such a rule.
unfoldable pub Accepts : (Rule → Type 0) → ParseResult → Type 0
Accepts Q (accepted rule) = Q rule
Accepts Q (rejected k t sid) = Unit {0}

finished-Accepts :
    (Q : Rule → Type 0) (b : Bool) (rule : Rule)
    → (b ≡ true → Q rule)
    → Accepts Q (finished (if b then some rule else none))
unfolding Accepts finished internal_error
finished-Accepts Q true rule h = h refl
finished-Accepts Q false rule h = tt

-- The checks of the classes, the bounds of sid and revision, and the checks across the options.
abbrev pub RuleOk : Rule → Type 0
RuleOk rule =
    (rule_ok rule ≡ true)
    × (is_option_int rule.sid ≡ true)
    × (is_option_int rule.rev ≡ true)
    × (validate_contents rule.contents ≡ none)

build_rule-Accepts :
    (text source_file : Text) (line_no : ℕ) (p : RuleParts) (header : Option Header)
    → option_ok header_ok header ≡ true
    → PartsOk 0 p
    → Accepts RuleOk (finished (build_rule text source_file line_no p header))
unfolding build_rule rule_ok Accepts finished internal_error
build_rule-Accepts text source_file line_no p none h k = tt
build_rule-Accepts text source_file line_no p (some header) h k =
    finished-Accepts RuleOk (leb 1 p.ident.priority) _
      (λ e. (ground (arith, h, k.0, e), ground (arith, k.0), ground (arith, k.0), k.1))

verdict-Accepts :
    (text source_file : Text) (line_no : ℕ) (sid : Option ℕ) (m : Result RuleParts)
    → Returns (PartsOk 0) m
    → Accepts RuleOk (verdict text source_file line_no sid m)
unfolding verdict Returns Accepts
verdict-Accepts text source_file line_no sid (err why) h = tt
verdict-Accepts text source_file line_no sid (ok p) h =
    build_rule-Accepts text source_file line_no p p.header (ground (arith, h.0)) h

parse_tokens-Accepts :
    (cfg : Option ℕ) (text source_file : Text) (line_no : ℕ)
    → (m : Result (List Text × List OptionPair))
    → Accepts RuleOk (parse_tokens cfg text source_file line_no m)
unfolding parse_tokens Accepts
parse_tokens-Accepts cfg text source_file line_no (err why) = tt
parse_tokens-Accepts cfg text source_file line_no (ok (tokens, options)) =
    verdict-Accepts text source_file line_no _ _
      (judge-ok 0 tokens options (configured_priority cfg) (omega arith) (ground arith))

accepted-Accepts :
    (Q : Rule → Type 0) (r : ParseResult) (rule : Rule) → Accepts Q r → r ≡ accepted rule → Q rule
unfolding Accepts
accepted-Accepts Q r rule h e = subst (Accepts Q) e h

-- Whatever the line and the configuration, an accepted rule passes every check of `Rule`, `IpSpec`,
-- `PortSpec`, `ContentSpec`, `FlagsSpec` and `DsizeSpec`, its sid and its revision are in
-- 1..4294967295, and its contents pass the checks across the options.
pub parse_rule-RuleOk :
    (cfg : Option ℕ) (text source_file : Text) (line_no : ℕ) (rule : Rule)
    → parse_rule cfg text source_file line_no ≡ accepted rule
    → RuleOk rule
unfolding parse_rule
parse_rule-RuleOk cfg text source_file line_no rule h =
    accepted-Accepts RuleOk _ rule
      (parse_tokens-Accepts cfg text source_file line_no (tokenize_rule text)) h
