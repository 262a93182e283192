-- ===== src/Rules/Validator.antt =====
-- src/rules/validator.py: the checks across the options, and the verdict on a rule line.
pub mod Errors
pub mod Verdict
pub mod Accepted
pub mod Total
use nt204_r11_antn_nguyen_th.Base.{
  ℕ, Bool, true, false, not, ◌&&◌, ◌||◌, Option, none, some, List, [], ◌∷◌, ◌++◌, length, get_elem?,
  any, ltb, leb, ◌==◌, if◌then◌else◌, Text, codes, text_eq, ℤ,
}
use nt204_r11_antn_nguyen_th.Models.Rule.{ContentSpec, FlowSpec, FlagsSpec, DsizeSpec, Rule}
use nt204_r11_antn_nguyen_th.Models.RuleReport.{
  ParseResult, accepted, rejected, Rejection, is_invalid,
}
use nt204_r11_antn_nguyen_th.Engine.Detection.{default_priority}
use nt204_r11_antn_nguyen_th.Rules.Syntax.{
  Reason, invalid, unsupported, kind, reason_text, Result, ok, err, noted, raise_first, is_given,
  ◌>>=◌,
}
use nt204_r11_antn_nguyen_th.Rules.Parser.Tokens.{OptionPair, tokenize_rule}
use nt204_r11_antn_nguyen_th.Rules.Parser.Header.{Header, parse_header}
use nt204_r11_antn_nguyen_th.Rules.Parser.Ident.{
  Identification, parse_identification, positive_int, unsupported_keyword,
}
use nt204_r11_antn_nguyen_th.Rules.Parser.Content.{parse_contents_full}
use nt204_r11_antn_nguyen_th.Rules.Parser.Specs.{parse_flow, parse_flags, parse_dsize}

-- `n is not None and n < size`
abbrev pub is_short : Option ℕ → ℕ → Bool
is_short none size = false
is_short (some n) size = ltb n size

-- The check of one content; `none` if it raises nothing.
unfoldable pub content_error : ContentSpec → Option Reason
content_error c =
    if is_short c.depth (length c.pattern)
    then some (invalid (codes "depth_lt_pattern"))
    else if is_short c.within (length c.pattern)
    then some (invalid (codes "within_lt_pattern"))
    else if (is_given c.offset || is_given c.depth) && (is_given c.distance || is_given c.within)
    then some (invalid (codes "mixed_absolute_relative"))
    else none

abbrev pub or_else : Option Reason → Option Reason → Option Reason
or_else none later = later
or_else (some why) later = some why

-- `validate_contents`: the reason that it raises.
unfoldable pub validate_contents : List ContentSpec → Option Reason
validate_contents [] = none
validate_contents (c ∷ cs) = or_else (content_error c) (validate_contents cs)

abbrev is_udp_token : Option Text → Bool
is_udp_token none = false
is_udp_token (some token) = text_eq token (codes "udp")

-- `validate_flags_protocol`: the reason that it raises.
unfoldable pub validate_flags_protocol : Option Text → Bool → Option Reason
validate_flags_protocol token has_flags =
    if has_flags && is_udp_token token then some (invalid (codes "flags_requires_tcp")) else none

unfoldable pub values_of : Text → List OptionPair → List (Option Text)
values_of name [] = []
values_of name ((key, value) ∷ os) =
    let rest = values_of name os in if text_eq key name then value ∷ rest else rest

only_sid : List (Option Text) → Option ℕ
only_sid (value ∷ []) = positive_int value
only_sid _ = none

-- `_best_effort_sid`
unfoldable pub best_effort_sid : List OptionPair → Option ℕ
unfolding only_sid
best_effort_sid options = only_sid (values_of (codes "sid") options)

-- `_default_priority`, where `none` is a configuration without the entry.
unfoldable pub configured_priority : Option ℕ → ℕ
configured_priority none = default_priority
configured_priority (some p) = p

-- What `_parse_rule` holds when no error has been raised.
pub record RuleParts : Type 0 where
  pub header : Option Header
  pub ident : Identification
  pub contents : List ContentSpec
  pub flow : Option FlowSpec
  pub flags : Option FlagsSpec
  pub dsize : Option DsizeSpec

-- `None`, unless the header is good.
unfoldable pub optional : Result Header → Result (Option Header)
optional (ok h) = ok (some h)
optional (err why) = err why

abbrev pub listed : Option Reason → List Reason
listed none = []
listed (some why) = why ∷ []

unfoldable pub raise_some : {A : Type 0} → Option Reason → Result A → Result A
raise_some none m = m
raise_some (some why) m = err why

-- `_parse_rule` behind the contents: the other options, the checks across the options and the
-- keywords. The first unsupported part is raised at the end.
unfoldable pub judge_rest :
    List Text
    → List OptionPair
    → Option Header
    → Identification
    → List ContentSpec
    → List Reason
    → Result RuleParts
judge_rest tokens options header ident contents us = do
  (flow, us) ← noted none (parse_flow options) us
  (flags, us) ← noted none (parse_flags options) us
  (dsize, us) ← noted none (parse_dsize options) us
  let has_flags = any (λ o. text_eq o.0 (codes "flags")) options
  raise_some (validate_contents contents) (
      raise_some (validate_flags_protocol (get_elem? tokens 1) has_flags) (
        raise_first (us ++ listed (unsupported_keyword options)) (
          ok (record {
            header = header;
            ident = ident;
            contents = contents;
            flow = flow;
            flags = flags;
            dsize = dsize;
          }))))

-- `_parse_rule` behind the tokenizer: an invalid part is raised at once, the unsupported ones are
-- collected.
unfoldable pub judge : List Text → List OptionPair → ℕ → Result RuleParts
judge tokens options priority = do
  (header, us) ← noted none (optional (parse_header tokens)) []
  ident ← parse_identification options priority
  ((contents, negation), us) ← noted ([], none) (parse_contents_full options) us
  judge_rest tokens options header ident contents (us ++ listed negation)

-- `Rule(...)`; `none` for a header that is missing and for the `ValueError` on a priority of 0.
unfoldable pub build_rule : Text → Text → ℕ → RuleParts → Option Header → Option Rule
build_rule text source_file line_no p none = none
build_rule text source_file line_no p (some h) =
    if leb 1 p.ident.priority
    then some (record {
      protocol = h.protocol;
      src_ip = h.src_ip;
      src_port = h.src_port;
      direction = h.direction;
      dst_ip = h.dst_ip;
      dst_port = h.dst_port;
      msg = p.ident.msg;
      sid = p.ident.sid;
      rev = p.ident.rev;
      classtype = p.ident.classtype;
      priority = some p.ident.priority;
      contents = p.contents;
      flow = p.flow;
      flags = p.flags;
      dsize = p.dsize;
      passive_options = p.ident.passive_options;
      source_file = source_file;
      line_no = line_no;
      raw = text;
    })
    else none

-- A bug of the parser itself.
unfoldable pub internal_error : ParseResult
internal_error = rejected is_invalid (codes "invalid:internal_error") none

unfoldable pub finished : Option Rule → ParseResult
finished none = internal_error
finished (some rule) = accepted rule

unfoldable pub verdict : Text → Text → ℕ → Option ℕ → Result RuleParts → ParseResult
verdict text source_file line_no sid (err why) = rejected (kind why) (reason_text why) sid
verdict text source_file line_no sid (ok p) =
    finished (build_rule text source_file line_no p p.header)

-- `_parse_rule` for what the tokenizer returns or raises.
unfoldable pub parse_tokens :
    Option ℕ → Text → Text → ℕ → Result (List Text × List OptionPair) → ParseResult
parse_tokens cfg text source_file line_no (err why) = rejected is_invalid (reason_text why) none
parse_tokens cfg text source_file line_no (ok (tokens, options)) =
    verdict text source_file line_no (best_effort_sid options)
      (judge tokens options (configured_priority cfg))

-- `parse_rule`, with the default priority of the configuration first.
unfoldable pub parse_rule : Option ℕ → Text → Text → ℕ → ParseResult
parse_rule cfg text source_file line_no =
    parse_tokens cfg text source_file line_no (tokenize_rule text)
