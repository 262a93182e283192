-- ===== src/Models/RuleReport.antt =====
-- src/models/rule_report.py: the outcome of parsing a line, and the codes of its reasons.
use nt204_r11_antn_nguyen_th.Base.{
  ℕ, Bool, ◌&&◌, ◌||◌, Option, List, [], ◌∷◌, ltb, length, any, Text, codes, one_of, has_prefix,
  true,
}
use nt204_r11_antn_nguyen_th.Models.Rule.{Rule}

abbrev pub reason_codes : List Text
reason_codes =
    codes "invalid:malformed_rule"
    ∷ codes "invalid:bad_header"
    ∷ codes "invalid:bad_ip"
    ∷ codes "invalid:bad_port"
    ∷ codes "invalid:bad_direction"
    ∷ codes "invalid:missing_sid"
    ∷ codes "invalid:bad_sid"
    ∷ codes "invalid:duplicate_sid"
    ∷ codes "invalid:missing_msg"
    ∷ codes "invalid:modifier_without_content"
    ∷ codes "invalid:depth_lt_pattern"
    ∷ codes "invalid:within_lt_pattern"
    ∷ codes "invalid:mixed_absolute_relative"
    ∷ codes "invalid:flags_requires_tcp"
    ∷ codes "invalid:conflicting_flow"
    ∷ codes "invalid:internal_error"
    ∷ codes "unsupported:ip_syntax"
    ∷ codes "unsupported:port_syntax"
    ∷ codes "unsupported:flags_mask"
    ∷ codes "unsupported:content_negation"
    ∷ codes "disabled:sid"
    ∷ []

abbrev pub reason_prefixes : List Text
reason_prefixes =
    codes "invalid:bad_option_value:"
    ∷ codes "invalid:duplicate_option:"
    ∷ codes "unsupported:action:"
    ∷ codes "unsupported:protocol:"
    ∷ codes "unsupported:keyword:"
    ∷ codes "unsupported:flow_option:"
    ∷ []

-- A fixed code, or a known prefix followed by a value that is not empty.
unfoldable pub is_valid_reason : Text → Bool
is_valid_reason reason =
    one_of reason reason_codes
    || any (λ p. has_prefix p reason && ltb (length p) (length reason)) reason_prefixes

pub data Status : Type 0 where
  valid invalid unsupported disabled : Status

-- The statuses that a rejected rule may have.
pub data Rejection : Type 0 where
  is_invalid is_unsupported : Rejection

-- `ParseResult`: a rule if and only if the status is valid, a reason if and only if it is not.
pub data ParseResult : Type 0 where
  accepted : Rule → ParseResult
  rejected : Rejection → Text → Option ℕ → ParseResult

-- The prefix that a reason has for its status.
abbrev pub status_prefix : Rejection → Text
status_prefix is_invalid = codes "invalid:"
status_prefix is_unsupported = codes "unsupported:"

-- `ParseResult.__post_init__`, of which the types rule out the other cases of
-- `_check_status_reason`.
unfoldable pub parse_result_ok : ParseResult → Bool
parse_result_ok (accepted rule) = true
parse_result_ok (rejected status reason sid) =
    is_valid_reason reason && has_prefix (status_prefix status) reason

pub record RuleRecord : Type 0 where
  pub file : Text
  pub line : ℕ
  pub status : Status
  pub reason : Option Text
  pub sid : Option ℕ
  pub text : Text

pub record LoadReport : Type 0 where
  pub total_lines : ℕ
  pub blank : ℕ
  pub comment : ℕ
  pub rule_lines : ℕ
  pub n_valid : ℕ
  pub n_invalid : ℕ
  pub n_unsupported : ℕ
  pub n_disabled : ℕ
  pub files_failed : ℕ
  pub disabled_files : ℕ
