-- ===== src/Engine/Stats.antt =====
-- src/engine/stats.py: the counters of a run. Every candidate ends in exactly one outcome.
use nt204_r11_antn_nguyen_th.Base.{ℕ, ◌+◌, Bool, true, false, ◌==◌}
use nt204_r11_antn_nguyen_th.Models.EngineTypes.{Stage, header, flow, packet, content}

pub record Stats : Type 0 where
  pub events_evaluated : ℕ
  pub events_skipped : ℕ
  pub candidate_rules : ℕ
  pub rules_rejected_header : ℕ
  pub rules_rejected_flow : ℕ
  pub rules_rejected_packet : ℕ
  pub content_evaluations : ℕ
  pub rules_rejected_content : ℕ
  pub matches : ℕ
  pub rule_errors : ℕ

unfoldable pub new_stats : Stats
new_stats = record {
  events_evaluated = 0;
  events_skipped = 0;
  candidate_rules = 0;
  rules_rejected_header = 0;
  rules_rejected_flow = 0;
  rules_rejected_packet = 0;
  content_evaluations = 0;
  rules_rejected_content = 0;
  matches = 0;
  rule_errors = 0;
}

unfoldable pub record_stage : Stage → Bool → Stats → Stats
record_stage content true s = record s { content_evaluations = s.content_evaluations + 1 }
record_stage content false s = record s {
  content_evaluations = s.content_evaluations + 1;
  rules_rejected_content = s.rules_rejected_content + 1;
}
record_stage header false s = record s { rules_rejected_header = s.rules_rejected_header + 1 }
record_stage flow false s = record s { rules_rejected_flow = s.rules_rejected_flow + 1 }
record_stage packet false s = record s { rules_rejected_packet = s.rules_rejected_packet + 1 }
record_stage _ true s = s

unfoldable pub record_event_evaluated : ℕ → Stats → Stats
record_event_evaluated candidates s = record s {
  events_evaluated = s.events_evaluated + 1;
  candidate_rules = s.candidate_rules + candidates;
}

unfoldable pub record_event_skipped : Stats → Stats
record_event_skipped s = record s { events_skipped = s.events_skipped + 1 }

unfoldable pub record_match : Stats → Stats
record_match s = record s { matches = s.matches + 1 }

unfoldable pub record_rule_error : Stats → Stats
record_rule_error s = record s { rule_errors = s.rule_errors + 1 }

-- The candidates that have ended in an outcome.
abbrev pub outcomes : Stats → ℕ
outcomes s =
    s.rules_rejected_header + s.rules_rejected_flow + s.rules_rejected_packet
    + s.rules_rejected_content + s.matches + s.rule_errors

unfoldable pub is_consistent : Stats → Bool
is_consistent s = s.candidate_rules == outcomes s
