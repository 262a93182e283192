-- ===== src/Engine/Evaluator.antt =====
-- src/engine/evaluator.py: `EvaluationEngine`, one event against every candidate rule.
pub mod Counters
pub mod Results
pub mod Payload
pub mod Built
pub mod Detections
use nt204_r11_antn_nguyen_th.Base.{
  ℕ, ◌≡◌, Bool, true, false, not, ◌&&◌, ◌||◌, Option, none, some, List, [], ◌∷◌, length, any, ◌==◌,
  if◌then◌else◌, Text, codes, text_eq, lower,
}
use nt204_r11_antn_nguyen_th.Models.Rule.{Rule}
use nt204_r11_antn_nguyen_th.Models.Event.{
  IdsEvent, PreprocessStatus, invalid, ProcessingAction, skipped, dropped,
}
use nt204_r11_antn_nguyen_th.Models.EngineTypes.{FlowContext, MatchResult}
use nt204_r11_antn_nguyen_th.Engine.Content.{Match, match_contents}
use nt204_r11_antn_nguyen_th.Engine.Stats.{
  Stats, record_event_skipped, record_event_evaluated, record_match, record_rule_error,
}
use nt204_r11_antn_nguyen_th.Engine.Matcher.{
  Attempt, returned, raised, ContentFn, Tested, match_rule,
}
use nt204_r11_antn_nguyen_th.Engine.Detection.{Detection, make_detection}
use nt204_r11_antn_nguyen_th.Rules.Repository.{Repository, freeze}
use nt204_r11_antn_nguyen_th.Rules.Indexer.{Indexer, new_indexer, candidates}

pub record Evaluator : Type 0 where
  pub repository : Repository
  pub indexer : Indexer
  pub stats : Stats
  pub enabled : Bool
  pub warned_sids : List ℕ

unfoldable pub with_indexer : Repository → Stats → Bool → Option Indexer → Option Evaluator
with_indexer r stats enabled none = none
with_indexer r stats enabled (some x) =
    some
      (record { repository = r; indexer = x; stats = stats; enabled = enabled; warned_sids = [] })

-- `__init__`, which freezes the repository; `none` is an exception of `RuleIndexer`.
unfoldable pub new_evaluator : Repository → Stats → Bool → Option Evaluator
new_evaluator r stats enabled = with_indexer (freeze r) stats enabled (new_indexer (freeze r))

is_skipped : Option ProcessingAction → Bool
is_skipped (some skipped) = true
is_skipped (some dropped) = true
is_skipped _ = false

is_invalid : Option PreprocessStatus → Bool
is_invalid (some invalid) = true
is_invalid _ = false

unfoldable pub tcp_or_udp : Option Text → Bool
tcp_or_udp none = false
tcp_or_udp (some p) = text_eq (lower p) (codes "tcp") || text_eq (lower p) (codes "udp")

abbrev has_port : Option ℕ → Bool
has_port none = false
has_port (some port) = true

-- `_eligible`
unfoldable pub eligible : IdsEvent → Bool
unfolding is_skipped is_invalid
eligible e =
    not (is_skipped e.processing_action)
    && not (is_invalid e.preprocess_status)
    && tcp_or_udp e.transport_protocol
    && has_port e.dst_port

-- The lower-cased payload, if some content of the rule is `nocase`.
unfoldable pub lowered_for : Rule → Option (List ℕ) → Option (List ℕ)
lowered_for rule none = none
lowered_for rule (some bytes) =
    if any (λ c. c.nocase) rule.contents then some (lower bytes) else none

-- `_content_fn_for`; its cache holds a value that depends on the payload only.
unfoldable pub content_fn_for : IdsEvent → ContentFn
content_fn_for e rule ignored =
    returned (match_contents rule e.payload (lowered_for rule e.payload))

warn : Rule → List ℕ → List ℕ
warn rule sids = if any (λ sid. rule.sid == sid) sids then sids else rule.sid ∷ sids

module _ {A : Type 0} where
  abbrev pub add_item : Option A → List A → List A
  add_item none items = items
  add_item (some item) items = item ∷ items

module _ {A : Type 0} (build : Rule → MatchResult Match → Attempt A) where
  -- The `try` block once `build` has run, and its `except Exception`.
  unfoldable pub built : Rule → Stats → List ℕ → Attempt A → Stats × List ℕ × Option A
  unfolding warn
  built rule s sids raised = (record_rule_error s, warn rule sids, none)
  built rule s sids (returned item) = (record_match s, sids, some item)

  -- The `try` block once `match_rule` has run.
  unfoldable pub settle : Rule → Tested → List ℕ → Stats × List ℕ × Option A
  unfolding warn
  settle rule (s, raised) sids = (record_rule_error s, warn rule sids, none)
  settle rule (s, returned r) sids =
      if r.matched then built rule s sids (build rule r) else (s, sids, none)

  -- The loop: the counters, the sids that were warned of and `matched`.
  unfoldable pub run_rules :
      IdsEvent
      → Option FlowContext
      → Option ContentFn
      → List Rule
      → Stats
      → List ℕ
      → Stats × List ℕ × List A
  run_rules e ctx f [] s sids = (s, sids, [])
  run_rules e ctx f (rule ∷ rules) s sids =
      let (s1, sids1, item) = settle rule (match_rule rule e ctx f s) sids in
      let (s2, sids2, items) = run_rules e ctx f rules s1 sids1 in (s2, sids2, add_item item items)

  unfoldable pub run_candidates :
      IdsEvent → Option FlowContext → Evaluator → Option (List Rule) → Option (Evaluator × List A)
  run_candidates e ctx ev none = none
  run_candidates e ctx ev (some rules) =
      let (s, sids, items) =
        run_rules e ctx (some (content_fn_for e)) rules
          (record_event_evaluated (length rules) ev.stats) ev.warned_sids in
      some (record ev { stats = s; warned_sids = sids }, items)

  -- `_run`; `none` is an exception of the index.
  unfoldable pub run : IdsEvent → Option FlowContext → Evaluator → Option (Evaluator × List A)
  run e ctx ev =
      if not ev.enabled || length ev.repository.rules == 0 || not (eligible e)
      then some (record ev { stats = record_event_skipped ev.stats }, [])
      else run_candidates e ctx ev (candidates ev.indexer e.transport_protocol e.dst_port)

unfoldable pub evaluate :
    IdsEvent → Option FlowContext → Evaluator → Option (Evaluator × List (MatchResult Match))
evaluate = run (λ rule result. returned result)

unfoldable pub detect :
    IdsEvent → Option FlowContext → Evaluator → Option (Evaluator × List Detection)
detect e ctx = run (λ rule result. make_detection rule e ctx result.matches) e ctx
