-- ===== src/Engine/Evaluator/Results.antt =====
-- src/engine/evaluator.py: which rules an event matches, against a linear scan of the repository with
-- the complete test.
use nt204_r11_antn_nguyen_th.Base.{
  ℕ, ◌≡◌, refl, sym, ap, ◌∙◌, Bool, true, false, not, ◌&&◌, ◌||◌, Option, none, some, List, [], ◌∷◌,
  ◌++◌, map, length, filter, ◌==◌, if◌then◌else◌, arith,
}
use nt204_r11_antn_nguyen_th.Models.Rule.{Rule}
use nt204_r11_antn_nguyen_th.Models.Event.{IdsEvent}
use nt204_r11_antn_nguyen_th.Models.EngineTypes.{FlowContext, MatchResult}
use nt204_r11_antn_nguyen_th.Engine.Content.{Match}
use nt204_r11_antn_nguyen_th.Engine.Content.Chain.{some-eq}
use nt204_r11_antn_nguyen_th.Engine.Stats.{Stats, record_event_skipped}
use nt204_r11_antn_nguyen_th.Engine.Matcher.{
  Attempt, returned, raised, Tested, match_rule, match_header, match_flow, match_packet,
}
use nt204_r11_antn_nguyen_th.Engine.Matcher.Stages.{
  WellTested, match_rule-WellTested, is_match, content_holds, match_rule-is_match,
}
use nt204_r11_antn_nguyen_th.Engine.Evaluator.{
  Evaluator, new_evaluator, with_indexer, eligible, built, settle, add_item, run_rules,
  run_candidates, run, evaluate, content_fn_for,
}
use nt204_r11_antn_nguyen_th.Rules.Repository.{Repository, freeze}
use nt204_r11_antn_nguyen_th.Rules.Repository.Valid.{
  IsValid, freeze-IsValid, freeze-rules, all_rules_lem,
}
use nt204_r11_antn_nguyen_th.Rules.Indexer.{new_indexer, candidates, indexed_protocol, usable_port}
use nt204_r11_antn_nguyen_th.Rules.Indexer.Candidates.{candidates_lem, scan_rules}
use nt204_r11_antn_nguyen_th.Rules.Indexer.Superset.{filter-filter, scan_rules-match_header}

-- The event passes every stage of the rule.
unfoldable pub fires : IdsEvent → Option FlowContext → Rule → Bool
fires e ctx rule =
    match_header rule e
    && match_flow rule ctx
    && match_packet rule e
    && content_holds rule.contents (content_fn_for e rule e)

abbrev keep : Rule → MatchResult Match → Attempt (MatchResult Match)
keep rule result = returned result

abbrev pub rules_of : List (MatchResult Match) → List Rule
rules_of = map (λ r. r.rule)

settle-keep :
    (m : Bool) (rule : Rule) (s : Stats) (r : MatchResult Match) (sids : List ℕ)
    → r.rule ≡ rule
    → rules_of (add_item (if m then built keep rule s sids (keep rule r) else (s, sids, none)).2 [])
      ≡ (if m then rule ∷ [] else [])
unfolding built
settle-keep true rule s r sids e = ap (λ x. x ∷ []) e
settle-keep false rule s r sids e = refl

settle-rules :
    (rule : Rule) (s : Stats) (t : Tested) (sids : List ℕ)
    → WellTested rule s t
    → rules_of (add_item (settle keep rule t sids).2 []) ≡ (if is_match t.1 then rule ∷ [] else [])
unfolding settle
settle-rules rule s (s1, raised) sids w = refl
settle-rules rule s (s1, returned r) sids w = settle-keep r.matched rule s1 r sids w.0.0

rules_of-add_item :
    (item : Option (MatchResult Match)) (items : List (MatchResult Match))
    → rules_of (add_item item items) ≡ rules_of (add_item item []) ++ rules_of items
rules_of-add_item none items = refl
rules_of-add_item (some item) items = refl

pub match_rule-fires :
    (rule : Rule) (e : IdsEvent) (ctx : Option FlowContext) (s : Stats)
    → is_match (match_rule rule e ctx (some (content_fn_for e)) s).1 ≡ fires e ctx rule
unfolding fires
match_rule-fires rule e ctx s = match_rule-is_match rule e ctx (some (content_fn_for e)) s

if_append :
    (b : Bool) (rule : Rule) (rest : List Rule)
    → (if b then rule ∷ [] else []) ++ rest ≡ (if b then rule ∷ rest else rest)
if_append true rule rest = refl
if_append false rule rest = refl

run_rules-fires :
    (e : IdsEvent) (ctx : Option FlowContext) (rules : List Rule) (s : Stats) (sids : List ℕ)
    → rules_of (run_rules keep e ctx (some (content_fn_for e)) rules s sids).2
      ≡ filter (fires e ctx) rules
unfolding run_rules
run_rules-fires e ctx [] s sids = refl
run_rules-fires e ctx (rule ∷ rules) s sids =
    let f = some (content_fn_for e) in
    let t = match_rule rule e ctx f s in
    let out = settle keep rule t sids in
    let items = (run_rules keep e ctx f rules out.0 out.1).2 in
    let rest = run_rules-fires e ctx rules out.0 out.1 in
    let head = settle-rules rule s t sids (match_rule-WellTested rule e ctx f s) in
    let same = match_rule-fires rule e ctx s in
    rw (rules_of-add_item out.2 items, rest, head, same)
      (if_append (fires e ctx rule) rule (filter (fires e ctx) rules))

-- An evaluator as `__init__` leaves it, over a valid repository that is frozen.
pub record IsReady (ev : Evaluator) : Type 0 where
  pub valid : IsValid ev.repository
  pub frozen : ev.repository.frozen ≡ true
  pub built_index : new_indexer ev.repository ≡ some ev.indexer

-- `__init__` never fails on a valid repository; its evaluator has the repository's rules.
pub new_evaluator-IsReady :
    (r : Repository) (stats : Stats) (enabled : Bool)
    → IsValid r
    → (ev : Evaluator) × (new_evaluator r stats enabled ≡ some ev)
      × IsReady ev
      × (ev.repository.rules ≡ r.rules)
      × (ev.stats ≡ stats)
      × (ev.enabled ≡ enabled)
unfolding new_evaluator with_indexer
new_evaluator-IsReady r stats enabled v =
    let (valid, frozen) = freeze-IsValid r v in
    let (x, built_index, _) = candidates_lem (freeze r) none none frozen in
    (
      record {
        repository = freeze r;
        indexer = x;
        stats = stats;
        enabled = enabled;
        warned_sids = [];
      },
      rw (built_index) refl,
      record { valid = valid; frozen = frozen; built_index = built_index },
      freeze-rules r,
      refl,
      refl,
    )

fires-header :
    (e : IdsEvent) (ctx : Option FlowContext) (r : Rule)
    → fires e ctx r ≡ true
    → match_header r e ≡ true
unfolding fires
fires-header e ctx r h = ground arith

-- The rules that fire are among the candidates.
pub scan-fires :
    (e : IdsEvent) (ctx : Option FlowContext) (rules : List Rule)
    → filter
        (fires e ctx)
        (scan_rules rules (indexed_protocol e.transport_protocol) (usable_port e.dst_port))
      ≡ filter (fires e ctx) rules
scan-fires e ctx rules =
    let scanned =
      scan_rules rules (indexed_protocol e.transport_protocol) (usable_port e.dst_port) in
    let h : Rule → Bool = λ r. match_header r e in
    sym (filter-filter (fires e ctx) h scanned (fires-header e ctx))
    ∙ ap (filter (fires e ctx)) (scan_rules-match_header rules e)
    ∙ filter-filter (fires e ctx) h rules (fires-header e ctx)

pub ready-candidates :
    (ev : Evaluator) (e : IdsEvent)
    → IsReady ev
    → candidates ev.indexer e.transport_protocol e.dst_port
      ≡ some (
          scan_rules ev.repository.rules
            (indexed_protocol e.transport_protocol)
            (usable_port e.dst_port))
ready-candidates ev e ready =
    let (x, made, found) =
      candidates_lem ev.repository e.transport_protocol e.dst_port ready.frozen in
    ap (λ y. candidates y e.transport_protocol e.dst_port) (some-eq (sym ready.built_index ∙ made))
    ∙ found
    ∙ ap
        (λ rs.
          some (scan_rules rs (indexed_protocol e.transport_protocol) (usable_port e.dst_port)))
        (all_rules_lem ev.repository ready.valid)

-- What `evaluate` returns, by the list of the rules that fire.
Evaluated :
    IdsEvent
    → Option FlowContext
    → Evaluator
    → Bool
    → Option (Evaluator × List (MatchResult Match))
    → Type 0
Evaluated e ctx ev tested o =
    (ev' : Evaluator) × (results : List (MatchResult Match)) × (o ≡ some (ev', results))
    × IsReady ev'
    × (rules_of results ≡ (if tested then filter (fires e ctx) ev.repository.rules else []))

pub no_rules :
    (q : Rule → Bool) (rules : List Rule) → (length rules == 0) ≡ true → filter q rules ≡ []
no_rules q [] h = refl
no_rules q (r ∷ rules) h = ground arith

run_candidates-Evaluated :
    (e : IdsEvent) (ctx : Option FlowContext) (ev : Evaluator) (rules : List Rule)
    → IsReady ev
    → filter (fires e ctx) rules ≡ filter (fires e ctx) ev.repository.rules
    → Evaluated e ctx ev true (run_candidates keep e ctx ev (some rules))
unfolding Evaluated run_candidates
run_candidates-Evaluated e ctx ev rules ready h = (
  _,
  _,
  refl,
  record { valid = ready.valid; frozen = ready.frozen; built_index = ready.built_index },
  run_rules-fires e ctx rules _ ev.warned_sids ∙ h,
)

-- The early return of `_run`, by its three tests.
early-Evaluated :
    (e : IdsEvent) (ctx : Option FlowContext) (ev : Evaluator) (enabled empty ok : Bool)
    (o : Option (Evaluator × List (MatchResult Match)))
    → IsReady ev
    → (empty ≡ true → filter (fires e ctx) ev.repository.rules ≡ [])
    → Evaluated e ctx ev true o
    → Evaluated e ctx ev (enabled && ok) (
        if not enabled || empty || not ok
        then some (record ev { stats = record_event_skipped ev.stats }, [])
        else o)
unfolding Evaluated
early-Evaluated e ctx ev false empty ok o r h k =
    (_, _, refl, record { valid = r.valid; frozen = r.frozen; built_index = r.built_index }, refl)
early-Evaluated e ctx ev true true true o r h k = (
  _,
  _,
  refl,
  record { valid = r.valid; frozen = r.frozen; built_index = r.built_index },
  sym (h refl),
)
early-Evaluated e ctx ev true true false o r h k =
    (_, _, refl, record { valid = r.valid; frozen = r.frozen; built_index = r.built_index }, refl)
early-Evaluated e ctx ev true false true o r h k = k
early-Evaluated e ctx ev true false false o r h k =
    (_, _, refl, record { valid = r.valid; frozen = r.frozen; built_index = r.built_index }, refl)

run-Evaluated :
    (e : IdsEvent) (ctx : Option FlowContext) (ev : Evaluator)
    → IsReady ev
    → Evaluated e ctx ev (ev.enabled && eligible e) (run keep e ctx ev)
unfolding run
run-Evaluated e ctx ev ready =
    early-Evaluated e ctx ev ev.enabled (length ev.repository.rules == 0) (eligible e) _ ready
      (no_rules (fires e ctx) ev.repository.rules)
      (rw (ready-candidates ev e ready)
        (run_candidates-Evaluated e ctx ev _ ready (scan-fires e ctx ev.repository.rules)))

-- `evaluate` always returns on an evaluator that is ready. If the engine is enabled and the event
-- is eligible, then its results are about exactly the rules that fire, as a linear scan of all
-- rules finds them, in repository order; else there are none. The evaluator stays ready for the
-- next event.
pub evaluate_lem :
    (e : IdsEvent) (ctx : Option FlowContext) (ev : Evaluator)
    → IsReady ev
    → (ev' : Evaluator) × (results : List (MatchResult Match)) × (evaluate e ctx ev
        ≡ some (ev', results))
      × IsReady ev'
      × (rules_of results
          ≡ (if ev.enabled && eligible e then filter (fires e ctx) ev.repository.rules else []))
unfolding evaluate Evaluated
evaluate_lem e ctx ev ready = run-Evaluated e ctx ev ready
