-- ===== src/Engine/Evaluator/Detections.antt =====
-- src/engine/evaluator.py, `detect`: a detection can be built for every rule that fires.
use nt204_r11_antn_nguyen_th.Base.{
  ℕ, ◌≡◌, refl, sym, ap, ◌∙◌, Bool, true, false, not, ◌&&◌, ◌||◌, Option, none, some, List, [], ◌∷◌,
  ◌++◌, map, length, filter, all, All, All-filter, arith, if◌then◌else◌, ◌==◌,
}
use nt204_r11_antn_nguyen_th.Models.Rule.{Rule, RuleProtocol}
use nt204_r11_antn_nguyen_th.Models.Event.{IdsEvent}
use nt204_r11_antn_nguyen_th.Models.EngineTypes.{FlowContext, MatchResult}
use nt204_r11_antn_nguyen_th.Engine.Content.{Match}
use nt204_r11_antn_nguyen_th.Engine.Content.Chain.{Patterns}
use nt204_r11_antn_nguyen_th.Engine.Stats.{Stats, record_event_skipped}
use nt204_r11_antn_nguyen_th.Engine.Matcher.{Attempt, returned, raised, Tested, match_rule}
use nt204_r11_antn_nguyen_th.Engine.Detection.{Detection, make_detection, match_ok}
use nt204_r11_antn_nguyen_th.Engine.Matcher.Stages.{is_match}
use nt204_r11_antn_nguyen_th.Engine.Evaluator.Built.{make_detection_lem, matches_ok, match_rule-ok}
use nt204_r11_antn_nguyen_th.Engine.Evaluator.Results.{
  fires, match_rule-fires, scan-fires, ready-candidates, no_rules, IsReady,
}
use nt204_r11_antn_nguyen_th.Rules.Indexer.Candidates.{covers, scan_rules}
use nt204_r11_antn_nguyen_th.Engine.Evaluator.{
  tcp_or_udp, eligible, content_fn_for, Evaluator, run_rules, run_candidates, run, settle, built,
  add_item, detect,
}

abbrev detection_of : IdsEvent → Option FlowContext → Rule → MatchResult Match → Attempt Detection
detection_of e ctx rule result = make_detection rule e ctx result.matches

abbrev sids_of : List Rule → List ℕ
sids_of = map (λ r. r.sid)

abbrev detected : List Detection → List ℕ
detected = map (λ d. d.sid)

module _ (e : IdsEvent) (ctx : Option FlowContext)
    (tu : tcp_or_udp e.transport_protocol ≡ true) where
  built-sids :
      (m : Bool) (rule : Rule) (s : Stats) (r : MatchResult Match) (sids : List ℕ)
      → all match_ok r.matches ≡ true
      → detected (
          add_item
            (if m
              then built (detection_of e ctx) rule s sids (detection_of e ctx rule r)
              else (s, sids, none)).2
            [])
        ≡ (if m then rule.sid ∷ [] else [])
  unfolding built
  built-sids true rule s r sids ok =
      let (d, made, same) = make_detection_lem rule e ctx r.matches tu ok in
      rw (made) (ap (λ x. x ∷ []) same)
  built-sids false rule s r sids ok = refl

  settle-sids :
      (rule : Rule) (s : Stats) (t : Tested) (sids : List ℕ)
      → matches_ok t.1 ≡ true
      → detected (add_item (settle (detection_of e ctx) rule t sids).2 [])
        ≡ (if is_match t.1 then rule.sid ∷ [] else [])
  unfolding settle
  settle-sids rule s (s1, raised) sids ok = refl
  settle-sids rule s (s1, returned r) sids ok = built-sids r.matched rule s1 r sids ok

  detected-add_item :
      (item : Option Detection) (items : List Detection)
      → detected (add_item item items) ≡ detected (add_item item []) ++ detected items
  detected-add_item none items = refl
  detected-add_item (some item) items = refl

  if_sid :
      (b : Bool) (rule : Rule) (rest : List Rule)
      → (if b then rule.sid ∷ [] else []) ++ sids_of rest
        ≡ sids_of (if b then rule ∷ rest else rest)
  if_sid true rule rest = refl
  if_sid false rule rest = refl

  run_rules-sids :
      (rules : List Rule) (s : Stats) (sids : List ℕ)
      → All (λ r. Patterns r.contents) rules
      → detected (run_rules (detection_of e ctx) e ctx (some (content_fn_for e)) rules s sids).2
        ≡ sids_of (filter (fires e ctx) rules)
  unfolding run_rules
  run_rules-sids [] s sids ne = refl
  run_rules-sids (rule ∷ rules) s sids ne =
      let f = some (content_fn_for e) in
      let t = match_rule rule e ctx f s in
      let out = settle (detection_of e ctx) rule t sids in
      let items = (run_rules (detection_of e ctx) e ctx f rules out.0 out.1).2 in
      let rest = run_rules-sids rules out.0 out.1 ne.1 in
      let head = settle-sids rule s t sids (match_rule-ok rule e ctx s ne.0) in
      let same = match_rule-fires rule e ctx s in
      rw (detected-add_item out.2 items, rest, head, same)
        (if_sid (fires e ctx rule) rule (filter (fires e ctx) rules))

All-scan_rules :
    (rules : List Rule) (p : Option RuleProtocol) (port : Option ℕ)
    → All (λ r. Patterns r.contents) rules
    → All (λ r. Patterns r.contents) (scan_rules rules p port)
unfolding scan_rules
All-scan_rules rules (some p) (some port) h = All-filter _ (covers p port) rules h
All-scan_rules rules none port h = tt
All-scan_rules rules (some p) none h = tt

-- What `detect` returns, by the list of the rules that fire.
Detects :
    IdsEvent → Option FlowContext → Evaluator → Bool → Option (Evaluator × List Detection) → Type 0
Detects e ctx ev tested o =
    (ev' : Evaluator) × (ds : List Detection) × (o ≡ some (ev', ds))
    × (detected ds ≡ sids_of (if tested then filter (fires e ctx) ev.repository.rules else []))

run_candidates-Detects :
    (e : IdsEvent) (ctx : Option FlowContext) (ev : Evaluator) (rules : List Rule)
    → tcp_or_udp e.transport_protocol ≡ true
    → All (λ r. Patterns r.contents) rules
    → filter (fires e ctx) rules ≡ filter (fires e ctx) ev.repository.rules
    → Detects e ctx ev true (run_candidates (detection_of e ctx) e ctx ev (some rules))
unfolding Detects run_candidates
run_candidates-Detects e ctx ev rules tu ne h =
    (_, _, refl, run_rules-sids e ctx tu rules _ ev.warned_sids ne ∙ ap sids_of h)

early-Detects :
    (e : IdsEvent) (ctx : Option FlowContext) (ev : Evaluator) (enabled empty ok : Bool)
    (o : Option (Evaluator × List Detection))
    → (empty ≡ true → filter (fires e ctx) ev.repository.rules ≡ [])
    → (ok ≡ true → Detects e ctx ev true o)
    → Detects e ctx ev (enabled && ok) (
        if not enabled || empty || not ok
        then some (record ev { stats = record_event_skipped ev.stats }, [])
        else o)
unfolding Detects
early-Detects e ctx ev false empty ok o h k = (_, _, refl, refl)
early-Detects e ctx ev true true true o h k = (_, _, refl, ap sids_of (sym (h refl)))
early-Detects e ctx ev true true false o h k = (_, _, refl, refl)
early-Detects e ctx ev true false true o h k = k refl
early-Detects e ctx ev true false false o h k = (_, _, refl, refl)

eligible-tcp_or_udp : (e : IdsEvent) → eligible e ≡ true → tcp_or_udp e.transport_protocol ≡ true
unfolding eligible
eligible-tcp_or_udp e h = ground arith

-- `detect` always returns on an evaluator that is ready. If no rule of the repository has an empty
-- pattern, then it returns one detection for each rule that fires, with the rule's sid and in
-- repository order, when the engine is enabled and the event eligible; else it returns none.
pub detect_lem :
    (e : IdsEvent) (ctx : Option FlowContext) (ev : Evaluator)
    → IsReady ev
    → All (λ r. Patterns r.contents) ev.repository.rules
    → (ev' : Evaluator) × (ds : List Detection) × (detect e ctx ev ≡ some (ev', ds))
      × (map (λ d. d.sid) ds
          ≡ map
              (λ r. r.sid)
              (if ev.enabled && eligible e then filter (fires e ctx) ev.repository.rules else []))
unfolding detect run Detects
detect_lem e ctx ev ready ne =
    early-Detects e ctx ev ev.enabled (length ev.repository.rules == 0) (eligible e) _
      (no_rules (fires e ctx) ev.repository.rules)
      (λ ok. rw (ready-candidates ev e ready) (
        run_candidates-Detects e ctx ev _ (eligible-tcp_or_udp e ok)
          (All-scan_rules ev.repository.rules _ _ ne) (scan-fires e ctx ev.repository.rules)))
