-- ===== src/Engine/Evaluator/Counters.antt =====
-- src/engine/evaluator.py: the counters after an event.
use nt204_r11_antn_nguyen_th.Base.{
  ℕ, ◌+◌, ◌≡◌, refl, sym, subst, ◌∙◌, Bool, true, false, not, ◌||◌, Option, none, some, List, [],
  ◌∷◌, length, ◌==◌, if◌then◌else◌, arith, Bool-cases, inl, inr,
}
use nt204_r11_antn_nguyen_th.Models.Rule.{Rule}
use nt204_r11_antn_nguyen_th.Models.Event.{IdsEvent}
use nt204_r11_antn_nguyen_th.Models.EngineTypes.{FlowContext, MatchResult}
use nt204_r11_antn_nguyen_th.Engine.Content.{Match}
use nt204_r11_antn_nguyen_th.Engine.Stats.{
  Stats, record_event_skipped, record_event_evaluated, record_match, record_rule_error, outcomes,
  is_consistent,
}
use nt204_r11_antn_nguyen_th.Engine.Matcher.{
  Attempt, returned, raised, ContentFn, Tested, match_rule,
}
use nt204_r11_antn_nguyen_th.Engine.Matcher.Stages.{WellTested, count_match, match_rule-WellTested}
use nt204_r11_antn_nguyen_th.Engine.Matcher.Kept.{Kept, match_rule-Kept}
use nt204_r11_antn_nguyen_th.Engine.Evaluator.{
  Evaluator, eligible, built, settle, add_item, run_rules, run_candidates, run, content_fn_for,
}
use nt204_r11_antn_nguyen_th.Rules.Indexer.{candidates}

module _ {A : Type 0} (build : Rule → MatchResult Match → Attempt A) where
  built-outcomes :
      (m : Bool) (rule : Rule) (s : Stats) (sids : List ℕ) (out : Attempt A)
      → (outcomes (if m then built build rule s sids out else (s, sids, none)).0
          ≡ outcomes (count_match m s))
        × ((if m then built build rule s sids out else (s, sids, none)).0.candidate_rules
            ≡ s.candidate_rules)
  unfolding built record_match record_rule_error
  built-outcomes true rule s sids raised = (omega arith, refl)
  built-outcomes true rule s sids (returned item) = (refl, refl)
  built-outcomes false rule s sids out = (refl, refl)

  count_match-candidates :
      (m : Bool) (s : Stats) → (count_match m s).candidate_rules ≡ s.candidate_rules
  unfolding record_match
  count_match-candidates true s = refl
  count_match-candidates false s = refl

  settle-outcomes :
      (rule : Rule) (s : Stats) (t : Tested) (sids : List ℕ)
      → WellTested rule s t
      → (outcomes (settle build rule t sids).0 ≡ outcomes s + 1)
        × ((settle build rule t sids).0.candidate_rules ≡ s.candidate_rules)
  unfolding settle built
  settle-outcomes rule s (s1, raised) sids w = (w.1, w.2)
  settle-outcomes rule s (s1, returned r) sids w =
      let b = built-outcomes r.matched rule s1 sids (build rule r) in
      (b.0 ∙ w.1, b.1 ∙ sym (count_match-candidates r.matched s1) ∙ w.2)

  run_rules-outcomes :
      (e : IdsEvent) (ctx : Option FlowContext) (f : Option ContentFn) (rules : List Rule)
      (s : Stats) (sids : List ℕ)
      → (outcomes (run_rules build e ctx f rules s sids).0 ≡ outcomes s + length rules)
        × ((run_rules build e ctx f rules s sids).0.candidate_rules ≡ s.candidate_rules)
  unfolding run_rules
  run_rules-outcomes e ctx f [] s sids = (omega arith, refl)
  run_rules-outcomes e ctx f (rule ∷ rules) s sids =
      let t = match_rule rule e ctx f s in
      let (s1, sids1, item) = settle build rule t sids in
      let head = settle-outcomes rule s t sids (match_rule-WellTested rule e ctx f s) in
      let tail =
        run_rules-outcomes e ctx f rules (settle build rule t sids).0
          (settle build rule t sids).1 in
      (omega (arith, head.0, tail.0), tail.1 ∙ head.1)

  -- From `s` to `s'` with one match counted for each item.
  Grown : Stats → Stats → ℕ → Type 0
  Grown s s' n =
      (s'.matches ≡ s.matches + n)
      × (s'.events_evaluated ≡ s.events_evaluated)
      × (s'.events_skipped ≡ s.events_skipped)

  built-Grown :
      (m : Bool) (rule : Rule) (s0 s : Stats) (sids : List ℕ) (out : Attempt A)
      → Kept s0 s
      → Grown s0
          (if m then built build rule s sids out else (s, sids, none)).0
          (length (add_item (if m then built build rule s sids out else (s, sids, none)).2 []))
  unfolding Grown built record_match record_rule_error
  built-Grown true rule s0 s sids raised k = (omega (arith, k.0), k.1, k.2)
  built-Grown true rule s0 s sids (returned item) k = (omega (arith, k.0), k.1, k.2)
  built-Grown false rule s0 s sids out k = (omega (arith, k.0), k.1, k.2)

  settle-Grown :
      (rule : Rule) (s : Stats) (t : Tested) (sids : List ℕ)
      → Kept s t.0
      → Grown s (settle build rule t sids).0 (length (add_item (settle build rule t sids).2 []))
  unfolding settle Grown record_rule_error
  settle-Grown rule s (s1, raised) sids k = (omega (arith, k.0), k.1, k.2)
  settle-Grown rule s (s1, returned r) sids k =
      built-Grown r.matched rule s s1 sids (build rule r) k

  length-add_item :
      (item : Option A) (items : List A)
      → length (add_item item items) ≡ length (add_item item []) + length items
  length-add_item none items = omega arith
  length-add_item (some item) items = omega arith

  run_rules-Grown :
      (e : IdsEvent) (ctx : Option FlowContext) (f : Option ContentFn) (rules : List Rule)
      (s : Stats) (sids : List ℕ)
      → Grown s
          (run_rules build e ctx f rules s sids).0
          (length (run_rules build e ctx f rules s sids).2)
  unfolding run_rules Grown
  run_rules-Grown e ctx f [] s sids = (omega arith, refl, refl)
  run_rules-Grown e ctx f (rule ∷ rules) s sids =
      let t = match_rule rule e ctx f s in
      let out = settle build rule t sids in
      let head = settle-Grown rule s t sids (match_rule-Kept rule e ctx f s) in
      let tail = run_rules-Grown e ctx f rules out.0 out.1 in
      let items = (run_rules build e ctx f rules out.0 out.1).2 in
      (omega (arith, head.0, tail.0, length-add_item out.2 items), tail.1 ∙ head.1, tail.2 ∙ head.2)

  -- What one event adds to the counters: `n` candidates and as many outcomes, a match for each item
  -- and one event.
  pub Counted : Stats → Stats → List A → Type 0
  Counted s s' items =
      (n : ℕ) × (outcomes s' ≡ outcomes s + n)
      × (s'.candidate_rules ≡ s.candidate_rules + n)
      × (s'.matches ≡ s.matches + length items)
      × (s'.events_evaluated + s'.events_skipped ≡ s.events_evaluated + s.events_skipped + 1)

  CountedBy : Stats → Option (Evaluator × List A) → Type 0
  CountedBy s none = Unit {0}
  CountedBy s (some (ev, items)) = Counted s ev.stats items

  run_candidates-Counted :
      (e : IdsEvent) (ctx : Option FlowContext) (ev : Evaluator) (o : Option (List Rule))
      → CountedBy ev.stats (run_candidates build e ctx ev o)
  unfolding run_candidates CountedBy Counted Grown record_event_evaluated
  run_candidates-Counted e ctx ev none = tt
  run_candidates-Counted e ctx ev (some rules) =
      let s = record_event_evaluated (length rules) ev.stats in
      let f = some (content_fn_for e) in
      let (out, cands) = run_rules-outcomes e ctx f rules s ev.warned_sids in
      let (ms, evs, skips) = run_rules-Grown e ctx f rules s ev.warned_sids in
      (
        length rules,
        omega (arith, out),
        omega (arith, cands),
        omega (arith, ms),
        omega (arith, evs, skips),
      )

  run-CountedBy :
      (e : IdsEvent) (ctx : Option FlowContext) (ev : Evaluator)
      → CountedBy ev.stats (run build e ctx ev)
  unfolding run CountedBy Counted record_event_skipped
  run-CountedBy e ctx ev =
      elim (Bool-cases (not ev.enabled || length ev.repository.rules == 0 || not (eligible e))) [
        | inl h ↦ rw (h) (0, omega arith, omega arith, omega arith, omega arith)
        | inr h ↦ rw (h) (
            run_candidates-Counted e ctx ev (candidates ev.indexer e.transport_protocol e.dst_port))
      ]

  -- Whatever the rules and `build` do, an event for which `run` returns adds as many outcomes as
  -- candidates, one match for each item that it returns, and one to the events evaluated or
  -- skipped.
  pub run-Counted :
      (e : IdsEvent) (ctx : Option FlowContext) (ev ev' : Evaluator) (items : List A)
      → run build e ctx ev ≡ some (ev', items)
      → Counted ev.stats ev'.stats items
  unfolding CountedBy
  run-Counted e ctx ev ev' items h = subst (CountedBy ev.stats) h (run-CountedBy e ctx ev)

  -- If the equation that `is_consistent` checks holds before an event for which `run` returns, it
  -- holds after it.
  pub run-is_consistent :
      (e : IdsEvent) (ctx : Option FlowContext) (ev ev' : Evaluator) (items : List A)
      → is_consistent ev.stats ≡ true
      → run build e ctx ev ≡ some (ev', items)
      → is_consistent ev'.stats ≡ true
  unfolding is_consistent Counted
  run-is_consistent e ctx ev ev' items c h =
      let (n, outs, cands, ms, evs) = run-Counted e ctx ev ev' items h in
      ground (arith, outs, cands)
