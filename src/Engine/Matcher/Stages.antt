-- ===== src/Engine/Matcher/Stages.antt =====
-- src/engine/matcher.py: what `match_rule` returns and counts, stage by stage.
use nt204_r11_antn_nguyen_th.Base.{
  ◌+◌, ◌≡◌, refl, Bool, true, false, ◌&&◌, Option, none, some, List, [], ◌∷◌, arith,
}
use nt204_r11_antn_nguyen_th.Models.Rule.{Rule, ContentSpec}
use nt204_r11_antn_nguyen_th.Models.Event.{IdsEvent}
use nt204_r11_antn_nguyen_th.Models.EngineTypes.{FlowContext, MatchResult, match_result_ok}
use nt204_r11_antn_nguyen_th.Engine.Content.{Match}
use nt204_r11_antn_nguyen_th.Engine.Stats.{
  Stats, record_stage, record_match, record_rule_error, outcomes,
}
use nt204_r11_antn_nguyen_th.Engine.Matcher.{
  Attempt, returned, raised, ContentFn, call, Tested, content_stage, last_stage, match_rule,
  match_header, match_flow, match_packet, stages,
}

abbrev pub count_match : Bool → Stats → Stats
count_match true s = record_match s
count_match false s = s

-- What the caller counts for an attempt: an exception, a match, or nothing.
abbrev pub count_outcome : Tested → Stats
count_outcome (s, raised) = record_rule_error s
count_outcome (s, returned r) = count_match r.matched s

abbrev pub OkResult : Rule → Attempt (MatchResult Match) → Type 0
OkResult rule raised = Unit {0}
OkResult rule (returned r) = (r.rule ≡ rule) × (match_result_ok r ≡ true)

-- An attempt at `rule` from `s`: its result is about `rule` and passes the checks of `MatchResult`,
-- and it ends in one outcome.
abbrev pub WellTested : Rule → Stats → Tested → Type 0
WellTested rule s t =
    OkResult rule t.1
    × (outcomes (count_outcome t) ≡ outcomes s + 1)
    × ((count_outcome t).candidate_rules ≡ s.candidate_rules)

content_stage-WellTested :
    (rule : Rule) (s : Stats) (a : Attempt (Option (List Match)))
    → WellTested rule s (content_stage rule s a)
unfolding content_stage record_stage record_match record_rule_error match_result_ok
content_stage-WellTested rule s raised = (tt, omega arith, refl)
content_stage-WellTested rule s (returned none) = ((refl, refl), omega arith, refl)
content_stage-WellTested rule s (returned (some [])) = ((refl, refl), omega arith, refl)
content_stage-WellTested rule s (returned (some (m ∷ ms))) = ((refl, refl), omega arith, refl)

last_stage-WellTested :
    (cs : List ContentSpec) (rule : Rule) (e : IdsEvent) (f : Option ContentFn) (s : Stats)
    → WellTested rule s (last_stage cs rule e f s)
unfolding last_stage record_match match_result_ok
last_stage-WellTested [] rule e f s = ((refl, refl), omega arith, refl)
last_stage-WellTested (c ∷ cs) rule e f s = content_stage-WellTested rule s (call f rule e)

stages-WellTested :
    (h fl p : Bool) (rule : Rule) (last : Stats → Tested) (s : Stats)
    → ((s1 : Stats) → WellTested rule s1 (last s1))
    → WellTested rule s (stages h fl p rule last s)
unfolding stages record_stage match_result_ok
stages-WellTested false fl p rule last s k = ((refl, refl), omega arith, refl)
stages-WellTested true false p rule last s k = ((refl, refl), omega arith, refl)
stages-WellTested true true false rule last s k = ((refl, refl), omega arith, refl)
stages-WellTested true true true rule last s k = k s

module _ (rule : Rule) (e : IdsEvent) (ctx : Option FlowContext) where
  -- Whatever `content_fn` does, one call of `match_rule`, with what its caller counts, ends in
  -- exactly one outcome more and as many candidates as before. A result that it returns is about
  -- the rule and passes the checks of `MatchResult`.
  pub match_rule-WellTested :
      (f : Option ContentFn) (s : Stats) → WellTested rule s (match_rule rule e ctx f s)
  unfolding match_rule
  match_rule-WellTested f s =
      stages-WellTested (match_header rule e) (match_flow rule ctx) (match_packet rule e) rule
        (last_stage rule.contents rule e f) s (last_stage-WellTested rule.contents rule e f)

abbrev pub is_match : Attempt (MatchResult Match) → Bool
is_match raised = false
is_match (returned r) = r.matched

-- Whether the content stage lets a rule with these contents pass, by what `content_fn` does.
abbrev pub content_holds : List ContentSpec → Attempt (Option (List Match)) → Bool
content_holds [] a = true
content_holds (c ∷ cs) (returned (some (m ∷ ms))) = true
content_holds (c ∷ cs) _ = false

content_stage-is_match :
    (c : ContentSpec) (cs : List ContentSpec) (rule : Rule) (s : Stats)
    (a : Attempt (Option (List Match)))
    → is_match (content_stage rule s a).1 ≡ content_holds (c ∷ cs) a
unfolding content_stage
content_stage-is_match c cs rule s raised = refl
content_stage-is_match c cs rule s (returned none) = refl
content_stage-is_match c cs rule s (returned (some [])) = refl
content_stage-is_match c cs rule s (returned (some (m ∷ ms))) = refl

last_stage-is_match :
    (cs : List ContentSpec) (rule : Rule) (e : IdsEvent) (f : Option ContentFn) (s : Stats)
    → is_match (last_stage cs rule e f s).1 ≡ content_holds cs (call f rule e)
unfolding last_stage
last_stage-is_match [] rule e f s = refl
last_stage-is_match (c ∷ cs) rule e f s = content_stage-is_match c cs rule s (call f rule e)

stages-is_match :
    (h fl p : Bool) (rule : Rule) (last : Stats → Tested) (s : Stats) (ok : Bool)
    → ((s1 : Stats) → is_match (last s1).1 ≡ ok)
    → is_match (stages h fl p rule last s).1 ≡ (h && fl && p && ok)
unfolding stages
stages-is_match false fl p rule last s ok k = refl
stages-is_match true false p rule last s ok k = refl
stages-is_match true true false rule last s ok k = refl
stages-is_match true true true rule last s ok k = k _

-- The stages before the content search.
unfoldable pub gate : Rule → IdsEvent → Option FlowContext → Bool
gate rule e ctx = match_header rule e && match_flow rule ctx && match_packet rule e

stages-closed :
    (h fl p : Bool) (rule : Rule) (last last' : Stats → Tested) (s : Stats)
    → (h && fl && p) ≡ false
    → stages h fl p rule last s ≡ stages h fl p rule last' s
unfolding stages
stages-closed false fl p rule last last' s h0 = refl
stages-closed true false p rule last last' s h0 = refl
stages-closed true true false rule last last' s h0 = refl
stages-closed true true true rule last last' s h0 = cc

module _ (rule : Rule) (e : IdsEvent) (ctx : Option FlowContext) where
  -- A rule matches exactly if the header, flow and packet stages pass and, unless it has no
  -- contents, `content_fn` returns a list of matches that is not empty.
  pub match_rule-is_match :
      (f : Option ContentFn) (s : Stats)
      → is_match (match_rule rule e ctx f s).1 ≡ (
          match_header rule e
          && match_flow rule ctx
          && match_packet rule e
          && content_holds rule.contents (call f rule e))
  unfolding match_rule
  match_rule-is_match f s =
      stages-is_match (match_header rule e) (match_flow rule ctx) (match_packet rule e) rule _ s _
        (last_stage-is_match rule.contents rule e f)

  -- If the header, flow or packet stage fails then `content_fn` has no influence on the result or
  -- on the counters.
  match_rule_lazy :
      (f g : Option ContentFn) (s : Stats)
      → gate rule e ctx ≡ false
      → match_rule rule e ctx f s ≡ match_rule rule e ctx g s
  unfolding match_rule gate
  match_rule_lazy f g s h =
      stages-closed (match_header rule e) (match_flow rule ctx) (match_packet rule e) rule _ _ s h
