-- ===== src/Engine/Matcher/Kept.antt =====
-- src/engine/matcher.py: the counters that `match_rule` leaves alone.
use nt204_r11_antn_nguyen_th.Base.{◌≡◌, refl, Bool, true, false, Option, none, some, List, [], ◌∷◌}
use nt204_r11_antn_nguyen_th.Models.Rule.{Rule, ContentSpec}
use nt204_r11_antn_nguyen_th.Models.Event.{IdsEvent}
use nt204_r11_antn_nguyen_th.Models.EngineTypes.{FlowContext}
use nt204_r11_antn_nguyen_th.Engine.Content.{Match}
use nt204_r11_antn_nguyen_th.Engine.Stats.{Stats, record_stage}
use nt204_r11_antn_nguyen_th.Engine.Matcher.{
  Attempt, returned, raised, ContentFn, call, Tested, content_stage, last_stage, match_rule,
  match_header, match_flow, match_packet, stages,
}

abbrev pub Kept : Stats → Stats → Type 0
Kept s s' =
    (s'.matches ≡ s.matches)
    × (s'.events_evaluated ≡ s.events_evaluated)
    × (s'.events_skipped ≡ s.events_skipped)

content_stage-Kept :
    (rule : Rule) (s : Stats) (a : Attempt (Option (List Match)))
    → Kept s (content_stage rule s a).0
unfolding content_stage record_stage
content_stage-Kept rule s raised = (refl, refl, refl)
content_stage-Kept rule s (returned none) = (refl, refl, refl)
content_stage-Kept rule s (returned (some [])) = (refl, refl, refl)
content_stage-Kept rule s (returned (some (m ∷ ms))) = (refl, refl, refl)

last_stage-Kept :
    (cs : List ContentSpec) (rule : Rule) (e : IdsEvent) (f : Option ContentFn) (s : Stats)
    → Kept s (last_stage cs rule e f s).0
unfolding last_stage
last_stage-Kept [] rule e f s = (refl, refl, refl)
last_stage-Kept (c ∷ cs) rule e f s = content_stage-Kept rule s (call f rule e)

stages-Kept :
    (h fl p : Bool) (rule : Rule) (last : Stats → Tested) (s : Stats)
    → ((s1 : Stats) → Kept s1 (last s1).0)
    → Kept s (stages h fl p rule last s).0
unfolding stages record_stage
stages-Kept false fl p rule last s k = (refl, refl, refl)
stages-Kept true false p rule last s k = (refl, refl, refl)
stages-Kept true true false rule last s k = (refl, refl, refl)
stages-Kept true true true rule last s k = k s

pub match_rule-Kept :
    (rule : Rule) (e : IdsEvent) (ctx : Option FlowContext) (f : Option ContentFn) (s : Stats)
    → Kept s (match_rule rule e ctx f s).0
unfolding match_rule
match_rule-Kept rule e ctx f s =
    stages-Kept (match_header rule e) (match_flow rule ctx) (match_packet rule e) rule
      (last_stage rule.contents rule e f) s (last_stage-Kept rule.contents rule e f)
