-- ===== src/Engine/Evaluator/Built.antt =====
-- src/engine/detection.py: a detection can be built of whatever `match_rule` returns for a TCP or
-- UDP event.
use nt204_r11_antn_nguyen_th.Base.{
  ℕ, ◌+◌, ◌≡◌, refl, sym, ap, ◌∙◌, subst, inl, inr, Bool, true, false, ◌&&◌, Option, none, some,
  List, [], ◌∷◌, all, lower, upper, lower_code, upper_code, Text, codes, text_eq, text_eq_refl,
  arith, if◌then◌else◌, Bool-cases, Option-cases,
}
use nt204_r11_antn_nguyen_th.Models.Rule.{Rule, ContentSpec}
use nt204_r11_antn_nguyen_th.Models.Event.{IdsEvent}
use nt204_r11_antn_nguyen_th.Models.EngineTypes.{FlowContext, MatchResult}
use nt204_r11_antn_nguyen_th.Engine.Content.{
  Match, HitPath, report, match_contents, match_chain, as_bytes,
}
use nt204_r11_antn_nguyen_th.Engine.Content.Chain.{IsChain, Patterns}
use nt204_r11_antn_nguyen_th.Engine.Stats.{Stats}
use nt204_r11_antn_nguyen_th.Engine.Matcher.{
  Attempt, returned, raised, ContentFn, Tested, content_stage, last_stage, match_rule, match_header,
  match_flow, match_packet, stages,
}
use nt204_r11_antn_nguyen_th.Engine.Detection.{
  Detection, checked, make_detection, match_ok, or_header, is_detection_protocol, upper_of,
}
use nt204_r11_antn_nguyen_th.Engine.Content.Find.{LoweredOk}
use nt204_r11_antn_nguyen_th.Engine.Content.Complete.{match_chain_sound}
use nt204_r11_antn_nguyen_th.Engine.Evaluator.Payload.{
  reported, match_contents-eq, lowered_for-LoweredOk, match_chain_empty,
}
use nt204_r11_antn_nguyen_th.Engine.Evaluator.{tcp_or_udp, content_fn_for, lowered_for}

lower_t : (c : ℕ) → lower_code c ≡ b't' → upper_code c ≡ b'T'
lower_t c h = ground arith

lower_c : (c : ℕ) → lower_code c ≡ b'c' → upper_code c ≡ b'C'
lower_c c h = ground arith

lower_p : (c : ℕ) → lower_code c ≡ b'p' → upper_code c ≡ b'P'
lower_p c h = ground arith

lower_u : (c : ℕ) → lower_code c ≡ b'u' → upper_code c ≡ b'U'
lower_u c h = ground arith

lower_d : (c : ℕ) → lower_code c ≡ b'd' → upper_code c ≡ b'D'
lower_d c h = ground arith

three_letters :
    (p : Text) (x y z : ℕ)
    → text_eq (lower p) (x ∷ y ∷ z ∷ []) ≡ true
    → (a : ℕ) × (b : ℕ) × (c : ℕ) × (p ≡ a ∷ b ∷ c ∷ [])
      × (lower_code a ≡ x)
      × (lower_code b ≡ y)
      × (lower_code c ≡ z)
unfolding text_eq
three_letters [] x y z h = cc
three_letters (a ∷ []) x y z h = ground arith
three_letters (a ∷ b ∷ []) x y z h = ground arith
three_letters (a ∷ b ∷ c ∷ []) x y z h = (a, b, c, refl, ground arith, ground arith, ground arith)
three_letters (a ∷ b ∷ c ∷ d ∷ p) x y z h = ground arith

upper_tcp : (p : Text) → text_eq (lower p) (codes "tcp") ≡ true → upper p ≡ codes "TCP"
upper_tcp p h =
    let (a, b, c, e, x, y, z) = three_letters p b't' b'c' b'p' h in
    ap upper e ∙ ground (arith, lower_t a x, lower_c b y, lower_p c z)

upper_udp : (p : Text) → text_eq (lower p) (codes "udp") ≡ true → upper p ≡ codes "UDP"
upper_udp p h =
    let (a, b, c, e, x, y, z) = three_letters p b'u' b'd' b'p' h in
    ap upper e ∙ ground (arith, lower_u a x, lower_d b y, lower_p c z)

detection_protocol :
    (t : Option Text) → tcp_or_udp t ≡ true → is_detection_protocol (upper_of t) ≡ true
unfolding tcp_or_udp is_detection_protocol upper_of
detection_protocol none h = cc
detection_protocol (some p) h = elim (Bool-cases (text_eq (lower p) (codes "tcp"))) [
  | inl e ↦ ground (arith, upper_tcp p e, text_eq_refl (codes "TCP"))
  | inr e ↦
      let udp : text_eq (lower p) (codes "udp") ≡ true = ground arith in
      ground (arith, upper_udp p udp, text_eq_refl (codes "UDP"))
]

or_header-ok : (ms : List Match) → all match_ok ms ≡ true → all match_ok (or_header ms) ≡ true
unfolding or_header match_ok
or_header-ok [] h = refl
or_header-ok (m ∷ ms) h = h

if_both : {A : Type 0} (a b : Bool) (x y : A) → a ≡ true → b ≡ true → (if a && b then x else y) ≡ x
if_both true true x y h k = refl
if_both true false x y h k = cc
if_both false b x y h k = cc

checked_lem :
    (d : Detection)
    → is_detection_protocol d.protocol ≡ true
    → all match_ok (or_header d.matched) ≡ true
    → checked d ≡ returned (record d { matched = or_header d.matched })
unfolding checked
checked_lem d h k = if_both _ _ _ _ h k

-- A detection can be built of every TCP or UDP event and sound matches.
pub make_detection_lem :
    (rule : Rule) (e : IdsEvent) (ctx : Option FlowContext) (ms : List Match)
    → tcp_or_udp e.transport_protocol ≡ true
    → all match_ok ms ≡ true
    → (d : Detection) × (make_detection rule e ctx ms ≡ returned d) × (d.sid ≡ rule.sid)
unfolding make_detection
make_detection_lem rule e ctx ms h k =
    (_, checked_lem _ (detection_protocol e.transport_protocol h) (or_header-ok ms k), refl)

report-ok :
    (bytes : List ℕ) (cs : List ContentSpec) (prev_end : ℕ) (path : HitPath)
    → Patterns cs
    → IsChain bytes cs prev_end path
    → all match_ok (report cs path) ≡ true
unfolding report match_ok
report-ok bytes [] q path ne h = refl
report-ok bytes (c ∷ cs) q [] ne h = refl
report-ok bytes (c ∷ cs) q ((pos, len) ∷ path) ne h =
    ground (arith, ne.0, h.1, report-ok bytes cs (pos + len) path ne.1 h.2)

abbrev found_ok : Option (List Match) → Bool
found_ok none = true
found_ok (some ms) = all match_ok ms

no_contents_ok : (o : Option HitPath) → found_ok (reported [] o) ≡ true
unfolding report
no_contents_ok none = refl
no_contents_ok (some chain) = refl

reported-ok :
    (payload : Option (List ℕ)) (cs : List ContentSpec) (lowered : Option (List ℕ))
    → ((bytes : List ℕ) → payload ≡ some bytes → LoweredOk bytes lowered)
    → Patterns cs
    → found_ok (reported cs (match_chain payload cs lowered)) ≡ true
unfolding as_bytes
reported-ok none [] lowered ok ne = no_contents_ok _
reported-ok none (c ∷ cs) lowered ok ne = rw (match_chain_empty none c cs lowered refl) refl
reported-ok (some []) [] lowered ok ne = no_contents_ok _
reported-ok (some []) (c ∷ cs) lowered ok ne =
    rw (match_chain_empty (some []) c cs lowered refl) refl
reported-ok (some (b ∷ bs)) cs lowered ok ne =
    elim (Option-cases (match_chain (some (b ∷ bs)) cs lowered)) [
      | inl e ↦ rw (e) refl
      | inr (chain, e) ↦ rw (e) (
          report-ok (b ∷ bs) cs 0 chain ne
            (match_chain_sound b bs cs lowered chain (ok (b ∷ bs) refl) ne e))
    ]

content_fn_for-ok :
    (e : IdsEvent) (rule : Rule)
    → Patterns rule.contents
    → found_ok (match_contents rule e.payload (lowered_for rule e.payload)) ≡ true
content_fn_for-ok e rule ne = rw (match_contents-eq rule e.payload (lowered_for rule e.payload)) (
    reported-ok e.payload rule.contents (lowered_for rule e.payload)
      (λ bytes same.
        subst (λ p. LoweredOk bytes (lowered_for rule p)) (sym same)
          (lowered_for-LoweredOk rule bytes))
      ne)

-- The matches that an attempt returns are sound.
abbrev pub matches_ok : Attempt (MatchResult Match) → Bool
matches_ok raised = true
matches_ok (returned r) = all match_ok r.matches

content_stage-ok :
    (rule : Rule) (s : Stats) (o : Option (List Match))
    → found_ok o ≡ true
    → matches_ok (content_stage rule s (returned o)).1 ≡ true
unfolding content_stage
content_stage-ok rule s none h = refl
content_stage-ok rule s (some []) h = refl
content_stage-ok rule s (some (m ∷ ms)) h = h

last_stage-ok :
    (cs : List ContentSpec) (rule : Rule) (e : IdsEvent) (f : ContentFn) (o : Option (List Match))
    (s : Stats)
    → f rule e ≡ returned o
    → found_ok o ≡ true
    → matches_ok (last_stage cs rule e (some f) s).1 ≡ true
unfolding last_stage match_ok
last_stage-ok [] rule e f o s h k = refl
last_stage-ok (c ∷ cs) rule e f o s h k = rw (h) (content_stage-ok rule s o k)

stages-ok :
    (h fl p : Bool) (rule : Rule) (last : Stats → Tested) (s : Stats)
    → ((s1 : Stats) → matches_ok (last s1).1 ≡ true)
    → matches_ok (stages h fl p rule last s).1 ≡ true
unfolding stages
stages-ok false fl p rule last s k = refl
stages-ok true false p rule last s k = refl
stages-ok true true false rule last s k = refl
stages-ok true true true rule last s k = k _

pub match_rule-ok :
    (rule : Rule) (e : IdsEvent) (ctx : Option FlowContext) (s : Stats)
    → Patterns rule.contents
    → matches_ok (match_rule rule e ctx (some (content_fn_for e)) s).1 ≡ true
unfolding match_rule content_fn_for
match_rule-ok rule e ctx s ne =
    stages-ok (match_header rule e) (match_flow rule ctx) (match_packet rule e) rule _ s (λ s1.
      last_stage-ok rule.contents rule e (content_fn_for e) _ s1 refl (content_fn_for-ok e rule ne))
