-- ===== src/Engine/Process.antt =====
-- src/engine/engine.py: `Engine.process`, which gives an event its flow context and detects. The
-- tracker is only read.
use nt204_r11_antn_nguyen_th.Base.{
  ℕ, ◌≡◌, refl, sym, ap, ◌∙◌, Bool, true, false, not, ◌&&◌, Option, none, some, List, length, ◌==◌,
  if◌then◌else◌, Text, text_eq, text_eq_sound, arith,
}
use nt204_r11_antn_nguyen_th.Models.Flow.{Flow}
use nt204_r11_antn_nguyen_th.Models.Event.{IdsEvent}
use nt204_r11_antn_nguyen_th.Models.EngineTypes.{FlowContext}
use nt204_r11_antn_nguyen_th.Flow.Tracker.{Tracker, snapshot}
use nt204_r11_antn_nguyen_th.Engine.Context.{build_flow_context}
use nt204_r11_antn_nguyen_th.Engine.Context.Roles.{from_flow-Describes}
use nt204_r11_antn_nguyen_th.Engine.Detection.{Detection}
use nt204_r11_antn_nguyen_th.Engine.Evaluator.{Evaluator, detect}

-- The snapshot, if it is the flow that the tracker assigned to the event.
assigned_flow : Text → Option Flow → Option Flow
assigned_flow flow_id none = none
assigned_flow flow_id (some f) = if text_eq f.flow_id flow_id then some f else none

flow_for : Option Tracker → IdsEvent → Option Text → Option Flow
flow_for none e flow_id = none
flow_for (some t) e none = none
flow_for (some t) e (some flow_id) = assigned_flow flow_id (snapshot t e)

unfoldable pub context_for : Option Tracker → Evaluator → List ℕ → IdsEvent → Option FlowContext
unfolding flow_for assigned_flow
context_for tracker ev known e =
    if not (length ev.repository.rules == 0) && ev.enabled
    then build_flow_context e (flow_for tracker e e.flow_id) known
    else none

unfoldable pub process :
    Option Tracker → List ℕ → IdsEvent → Evaluator → Option (Evaluator × List Detection)
process tracker known e ev = detect e (context_for tracker ev known e) ev

assigned_flow-same :
    (flow_id : Text) (o : Option Flow) (f : Flow)
    → assigned_flow flow_id o ≡ some f
    → f.flow_id ≡ flow_id
unfolding assigned_flow
assigned_flow-same flow_id none f h = cc
assigned_flow-same flow_id (some g) f h = ground (arith, text_eq_sound g.flow_id flow_id)

flow_for-same :
    (tracker : Option Tracker) (e : IdsEvent) (id : Option Text) (f : Flow)
    → flow_for tracker e id ≡ some f
    → id ≡ some f.flow_id
unfolding flow_for
flow_for-same none e id f h = cc
flow_for-same (some t) e none f h = cc
flow_for-same (some t) e (some flow_id) f h =
    ap some (sym (assigned_flow-same flow_id (snapshot t e) f h))

context-flow_id :
    (e : IdsEvent) (known : List ℕ) (o : Option Flow) (id : Option Text) (c : FlowContext)
    → ((f : Flow) → o ≡ some f → id ≡ some f.flow_id)
    → build_flow_context e o known ≡ some c
    → id ≡ some c.flow_id
unfolding build_flow_context
context-flow_id e known none id c k h = cc
context-flow_id e known (some f) id c k h =
    k f refl ∙ ap some (sym (from_flow-Describes e f known c h).1)

if_some :
    (b : Bool) (o : Option FlowContext) (c : FlowContext)
    → (if b then o else none) ≡ some c
    → o ≡ some c
if_some true o c h = h
if_some false o c h = cc

-- A packet is tested with the context of a flow only if the identifier of this flow is the one that
-- the event carries.
context_for-flow_id :
    (tracker : Option Tracker) (ev : Evaluator) (known : List ℕ) (e : IdsEvent) (c : FlowContext)
    → context_for tracker ev known e ≡ some c
    → e.flow_id ≡ some c.flow_id
unfolding context_for
context_for-flow_id tracker ev known e c h =
    context-flow_id e known (flow_for tracker e e.flow_id) e.flow_id c
      (flow_for-same tracker e e.flow_id)
      (if_some (not (length ev.repository.rules == 0) && ev.enabled) _ c h)
