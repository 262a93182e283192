-- ===== src/Engine/Context/Roles.antt =====
-- src/engine/flow_context.py: what a flow context says of the flow and of the packet's sender.
use nt204_r11_antn_nguyen_th.Base.{
  ℕ, ◌≡◌, refl, sym, ap, ◌∙◌, subst, ◌≢◌, ◌<◌, ◌⊎◌, inl, inr, ◌↔◌, Bool, true, false, not, Option,
  none, some, List, arith,
}
use nt204_r11_antn_nguyen_th.Models.Flow.{Flow, FlowProtocol, FlowState, Direction}
use nt204_r11_antn_nguyen_th.Models.Rule.{FlowRole}
use nt204_r11_antn_nguyen_th.Models.Event.{IdsEvent}
use nt204_r11_antn_nguyen_th.Models.EngineTypes.{FlowContext, ContextOk}
use nt204_r11_antn_nguyen_th.Engine.Content.Chain.{some-eq}
use nt204_r11_antn_nguyen_th.Engine.Context.{
  is_forward, client_is_a, role_of, or_state, is_established, tcp_context, udp_context,
  directed_context, packet_direction, from_flow,
}
use nt204_r11_antn_nguyen_th.Engine.Context.Sender.{
  HasRole, Sends, client-ServerSends, role_of-HasRole, packet_direction-Sends,
}

-- The state that the tracker gave to the event, or else the flow's.
abbrev pub HasState : IdsEvent → Flow → FlowState → Type 0
HasState e f s = (e.flow_state ≡ some s) ⊎ ((e.flow_state ≡ none) × (f.state ≡ s))

abbrev pub IsOpen : FlowState → Type 0
IsOpen s = (s ≡ FlowState.established) ⊎ (s ≡ FlowState.closing) ⊎ (s ≡ FlowState.closed)

-- When the connection counts as established: by its state, or when the other side has answered.
abbrev pub KnowsState : FlowProtocol → IdsEvent → Flow → FlowContext → Type 0
KnowsState FlowProtocol.tcp e f c = HasState e f c.state × ((c.established ≡ true) ↔ IsOpen c.state)
KnowsState FlowProtocol.udp e f c = (c.established ≡ true) ↔ (0 < f.bwd_packet_count)

-- What the code puts into a context.
abbrev Built : FlowProtocol → IdsEvent → Flow → List ℕ → FlowContext → Type 0
Built p e f known c =
    ContextOk c
    × (c.flow_id ≡ f.flow_id)
    × (c.protocol ≡ p)
    × (c.midstream ≡ f.midstream)
    × (packet_direction e f ≡ some c.direction)
    × (c.role ≡ some (role_of (is_forward c.direction) (client_is_a f known)))
    × KnowsState p e f c

AllBuilt : FlowProtocol → IdsEvent → Flow → List ℕ → Option FlowContext → Type 0
AllBuilt p e f known none = Unit {0}
AllBuilt p e f known (some c) = Built p e f known c

state_given :
    (e : IdsEvent) (f : Flow) (s : FlowState) (given : Option FlowState)
    → e.flow_state ≡ given
    → or_state e.flow_state f.state ≡ s
    → HasState e f s
state_given e f s none g h = inr (g, ground (arith, g, h))
state_given e f s (some x) g h = inl (ground (arith, g, h))

never_established : (s : FlowState) → is_established s ≡ false → (false ≡ true) ↔ IsOpen s
never_established FlowState.handshake h = (λ k. cc, λ k. ground (arith, k))
never_established FlowState.reset h = (λ k. cc, λ k. ground (arith, k))
never_established FlowState.active h = (λ k. cc, λ k. ground (arith, k))
never_established FlowState.established h = cc
never_established FlowState.closing h = cc
never_established FlowState.closed h = cc

tcp_context-Built :
    (e : IdsEvent) (f : Flow) (known : List ℕ) (d : Direction) (s : FlowState)
    → packet_direction e f ≡ some d
    → HasState e f s
    → AllBuilt FlowProtocol.tcp e f known
        (tcp_context f (role_of (is_forward d) (client_is_a f known)) d s)
unfolding tcp_context AllBuilt
tcp_context-Built e f known d FlowState.active g h = tt
tcp_context-Built e f known d FlowState.handshake g h =
    (refl, refl, refl, refl, g, refl, (h, never_established FlowState.handshake refl))
tcp_context-Built e f known d FlowState.established g h =
    (refl, refl, refl, refl, g, refl, (h, (λ k. inl refl, λ k. refl)))
tcp_context-Built e f known d FlowState.closing g h =
    (refl, refl, refl, refl, g, refl, (h, (λ k. inr (inl refl), λ k. refl)))
tcp_context-Built e f known d FlowState.closed g h =
    (refl, refl, refl, refl, g, refl, (h, (λ k. inr (inr refl), λ k. refl)))
tcp_context-Built e f known d FlowState.reset g h =
    (refl, refl, refl, refl, g, refl, (h, never_established FlowState.reset refl))

directed_context-Built :
    (p : FlowProtocol) (e : IdsEvent) (f : Flow) (known : List ℕ) (d : Option Direction)
    → packet_direction e f ≡ d
    → AllBuilt p e f known (directed_context p e f known d)
unfolding directed_context AllBuilt udp_context
directed_context-Built FlowProtocol.tcp e f known none g = tt
directed_context-Built FlowProtocol.udp e f known none g = tt
directed_context-Built FlowProtocol.tcp e f known (some d) g =
    tcp_context-Built e f known d _ g (state_given e f _ e.flow_state refl refl)
directed_context-Built FlowProtocol.udp e f known (some d) g =
    (refl, refl, refl, refl, g, refl, (λ k. ground (arith, k), λ k. ground (arith, k)))

from_flow-Built :
    (e : IdsEvent) (f : Flow) (known : List ℕ) (c : FlowContext)
    → from_flow e f known ≡ some c
    → Built f.protocol e f known c
unfolding from_flow AllBuilt
from_flow-Built e f known c h =
    subst (AllBuilt f.protocol e f known) h
      (directed_context-Built f.protocol e f known (packet_direction e f) refl)

-- Some of a context: it passes the checks of `FlowContext`, has the flow's identifier, protocol and
-- midstream mark, the direction of the packet, the role of its sender, and says whether the
-- connection is established.
abbrev pub Describes : IdsEvent → Flow → List ℕ → FlowContext → Type 0
Describes e f known c =
    ContextOk c
    × (c.flow_id ≡ f.flow_id)
    × (c.protocol ≡ f.protocol)
    × (c.midstream ≡ f.midstream)
    × Sends e f c.direction
    × ((role : FlowRole) × (c.role ≡ some role) × HasRole f known c.direction role)
    × KnowsState f.protocol e f c

pub from_flow-Describes :
    (e : IdsEvent) (f : Flow) (known : List ℕ) (c : FlowContext)
    → from_flow e f known ≡ some c
    → Describes e f known c
from_flow-Describes e f known c h =
    let (ok, id, protocol, mid, sent, role, state) = from_flow-Built e f known c h in
    (
      ok,
      id,
      protocol,
      mid,
      packet_direction-Sends e f c.direction _ _ _ refl refl refl sent,
      (
        _,
        role,
        role_of-HasRole f known c.direction (client_is_a f known)
            (client-ServerSends f known f.protocol refl),
      ),
      state,
    )

role_of-not : (a b : Bool) → role_of a b ≢ role_of (not a) b
role_of-not true true h = cc
role_of-not true false h = cc
role_of-not false true h = cc
role_of-not false false h = cc

-- Two packets of one flow in opposite directions never have the same role.
from_flow_roles :
    (e e' : IdsEvent) (f : Flow) (known : List ℕ) (c c' : FlowContext)
    → from_flow e f known ≡ some c
    → from_flow e' f known ≡ some c'
    → is_forward c'.direction ≡ not (is_forward c.direction)
    → c.role ≢ c'.role
from_flow_roles e e' f known c c' h k d same =
    let r = from_flow-Built e f known c h in
    let r' = from_flow-Built e' f known c' k in
    role_of-not (is_forward c.direction) (client_is_a f known)
      (some-eq (sym r.5 ∙ same ∙ r'.5 ∙ ap (λ b. some (role_of b (client_is_a f known))) d))
