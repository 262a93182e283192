-- ===== src/Engine/Context.antt =====
-- src/engine/flow_context.py: what the flow of a packet says to `flow:` rules.
pub mod Sender
pub mod Roles
use nt204_r11_antn_nguyen_th.Base.{
  ℕ, ◌≡◌, refl, Bool, true, false, not, ◌&&◌, ◌||◌, Option, none, some, List, [], ◌∷◌, any, ltb,
  ◌==◌, if◌then◌else◌, Text,
}
use nt204_r11_antn_nguyen_th.Models.Flow.{
  Flow, FlowProtocol, FlowState, Direction, forward, backward, Endpoint,
}
use nt204_r11_antn_nguyen_th.Models.Rule.{FlowRole, to_server, to_client}
use nt204_r11_antn_nguyen_th.Models.Event.{IdsEvent}
use nt204_r11_antn_nguyen_th.Models.EngineTypes.{FlowContext}
use nt204_r11_antn_nguyen_th.Flow.Key.{direction_of}

-- The index of an endpoint: 0 for the first, 1 for the second.
pub data Side : Type 0 where
  first second : Side

abbrev pub is_known : ℕ → List ℕ → Bool
is_known port known = any (λ k. port == k) known

abbrev pub same_bool : Bool → Bool → Bool
same_bool true b = b
same_bool false b = not b

-- `_server_index`
unfoldable pub server_index : ℕ → ℕ → List ℕ → Option Side
server_index a b known =
    let a_known = is_known a known in
    let b_known = is_known b known in
    if not (same_bool a_known b_known)
    then (if a_known then some first else some second)
    else if not (a == b)
    then (if ltb a b then some first else some second)
    else none

direction_from : Endpoint → Option Text → Option ℕ → Option Direction
direction_from a (some ip) (some port) = some (direction_of a ip port)
direction_from a _ _ = none

unfoldable pub event_direction : Option Direction → Option Direction → Option Direction
event_direction (some d) guessed = some d
event_direction none guessed = guessed

-- `_packet_direction`
unfoldable pub packet_direction : IdsEvent → Flow → Option Direction
unfolding direction_from
packet_direction e f = event_direction e.direction (direction_from f.endpoint_a e.src_ip e.src_port)

abbrev pub is_first : Option Side → Bool
is_first (some first) = true
is_first _ = false

abbrev pub is_forward : Direction → Bool
is_forward forward = true
is_forward backward = false

-- Whether the first endpoint is the client; `known` are the ports of the configuration.
unfoldable pub client_is_a : Flow → List ℕ → Bool
client_is_a f known = elim f.protocol [
  | FlowProtocol.tcp ↦
      if not f.midstream
      then true
      else not (is_first (server_index f.endpoint_a.port f.endpoint_b.port known))
  | FlowProtocol.udp ↦ not (is_first (server_index f.endpoint_a.port f.endpoint_b.port known))
]

abbrev pub role_of : Bool → Bool → FlowRole
role_of sender_is_a client_is_a = if same_bool sender_is_a client_is_a then to_server else to_client

abbrev pub or_state : Option FlowState → FlowState → FlowState
or_state none s = s
or_state (some s) old = s

-- `state in ESTABLISHED_TCP_STATES`
abbrev pub is_established : FlowState → Bool
is_established FlowState.established = true
is_established FlowState.closing = true
is_established FlowState.closed = true
is_established _ = false

unfoldable pub tcp_context : Flow → FlowRole → Direction → FlowState → Option FlowContext
tcp_context f role d FlowState.active = none
tcp_context f role d s = some (record {
  flow_id = f.flow_id;
  protocol = FlowProtocol.tcp;
  state = s;
  role = some role;
  established = is_established s;
  midstream = f.midstream;
  direction = d;
})

unfoldable pub udp_context : Flow → FlowRole → Direction → Option FlowContext
udp_context f role d = some (record {
  flow_id = f.flow_id;
  protocol = FlowProtocol.udp;
  state = FlowState.active;
  role = some role;
  established = ltb 0 f.bwd_packet_count;
  midstream = f.midstream;
  direction = d;
})

unfoldable pub directed_context :
    FlowProtocol → IdsEvent → Flow → List ℕ → Option Direction → Option FlowContext
directed_context p e f known none = none
directed_context FlowProtocol.tcp e f known (some d) =
    tcp_context f (role_of (is_forward d) (client_is_a f known)) d (or_state e.flow_state f.state)
directed_context FlowProtocol.udp e f known (some d) =
    udp_context f (role_of (is_forward d) (client_is_a f known)) d

-- `_from_flow`
unfoldable pub from_flow : IdsEvent → Flow → List ℕ → Option FlowContext
from_flow e f known = directed_context f.protocol e f known (packet_direction e f)

unfoldable pub build_flow_context : IdsEvent → Option Flow → List ℕ → Option FlowContext
build_flow_context e none known = none
build_flow_context e (some f) known = from_flow e f known
