-- ===== src/Engine/Context/Sender.antt =====
-- src/engine/flow_context.py: who sends a packet, by the rules that the source states for the client
-- and the server of a flow.
use nt204_r11_antn_nguyen_th.Base.{
  ℕ, ◌≡◌, refl, sym, ap, ◌∙◌, ◌≤◌, ◌<◌, ◌⊎◌, inl, inr, Bool, true, false, not, Option, none, some,
  List, Text, Bool-cases, arith, ltb, text_eq_sound, text_eq_refl,
}
use nt204_r11_antn_nguyen_th.Models.Flow.{
  Flow, FlowProtocol, Direction, forward, backward, Endpoint,
}
use nt204_r11_antn_nguyen_th.Models.Rule.{FlowRole, to_server, to_client}
use nt204_r11_antn_nguyen_th.Models.Event.{IdsEvent}
use nt204_r11_antn_nguyen_th.Flow.Key.{direction_of}
use nt204_r11_antn_nguyen_th.Engine.Context.{
  is_known, server_index, is_first, is_forward, client_is_a, role_of, event_direction,
  packet_direction,
}

-- Which of two ports is the server's: `backward` if it is the second. One that is known and the
-- other not, or else the smaller one; with equal ports the first is the client.
pub data ServerByPort (a b : ℕ) (known : List ℕ) : Direction → Type 0 where
  only_first_known :
      is_known a known ≡ true → is_known b known ≡ false → ServerByPort a b known forward
  only_second_known :
      is_known a known ≡ false → is_known b known ≡ true → ServerByPort a b known backward
  first_smaller : is_known a known ≡ is_known b known → a < b → ServerByPort a b known forward
  first_not_smaller : is_known a known ≡ is_known b known → b ≤ a → ServerByPort a b known backward

-- The direction of the packets that the server of a flow sends. The sender of the SYN of a TCP flow
-- is the client; a flow without one is judged by its ports.
pub data ServerSends (f : Flow) (known : List ℕ) : Direction → Type 0 where
  syn_seen : f.protocol ≡ FlowProtocol.tcp → f.midstream ≡ false → ServerSends f known backward
  tcp_by_port :
      {d : Direction}
      → f.protocol ≡ FlowProtocol.tcp
      → f.midstream ≡ true
      → ServerByPort f.endpoint_a.port f.endpoint_b.port known d
      → ServerSends f known d
  udp_by_port :
      {d : Direction}
      → f.protocol ≡ FlowProtocol.udp
      → ServerByPort f.endpoint_a.port f.endpoint_b.port known d
      → ServerSends f known d

abbrev pub opposite : Direction → Direction
opposite forward = backward
opposite backward = forward

abbrev server_sends : Bool → Direction
server_sends true = forward
server_sends false = backward

index_known :
    (a b : ℕ) (known : List ℕ)
    → is_known b known ≡ not (is_known a known)
    → is_first (server_index a b known) ≡ is_known a known
unfolding server_index
index_known a b known h = elim (Bool-cases (is_known a known)) [
  | inl x ↦ rw (server_index, h, x) refl
  | inr x ↦ rw (server_index, h, x) refl
]

index_size :
    (a b : ℕ) (known : List ℕ)
    → is_known b known ≡ is_known a known
    → is_first (server_index a b known) ≡ ltb a b
unfolding server_index
index_size a b known h = elim (Bool-cases (is_known a known)) [
  | inl x ↦ rw (server_index, h, x) (ground arith)
  | inr x ↦ rw (server_index, h, x) (ground arith)
]

index-ServerByPort :
    (a b : ℕ) (known : List ℕ)
    → ServerByPort a b known (server_sends (is_first (server_index a b known)))
index-ServerByPort a b known = elim (Bool-cases (is_known a known)) [
  | inl x ↦ elim (Bool-cases (is_known b known)) [
    | inl y ↦ by_size (y ∙ sym x)
    | inr y ↦ rw (index_known a b known (y ∙ sym (ap not x)), x) (only_first_known x y)
  ]
  | inr x ↦ elim (Bool-cases (is_known b known)) [
    | inl y ↦ rw (index_known a b known (y ∙ sym (ap not x)), x) (only_second_known x y)
    | inr y ↦ by_size (y ∙ sym x)
  ]
]
  where
    by_size :
        is_known b known ≡ is_known a known
        → ServerByPort a b known (server_sends (is_first (server_index a b known)))
    by_size h = elim (Bool-cases (ltb a b)) [
      | inl l ↦ rw (index_size a b known h, l) (first_smaller (sym h) (ground (arith, l)))
      | inr l ↦ rw (index_size a b known h, l) (first_not_smaller (sym h) (ground (arith, l)))
    ]

by_port_alone :
    (f : Flow) (known : List ℕ)
    → (f.protocol ≡ FlowProtocol.udp) ⊎ (f.midstream ≡ true)
    → not (client_is_a f known) ≡ is_first (server_index f.endpoint_a.port f.endpoint_b.port known)
unfolding client_is_a
by_port_alone f known h = ground (arith, h)

by_syn :
    (f : Flow) (known : List ℕ)
    → f.protocol ≡ FlowProtocol.tcp
    → f.midstream ≡ false
    → client_is_a f known ≡ true
unfolding client_is_a
by_syn f known h m = rw (client_is_a, h, m) refl

ports-ServerByPort :
    (f : Flow) (known : List ℕ)
    → (f.protocol ≡ FlowProtocol.udp) ⊎ (f.midstream ≡ true)
    → ServerByPort f.endpoint_a.port f.endpoint_b.port known
        (server_sends (not (client_is_a f known)))
ports-ServerByPort f known h =
    rw (by_port_alone f known h) (index-ServerByPort f.endpoint_a.port f.endpoint_b.port known)

pub client-ServerSends :
    (f : Flow) (known : List ℕ) (p : FlowProtocol)
    → f.protocol ≡ p
    → ServerSends f known (server_sends (not (client_is_a f known)))
client-ServerSends f known FlowProtocol.udp h = udp_by_port h (ports-ServerByPort f known (inl h))
client-ServerSends f known FlowProtocol.tcp h = elim (Bool-cases f.midstream) [
  | inl m ↦ tcp_by_port h m (ports-ServerByPort f known (inr m))
  | inr m ↦ rw (by_syn f known h m) (syn_seen h m)
]

-- The role of the sender of packets in a direction.
abbrev pub HasRole : Flow → List ℕ → Direction → FlowRole → Type 0
HasRole f known d to_client = ServerSends f known d
HasRole f known d to_server = ServerSends f known (opposite d)

pub role_of-HasRole :
    (f : Flow) (known : List ℕ) (d : Direction) (client : Bool)
    → ServerSends f known (server_sends (not client))
    → HasRole f known d (role_of (is_forward d) client)
role_of-HasRole f known forward true h = h
role_of-HasRole f known forward false h = h
role_of-HasRole f known backward true h = h
role_of-HasRole f known backward false h = h

-- A packet from this address and port is `forward` exactly if they are the first endpoint's.
abbrev pub ComesFrom : Endpoint → Text → ℕ → Direction → Type 0
ComesFrom a ip port forward = (a.ip ≡ ip) × (a.port ≡ port)
ComesFrom a ip port backward = ¬ ((a.ip ≡ ip) × (a.port ≡ port))

direction_of-ComesFrom :
    (a : Endpoint) (ip : Text) (port : ℕ) (d : Direction)
    → direction_of a ip port ≡ d
    → ComesFrom a ip port d
unfolding direction_of
direction_of-ComesFrom a ip port forward h = ground (arith, h, text_eq_sound a.ip ip)
direction_of-ComesFrom a ip port backward h = λ (i, p). ground (arith, h, i, p, text_eq_refl ip)

-- The direction of a packet: the tracker's, or else the one that its source tells.
abbrev pub Sends : IdsEvent → Flow → Direction → Type 0
Sends e f d =
    (e.direction ≡ some d)
    ⊎ ((e.direction ≡ none)
        × (ip : Text) × (port : ℕ) × (e.src_ip ≡ some ip)
        × (e.src_port ≡ some port)
        × ComesFrom f.endpoint_a ip port d)

pub packet_direction-Sends :
    (e : IdsEvent) (f : Flow) (d : Direction) (given : Option Direction) (ip : Option Text)
    (port : Option ℕ)
    → e.direction ≡ given
    → e.src_ip ≡ ip
    → e.src_port ≡ port
    → packet_direction e f ≡ some d
    → Sends e f d
unfolding packet_direction event_direction
packet_direction-Sends e f d (some x) ip port g i p h = inl (ground (arith, g, h))
packet_direction-Sends e f d none none port g i p h = ground (arith, g, i, h)
packet_direction-Sends e f d none (some x) none g i p h = ground (arith, g, i, p, h)
packet_direction-Sends e f d none (some x) (some y) g i p h =
    inr (g, x, y, i, p, direction_of-ComesFrom f.endpoint_a x y d (ground (arith, g, i, p, h)))
