-- ===== src/Flow/Tracker/Update.antt =====
-- `FlowTracker.update`, step by step under the numbers of its comments. `digest` is the hash of
-- `hashlib` by which a flow gets its identifier.
use nt204_r11_antn_nguyen_th.Base.{
  ℕ, zero, suc, ◌+◌, ◌-◌, min, max, Bool, true, false, not, ◌&&◌, Option, none, some, List, length,
  leb, ◌==◌, if◌then◌else◌, Text, codes, text_eq, upper, ℤ, pos, negsuc,
}
use nt204_r11_antn_nguyen_th.Models.Flow.{
  Flow, FlowProtocol, tcp, udp, FlowState, handshake, active, port_reuse, evicted, Direction,
  forward, backward,
}
use nt204_r11_antn_nguyen_th.Models.Event.{IdsEvent}
use nt204_r11_antn_nguyen_th.Flow.Key.{Key-discrete, direction_of, make_flow_id}
use nt204_r11_antn_nguyen_th.Flow.Table
use nt204_r11_antn_nguyen_th.Flow.TcpState.{
  Context, normalize_flags, has_flag, next_state, is_terminal,
}
use nt204_r11_antn_nguyen_th.Flow.Timeout.{
  FlowConfig, FlowEntry, new_entry, is_expired, get_close_reason,
}
use nt204_r11_antn_nguyen_th.Flow.Tracker.{
  Tracker, Packet, packet, packet_key, export_flow, export_or_drop, sweep, sweep_interval,
  max_active_flows,
}

abbrev pub is_tcp : FlowProtocol → Bool
is_tcp tcp = true
is_tcp udp = false

-- "SYN" without "ACK"
unfoldable pub is_pure_syn : List Text → Bool
is_pure_syn flags = has_flag flags (codes "SYN") && not (has_flag flags (codes "ACK"))

-- 3. Lazy expiration and port reuse: the entry is `none` if the packet has to open a new flow.
unfoldable pub expire_or_reuse :
    Tracker → Packet → List Text → Option FlowEntry → Tracker × Option FlowEntry
expire_or_reuse t p flags none = (t, none)
expire_or_reuse t p flags (some e) =
    if is_expired e p.time t.cfg
    then (export_flow t e (get_close_reason e), none)
    else if is_tcp p.protocol && is_pure_syn flags && is_terminal e.flow.state
    then (export_flow t e port_reuse, none)
    else (t, some e)

-- 4.1 `while len(self.table) >= max_flows`: each round takes an entry away, so the number of
-- entries is fuel enough.
unfoldable pub evict : ℕ → ℕ → Tracker → Tracker
evict zero max_flows t = t
evict (suc fuel) max_flows t = elim (leb max_flows (length t.table)) [
  | false ↦ t
  | true ↦ elim (Table.oldest t.table) [
    | none ↦ t
    | some (key, entry) ↦ evict fuel max_flows (export_or_drop t key entry evicted)
  ]
]

abbrev pub initial_state : FlowProtocol → FlowState
initial_state udp = active
initial_state tcp = handshake

-- 7. The totals, those of the packet's direction, and the flag counters.
abbrev pub payload_length : Option (List ℕ) → ℕ
payload_length none = 0
payload_length (some bytes) = length bytes

abbrev pub raw_length_of : ℤ → ℕ
raw_length_of (pos n) = n
raw_length_of (negsuc n) = 0

abbrev count_if : Bool → ℕ → ℕ
count_if b n = if b then n + 1 else n

unfoldable pub count_totals : ℕ → ℕ → ℕ → Flow → Flow
count_totals time raw payload f = record f {
  start_time = min f.start_time time;
  last_seen = max f.last_seen time;
  packet_count = f.packet_count + 1;
  byte_count = f.byte_count + raw;
  payload_byte_count = f.payload_byte_count + payload;
}

unfoldable pub count_direction : Direction → ℕ → Flow → Flow
count_direction forward raw f = record f {
  fwd_packet_count = f.fwd_packet_count + 1;
  fwd_byte_count = f.fwd_byte_count + raw;
}
count_direction backward raw f = record f {
  bwd_packet_count = f.bwd_packet_count + 1;
  bwd_byte_count = f.bwd_byte_count + raw;
}

unfoldable pub count_flags : FlowProtocol → List Text → Flow → Flow
count_flags udp flags f = f
count_flags tcp flags f = record f {
  syn_count = count_if (has_flag flags (codes "SYN")) f.syn_count;
  ack_count = count_if (has_flag flags (codes "ACK")) f.ack_count;
  fin_count = count_if (has_flag flags (codes "FIN")) f.fin_count;
  rst_count = count_if (has_flag flags (codes "RST")) f.rst_count;
}

-- 7.5 Specific > UNKNOWN > None
unfoldable pub resolve_app : Option Text → Option Text → Option Text
resolve_app current none = current
resolve_app none (some app) = some (upper app)
resolve_app (some current) (some app) =
    if text_eq current (codes "UNKNOWN") && not (text_eq (upper app) (codes "UNKNOWN"))
    then some (upper app)
    else some current

unfoldable pub count : Packet → IdsEvent → List Text → Direction → Flow → Flow
count p e flags direction f =
    let raw = raw_length_of e.raw_length in
    let totals = count_totals p.time raw (payload_length e.payload) f in
    let counted = count_flags p.protocol flags (count_direction direction raw totals) in
    record counted { application_protocol = resolve_app f.application_protocol e.app_protocol }

-- 6. The TCP state machine; the event gets the state after the packet.
abbrev same_state : FlowState → FlowState → Bool
same_state FlowState.handshake FlowState.handshake = true
same_state FlowState.established FlowState.established = true
same_state FlowState.closing FlowState.closing = true
same_state FlowState.closed FlowState.closed = true
same_state FlowState.reset FlowState.reset = true
same_state FlowState.active FlowState.active = true
same_state _ _ = false

abbrev pub context_of : FlowConfig → FlowEntry → Context
context_of cfg entry = record {
  synack_seen = entry.synack_seen;
  synack_dir = entry.synack_dir;
  fin_fwd = entry.fin_fwd;
  fin_bwd = entry.fin_bwd;
  midstream = entry.flow.midstream;
  requires_final_ack = elim cfg.tcp_close_requires_final_ack [ none ↦ false | some b ↦ b ];
}

store_context : ℕ → FlowEntry → FlowState × Context → FlowEntry
store_context time entry (state, ctx) = record {
  flow = record entry.flow { midstream = ctx.midstream; state = state };
  fin_fwd = ctx.fin_fwd;
  fin_bwd = ctx.fin_bwd;
  synack_seen = ctx.synack_seen;
  synack_dir = ctx.synack_dir;
  state_changed_at = if same_state state entry.flow.state then entry.state_changed_at else time;
}

unfoldable pub advance_entry :
    FlowConfig → FlowProtocol → ℕ → List Text → Direction → FlowEntry → FlowEntry
unfolding store_context
advance_entry cfg udp time flags direction entry = entry
advance_entry cfg tcp time flags direction entry = store_context time entry (
    next_state entry.flow.state (some flags) direction (context_of cfg entry)
      (entry.flow.packet_count == 0))

-- 8. The periodic sweep.
pub sweep_since : Tracker → Option ℕ → Tracker
sweep_since t none = record t { last_sweep = some t.clock }
sweep_since t (some last) =
    if leb (sweep_interval t.cfg) (t.clock - last) then (sweep t (some t.clock)).0 else t

unfoldable pub sweep_if_due : Tracker → Tracker
unfolding sweep_since
sweep_if_due t = sweep_since t t.last_sweep

-- 5. to 7. on the entry of the packet: its new value, with the direction of the packet.
unfoldable pub process :
    FlowConfig → Packet → IdsEvent → List Text → FlowEntry → FlowEntry × Direction
process cfg p e flags entry =
    let direction = direction_of entry.flow.endpoint_a p.src.ip p.src.port in
    let moved = advance_entry cfg p.protocol p.time flags direction entry in
    (record moved { flow = count p e flags direction moved.flow }, direction)

module _ (digest : Text → Text) where
  unfoldable pub new_flow : Packet → Flow
  new_flow p = record {
    flow_id = make_flow_id digest (packet_key p) p.time;
    protocol = p.protocol;
    endpoint_a = p.src;
    endpoint_b = p.dst;
    application_protocol = none;
    start_time = p.time;
    last_seen = p.time;
    packet_count = 0;
    byte_count = 0;
    payload_byte_count = 0;
    fwd_packet_count = 0;
    fwd_byte_count = 0;
    bwd_packet_count = 0;
    bwd_byte_count = 0;
    syn_count = 0;
    ack_count = 0;
    fin_count = 0;
    rst_count = 0;
    state = initial_state p.protocol;
    close_reason = none;
    midstream = false;
  }

  -- 4. Attach the packet to its flow, or open a new one.
  unfoldable pub attach : Tracker → Packet → Option FlowEntry → Tracker × FlowEntry
  unfolding new_flow
  attach t p (some entry) =
      (record t { table = Table.touch Key-discrete (packet_key p) t.table }, entry)
  attach t p none =
      let roomy = evict (length t.table) (max_active_flows t.cfg) t in
      let entry = new_entry (new_flow p) in
      (record roomy { table = Table.add Key-discrete (packet_key p) entry roomy.table }, entry)

  unfoldable pub track : Tracker → IdsEvent → Packet → Tracker × IdsEvent
  track t e p =
      let flags = normalize_flags e.flags in
      let timed = record t { clock = max t.clock p.time } in
      let (kept, found) =
        expire_or_reuse timed p flags (Table.get Key-discrete (packet_key p) timed.table) in
      let (attached, entry) = attach kept p found in
      let (entry', direction) = process attached.cfg p e flags entry in
      let stored = record attached {
        table = Table.set_item Key-discrete (packet_key p) entry' attached.table;
      } in
      (
        sweep_if_due stored,
        record e {
          flow_id = some entry.flow.flow_id;
          direction = some direction;
          flow_state = some entry'.flow.state;
        },
      )

  unfoldable pub update : Tracker → IdsEvent → Tracker × IdsEvent
  unfolding track
  update t e = elim (packet e) [
    | none ↦ (t, record e { flow_id = none; direction = none; flow_state = none })
    | some p ↦ track t e p
  ]
