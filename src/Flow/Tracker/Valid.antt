-- ===== src/Flow/Tracker/Valid.antt =====
-- The invariant of the tracker, and the parts of `update` that keep it.
use nt204_r11_antn_nguyen_th.Base.{
  ℕ, ◌+◌, ◌≤◌, ◌<◌, ◌≡◌, refl, ◌∙◌, subst, true, none, some, List, arith, All, length, max, Text,
}
use nt204_r11_antn_nguyen_th.Models.Flow.{
  Flow, FlowProtocol, tcp, udp, active, closed, Direction, forward, backward,
}
use nt204_r11_antn_nguyen_th.Models.Event.{IdsEvent}
use nt204_r11_antn_nguyen_th.Flow.Key.{
  Key-discrete, direction_of, make_key-injective, protocol_text-injective,
}
use nt204_r11_antn_nguyen_th.Flow.Table.Laws.{Distinct}
use nt204_r11_antn_nguyen_th.Flow.TcpState.Closing.{next_state_fins}
use nt204_r11_antn_nguyen_th.Flow.Timeout.{FlowConfig, FlowEntry, new_entry}
use nt204_r11_antn_nguyen_th.Flow.Tracker.{
  Tracker, Entries, Packet, flow_key, packet_key, max_active_flows,
}
use nt204_r11_antn_nguyen_th.Flow.Tracker.Export.{HasOwnKey}
use nt204_r11_antn_nguyen_th.Flow.Tracker.Update.{
  count, count_totals, count_direction, count_flags, advance_entry, process, new_flow, context_of,
}

-- What holds of a flow in the table between two packets.
pub record EntryOk (clock : ℕ) (e : FlowEntry) : Type 0 where
  pub packets : e.flow.packet_count ≡ e.flow.fwd_packet_count + e.flow.bwd_packet_count
  pub bytes : e.flow.byte_count ≡ e.flow.fwd_byte_count + e.flow.bwd_byte_count
  pub interval : e.flow.start_time ≤ e.flow.last_seen
  pub seen : e.flow.last_seen ≤ clock
  pub unclosed : e.flow.close_reason ≡ none
  pub udp_active : e.flow.protocol ≡ udp → e.flow.state ≡ active
  pub closed_by_fins : e.flow.state ≡ closed → (e.fin_fwd ≡ true) × (e.fin_bwd ≡ true)

-- What holds of a table: no key twice, every entry under its own key, sound and with a packet.
pub record TableOk (clock : ℕ) (u : Entries) : Type 0 where
  pub distinct : Distinct Key-discrete u
  pub own_keys : All HasOwnKey u
  pub entries : All (λ e. EntryOk clock e.1) u
  pub used : All (λ e. 0 < e.1.flow.packet_count) u

pub record IsValid (t : Tracker) : Type 0 where
  pub table_ok : TableOk t.clock t.table
  pub bounded : length t.table ≤ max_active_flows t.cfg

pub new_flow-key : (digest : Text → Text) (p : Packet) → flow_key (new_flow digest p) ≡ packet_key p
unfolding flow_key new_flow packet_key
new_flow-key digest p = refl

advance_entry-key :
    (cfg : FlowConfig) (pr : FlowProtocol) (time : ℕ) (flags : List Text) (d : Direction)
    (e : FlowEntry)
    → flow_key (advance_entry cfg pr time flags d e).flow ≡ flow_key e.flow
unfolding flow_key advance_entry
advance_entry-key cfg tcp time flags d e = refl
advance_entry-key cfg udp time flags d e = refl

count_direction-key :
    (d : Direction) (raw : ℕ) (f : Flow) → flow_key (count_direction d raw f) ≡ flow_key f
unfolding flow_key count_direction
count_direction-key forward raw f = refl
count_direction-key backward raw f = refl

count_flags-key :
    (pr : FlowProtocol) (flags : List Text) (f : Flow)
    → flow_key (count_flags pr flags f) ≡ flow_key f
unfolding flow_key count_flags
count_flags-key tcp flags f = refl
count_flags-key udp flags f = refl

count-key :
    (p : Packet) (ev : IdsEvent) (flags : List Text) (d : Direction) (f : Flow)
    → flow_key (count p ev flags d f) ≡ flow_key f
unfolding flow_key count count_totals
count-key p ev flags d f = count_flags-key p.protocol flags _ ∙ count_direction-key d _ _

pub process-key :
    (cfg : FlowConfig) (p : Packet) (ev : IdsEvent) (flags : List Text) (e : FlowEntry)
    → flow_key (process cfg p ev flags e).0.flow ≡ flow_key e.flow
unfolding process
process-key cfg p ev flags e =
    count-key p ev flags _ _ ∙ advance_entry-key cfg p.protocol p.time flags _ e

-- The state machine leaves the counts, the times and the protocol of an entry alone.
advance_entry-EntryOk :
    (cfg : FlowConfig) (pr : FlowProtocol) (time clock : ℕ) (flags : List Text) (d : Direction)
    (e : FlowEntry)
    → e.flow.protocol ≡ pr
    → EntryOk clock e
    → EntryOk clock (advance_entry cfg pr time flags d e)
unfolding advance_entry
advance_entry-EntryOk cfg udp time clock flags d e same ok = ok
advance_entry-EntryOk cfg tcp time clock flags d e same ok = record {
  packets = ok.packets;
  bytes = ok.bytes;
  interval = ok.interval;
  seen = ok.seen;
  unclosed = ok.unclosed;
  udp_active = λ h. cc;
  closed_by_fins =
      λ h. next_state_fins e.flow.state (some flags) d (context_of cfg e) _ ok.closed_by_fins h;
}

count-EntryOk :
    (p : Packet) (ev : IdsEvent) (clock : ℕ) (flags : List Text) (d : Direction) (e : FlowEntry)
    → EntryOk clock e
    → EntryOk (max clock p.time) (record e { flow = count p ev flags d e.flow })
unfolding count count_totals count_direction count_flags
count-EntryOk p ev clock flags d e ok = ground arith

pub new_entry-EntryOk :
    (digest : Text → Text) (p : Packet) (clock : ℕ)
    → p.time ≤ clock
    → EntryOk clock (new_entry (new_flow digest p))
unfolding new_entry new_flow
new_entry-EntryOk digest p clock h = ground arith

-- The key of a flow tells its protocol.
pub same_key_protocol :
    (f : Flow) (p : Packet) → flow_key f ≡ packet_key p → f.protocol ≡ p.protocol
unfolding flow_key packet_key
same_key_protocol f p h =
    protocol_text-injective f.protocol p.protocol (make_key-injective _ _ _ _ _ _ _ _ _ _ h).0

pub process-EntryOk :
    (cfg : FlowConfig) (p : Packet) (ev : IdsEvent) (flags : List Text) (clock : ℕ) (e : FlowEntry)
    → flow_key e.flow ≡ packet_key p
    → p.time ≤ clock
    → EntryOk clock e
    → EntryOk clock (process cfg p ev flags e).0
unfolding process
process-EntryOk cfg p ev flags clock e own le ok =
    let d = direction_of e.flow.endpoint_a p.src.ip p.src.port in
    let moved =
      advance_entry-EntryOk cfg p.protocol p.time clock flags d e (same_key_protocol e.flow p own)
        ok in
    subst (λ c. EntryOk c (process cfg p ev flags e).0) (max-eq_of_le clock p.time le)
      (count-EntryOk p ev clock flags d (advance_entry cfg p.protocol p.time flags d e) moved)
  where
    max-eq_of_le : (a b : ℕ) → b ≤ a → max a b ≡ a
    max-eq_of_le a b h = omega arith

pub process-used :
    (cfg : FlowConfig) (p : Packet) (ev : IdsEvent) (flags : List Text) (e : FlowEntry)
    → 0 < (process cfg p ev flags e).0.flow.packet_count
unfolding process count count_totals count_direction count_flags
process-used cfg p ev flags e = ground arith
