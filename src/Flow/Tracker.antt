-- ===== src/Flow/Tracker.antt =====
-- src/flow/tracker.py: `FlowTracker`. The object is a record; the flows that were handed to
-- `on_export`, oldest first, are the list `exported`. An entry is one object in the source, which
-- `update` changes in place after it stands in the table: here it is stored under its key again.
pub mod Update
pub mod Export
pub mod Evict
pub mod Valid
pub mod Preserve
pub mod Invariant
pub mod Totals
pub mod Run
use nt204_r11_antn_nguyen_th.Base.{
  ℕ, zero, suc, ◌+◌, ◌-◌, min, max, Bool, true, false, not, ◌&&◌, ◌||◌, Option, none, some, List,
  [], ◌∷◌, ◌++◌, length, filter, map, ltb, leb, ◌==◌, if◌then◌else◌, Text, codes, text_eq, upper, ℤ,
  pos, negsuc,
}
use nt204_r11_antn_nguyen_th.Models.Flow.{
  Flow, FlowProtocol, tcp, udp, protocol_text, FlowState, handshake, closed, reset, active,
  CloseReason, port_reuse, evicted, flush as flushed, Direction, forward, backward, Endpoint,
}
use nt204_r11_antn_nguyen_th.Models.Event.{IdsEvent, PreprocessStatus, invalid}
use nt204_r11_antn_nguyen_th.Flow.Key.{Key, Key-discrete, make_key, direction_of, make_flow_id}
use nt204_r11_antn_nguyen_th.Flow.Table
use nt204_r11_antn_nguyen_th.Flow.TcpState.{
  Context, normalize_flags, has_flag, next_state, is_terminal,
}
use nt204_r11_antn_nguyen_th.Flow.Timeout.{
  FlowConfig, FlowEntry, new_entry, positive_or, is_expired, get_close_reason,
}

abbrev pub Entries : Type 0
Entries = List (Key × FlowEntry)

pub record Tracker : Type 0 where
  pub cfg : FlowConfig
  pub table : Entries
  pub clock : ℕ
  pub last_sweep : Option ℕ
  pub exported : List Flow

unfoldable pub init : FlowConfig → Tracker
init cfg = record { cfg = cfg; table = []; clock = 0; last_sweep = none; exported = [] }

unfoldable pub active_flow_count : Tracker → ℕ
active_flow_count t = length t.table

-- `_get_sweep_interval` and `_get_max_active_flows`
unfoldable pub sweep_interval : FlowConfig → ℕ
unfolding positive_or
sweep_interval cfg = positive_or 1_000_000 cfg.sweep_interval

unfoldable pub max_active_flows : FlowConfig → ℕ
unfolding positive_or
max_active_flows cfg = positive_or 100_000 cfg.max_active_flows

-- The key that `_export_flow` builds again from the flow.
unfoldable pub flow_key : Flow → Key
flow_key f =
    make_key (protocol_text f.protocol) f.endpoint_a.ip f.endpoint_a.port f.endpoint_b.ip
      f.endpoint_b.port

unfoldable pub export_flow : Tracker → FlowEntry → CloseReason → Tracker
export_flow t entry reason =
    let (removed, table) = Table.remove Key-discrete (flow_key entry.flow) t.table in
    elim removed [
      | none ↦ record t { table = table }
      | some e ↦ record t {
        table = table;
        exported = t.exported ++ record e.flow { close_reason = some reason } ∷ [];
      }
    ]

-- `for entry, reason in expired_list: self._export_flow(entry, reason)`
unfoldable pub export_all : Tracker → List (Key × FlowEntry) → Tracker
export_all t [] = t
export_all t ((k, entry) ∷ es) = export_all (export_flow t entry (get_close_reason entry)) es

-- `now` is `none` where the argument is no finite number.
unfoldable pub sweep : Tracker → Option ℕ → Tracker × ℕ
unfolding export_all
sweep t now =
    let eval_time : ℕ = elim now [ none ↦ t.clock | some n ↦ n ] in
    let expired = filter (λ e. is_expired e.1 eval_time t.cfg) t.table in
    let t' = export_all t expired in
    (record t' { last_sweep = some (min eval_time t'.clock) }, length expired)

unfoldable pub flush_reason : FlowEntry → CloseReason
flush_reason entry = if is_terminal entry.flow.state then get_close_reason entry else flushed

-- One round of `flush` and of the eviction loop, with the defensive removal.
unfoldable pub export_or_drop : Tracker → Key → FlowEntry → CloseReason → Tracker
export_or_drop t key entry reason =
    let t' = export_flow t entry reason in
    if leb (length t.table) (length t'.table)
    then record t' { table = (Table.remove Key-discrete key t'.table).1 }
    else t'

unfoldable pub flush_all : Tracker → List (Key × FlowEntry) → Tracker
flush_all t [] = t
flush_all t ((key, entry) ∷ es) = flush_all (export_or_drop t key entry (flush_reason entry)) es

unfoldable pub flush : Tracker → Tracker × ℕ
unfolding flush_all
flush t = (flush_all t t.table, length t.table)

-- What `update` and `snapshot` read of an event that is tracked.
pub record Packet : Type 0 where
  pub time : ℕ
  pub protocol : FlowProtocol
  pub src : Endpoint
  pub dst : Endpoint

read_protocol : Option Text → Option FlowProtocol
read_protocol none = none
read_protocol (some p) =
    if text_eq (upper p) (codes "TCP")
    then some tcp
    else if text_eq (upper p) (codes "UDP")
    then some udp
    else none

abbrev pub is_invalid : Option PreprocessStatus → Bool
is_invalid (some invalid) = true
is_invalid _ = false

endpoint : Option Text → Option ℕ → Option Endpoint
endpoint (some ip) (some port) = some (record { ip = ip; port = port })
endpoint _ _ = none

packet_of : Option ℕ → Option FlowProtocol → Option Endpoint → Option Endpoint → Option Packet
packet_of (some time) (some protocol) (some src) (some dst) =
    some (record { time = time; protocol = protocol; src = src; dst = dst })
packet_of _ _ _ _ = none

-- `none`: the event is skipped.
unfoldable pub packet : IdsEvent → Option Packet
unfolding read_protocol endpoint packet_of
packet e =
    if is_invalid e.preprocess_status
    then none
    else packet_of e.timestamp (read_protocol e.transport_protocol) (endpoint e.src_ip e.src_port)
        (endpoint e.dst_ip e.dst_port)

unfoldable pub packet_key : Packet → Key
packet_key p = make_key (protocol_text p.protocol) p.src.ip p.src.port p.dst.ip p.dst.port

unfoldable pub snapshot : Tracker → IdsEvent → Option Flow
snapshot t e = elim (packet e) [
  | none ↦ none
  | some p ↦ elim (Table.get Key-discrete (packet_key p) t.table) [
    | none ↦ none
    | some entry ↦ some entry.flow
  ]
]
