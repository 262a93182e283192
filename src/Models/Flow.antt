-- ===== src/Models/Flow.antt =====
-- src/models/flow.py: the record of a bidirectional connection. Times are numbers of microseconds.
use nt204_r11_antn_nguyen_th.Base.{ℕ, ◌-◌, Bool, true, false, Option, Text, codes}

pub data FlowProtocol : Type 0 where
  tcp udp : FlowProtocol

pub data FlowState : Type 0 where
  handshake established closing closed reset active : FlowState

pub data CloseReason : Type 0 where
  tcp_closed tcp_reset idle_timeout handshake_timeout port_reuse evicted flush : CloseReason

pub data Direction : Type 0 where
  forward backward : Direction

abbrev pub same_direction : Direction → Direction → Bool
same_direction forward forward = true
same_direction backward backward = true
same_direction _ _ = false

-- The text of the `Literal`, as it stands in keys and logs.
unfoldable pub protocol_text : FlowProtocol → Text
protocol_text tcp = codes "TCP"
protocol_text udp = codes "UDP"

-- `{"ip": ..., "port": ...}`
pub record Endpoint : Type 0 where
  pub ip : Text
  pub port : ℕ

pub record Flow : Type 0 where
  pub flow_id : Text
  pub protocol : FlowProtocol
  pub endpoint_a : Endpoint
  pub endpoint_b : Endpoint
  pub application_protocol : Option Text
  pub start_time : ℕ
  pub last_seen : ℕ
  pub packet_count : ℕ
  pub byte_count : ℕ
  pub payload_byte_count : ℕ
  pub fwd_packet_count : ℕ
  pub fwd_byte_count : ℕ
  pub bwd_packet_count : ℕ
  pub bwd_byte_count : ℕ
  pub syn_count : ℕ
  pub ack_count : ℕ
  pub fin_count : ℕ
  pub rst_count : ℕ
  pub state : FlowState
  pub close_reason : Option CloseReason
  pub midstream : Bool

-- `-` stops at 0, which is the `max(0.0, ...)` of the source.
unfoldable pub duration : Flow → ℕ
duration f = f.last_seen - f.start_time
