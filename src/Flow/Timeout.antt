-- ===== src/Flow/Timeout.antt =====
-- src/flow/timeout.py: which timeout a flow has, and when it has expired. Times are microseconds.
-- The `flow` section of the settings is a record in which `none` stands for a value that is missing
-- or is no finite number.
use nt204_r11_antn_nguyen_th.Base.{
  ℕ, ◌-◌, ◌≡◌, ◌≤◌, ◌<◌, Bool, true, false, Option, none, some, arith, ltb, if◌then◌else◌,
}
use nt204_r11_antn_nguyen_th.Models.Flow.{
  Flow, FlowProtocol, tcp, udp, FlowState, handshake, closed, reset, CloseReason, tcp_closed,
  tcp_reset, idle_timeout, handshake_timeout, Direction,
}

pub record FlowConfig : Type 0 where
  pub udp_idle_timeout : Option ℕ
  pub tcp_handshake_timeout : Option ℕ
  pub tcp_closed_linger : Option ℕ
  pub tcp_idle_timeout : Option ℕ
  pub sweep_interval : Option ℕ
  pub max_active_flows : Option ℕ
  pub tcp_close_requires_final_ack : Option Bool

-- `FlowEntry`: a flow with the fields that only the tracker reads.
pub record FlowEntry : Type 0 where
  pub flow : Flow
  pub fin_fwd : Bool
  pub fin_bwd : Bool
  pub synack_seen : Bool
  pub synack_dir : Option Direction
  pub state_changed_at : ℕ

unfoldable pub new_entry : Flow → FlowEntry
new_entry flow = record {
  flow = flow;
  fin_fwd = false;
  fin_bwd = false;
  synack_seen = false;
  synack_dir = none;
  state_changed_at = flow.start_time;
}

-- A value that is not positive counts as missing.
unfoldable pub positive_or : ℕ → Option ℕ → ℕ
positive_or default none = default
positive_or default (some v) = if ltb 0 v then v else default

abbrev pub default_udp_idle_timeout : ℕ
default_udp_idle_timeout = 60_000_000

abbrev pub default_tcp_handshake_timeout : ℕ
default_tcp_handshake_timeout = 30_000_000

abbrev pub default_tcp_closed_linger : ℕ
default_tcp_closed_linger = 10_000_000

abbrev pub default_tcp_idle_timeout : ℕ
default_tcp_idle_timeout = 300_000_000

state_timeout : FlowState → FlowConfig → ℕ
unfolding positive_or
state_timeout handshake cfg = positive_or default_tcp_handshake_timeout cfg.tcp_handshake_timeout
state_timeout closed cfg = positive_or default_tcp_closed_linger cfg.tcp_closed_linger
state_timeout reset cfg = positive_or default_tcp_closed_linger cfg.tcp_closed_linger
state_timeout _ cfg = positive_or default_tcp_idle_timeout cfg.tcp_idle_timeout

protocol_timeout : FlowProtocol → FlowState → FlowConfig → ℕ
unfolding state_timeout
protocol_timeout udp state cfg = positive_or default_udp_idle_timeout cfg.udp_idle_timeout
protocol_timeout tcp state cfg = state_timeout state cfg

unfoldable pub timeout_for : FlowEntry → FlowConfig → ℕ
unfolding protocol_timeout
timeout_for entry cfg = protocol_timeout entry.flow.protocol entry.flow.state cfg

-- `now - last_seen > timeout`; a difference below 0 exceeds no timeout, which are all positive.
unfoldable pub is_expired : FlowEntry → ℕ → FlowConfig → Bool
is_expired entry now cfg = ltb (timeout_for entry cfg) (now - entry.flow.last_seen)

unfoldable pub state_reason : FlowState → CloseReason
state_reason closed = tcp_closed
state_reason reset = tcp_reset
state_reason handshake = handshake_timeout
state_reason _ = idle_timeout

unfoldable pub get_close_reason : FlowEntry → CloseReason
unfolding state_reason
get_close_reason entry = state_reason entry.flow.state

-- Every timeout is positive, whatever the settings hold.
pub timeout_for-pos : (entry : FlowEntry) (cfg : FlowConfig) → 0 < timeout_for entry cfg
unfolding timeout_for
timeout_for-pos entry cfg = ground arith

-- A flow that was seen at `now` or later has not expired at `now`.
pub is_expired_fresh :
    (entry : FlowEntry) (now : ℕ) (cfg : FlowConfig)
    → now ≤ entry.flow.last_seen
    → is_expired entry now cfg ≡ false
unfolding is_expired
is_expired_fresh entry now cfg h = ground arith

-- A flow that has expired at some time has expired at every later time, if it is not seen in
-- between.
is_expired_mono :
    (entry : FlowEntry) (now later : ℕ) (cfg : FlowConfig)
    → now ≤ later
    → is_expired entry now cfg ≡ true
    → is_expired entry later cfg ≡ true
unfolding is_expired
is_expired_mono entry now later cfg h e = ground arith
