-- ===== src/Flow/TcpState.antt =====
-- src/flow/tcp_state.py: the TCP state machine of a flow. The `ctx` dictionary is a record that
-- `next_state` returns with the new state.
pub mod Laws
pub mod Closing
use nt204_r11_antn_nguyen_th.Base.{
  Bool, true, false, not, ◌&&◌, ◌||◌, Option, none, some, List, Text, codes, text_eq, upper, map,
  any, if◌then◌else◌,
}
use nt204_r11_antn_nguyen_th.Models.Flow.{
  FlowState, handshake, established, closing, closed, reset, active, Direction, forward, backward,
  same_direction,
}

-- A missing list gives the empty set. Only membership is asked of the set.
unfoldable pub normalize_flags : Option (List Text) → List Text
normalize_flags none = List.[]
normalize_flags (some flags) = map upper flags

unfoldable pub has_flag : List Text → Text → Bool
has_flag flags name = any (text_eq name) flags

pub record Context : Type 0 where
  pub synack_seen : Bool
  pub synack_dir : Option Direction
  pub fin_fwd : Bool
  pub fin_bwd : Bool
  pub midstream : Bool
  pub requires_final_ack : Bool

abbrev pub is_terminal : FlowState → Bool
is_terminal closed = true
is_terminal reset = true
is_terminal _ = false

abbrev pub is_handshake : FlowState → Bool
is_handshake handshake = true
is_handshake _ = false

abbrev pub is_closing : FlowState → Bool
is_closing closing = true
is_closing _ = false

abbrev pub is_backward : Direction → Bool
is_backward backward = true
is_backward forward = false

-- `direction != ctx.get("synack_dir")`
abbrev pub differs : Direction → Option Direction → Bool
differs d none = true
differs d (some e) = not (same_direction d e)

-- "2. SYN Processing"
on_syn : FlowState → Bool → Direction → Context → Bool → FlowState × Context
on_syn current has_ack direction ctx is_first =
    let answered = record ctx { synack_seen = true; synack_dir = some direction } in
    if is_first
    then (handshake, if has_ack then record answered { midstream = true } else ctx)
    else (if is_handshake current && has_ack && is_backward direction
        then (handshake, answered)
        else (current, ctx))

mark_midstream : Bool → Context → Context
mark_midstream is_first ctx = if is_first then record ctx { midstream = true } else ctx

mark_fin : Direction → Context → Context
mark_fin forward ctx = record ctx { fin_fwd = true }
mark_fin backward ctx = record ctx { fin_bwd = true }

-- "3. FIN Processing"
on_fin : Direction → Context → Bool → FlowState × Context
unfolding mark_midstream mark_fin
on_fin direction ctx is_first =
    let marked = mark_fin direction (mark_midstream is_first ctx) in
    if marked.fin_fwd && marked.fin_bwd && not marked.requires_final_ack
    then (closed, marked)
    else (closing, marked)

-- "4. ACK Processing"
on_ack : FlowState → Direction → Context → Bool → FlowState × Context
unfolding mark_midstream
on_ack current direction ctx is_first =
    if is_first
    then (established, mark_midstream true ctx)
    else if is_handshake current && ctx.synack_seen && differs direction ctx.synack_dir
    then (established, ctx)
    else if is_closing current && ctx.fin_fwd && ctx.fin_bwd && ctx.requires_final_ack
    then (closed, ctx)
    else (current, ctx)

-- `next_state`, on the four flags that it reads: RST > SYN > FIN > ACK.
pub advance :
    FlowState → Bool → Bool → Bool → Bool → Direction → Context → Bool → FlowState × Context
advance current has_rst has_syn has_fin has_ack direction ctx is_first =
    if is_terminal current
    then (current, ctx)
    else if has_rst
    then (reset, ctx)
    else if has_syn
    then on_syn current has_ack direction ctx is_first
    else if has_fin
    then on_fin direction ctx is_first
    else if has_ack
    then on_ack current direction ctx is_first
    else if is_first
    then (established, mark_midstream true ctx)
    else (current, ctx)

unfoldable pub next_state :
    FlowState → Option (List Text) → Direction → Context → Bool → FlowState × Context
unfolding advance on_syn on_fin on_ack mark_midstream mark_fin
next_state current flags direction ctx is_first =
    let set = normalize_flags flags in
    advance current (has_flag set (codes "RST")) (has_flag set (codes "SYN"))
      (has_flag set (codes "FIN")) (has_flag set (codes "ACK")) direction ctx is_first
