-- ===== src/Flow/TcpState/Laws.antt =====
-- What the TCP state machine keeps and where it can go.
use nt204_r11_antn_nguyen_th.Base.{Bool, true, false, ◌≡◌, refl, Option, List, Text, arith, codes}
use nt204_r11_antn_nguyen_th.Models.Flow.{
  FlowState, handshake, established, closing, closed, reset, Direction, backward,
}
use nt204_r11_antn_nguyen_th.Flow.TcpState.{
  Context, on_syn, on_fin, on_ack, is_terminal, next_state, advance, normalize_flags, has_flag,
}

-- The moves of the diagram in the source's comments, for packets after the first one.
pub data Move : FlowState → FlowState → Type 0 where
  stay : {s : FlowState} → Move s s
  abort : {s : FlowState} → is_terminal s ≡ false → Move s reset
  complete : Move handshake established
  half_close : {s : FlowState} → is_terminal s ≡ false → Move s closing
  close : {s : FlowState} → is_terminal s ≡ false → Move s closed

ruleset moves = (stay, abort, complete, half_close, close)

on_syn-Move :
    (s : FlowState) (ack : Bool) (d : Direction) (c : Context) → Move s (on_syn s ack d c false).0
unfolding on_syn
on_syn-Move handshake true backward c = stay
on_syn-Move _ _ _ c = grind (arith, moves)

on_fin-Move :
    (s : FlowState) (d : Direction) (c : Context)
    → is_terminal s ≡ false
    → Move s (on_fin d c false).0
unfolding on_fin
on_fin-Move s d c h = grind (arith, moves)

on_ack-Move : (s : FlowState) (d : Direction) (c : Context) → Move s (on_ack s d c false).0
unfolding on_ack
on_ack-Move closing d c = grind (arith, moves)
on_ack-Move handshake d c = grind (arith, moves)
on_ack-Move _ d c = grind (arith, moves)

advance-Move :
    (s : FlowState) (rst syn fin ack : Bool) (d : Direction) (c : Context)
    → Move s (advance s rst syn fin ack d c false).0
unfolding advance
advance-Move closed _ _ _ _ d c = stay
advance-Move reset _ _ _ _ d c = stay
advance-Move s true _ _ _ d c = abort refl
advance-Move s false true _ a d c = on_syn-Move s a d c
advance-Move s false false true _ d c = on_fin-Move s d c refl
advance-Move s false false false true d c = on_ack-Move s d c
advance-Move s false false false false d c = stay

module _ (current : FlowState) (flags : Option (List Text)) (direction : Direction)
    (ctx : Context) where
  -- A packet after the first one moves the state along the diagram, whatever its flags.
  pub next_state-Move : Move current (next_state current flags direction ctx false).0
  unfolding next_state
  next_state-Move = advance-Move current _ _ _ _ direction ctx

  -- CLOSED and RESET are final: a late packet changes neither the state nor the context.
  pub next_state_terminal :
      (is_first : Bool)
      → is_terminal current ≡ true
      → next_state current flags direction ctx is_first ≡ (current, ctx)
  unfolding next_state
  next_state_terminal is_first h = ground arith

  -- RST beats every other flag: a flow that is not over is aborted, and its context is kept.
  next_state_rst :
      (is_first : Bool)
      → is_terminal current ≡ false
      → has_flag (normalize_flags flags) (codes "RST") ≡ true
      → next_state current flags direction ctx is_first ≡ (reset, ctx)
  unfolding next_state
  next_state_rst is_first h r = ground arith
