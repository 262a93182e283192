-- ===== src/Flow/TcpState/Closing.antt =====
-- When a TCP flow may become CLOSED or ESTABLISHED, and what its context remembers.
use nt204_r11_antn_nguyen_th.Base.{
  Bool, true, false, ◌≡◌, refl, ◌≢◌, Option, some, List, [], ◌∷◌, Text, text_eq, arith, codes,
}
use nt204_r11_antn_nguyen_th.Models.Flow.{
  FlowState, handshake, established, closed, Direction, forward, backward,
}
use nt204_r11_antn_nguyen_th.Flow.TcpState.Laws.{next_state_terminal}
use nt204_r11_antn_nguyen_th.Flow.TcpState.{
  Context, on_syn, on_fin, on_ack, next_state, advance, normalize_flags, has_flag, differs,
}

-- Both sides have sent a FIN.
abbrev pub BothFins : Context → Type 0
BothFins c = (c.fin_fwd ≡ true) × (c.fin_bwd ≡ true)

on_fin_closed :
    (d : Direction) (c : Context) (first : Bool)
    → (on_fin d c first).0 ≡ closed
    → BothFins (on_fin d c first).1
unfolding on_fin
on_fin_closed d c first h = ground arith

on_ack_closed :
    (s : FlowState) (d : Direction) (c : Context) (first : Bool)
    → s ≢ closed
    → (on_ack s d c first).0 ≡ closed
    → BothFins (on_ack s d c first).1
unfolding on_ack
on_ack_closed s d c first n h = ground arith

on_syn-ne-closed :
    (s : FlowState) (a : Bool) (d : Direction) (c : Context) (first : Bool)
    → s ≢ closed
    → (on_syn s a d c first).0 ≢ closed
unfolding on_syn
on_syn-ne-closed s a d c first n h = ground arith

advance_closed :
    (s : FlowState) (rst syn fin ack : Bool) (d : Direction) (c : Context) (first : Bool)
    → s ≢ closed
    → (advance s rst syn fin ack d c first).0 ≡ closed
    → BothFins (advance s rst syn fin ack d c first).1
unfolding advance
advance_closed s rst syn fin ack d c first n h =
    ground
      (arith, on_fin_closed d c first, on_ack_closed s d c first, on_syn-ne-closed s ack d c first)

-- What is remembered of a FIN is never forgotten.
advance-fins :
    (s : FlowState) (rst syn fin ack : Bool) (d : Direction) (c : Context) (first : Bool)
    → (c.fin_fwd ≡ true → (advance s rst syn fin ack d c first).1.fin_fwd ≡ true)
      × (c.fin_bwd ≡ true → (advance s rst syn fin ack d c first).1.fin_bwd ≡ true)
unfolding next_state
advance-fins s rst syn fin ack d c first = (λ h. ground arith, λ h. ground arith)

module _ (current : FlowState) (flags : Option (List Text)) (direction : Direction)
    (ctx : Context) where
  -- A flow that is not CLOSED becomes CLOSED only when both sides have sent a FIN.
  pub next_state_closed :
      (is_first : Bool)
      → current ≢ closed
      → (next_state current flags direction ctx is_first).0 ≡ closed
      → BothFins (next_state current flags direction ctx is_first).1
  unfolding next_state
  next_state_closed is_first n h = advance_closed current _ _ _ _ direction ctx is_first n h

  -- A flow in HANDSHAKE becomes ESTABLISHED only by an ACK, without RST, SYN and FIN, of the side that did not send
  -- the SYN/ACK, after that SYN/ACK was seen.
  next_state_established :
      current ≡ handshake
      → (next_state current flags direction ctx false).0 ≡ established
      → (has_flag (normalize_flags flags) (codes "ACK") ≡ true)
        × (has_flag (normalize_flags flags) (codes "RST") ≡ false)
        × (has_flag (normalize_flags flags) (codes "SYN") ≡ false)
        × (has_flag (normalize_flags flags) (codes "FIN") ≡ false)
        × (ctx.synack_seen ≡ true)
        × (differs direction ctx.synack_dir ≡ true)
  unfolding next_state
  next_state_established e h = ground arith

-- A flow that is CLOSED remembers a FIN of either side, if it did so before the packet.
pub next_state_fins :
    (current : FlowState) (flags : Option (List Text)) (direction : Direction) (ctx : Context)
    (is_first : Bool)
    → (current ≡ closed → BothFins ctx)
    → (next_state current flags direction ctx is_first).0 ≡ closed
    → BothFins (next_state current flags direction ctx is_first).1
next_state_fins closed flags d ctx first old h =
    rw (next_state_terminal closed flags d ctx first refl) (old refl)
next_state_fins s flags d ctx first old h = next_state_closed s flags d ctx first (λ e. cc) h

-- The flags of the three packets of a handshake, as the TCP parser lists them.
abbrev flag_list : List Text → Option (List Text)
flag_list fs = some fs

-- SYN, SYN/ACK of the other side, ACK: the first two leave a new flow in HANDSHAKE, the third makes
-- it ESTABLISHED, and its `midstream` mark is what it was.
three_way_handshake :
    (ctx : Context)
    → let (s1, c1) = next_state handshake (flag_list (codes "SYN" ∷ [])) forward ctx true in
      let (s2, c2) = next_state s1 (flag_list (codes "SYN" ∷ codes "ACK" ∷ [])) backward c1 false in
      let (s3, c3) = next_state s2 (flag_list (codes "ACK" ∷ [])) forward c2 false in
      (s1 ≡ handshake) × (s2 ≡ handshake) × (s3 ≡ established) × (c3.midstream ≡ ctx.midstream)
unfolding next_state has_flag normalize_flags text_eq
three_way_handshake ctx = (refl, refl, refl, refl)
