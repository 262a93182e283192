-- ===== src/Flow/Key.antt =====
-- src/flow/flow_key.py: the directionless key of a flow, the direction of a packet and the text
-- from which a flow's identifier is hashed.
use nt204_r11_antn_nguyen_th.Base.{
  ℕ, zero, suc, ◌+◌, ◌/◌, ◌%◌, ◌≡◌, refl, sym, ◌∙◌, ◌⊎◌, inl, inr, ◌↔◌, Bool, true, false, ◌&&◌, [],
  ◌∷◌, ◌++◌, arith, ltb, leb, ◌==◌, if◌then◌else◌, Text, codes, text_eq, text_le, text_eq_sound,
  text_eq_refl, text_le_total, text_le_antisymm, upper, ℕ_discrete,
}
use nt204_r11_antn_nguyen_th.Models.Flow.{
  Direction, forward, backward, Endpoint, FlowProtocol, tcp, udp, protocol_text,
}

abbrev pub KeyEnd : Type 0
KeyEnd = Text × ℕ

abbrev pub Key : Type 0
Key = Text × KeyEnd × KeyEnd

pub Key-discrete : Discrete Key
Key-discrete = hlevel ℕ_discrete

-- `ep1 <= ep2` on tuples: the addresses first, then the ports.
end_le : KeyEnd → KeyEnd → Bool
end_le (a, p) (b, q) = if text_eq a b then leb p q else text_le a b

-- `str(protocol).upper() if protocol else "UNKNOWN"`
pub key_protocol : Text → Text
key_protocol [] = codes "UNKNOWN"
key_protocol (c ∷ cs) = upper (c ∷ cs)

unfoldable pub make_key : Text → Text → ℕ → Text → ℕ → Key
unfolding end_le key_protocol
make_key protocol src_ip src_port dst_ip dst_port =
    let ep1 : KeyEnd = (src_ip, src_port) in
    let ep2 : KeyEnd = (dst_ip, dst_port) in
    if end_le ep1 ep2 then (key_protocol protocol, ep1, ep2) else (key_protocol protocol, ep2, ep1)

unfoldable pub direction_of : Endpoint → Text → ℕ → Direction
direction_of endpoint_a src_ip src_port =
    if text_eq endpoint_a.ip src_ip && endpoint_a.port == src_port then forward else backward

end_le_total : (x y : KeyEnd) → end_le x y ≡ false → end_le y x ≡ true
unfolding end_le
end_le_total (a, p) (b, q) h =
    ground (arith, text_le_total a b, text_eq_sound a b, text_eq_sound b a, text_eq_refl a)

end_le_antisymm : (x y : KeyEnd) → end_le x y ≡ true → end_le y x ≡ true → x ≡ y
unfolding end_le
end_le_antisymm (a, p) (b, q) h k =
    ground (arith, text_le_antisymm a b, text_eq_sound a b, text_eq_sound b a, text_eq_refl a)

pub make_key_comm :
    (protocol a : Text) (p : ℕ) (b : Text) (q : ℕ)
    → make_key protocol a p b q ≡ make_key protocol b q a p
unfolding make_key
make_key_comm protocol a p b q =
    ground (arith, end_le_total (a, p) (b, q), end_le_antisymm (a, p) (b, q))

-- The protocols are the same, up to letter case; one that is missing is the same as `unknown`.
abbrev pub SameProtocol : Text → Text → Type 0
SameProtocol r s =
    (upper r ≡ upper s)
    ⊎ ((r ≡ []) × (upper s ≡ codes "UNKNOWN"))
    ⊎ ((s ≡ []) × (upper r ≡ codes "UNKNOWN"))

-- The two endpoints are the same, in the same or in the opposite order.
abbrev pub SameEnds : Text → ℕ → Text → ℕ → Text → ℕ → Text → ℕ → Type 0
SameEnds a p b q a' p' b' q' =
    ((a ≡ a') × (p ≡ p') × (b ≡ b') × (q ≡ q')) ⊎ ((a ≡ b') × (p ≡ q') × (b ≡ a') × (q ≡ p'))

pub make_key-injective :
    (r s a : Text) (p : ℕ) (b : Text) (q : ℕ) (a' : Text) (p' : ℕ) (b' : Text) (q' : ℕ)
    → make_key r a p b q ≡ make_key s a' p' b' q'
    → (key_protocol r ≡ key_protocol s) × SameEnds a p b q a' p' b' q'
unfolding make_key
make_key-injective r s a p b q a' p' b' q' h = ground arith

key_protocol_same : (r s : Text) → key_protocol r ≡ key_protocol s → SameProtocol r s
unfolding key_protocol
key_protocol_same [] [] h = inl refl
key_protocol_same [] (d ∷ ds) h = inr (inl (refl, sym h))
key_protocol_same (c ∷ cs) [] h = inr (inr (refl, h))
key_protocol_same (c ∷ cs) (d ∷ ds) h = inl h

same-key_protocol : (r s : Text) → SameProtocol r s → key_protocol r ≡ key_protocol s
unfolding key_protocol
same-key_protocol [] [] h = refl
same-key_protocol [] (d ∷ ds) h = ground (arith, h)
same-key_protocol (c ∷ cs) [] h = ground (arith, h)
same-key_protocol (c ∷ cs) (d ∷ ds) h = ground (arith, h)

same-make_key :
    (r s a : Text) (p : ℕ) (b : Text) (q : ℕ) (a' : Text) (p' : ℕ) (b' : Text) (q' : ℕ)
    → key_protocol r ≡ key_protocol s
    → SameEnds a p b q a' p' b' q'
    → make_key r a p b q ≡ make_key s a' p' b' q'
unfolding make_key
same-make_key r s a p b q a' p' b' q' h (inl (ea, ep, eb, eq)) = rw (h, ea, ep, eb, eq) refl
same-make_key r s a p b q a' p' b' q' h (inr (ea, ep, eb, eq)) =
    rw (ea, ep, eb, eq) (rw (make_key, h) refl ∙ make_key_comm s b' q' a' p')

-- Two packets have one key exactly when they have the same protocol, up to letter case, and the
-- same two endpoints, in the same or in the opposite order; a protocol that is missing counts as
-- `unknown`.
pub make_key_iff :
    (r s a : Text) (p : ℕ) (b : Text) (q : ℕ) (a' : Text) (p' : ℕ) (b' : Text) (q' : ℕ)
    → (make_key r a p b q ≡ make_key s a' p' b' q')
      ↔ (SameProtocol r s × SameEnds a p b q a' p' b' q')
make_key_iff r s a p b q a' p' b' q' = (
  λ h.
      let (protocols, ends) = make_key-injective r s a p b q a' p' b' q' h in
      (key_protocol_same r s protocols, ends),
  λ (protocols, ends). same-make_key r s a p b q a' p' b' q' (same-key_protocol r s protocols) ends,
)

-- A packet is `forward` exactly when its source is the flow's first endpoint.
direction_of_iff :
    (ea : Endpoint) (b : Text) (q : ℕ)
    → (direction_of ea b q ≡ forward) ↔ ((ea.ip ≡ b) × (ea.port ≡ q))
unfolding direction_of
direction_of_iff ea b q =
    (λ h. ground (arith, text_eq_sound ea.ip b), λ h. ground (arith, text_eq_refl b))

-- The decimal digits of a number, by fuel; `digits n` gives it `n + 1`.
digits_from : ℕ → ℕ → Text → Text
digits_from zero n acc = acc
digits_from (suc f) n acc =
    let d = (48 + n % 10) ∷ acc in
    let rest = digits_from f (n / 10) d in if ltb n 10 then d else rest

unfoldable pub digits : ℕ → Text
unfolding digits_from
digits n = digits_from (suc n) n []

-- The text that `make_flow_id` hashes; `digest` is the hash of `hashlib`.
unfoldable pub make_flow_id : (Text → Text) → Key → ℕ → Text
unfolding digits
make_flow_id digest (proto, (ip1, port1), (ip2, port2)) start_us = digest (
    proto
    ++ (codes "|"
        ++ (ip1
            ++ (codes ":"
                ++ (digits port1
                    ++ (codes "|"
                        ++ (ip2
                            ++ (codes ":"
                                ++ (digits port2 ++ (codes "|" ++ digits start_us))))))))))

-- The two protocols have different texts, and so different keys.
pub protocol_text-injective :
    (r s : FlowProtocol) → key_protocol (protocol_text r) ≡ key_protocol (protocol_text s) → r ≡ s
unfolding key_protocol protocol_text
protocol_text-injective tcp tcp e = refl
protocol_text-injective udp udp e = refl
protocol_text-injective tcp udp e = ground arith
protocol_text-injective udp tcp e = ground arith
