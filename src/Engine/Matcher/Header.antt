-- ===== src/Engine/Matcher/Header.antt =====
-- src/engine/matcher.py: the header stage of a rule for both directions.
use nt204_r11_antn_nguyen_th.Base.{
  ℕ, ◌≡◌, refl, Bool, true, false, ◌&&◌, Option, none, some, if◌then◌else◌,
}
use nt204_r11_antn_nguyen_th.Models.Rule.{Rule, RuleProtocol}
use nt204_r11_antn_nguyen_th.Models.Event.{IdsEvent}
use nt204_r11_antn_nguyen_th.Engine.Matcher.{
  Ends, ends, ends_of, ends_match, ip_in, port_in, ip_to_int, valid_port, protocol_fits,
  packet_protocol, match_header, is_both_ways,
}

-- The same packet sent the other way.
abbrev pub reply : IdsEvent → IdsEvent
reply e = record e {
  src_ip = e.dst_ip;
  dst_ip = e.src_ip;
  src_port = e.dst_port;
  dst_port = e.src_port;
}

abbrev swap_ends : Ends → Ends
swap_ends x = record {
  src_ip = x.dst_ip;
  src_port = x.dst_port;
  dst_ip = x.src_ip;
  dst_port = x.src_port;
}

abbrev swap_all : Option Ends → Option Ends
swap_all none = none
swap_all (some x) = some (swap_ends x)

ends_of-swap : (sp dp si di : Option ℕ) → ends_of dp sp di si ≡ swap_all (ends_of sp dp si di)
unfolding ends_of
ends_of-swap (some a) (some b) (some c) (some d) = refl
ends_of-swap none none si di = refl
ends_of-swap none (some b) si di = refl
ends_of-swap (some a) none si di = refl
ends_of-swap (some a) (some b) none none = refl
ends_of-swap (some a) (some b) none (some d) = refl
ends_of-swap (some a) (some b) (some c) none = refl

ends-reply : (e : IdsEvent) → ends (reply e) ≡ swap_all (ends e)
unfolding ends
ends-reply e =
    ends_of-swap (valid_port e.src_port) (valid_port e.dst_port) (ip_to_int e.src_ip)
      (ip_to_int e.dst_ip)

and_swap : (a b c d : Bool) → (a && b && c && d) ≡ (c && d && a && b)
and_swap true true true true = refl
and_swap true true true false = refl
and_swap true true false d = refl
and_swap true false true true = refl
and_swap true false true false = refl
and_swap true false false d = refl
and_swap false b true true = refl
and_swap false b true false = refl
and_swap false b false d = refl

if_comm : (p q : Bool) → (if p then true else q) ≡ (if q then true else p)
if_comm true true = refl
if_comm true false = refl
if_comm false true = refl
if_comm false false = refl

-- The two sides that `ends_match` compares, in the order that it compares them.
fits_forward : Rule → Ends → Bool
fits_forward rule x =
    ip_in rule.src_ip x.src_ip
    && port_in rule.src_port x.src_port
    && ip_in rule.dst_ip x.dst_ip
    && port_in rule.dst_port x.dst_port

fits_backward : Rule → Ends → Bool
fits_backward rule x =
    ip_in rule.dst_ip x.src_ip
    && port_in rule.dst_port x.src_port
    && ip_in rule.src_ip x.dst_ip
    && port_in rule.src_port x.dst_port

fits_swap : (rule : Rule) (x : Ends) → fits_forward rule (swap_ends x) ≡ fits_backward rule x
unfolding fits_forward fits_backward
fits_swap rule x = and_swap (ip_in rule.src_ip x.dst_ip) _ _ _

fits_swap' : (rule : Rule) (x : Ends) → fits_backward rule (swap_ends x) ≡ fits_forward rule x
unfolding fits_forward fits_backward
fits_swap' rule x = and_swap (ip_in rule.dst_ip x.dst_ip) _ _ _

ends_match_both :
    (rule : Rule) (x : Ends)
    → is_both_ways rule.direction ≡ true
    → ends_match rule x ≡ (if fits_forward rule x then true else fits_backward rule x)
unfolding ends_match fits_forward fits_backward
ends_match_both rule x b = rw (b) refl

ends_match-swap :
    (rule : Rule) (x : Ends)
    → is_both_ways rule.direction ≡ true
    → ends_match rule (swap_ends x) ≡ ends_match rule x
ends_match-swap rule x b =
    rw
      (
        ends_match_both rule (swap_ends x) b,
        ends_match_both rule x b,
        fits_swap rule x,
        fits_swap' rule x,
      )
      (if_comm (fits_backward rule x) (fits_forward rule x))

header_of : Option RuleProtocol → Rule → Option Ends → Bool
header_of none rule o = false
header_of (some p) rule o =
    if protocol_fits rule.protocol p
    then elim o [ none ↦ false | some x ↦ ends_match rule x ]
    else false

header_of-swap :
    (p : Option RuleProtocol) (rule : Rule) (o : Option Ends)
    → is_both_ways rule.direction ≡ true
    → header_of p rule (swap_all o) ≡ header_of p rule o
unfolding header_of
header_of-swap none rule o b = refl
header_of-swap (some p) rule none b = refl
header_of-swap (some p) rule (some x) b = rw (ends_match-swap rule x b) refl

match_header-eq :
    (rule : Rule) (e : IdsEvent)
    → match_header rule e ≡ header_of (packet_protocol e.transport_protocol) rule (ends e)
unfolding match_header header_of
match_header-eq rule e =
    elim (packet_protocol e.transport_protocol)
      as (λ p.
        elim p [
          | none ↦ false
          | some p ↦
              if protocol_fits rule.protocol p
              then elim (ends e) [ none ↦ false | some x ↦ ends_match rule x ]
              else false
        ]
        ≡ header_of p rule (ends e)) [ none ↦ refl | some p ↦ refl ]

-- A rule with `<>` accepts a packet exactly if it accepts the same packet sent the other way.
pub match_header-reply :
    (rule : Rule) (e : IdsEvent)
    → is_both_ways rule.direction ≡ true
    → match_header rule (reply e) ≡ match_header rule e
match_header-reply rule e b =
    rw (match_header-eq rule (reply e), match_header-eq rule e, ends-reply e)
      (header_of-swap (packet_protocol e.transport_protocol) rule (ends e) b)
