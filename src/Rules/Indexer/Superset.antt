-- ===== src/Rules/Indexer/Superset.antt =====
-- A rule that the index drops does not pass the header stage of `match_rule`.
use nt204_r11_antn_nguyen_th.Base.{
  ℕ, ◌≡◌, refl, ◌∙◌, ◌≢◌, inl, inr, Bool, true, ◌&&◌, ◌||◌, Option, none, some, List, [], ◌∷◌,
  filter, arith, Bool-cases, Option-cases, Text,
}
use nt204_r11_antn_nguyen_th.Models.Rule.{Rule, RuleProtocol, RuleDirection, both_ways, one_way}
use nt204_r11_antn_nguyen_th.Models.Event.{IdsEvent}
use nt204_r11_antn_nguyen_th.Engine.Matcher.{
  Ends, ends, ends_of, ends_match, port_in, ip_to_int, valid_port, protocol_fits, packet_protocol,
  match_header, is_both_ways,
}
use nt204_r11_antn_nguyen_th.Rules.Indexer.{
  Indexer, new_indexer, candidates, indexed_protocol, usable_port,
}
use nt204_r11_antn_nguyen_th.Rules.Indexer.Filing.{files, same_protocol, back_in}
use nt204_r11_antn_nguyen_th.Rules.Indexer.Candidates.{covers, scan_rules, candidates_lem}
use nt204_r11_antn_nguyen_th.Rules.Repository.{Repository, all_rules}

ends_of-port :
    (sp dp si di : Option ℕ) (x : Ends) → ends_of sp dp si di ≡ some x → dp ≡ some x.dst_port
unfolding ends_of
ends_of-port (some a) (some b) (some c) (some d) x h = ground arith
ends_of-port none dp si di x h = cc
ends_of-port (some a) none si di x h = cc
ends_of-port (some a) (some b) none di x h = cc
ends_of-port (some a) (some b) (some c) none x h = cc

ends-port : (e : IdsEvent) (x : Ends) → ends e ≡ some x → valid_port e.dst_port ≡ some x.dst_port
unfolding ends
ends-port e x h =
    ends_of-port (valid_port e.src_port) (valid_port e.dst_port) (ip_to_int e.src_ip)
      (ip_to_int e.dst_ip) x h

valid_port-usable : (port : Option ℕ) → usable_port port ≡ valid_port port
unfolding usable_port valid_port
valid_port-usable none = refl
valid_port-usable (some p) = refl

packet_protocol-indexed :
    (t : Option Text) (p : RuleProtocol) → packet_protocol t ≡ some p → indexed_protocol t ≡ some p
unfolding packet_protocol indexed_protocol
packet_protocol-indexed none p h = cc
packet_protocol-indexed (some t) p h = ground arith

fits-same :
    (q p : RuleProtocol)
    → protocol_fits q p ≡ true
    → (same_protocol q p || same_protocol q RuleProtocol.ip) ≡ true
fits-same RuleProtocol.tcp RuleProtocol.tcp h = refl
fits-same RuleProtocol.tcp RuleProtocol.udp h = cc
fits-same RuleProtocol.tcp RuleProtocol.ip h = cc
fits-same RuleProtocol.udp RuleProtocol.tcp h = cc
fits-same RuleProtocol.udp RuleProtocol.udp h = refl
fits-same RuleProtocol.udp RuleProtocol.ip h = cc
fits-same RuleProtocol.ip RuleProtocol.tcp h = refl
fits-same RuleProtocol.ip RuleProtocol.udp h = refl
fits-same RuleProtocol.ip RuleProtocol.ip h = refl

back_in-both :
    (d : RuleDirection) (spec : _) (port : ℕ)
    → back_in d spec port ≡ (is_both_ways d && port_in spec port)
unfolding back_in
back_in-both both_ways spec port = refl
back_in-both one_way spec port = refl

ends_match-port :
    (rule : Rule) (x : Ends)
    → ends_match rule x ≡ true
    → (port_in rule.dst_port x.dst_port || back_in rule.direction rule.src_port x.dst_port) ≡ true
unfolding ends_match
ends_match-port rule x h = ground (arith, back_in-both rule.direction rule.src_port x.dst_port)

covers-port :
    (rule : Rule) (p : RuleProtocol) (x : Ends)
    → protocol_fits rule.protocol p ≡ true
    → ends_match rule x ≡ true
    → covers p x.dst_port rule ≡ true
unfolding covers files
covers-port rule p x h k = ground (arith, fits-same rule.protocol p h, ends_match-port rule x k)

-- What a rule that passes the header stage says of the packet.
match_header_inv :
    (rule : Rule) (e : IdsEvent)
    → match_header rule e ≡ true
    → (p : RuleProtocol) × (x : Ends) × (packet_protocol e.transport_protocol ≡ some p)
      × (ends e ≡ some x)
      × (protocol_fits rule.protocol p ≡ true)
      × (ends_match rule x ≡ true)
unfolding match_header
match_header_inv rule e h = elim (Option-cases (packet_protocol e.transport_protocol)) [
  | inl n ↦ ground arith
  | inr (p, sp) ↦ elim (Option-cases (ends e)) [
    | inl n ↦ ground arith
    | inr (x, sx) ↦ (p, x, sp, sx, ground arith, ground arith)
  ]
]

match_header-covers :
    (rule : Rule) (e : IdsEvent)
    → match_header rule e ≡ true
    → (p : RuleProtocol) × (port : ℕ) × (indexed_protocol e.transport_protocol ≡ some p)
      × (usable_port e.dst_port ≡ some port)
      × (covers p port rule ≡ true)
match_header-covers rule e h =
    let (p, x, sp, sx, fits, both) = match_header_inv rule e h in
    (
      p,
      x.dst_port,
      packet_protocol-indexed e.transport_protocol p sp,
      valid_port-usable e.dst_port ∙ ends-port e x sx,
      covers-port rule p x fits both,
    )

pub filter-filter :
    (h c : Rule → Bool) (rules : List Rule)
    → ((r : Rule) → h r ≡ true → c r ≡ true)
    → filter h (filter c rules) ≡ filter h rules
filter-filter h c [] k = refl
filter-filter h c (rule ∷ rules) k = elim (Bool-cases (c rule)) [
  | inl e ↦ ground (arith, filter-filter h c rules k)
  | inr e ↦ ground (arith, filter-filter h c rules k, k rule)
]

filter_nothing :
    (h : Rule → Bool) (rules : List Rule) → ((r : Rule) → h r ≢ true) → [] ≡ filter h rules
filter_nothing h [] k = refl
filter_nothing h (rule ∷ rules) k = ground (arith, filter_nothing h rules k, k rule)

scan_rules_header :
    (rules : List Rule) (e : IdsEvent) (p : Option RuleProtocol) (port : Option ℕ)
    → indexed_protocol e.transport_protocol ≡ p
    → usable_port e.dst_port ≡ port
    → filter (λ r. match_header r e) (scan_rules rules p port)
      ≡ filter (λ r. match_header r e) rules
unfolding scan_rules
scan_rules_header rules e none port i u =
    filter_nothing _ rules (λ r h. let (p, port, ip, up, c) = match_header-covers r e h in cc)
scan_rules_header rules e (some p) none i u =
    filter_nothing _ rules (λ r h. let (p, port, ip, up, c) = match_header-covers r e h in cc)
scan_rules_header rules e (some p) (some port) i u =
    filter-filter _ (covers p port) rules
      (λ r h. let (p', port', ip, up, c) = match_header-covers r e h in cc)

-- A linear scan by protocol and port keeps every rule that passes the header stage.
pub scan_rules-match_header :
    (rules : List Rule) (e : IdsEvent)
    → filter
        (λ r. match_header r e)
        (scan_rules rules (indexed_protocol e.transport_protocol) (usable_port e.dst_port))
      ≡ filter (λ r. match_header r e) rules
scan_rules-match_header rules e =
    scan_rules_header rules e (indexed_protocol e.transport_protocol) (usable_port e.dst_port) refl
      refl

-- The index of a frozen repository returns, for the protocol and destination port of a packet,
-- candidates among which are all rules that pass the packet's header stage: testing the header of
-- the candidates, or that of every rule, selects the same rules in the same order.
pub candidates-match_header :
    (r : Repository) (e : IdsEvent)
    → r.frozen ≡ true
    → (x : Indexer) × (cs : List Rule) × (new_indexer r ≡ some x)
      × (candidates x e.transport_protocol e.dst_port ≡ some cs)
      × (filter (λ rule. match_header rule e) cs
          ≡ filter (λ rule. match_header rule e) (all_rules r))
candidates-match_header r e frozen =
    let (x, made, found) = candidates_lem r e.transport_protocol e.dst_port frozen in
    (x, _, made, found, scan_rules-match_header (all_rules r) e)
