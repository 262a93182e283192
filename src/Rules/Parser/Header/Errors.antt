-- ===== src/Rules/Parser/Header/Errors.antt =====
-- src/rules/parser.py: the reasons that the header may be rejected for.
use nt204_r11_antn_nguyen_th.Base.{
  ℕ, true, ◌≡◌, refl, Option, none, some, List, [], ◌∷◌, ◌++◌, Text, codes, text_eq, one_of,
  has_prefix, split_on, Parts, partition, arith,
}
use nt204_r11_antn_nguyen_th.Models.RuleReport.{is_valid_reason}
use nt204_r11_antn_nguyen_th.Models.Rule.{tcp, udp, ip, one_way, both_ways, port_max}
use nt204_r11_antn_nguyen_th.Engine.Matcher.{ipv4}
use nt204_r11_antn_nguyen_th.Rules.Syntax.{unsupported, ok}
use nt204_r11_antn_nguyen_th.Rules.Syntax.Errors.{
  is_declared, is_declared_invalid, invalid-declared, Raises, ok-Raises, err-Raises,
  raise_if-Raises, cond-Raises, noted-Raises, raise_first-Raises,
}
use nt204_r11_antn_nguyen_th.Rules.Parser.Tokens.{bad_header}
use nt204_r11_antn_nguyen_th.Rules.Parser.Header.{
  bad_ip, bad_port, ip_network, port_range, port_parts, prefix_of, parse_ip, parse_port,
  parse_action, parse_protocol, port_number, parse_direction, parse_header, any_ip, every_port,
  unsupported_actions, unsupported_protocols, alert,
}

pub header_declared : is_declared_invalid bad_header ≡ true
unfolding bad_header is_valid_reason text_eq
header_declared = refl

bad_header_declared : is_declared bad_header ≡ true
bad_header_declared = invalid-declared bad_header header_declared

ip_declared : is_declared bad_ip ≡ true
unfolding bad_ip is_valid_reason text_eq
ip_declared = refl

port_declared : is_declared bad_port ≡ true
unfolding bad_port is_valid_reason text_eq
port_declared = refl

action_declared :
    (token : Text)
    → one_of token unsupported_actions ≡ true
    → is_declared (unsupported (codes "action:" ++ token)) ≡ true
unfolding is_valid_reason text_eq has_prefix
action_declared [] h = cc
action_declared (c ∷ cs) h = ground (arith)

protocol_declared :
    (token : Text)
    → one_of token unsupported_protocols ≡ true
    → is_declared (unsupported (codes "protocol:" ++ token)) ≡ true
unfolding is_valid_reason text_eq has_prefix
protocol_declared [] h = cc
protocol_declared (c ∷ cs) h = ground (arith)

ip_network-Raises : (a p : Option ℕ) → Raises is_declared (ip_network a p)
unfolding ip_network
ip_network-Raises none p = err-Raises _ is_declared bad_ip ip_declared
ip_network-Raises (some a) none = err-Raises _ is_declared bad_ip ip_declared
ip_network-Raises (some a) (some p) =
    raise_if-Raises is_declared _ bad_ip _ (λ e. ip_declared) (ok-Raises is_declared _)

pub parse_ip-Raises : (token : Text) → Raises is_declared (parse_ip token)
unfolding parse_ip is_valid_reason text_eq
parse_ip-Raises token =
    let parts = partition b'/' token in
    cond-Raises is_declared _ (ok any_ip) _ (ok-Raises is_declared any_ip) (
      raise_if-Raises is_declared _ (unsupported (codes "ip_syntax")) _ (λ e. refl)
        (raise_if-Raises is_declared _ bad_ip _ (λ e. ip_declared)
          (ip_network-Raises (ipv4 (split_on b'.' parts.before)) (prefix_of parts))))

port_range-Raises : (lo hi : Option ℕ) → Raises is_declared (port_range lo hi)
unfolding port_range
port_range-Raises none hi = err-Raises _ is_declared bad_port port_declared
port_range-Raises (some lo) none = err-Raises _ is_declared bad_port port_declared
port_range-Raises (some lo) (some hi) =
    raise_if-Raises is_declared _ bad_port _ (λ e. port_declared) (ok-Raises is_declared _)

port_parts-Raises : (p : Parts) → Raises is_declared (port_parts p)
unfolding port_parts
port_parts-Raises p =
    cond-Raises is_declared p.found _ _
      (raise_if-Raises is_declared _ bad_port _ (λ e. port_declared)
        (port_range-Raises (port_number p.before (some 0)) (port_number p.after (some port_max))))
      (port_range-Raises (port_number p.before none) (port_number p.before (some port_max)))

pub parse_port-Raises : (token : Text) → Raises is_declared (parse_port token)
unfolding parse_port is_valid_reason text_eq
parse_port-Raises token =
    cond-Raises is_declared _ (ok every_port) _ (ok-Raises is_declared every_port) (
      raise_if-Raises is_declared _ (unsupported (codes "port_syntax")) _ (λ e. refl)
        (port_parts-Raises (partition b':' token)))

pub parse_action-Raises : (token : Text) → Raises is_declared (parse_action token)
unfolding parse_action
parse_action-Raises token = cond-Raises is_declared _ (ok alert) _ (ok-Raises is_declared alert) (
    raise_if-Raises is_declared _ (unsupported (codes "action:" ++ token)) _ (action_declared token)
      (err-Raises _ is_declared bad_header bad_header_declared))

pub parse_protocol-Raises : (token : Text) → Raises is_declared (parse_protocol token)
unfolding parse_protocol
parse_protocol-Raises token = cond-Raises is_declared _ (ok tcp) _ (ok-Raises is_declared tcp) (
    cond-Raises is_declared _ (ok udp) _ (ok-Raises is_declared udp) (
      cond-Raises is_declared _ (ok ip) _ (ok-Raises is_declared ip) (
        raise_if-Raises is_declared _ (unsupported (codes "protocol:" ++ token)) _
          (protocol_declared token) (err-Raises _ is_declared bad_header bad_header_declared))))

pub parse_direction-Raises : (token : Text) → Raises is_declared (parse_direction token)
unfolding parse_direction is_valid_reason text_eq
parse_direction-Raises token =
    cond-Raises is_declared _ (ok one_way) _ (ok-Raises is_declared one_way) (
      cond-Raises is_declared _ (ok both_ways) _ (ok-Raises is_declared both_ways)
        (err-Raises _ is_declared _ refl))

fields-Raises :
    (action protocol src_ip src_port direction dst_ip dst_port : Text)
    → Raises is_declared
        (parse_header (action ∷ protocol ∷ src_ip ∷ src_port ∷ direction ∷ dst_ip ∷ dst_port ∷ []))
unfolding parse_header any_ip every_port
fields-Raises action protocol src_ip src_port direction dst_ip dst_port =
    let P = is_declared in
    noted-Raises P alert _ [] _ (parse_action-Raises action) refl (λ a us h.
      noted-Raises P ip _ us _ (parse_protocol-Raises protocol) h (λ p us h.
        noted-Raises P any_ip _ us _ (parse_ip-Raises src_ip) h (λ si us h.
          noted-Raises P every_port _ us _ (parse_port-Raises src_port) h (λ sp us h.
            noted-Raises P one_way _ us _ (parse_direction-Raises direction) h (λ d us h.
              noted-Raises P any_ip _ us _ (parse_ip-Raises dst_ip) h (λ di us h.
                noted-Raises P every_port _ us _ (parse_port-Raises dst_port) h
                  (λ dp us h. raise_first-Raises P us _ h (ok-Raises P _))))))))

pub parse_header-Raises : (tokens : List Text) → Raises is_declared (parse_header tokens)
unfolding parse_header
parse_header-Raises (a ∷ p ∷ si ∷ sp ∷ d ∷ di ∷ dp ∷ []) = fields-Raises a p si sp d di dp
parse_header-Raises _ = err-Raises _ is_declared bad_header bad_header_declared
