-- ===== src/Rules/Parser/Header/Bounds.antt =====
-- src/rules/parser.py: the specifications of a header pass the checks of their classes.
use nt204_r11_antn_nguyen_th.Base.{
  ℕ, Bool, true, not, ◌&&◌, ◌≡◌, refl, Option, none, some, List, [], ◌∷◌, leb, Text, codes, text_eq,
  Parts, partition, arith,
}
use nt204_r11_antn_nguyen_th.Models.Rule.{
  IpSpec, PortSpec, ip, one_way, ip_spec_ok, port_spec_ok, port_max,
}
use nt204_r11_antn_nguyen_th.Rules.Syntax.Returns.{
  Returns, Anything, anything, ok-Returns, err-Returns, raise_if-Returns, cond-Returns,
  noted-Returns, raise_first-Returns,
}
use nt204_r11_antn_nguyen_th.Rules.Parser.Tokens.{bad_header}
use nt204_r11_antn_nguyen_th.Rules.Parser.Header.{
  bad_port, any_ip, every_port, port_number, port_range, port_parts, parse_action, parse_protocol,
  parse_port, parse_direction, Header, alert, parse_header,
}
use nt204_r11_antn_nguyen_th.Rules.Parser.Header.Network.{parse_ip-ok}

abbrev IpOk : IpSpec → Type 0
IpOk s = ip_spec_ok s ≡ true

abbrev PortOk : PortSpec → Type 0
PortOk s = port_spec_ok s ≡ true

port_range-ok : (lo hi : Option ℕ) → Returns PortOk (port_range lo hi)
unfolding port_range
port_range-ok none hi = err-Returns PortOk bad_port
port_range-ok (some lo) none = err-Returns PortOk bad_port
port_range-ok (some lo) (some hi) =
    raise_if-Returns PortOk (not (leb lo hi && leb hi port_max)) bad_port _
      (λ e. ok-Returns PortOk _ (ground (arith, e)))

port_parts-ok : (p : Parts) → Returns PortOk (port_parts p)
unfolding port_parts
port_parts-ok p =
    cond-Returns PortOk p.found _ _
      (raise_if-Returns PortOk _ bad_port _
        (λ e. port_range-ok (port_number p.before (some 0)) (port_number p.after (some port_max))))
      (port_range-ok (port_number p.before none) (port_number p.before (some port_max)))

-- Every specification of ports that is parsed is a range within 0..65535.
pub parse_port-ok : (token : Text) → Returns PortOk (parse_port token)
unfolding parse_port every_port
parse_port-ok token =
    cond-Returns PortOk (text_eq token (codes "any")) _ _ (ok-Returns PortOk _ refl)
      (raise_if-Returns PortOk _ _ _ (λ e. port_parts-ok (partition b':' token)))

-- The checks of the four specifications.
abbrev pub header_ok : Header → Bool
header_ok h =
    ip_spec_ok h.src_ip && port_spec_ok h.src_port && ip_spec_ok h.dst_ip && port_spec_ok h.dst_port

abbrev pub HeaderOk : Header → Type 0
HeaderOk h = header_ok h ≡ true

fields-ok :
    (action protocol src_ip src_port direction dst_ip dst_port : Text)
    → Returns HeaderOk
        (parse_header (action ∷ protocol ∷ src_ip ∷ src_port ∷ direction ∷ dst_ip ∷ dst_port ∷ []))
unfolding parse_header any_ip every_port
fields-ok action protocol src_ip src_port direction dst_ip dst_port =
    let Q = HeaderOk in
    noted-Returns Q Anything alert _ [] _ (anything (parse_action action)) tt (λ a us h.
      noted-Returns Q Anything ip _ us _ (anything (parse_protocol protocol)) tt (λ p us h.
        noted-Returns Q IpOk any_ip _ us _ (parse_ip-ok src_ip) refl (λ si us s.
          noted-Returns Q PortOk every_port _ us _ (parse_port-ok src_port) refl (λ sp us t.
            noted-Returns Q Anything one_way _ us _ (anything (parse_direction direction)) tt
              (λ d us h. noted-Returns Q IpOk any_ip _ us _ (parse_ip-ok dst_ip) refl (λ di us u.
                noted-Returns Q PortOk every_port _ us _ (parse_port-ok dst_port) refl (λ dp us v.
                  raise_first-Returns Q us _ (ok-Returns Q _ (ground (arith, s, t, u, v))))))))))

pub parse_header-ok : (tokens : List Text) → Returns HeaderOk (parse_header tokens)
unfolding parse_header
parse_header-ok (a ∷ p ∷ si ∷ sp ∷ d ∷ di ∷ dp ∷ []) = fields-ok a p si sp d di dp
parse_header-ok _ = err-Returns HeaderOk bad_header
