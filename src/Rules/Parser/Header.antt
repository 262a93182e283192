-- ===== src/Rules/Parser/Header.antt =====
-- src/rules/parser.py: the seven tokens of the header.
pub mod Verdict
pub mod Bounds
pub mod Errors
pub mod Network
pub mod Ports
use Prim.Native.Nat.{bit_and}
use nt204_r11_antn_nguyen_th.Base.{
  ℕ, ◌-◌, ◌^◌, Bool, true, false, not, ◌&&◌, ◌||◌, Option, none, some, List, [], ◌∷◌, length, any,
  leb, ◌==◌, if◌then◌else◌, Text, codes, text_eq, split_on, one_of, heads, Parts, partition,
  is_ascii_digits, int_of, ◌++◌,
}
use nt204_r11_antn_nguyen_th.Models.Rule.{
  RuleProtocol, tcp, udp, ip, RuleDirection, one_way, both_ways, IpSpec, PortSpec, port_max,
}
use nt204_r11_antn_nguyen_th.Engine.Matcher.{ipv4}
use nt204_r11_antn_nguyen_th.Rules.Syntax.{
  Reason, invalid, unsupported, Result, ok, err, need, raise_if, raise_first, noted, ◌>>=◌,
}
use nt204_r11_antn_nguyen_th.Rules.Parser.Tokens.{bad_header}

unfoldable pub bad_ip : Reason
bad_ip = invalid (codes "bad_ip")

unfoldable pub bad_port : Reason
bad_port = invalid (codes "bad_port")

-- `token.startswith(_UNSUPPORTED_PREFIXES)`
abbrev pub is_unsupported_syntax : Text → Bool
is_unsupported_syntax token = heads b'$' token || heads b'!' token || heads b'[' token

-- The netmask of a prefix length up to 32.
abbrev pub netmask : ℕ → ℕ
netmask prefix = 2 ^ 32 - 2 ^ (32 - prefix)

unfoldable pub any_ip : IpSpec
any_ip = record { any = true; network = 0; mask = 0 }

-- `ipaddress.ip_network(token, strict=False)`, of which only version 4 passes: the address, the
-- prefix length that was given and its size.
unfoldable pub ip_network : Option ℕ → Option ℕ → Result IpSpec
ip_network (some address) (some prefix) =
    raise_if (not (leb prefix 32)) bad_ip (
      ok
        (record { any = false; network = bit_and address (netmask prefix); mask = netmask prefix }))
ip_network _ _ = err bad_ip

unfoldable pub prefix_of : Parts → Option ℕ
prefix_of parts = if parts.found then int_of parts.after else some 32

unfoldable pub parse_ip : Text → Result IpSpec
unfolding any_ip prefix_of
parse_ip token =
    if text_eq token (codes "any")
    then ok any_ip
    else raise_if (is_unsupported_syntax token) (unsupported (codes "ip_syntax")) (
        let parts = partition b'/' token in
        raise_if (parts.found && not (is_ascii_digits parts.after)) bad_ip
          (ip_network (ipv4 (split_on b'.' parts.before)) (prefix_of parts)))

unfoldable pub every_port : PortSpec
every_port = record { lo = 0; hi = port_max }

-- `_port_number`; `none` is a `ValueError`.
unfoldable pub port_number : Text → Option ℕ → Option ℕ
port_number [] (some default) = some default
port_number text _ = if is_ascii_digits text then int_of text else none

-- The range lo..hi, if both ends are numbers.
unfoldable pub port_range : Option ℕ → Option ℕ → Result PortSpec
port_range (some lo) (some hi) =
    raise_if (not (leb lo hi && leb hi port_max)) bad_port (ok (record { lo = lo; hi = hi }))
port_range _ _ = err bad_port

-- The ends of a single port are the same.
port_parts : Parts → Result PortSpec
port_parts p =
    if p.found
    then raise_if (any (λ c. c == b':') p.after || length p.before == 0 && length p.after == 0)
        bad_port (port_range (port_number p.before (some 0)) (port_number p.after (some port_max)))
    else port_range (port_number p.before none) (port_number p.before (some port_max))

unfoldable pub parse_port : Text → Result PortSpec
unfolding every_port port_parts
parse_port token =
    if text_eq token (codes "any")
    then ok every_port
    else raise_if (is_unsupported_syntax token) (unsupported (codes "port_syntax"))
        (port_parts (partition b':' token))

abbrev pub unsupported_actions : List Text
unsupported_actions =
    codes "drop"
    ∷ codes "reject"
    ∷ codes "pass"
    ∷ codes "log"
    ∷ codes "sdrop"
    ∷ codes "activate"
    ∷ codes "dynamic"
    ∷ []

abbrev pub unsupported_protocols : List Text
unsupported_protocols =
    codes "icmp"
    ∷ codes "icmpv6"
    ∷ codes "http"
    ∷ codes "dns"
    ∷ codes "smtp"
    ∷ codes "ftp"
    ∷ codes "ssh"
    ∷ codes "tls"
    ∷ codes "ssl"
    ∷ codes "smb"
    ∷ codes "pop3"
    ∷ codes "imap"
    ∷ codes "telnet"
    ∷ codes "snmp"
    ∷ codes "sip"
    ∷ codes "tftp"
    ∷ codes "ntp"
    ∷ codes "dhcp"
    ∷ codes "rdp"
    ∷ []

-- The only action is `alert`.
pub data RuleAction : Type 0 where
  alert : RuleAction

unfoldable pub parse_action : Text → Result RuleAction
parse_action token =
    if text_eq token (codes "alert")
    then ok alert
    else raise_if (one_of token unsupported_actions) (unsupported (codes "action:" ++ token))
        (err bad_header)

unfoldable pub parse_protocol : Text → Result RuleProtocol
parse_protocol token =
    if text_eq token (codes "tcp")
    then ok tcp
    else if text_eq token (codes "udp")
    then ok udp
    else if text_eq token (codes "ip")
    then ok ip
    else raise_if (one_of token unsupported_protocols) (unsupported (codes "protocol:" ++ token))
        (err bad_header)

unfoldable pub parse_direction : Text → Result RuleDirection
parse_direction token =
    if text_eq token (codes "->")
    then ok one_way
    else if text_eq token (codes "<>")
    then ok both_ways
    else err (invalid (codes "bad_direction"))

pub record Header : Type 0 where
  pub action : RuleAction
  pub protocol : RuleProtocol
  pub src_ip : IpSpec
  pub src_port : PortSpec
  pub direction : RuleDirection
  pub dst_ip : IpSpec
  pub dst_port : PortSpec

-- The first unsupported part is raised after the last one has been read.
unfoldable pub parse_header : List Text → Result Header
unfolding any_ip every_port
parse_header (action ∷ protocol ∷ src_ip ∷ src_port ∷ direction ∷ dst_ip ∷ dst_port ∷ []) = do
  (a, us) ← noted alert (parse_action action) []
  (p, us) ← noted ip (parse_protocol protocol) us
  (si, us) ← noted any_ip (parse_ip src_ip) us
  (sp, us) ← noted every_port (parse_port src_port) us
  (d, us) ← noted one_way (parse_direction direction) us
  (di, us) ← noted any_ip (parse_ip dst_ip) us
  (dp, us) ← noted every_port (parse_port dst_port) us
  raise_first us (
      ok (record {
        action = a;
        protocol = p;
        src_ip = si;
        src_port = sp;
        direction = d;
        dst_ip = di;
        dst_port = dp;
      }))
parse_header _ = err bad_header
