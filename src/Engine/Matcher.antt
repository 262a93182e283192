-- ===== src/Engine/Matcher.antt =====
-- src/engine/matcher.py: one rule against one packet, stage by stage.
pub mod Stages
pub mod Header
pub mod Kept
use Prim.Native.Nat.{bit_and}
use nt204_r11_antn_nguyen_th.Base.{
  ℕ, ◌+◌, ◌*◌, Bool, true, false, not, ◌&&◌, ◌||◌, Option, none, some, List, [], ◌∷◌, length, any,
  all, ltb, leb, ◌==◌, if◌then◌else◌, Text, codes, text_eq, upper, lower, split_on, is_digit,
  decimal,
}
use nt204_r11_antn_nguyen_th.Models.Rule.{
  Rule, ContentSpec, RuleProtocol, RuleDirection, both_ways, one_way, IpSpec, PortSpec, FlowSpec,
  FlowRole, to_server, to_client, FlowStateSpec, FlagsSpec, FlagsMode, DsizeSpec, DsizeOp,
}
use nt204_r11_antn_nguyen_th.Models.Event.{IdsEvent}
use nt204_r11_antn_nguyen_th.Models.EngineTypes.{Stage, FlowContext, MatchResult}
use nt204_r11_antn_nguyen_th.Flow.TcpState.{normalize_flags}
use nt204_r11_antn_nguyen_th.Engine.Content.{Match, header}
use nt204_r11_antn_nguyen_th.Engine.Stats.{Stats, record_stage}

abbrev no_leading_zero : Text → Bool
no_leading_zero (c ∷ d ∷ cs) = not (c == b'0')
no_leading_zero _ = true

-- One part of `ipaddress.IPv4Address`: one to three ASCII digits without a leading zero, up to 255.
unfoldable pub octet : Text → Option ℕ
octet t =
    if ltb 0 (length t)
      && leb (length t) 3
      && all is_digit t
      && no_leading_zero t
      && leb (decimal t) 255
    then some (decimal t)
    else none

unfoldable pub quad : Option ℕ → Option ℕ → Option ℕ → Option ℕ → Option ℕ
quad (some a) (some b) (some c) (some d) = some (((a * 256 + b) * 256 + c) * 256 + d)
quad _ _ _ _ = none

unfoldable pub ipv4 : List Text → Option ℕ
ipv4 (a ∷ b ∷ c ∷ d ∷ []) = quad (octet a) (octet b) (octet c) (octet d)
ipv4 _ = none

-- `_ip_to_int`
unfoldable pub ip_to_int : Option Text → Option ℕ
ip_to_int none = none
ip_to_int (some t) = ipv4 (split_on b'.' t)

unfoldable pub ip_in : IpSpec → ℕ → Bool
ip_in spec ip = spec.any || bit_and ip spec.mask == spec.network

unfoldable pub port_in : PortSpec → ℕ → Bool
port_in spec port = leb spec.lo port && leb port spec.hi

-- `_valid_port`
unfoldable pub valid_port : Option ℕ → Option ℕ
valid_port none = none
valid_port (some p) = if leb p 65535 then some p else none

-- What the header stage reads of an event: `none` if anything is missing or not valid.
pub record Ends : Type 0 where
  pub src_ip : ℕ
  pub src_port : ℕ
  pub dst_ip : ℕ
  pub dst_port : ℕ

unfoldable pub ends_of : Option ℕ → Option ℕ → Option ℕ → Option ℕ → Option Ends
ends_of (some sp) (some dp) (some si) (some di) =
    some (record { src_ip = si; src_port = sp; dst_ip = di; dst_port = dp })
ends_of _ _ _ _ = none

unfoldable pub ends : IdsEvent → Option Ends
ends e =
    ends_of (valid_port e.src_port) (valid_port e.dst_port) (ip_to_int e.src_ip)
      (ip_to_int e.dst_ip)

abbrev pub protocol_name : RuleProtocol → Text
protocol_name RuleProtocol.tcp = codes "tcp"
protocol_name RuleProtocol.udp = codes "udp"
protocol_name RuleProtocol.ip = codes "ip"

-- `protocol.lower()`, if it is "tcp" or "udp"
unfoldable pub packet_protocol : Option Text → Option RuleProtocol
packet_protocol none = none
packet_protocol (some p) =
    if text_eq (lower p) (codes "tcp")
    then some RuleProtocol.tcp
    else if text_eq (lower p) (codes "udp")
    then some RuleProtocol.udp
    else none

abbrev pub protocol_fits : RuleProtocol → RuleProtocol → Bool
protocol_fits RuleProtocol.ip p = true
protocol_fits RuleProtocol.tcp RuleProtocol.tcp = true
protocol_fits RuleProtocol.udp RuleProtocol.udp = true
protocol_fits _ _ = false

abbrev pub is_both_ways : RuleDirection → Bool
is_both_ways both_ways = true
is_both_ways one_way = false

unfoldable pub ends_match : Rule → Ends → Bool
ends_match rule x =
    if ip_in rule.src_ip x.src_ip
      && port_in rule.src_port x.src_port
      && ip_in rule.dst_ip x.dst_ip
      && port_in rule.dst_port x.dst_port
    then true
    else (if is_both_ways rule.direction
        then ip_in rule.dst_ip x.src_ip
          && port_in rule.dst_port x.src_port
          && ip_in rule.src_ip x.dst_ip
          && port_in rule.src_port x.dst_port
        else false)

unfoldable pub match_header : Rule → IdsEvent → Bool
match_header rule e = elim (packet_protocol e.transport_protocol) [
  | none ↦ false
  | some p ↦
      if protocol_fits rule.protocol p
      then elim (ends e) [ none ↦ false | some x ↦ ends_match rule x ]
      else false
]

abbrev same_role : FlowRole → FlowRole → Bool
same_role to_server to_server = true
same_role to_client to_client = true
same_role _ _ = false

-- `flow.role is not None and ctx.role != flow.role`
role_differs : Option FlowRole → Option FlowRole → Bool
role_differs none r = false
role_differs (some w) none = true
role_differs (some w) (some r) = not (same_role w r)

state_differs : Option FlowStateSpec → Bool → Bool
state_differs none established = false
state_differs (some FlowStateSpec.established) established = not established
state_differs (some FlowStateSpec.not_established) established = established

match_flow_option : Option FlowSpec → Option FlowContext → Bool
match_flow_option none ctx = true
match_flow_option (some flow) none = false
match_flow_option (some flow) (some ctx) =
    if role_differs flow.role ctx.role
    then false
    else not (state_differs flow.state ctx.established)

unfoldable pub match_flow : Rule → Option FlowContext → Bool
unfolding match_flow_option role_differs state_differs
match_flow rule ctx = match_flow_option rule.flow ctx

-- `FLAG_LETTERS`: the letters of the names that are known.
flag_letter : Text → List ℕ → List ℕ
flag_letter name rest =
    if text_eq name (codes "FIN")
    then b'F' ∷ rest
    else if text_eq name (codes "SYN")
    then b'S' ∷ rest
    else if text_eq name (codes "RST")
    then b'R' ∷ rest
    else if text_eq name (codes "PSH")
    then b'P' ∷ rest
    else if text_eq name (codes "ACK")
    then b'A' ∷ rest
    else if text_eq name (codes "URG")
    then b'U' ∷ rest
    else if text_eq name (codes "ECE")
    then b'E' ∷ rest
    else if text_eq name (codes "CWR")
    then b'C' ∷ rest
    else rest

unfoldable pub flag_letters : List Text → List ℕ
unfolding flag_letter
flag_letters [] = []
flag_letters (name ∷ names) = flag_letter name (flag_letters names)

abbrev pub has_letter : List ℕ → ℕ → Bool
has_letter set f = any (λ g. f == g) set

abbrev pub subset : List ℕ → List ℕ → Bool
subset xs ys = all (has_letter ys) xs

abbrev pub meets : List ℕ → List ℕ → Bool
meets xs ys = any (has_letter ys) xs

unfoldable pub flags_fit : FlagsMode → List ℕ → List ℕ → Bool
flags_fit FlagsMode.exact wanted present = subset present wanted && subset wanted present
flags_fit FlagsMode.all_of wanted present = subset wanted present
flags_fit FlagsMode.any_of wanted present = meets wanted present
flags_fit FlagsMode.none_of wanted present = not (meets wanted present)

abbrev is_tcp_text : Option Text → Bool
is_tcp_text none = false
is_tcp_text (some p) = text_eq (upper p) (codes "TCP")

packet_flags_fit : FlagsSpec → Option (List Text) → Bool
packet_flags_fit spec none = false
packet_flags_fit spec (some raw) =
    flags_fit spec.mode spec.flags (flag_letters (normalize_flags (some raw)))

unfoldable pub match_flags : Option FlagsSpec → IdsEvent → Bool
unfolding packet_flags_fit
match_flags none e = true
match_flags (some spec) e =
    if is_tcp_text e.transport_protocol then packet_flags_fit spec e.flags else false

abbrev pub size_of : Option (List ℕ) → ℕ
size_of none = 0
size_of (some bytes) = length bytes

abbrev upper_bound : Option ℕ → ℕ → Bool
upper_bound none n = false
upper_bound (some b) n = leb n b

unfoldable pub dsize_fits : DsizeOp → ℕ → Option ℕ → ℕ → Bool
dsize_fits DsizeOp.eq a b n = n == a
dsize_fits DsizeOp.lt a b n = ltb n a
dsize_fits DsizeOp.gt a b n = ltb a n
dsize_fits DsizeOp.range a b n = leb a n && upper_bound b n

unfoldable pub match_dsize : Option DsizeSpec → IdsEvent → Bool
match_dsize none e = true
match_dsize (some spec) e = dsize_fits spec.op spec.a spec.b (size_of e.payload)

-- A call that returns, or raises an exception.
pub data Attempt {ℓ} (A : Type ℓ) : Type ℓ where
  returned : A → Attempt A
  raised : Attempt A

abbrev pub ContentFn : Type 0
ContentFn = Rule → IdsEvent → Attempt (Option (List Match))

abbrev pub call : Option ContentFn → Rule → IdsEvent → Attempt (Option (List Match))
call none rule e = returned none
call (some f) rule e = f rule e

abbrev pub Tested : Type 0
Tested = Stats × Attempt (MatchResult Match)

abbrev pub fail : Stage → Rule → MatchResult Match
fail stage rule = record { matched = false; rule = rule; failed_stage = some stage; matches = [] }

abbrev pub success : Rule → List Match → MatchResult Match
success rule ms = record { matched = true; rule = rule; failed_stage = none; matches = ms }

-- The content stage, by what `content_fn` did. An empty list counts as no match.
unfoldable pub content_stage : Rule → Stats → Attempt (Option (List Match)) → Tested
content_stage rule s raised = (s, raised)
content_stage rule s (returned (some (m ∷ ms))) =
    (record_stage Stage.content true s, returned (success rule (m ∷ ms)))
content_stage rule s (returned _) =
    (record_stage Stage.content false s, returned (fail Stage.content rule))

unfoldable pub last_stage : List ContentSpec → Rule → IdsEvent → Option ContentFn → Stats → Tested
last_stage [] rule e f s = (s, returned (success rule (header ∷ [])))
last_stage (c ∷ cs) rule e f s = content_stage rule s (call f rule e)

-- The stages in order, given what each of them says: the first failing one ends the test.
unfoldable pub stages : Bool → Bool → Bool → Rule → (Stats → Tested) → Stats → Tested
stages false _ _ rule last s =
    (record_stage Stage.header false s, returned (fail Stage.header rule))
stages true false _ rule last s =
    let s1 = record_stage Stage.header true s in
    (record_stage Stage.flow false s1, returned (fail Stage.flow rule))
stages true true false rule last s =
    let s1 = record_stage Stage.header true s in
    let s2 = record_stage Stage.flow true s1 in
    (record_stage Stage.packet false s2, returned (fail Stage.packet rule))
stages true true true rule last s =
    let s1 = record_stage Stage.header true s in
    let s2 = record_stage Stage.flow true s1 in last (record_stage Stage.packet true s2)

-- `match_flags(rule.flags, event) and match_dsize(rule.dsize, event)`
unfoldable pub match_packet : Rule → IdsEvent → Bool
match_packet rule e = match_flags rule.flags e && match_dsize rule.dsize e

unfoldable pub match_rule : Rule → IdsEvent → Option FlowContext → Option ContentFn → Stats → Tested
match_rule rule e ctx f s =
    stages (match_header rule e) (match_flow rule ctx) (match_packet rule e) rule
      (last_stage rule.contents rule e f) s
