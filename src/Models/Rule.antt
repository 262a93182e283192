-- ===== src/Models/Rule.antt =====
-- src/models/rule.py: a parsed rule. The checks of `__post_init__` are Boolean tests, which hold of
-- every object that the source can build.
use nt204_r11_antn_nguyen_th.Base.{
  ℕ, Bool, true, false, ◌&&◌, ◌||◌, Option, none, some, List, length, ltb, leb, ◌==◌, all, any,
  Text, codes, ℤ,
}

pub data RuleProtocol : Type 0 where
  tcp udp ip : RuleProtocol

pub data RuleDirection : Type 0 where
  one_way both_ways : RuleDirection

pub data FlowRole : Type 0 where
  to_server to_client : FlowRole

pub data FlowStateSpec : Type 0 where
  established not_established : FlowStateSpec

pub data FlagsMode : Type 0 where
  exact all_of any_of none_of : FlagsMode

pub data DsizeOp : Type 0 where
  eq lt gt range : DsizeOp

abbrev pub port_max : ℕ
port_max = 65535

-- A match is `ip & mask == network`, or anything if `any` is set.
pub record IpSpec : Type 0 where
  pub any : Bool
  pub network : ℕ
  pub mask : ℕ

abbrev pub ip_spec_ok : IpSpec → Bool
ip_spec_ok s = leb s.network 0xFFFFFFFF && leb s.mask 0xFFFFFFFF

-- The inclusive range lo..hi.
pub record PortSpec : Type 0 where
  pub lo : ℕ
  pub hi : ℕ

abbrev pub port_spec_ok : PortSpec → Bool
port_spec_ok s = leb s.lo s.hi && leb s.hi port_max

unfoldable pub is_any : PortSpec → Bool
is_any s = s.lo == 0 && s.hi == port_max

pub record ContentSpec : Type 0 where
  pub raw : Text
  pub pattern : List ℕ
  pub nocase : Bool
  pub offset : Option ℕ
  pub depth : Option ℕ
  pub distance : Option ℤ
  pub within : Option ℕ

abbrev pub content_spec_ok : ContentSpec → Bool
content_spec_ok s = ltb 0 (length s.pattern)

pub record FlowSpec : Type 0 where
  pub role : Option FlowRole
  pub state : Option FlowStateSpec

-- The letters, as code points, of a set of TCP flags.
pub record FlagsSpec : Type 0 where
  pub mode : FlagsMode
  pub flags : List ℕ

abbrev pub tcp_flag_names : List ℕ
tcp_flag_names = codes "SAFRPUCE"

abbrev pub is_exact : FlagsMode → Bool
is_exact exact = true
is_exact _ = false

abbrev pub flags_spec_ok : FlagsSpec → Bool
flags_spec_ok s =
    all (λ f. any (λ g. f == g) tcp_flag_names) s.flags
    && (ltb 0 (length s.flags) || is_exact s.mode)

pub record DsizeSpec : Type 0 where
  pub op : DsizeOp
  pub a : ℕ
  pub b : Option ℕ

unfoldable pub dsize_ok : DsizeOp → ℕ → Option ℕ → Bool
dsize_ok range a (some b) = leb a b
dsize_ok range a none = false
dsize_ok _ a (some b) = false
dsize_ok _ a none = true

unfoldable pub dsize_spec_ok : DsizeSpec → Bool
unfolding dsize_ok
dsize_spec_ok s = dsize_ok s.op s.a s.b

-- The action of every rule is `alert`.
pub record Rule : Type 0 where
  pub protocol : RuleProtocol
  pub src_ip : IpSpec
  pub src_port : PortSpec
  pub direction : RuleDirection
  pub dst_ip : IpSpec
  pub dst_port : PortSpec
  pub msg : Text
  pub sid : ℕ
  pub rev : ℕ
  pub classtype : Option Text
  pub priority : Option ℕ
  pub contents : List ContentSpec
  pub flow : Option FlowSpec
  pub flags : Option FlagsSpec
  pub dsize : Option DsizeSpec
  pub passive_options : List (Text × Option Text)
  pub source_file : Text
  pub line_no : ℕ
  pub raw : Text

abbrev pub option_ok : {A : Type 0} → (A → Bool) → Option A → Bool
option_ok p none = true
option_ok p (some a) = p a

-- The check of `Rule.__post_init__`, with those of the parts.
unfoldable pub rule_ok : Rule → Bool
rule_ok r =
    ip_spec_ok r.src_ip
    && port_spec_ok r.src_port
    && ip_spec_ok r.dst_ip
    && port_spec_ok r.dst_port
    && all content_spec_ok r.contents
    && option_ok flags_spec_ok r.flags
    && option_ok dsize_spec_ok r.dsize
    && option_ok (leb 1) r.priority
