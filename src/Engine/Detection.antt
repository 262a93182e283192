-- ===== src/Engine/Detection.antt =====
-- src/engine/detection.py and src/models/detection.py: the record that a match is logged as.
use nt204_r11_antn_nguyen_th.Base.{
  ℕ, Bool, true, false, ◌&&◌, ◌||◌, Option, none, some, List, [], ◌∷◌, all, ltb, if◌then◌else◌,
  Text, codes, text_eq, upper,
}
use nt204_r11_antn_nguyen_th.Models.Rule.{Rule, FlowRole}
use nt204_r11_antn_nguyen_th.Models.Event.{IdsEvent}
use nt204_r11_antn_nguyen_th.Models.EngineTypes.{FlowContext}
use nt204_r11_antn_nguyen_th.Engine.Content.{Match, header, content}
use nt204_r11_antn_nguyen_th.Engine.Matcher.{Attempt, returned, raised}

pub record Detection : Type 0 where
  pub sid : ℕ
  pub rev : ℕ
  pub msg : Text
  pub priority : ℕ
  pub classtype : Option Text
  pub timestamp : Option ℕ
  pub packet_id : ℕ
  pub src_ip : Option Text
  pub src_port : Option ℕ
  pub dst_ip : Option Text
  pub dst_port : Option ℕ
  pub protocol : Option Text
  pub application_protocol : Option Text
  pub flow_id : Option Text
  pub flow_direction : Option FlowRole
  pub matched : List Match

-- `self.protocol in DETECTION_PROTOCOLS`
unfoldable pub is_detection_protocol : Option Text → Bool
is_detection_protocol none = false
is_detection_protocol (some p) = text_eq p (codes "TCP") || text_eq p (codes "UDP")

-- The checks on one element; a `content` match has a length of at least 1.
unfoldable pub match_ok : Match → Bool
match_ok header = true
match_ok (content value offset len) = ltb 0 len

unfoldable pub or_header : List Match → List Match
or_header [] = header ∷ []
or_header (m ∷ ms) = m ∷ ms

-- `__post_init__`
unfoldable pub checked : Detection → Attempt Detection
checked d =
    if is_detection_protocol d.protocol && all match_ok (or_header d.matched)
    then returned (record d { matched = or_header d.matched })
    else raised

abbrev pub default_priority : ℕ
default_priority = 3

priority_of : Option ℕ → ℕ
priority_of none = default_priority
priority_of (some p) = p

unfoldable pub upper_of : Option Text → Option Text
upper_of none = none
upper_of (some p) = some (upper p)

context_flow_id : Option FlowContext → Option Text → Option Text
context_flow_id none flow_id = flow_id
context_flow_id (some ctx) flow_id = some ctx.flow_id

context_role : Option FlowContext → Option FlowRole
context_role none = none
context_role (some ctx) = ctx.role

unfoldable pub make_detection :
    Rule → IdsEvent → Option FlowContext → List Match → Attempt Detection
unfolding priority_of context_flow_id context_role
make_detection rule e ctx matches = checked (record {
  sid = rule.sid;
  rev = rule.rev;
  msg = rule.msg;
  priority = priority_of rule.priority;
  classtype = rule.classtype;
  timestamp = e.timestamp;
  packet_id = e.packet_id;
  src_ip = e.src_ip;
  src_port = e.src_port;
  dst_ip = e.dst_ip;
  dst_port = e.dst_port;
  protocol = upper_of e.transport_protocol;
  application_protocol = e.app_protocol;
  flow_id = context_flow_id ctx e.flow_id;
  flow_direction = context_role ctx;
  matched = matches;
})
