-- ===== src/Tests/Rules.antt =====
-- The rule engine on two rules and a packet.
use nt204_r11_antn_nguyen_th.Base.{
  ℕ, ◌≡◌, refl, ◌↔◌, if_pos, Bool, true, false, ◌&&◌, none, some, List, [], ◌∷◌, ◌++◌, Text, codes,
  text_eq, filter, get_elem?, if◌then◌else◌, ℕ_discrete,
}
use nt204_r11_antn_nguyen_th.Models.Flow.{
  protocol_text, FlowProtocol, FlowState, Direction, forward, backward,
}
use nt204_r11_antn_nguyen_th.Models.Event.{IdsEvent}
use nt204_r11_antn_nguyen_th.Models.Rule.{
  Rule, RuleProtocol, RuleDirection, one_way, both_ways, IpSpec, ContentSpec,
}
use nt204_r11_antn_nguyen_th.Models.EngineTypes.{FlowContext, MatchResult}
use nt204_r11_antn_nguyen_th.Flow.Table.{get, set_item}
use nt204_r11_antn_nguyen_th.Flow.Key.{Key, Key-discrete, make_key}
use nt204_r11_antn_nguyen_th.Flow.Tracker.{Tracker, packet, packet_key, snapshot}
use nt204_r11_antn_nguyen_th.Engine.Content.{Match}
use nt204_r11_antn_nguyen_th.Engine.Stats.{new_stats, is_consistent}
use nt204_r11_antn_nguyen_th.Engine.Matcher.{
  Attempt, returned, call, match_rule, match_header, match_flow, match_packet, port_in,
}
use nt204_r11_antn_nguyen_th.Engine.Matcher.Stages.{
  WellTested, match_rule-WellTested, is_match, content_holds, match_rule-is_match,
}
use nt204_r11_antn_nguyen_th.Engine.Matcher.Header.{reply, match_header-reply}
use nt204_r11_antn_nguyen_th.Engine.Context.{role_of, is_forward}
use nt204_r11_antn_nguyen_th.Engine.Evaluator.{Evaluator, evaluate, run, eligible, content_fn_for}
use nt204_r11_antn_nguyen_th.Engine.Evaluator.Counters.{Counted, run-Counted, run-is_consistent}
use nt204_r11_antn_nguyen_th.Engine.Evaluator.Results.{fires, rules_of, IsReady, evaluate_lem}
use nt204_r11_antn_nguyen_th.Rules.Repository.{
  Repository, new_repository, append_rule, entry, freeze, all_rules,
}
use nt204_r11_antn_nguyen_th.Rules.Repository.Valid.{IsValid, numbered, taken, freeze-IsValid}
use nt204_r11_antn_nguyen_th.Rules.Repository.History.{
  Call, add_rule, freeze_rules, after, entry-after,
}
use nt204_r11_antn_nguyen_th.Rules.Indexer.{
  Indexer, new_bucket, file_rules, new_indexer, candidates, indexed_protocol, usable_port,
}
use nt204_r11_antn_nguyen_th.Rules.Indexer.Candidates.{covers, candidates_lem, scan_rules}
use nt204_r11_antn_nguyen_th.Rules.Indexer.Filing.{files, back_in}
use nt204_r11_antn_nguyen_th.Rules.Indexer.Superset.{candidates-match_header}
use nt204_r11_antn_nguyen_th.Tests.Flows.{settings, client, server, syn, entry as flow_entry}

abbrev anything : IpSpec
anything = record { any = true; network = 0; mask = 0 }

abbrev pub content_of : Text → Bool → ContentSpec
content_of pattern nocase = record {
  raw = pattern;
  pattern = pattern;
  nocase = nocase;
  offset = none;
  depth = none;
  distance = none;
  within = none;
}

abbrev test_rule : ℕ → RuleDirection → ℕ → List ContentSpec → Rule
test_rule sid direction port contents = record {
  protocol = RuleProtocol.tcp;
  src_ip = anything;
  src_port = record { lo = 0; hi = 65535 };
  direction = direction;
  dst_ip = anything;
  dst_port = record { lo = port; hi = port };
  msg = codes "test";
  sid = sid;
  rev = 1;
  classtype = none;
  priority = none;
  contents = contents;
  flow = none;
  flags = none;
  dsize = none;
  passive_options = [];
  source_file = codes "a.rules";
  line_no = 1;
  raw = [];
}

abbrev pub admin : Rule
admin =
    test_rule 7 both_ways 80 (content_of (codes "get") true ∷ content_of (codes "admin") false ∷ [])

abbrev pub telnet : Rule
telnet = test_rule 8 one_way 23 []

abbrev one_rule : Repository
one_rule = append_rule admin new_repository

abbrev two_rules : Repository
two_rules = append_rule telnet one_rule

two_rules-IsValid : IsValid two_rules
unfolding new_repository numbered taken get set_item ℕ_discrete
two_rules-IsValid = record { numbers = refl; sids = (refl, (refl, tt)); copy = refl }

frozen_rules-IsValid : IsValid (freeze two_rules)
frozen_rules-IsValid = (freeze-IsValid two_rules two_rules-IsValid).0

abbrev pub packet_in : IdsEvent
packet_in = record syn { flow_id = some (codes "f"); direction = some forward }

abbrev pub evaluator : Evaluator
evaluator = record {
  repository = freeze two_rules;
  indexer = record {
    rules = all_rules (freeze two_rules);
    buckets =
        file_rules 0 (all_rules (freeze two_rules))
          (record { tcp = new_bucket; udp = new_bucket; ip = new_bucket });
  };
  stats = new_stats;
  enabled = true;
  warned_sids = [];
}

pub evaluator-IsReady : IsReady evaluator
unfolding new_indexer freeze new_repository
evaluator-IsReady = record { valid = frozen_rules-IsValid; frozen = refl; built_index = refl }

evaluate_lem_example :
    (ev' : Evaluator) × (results : List (MatchResult Match)) × (evaluate packet_in none evaluator
      ≡ some (ev', results))
    × IsReady ev'
    × (rules_of results ≡ (
        if evaluator.enabled && eligible packet_in
        then filter (fires packet_in none) evaluator.repository.rules
        else []))
evaluate_lem_example = evaluate_lem packet_in none evaluator evaluator-IsReady

candidates_lem_example :
    (x : Indexer) × (new_indexer (freeze two_rules) ≡ some x)
    × (candidates x (some (codes "TCP")) (some 80)
        ≡ some (
            scan_rules
              (all_rules (freeze two_rules))
              (indexed_protocol (some (codes "TCP")))
              (usable_port (some 80))))
candidates_lem_example =
    candidates_lem (freeze two_rules) (some (codes "TCP")) (some 80)
      (freeze-IsValid two_rules two_rules-IsValid).1

candidates-match_header_example :
    (x : Indexer) × (cs : List Rule) × (new_indexer (freeze two_rules) ≡ some x)
    × (candidates x syn.transport_protocol syn.dst_port ≡ some cs)
    × (filter (λ rule. match_header rule syn) cs
        ≡ filter (λ rule. match_header rule syn) (all_rules (freeze two_rules)))
candidates-match_header_example =
    candidates-match_header (freeze two_rules) syn (freeze-IsValid two_rules two_rules-IsValid).1

-- The packet is for the first rule's port only.
scan_rules_test :
    scan_rules two_rules.rules (indexed_protocol syn.transport_protocol) (usable_port syn.dst_port)
    ≡ admin ∷ []
unfolding scan_rules indexed_protocol usable_port covers files back_in port_in new_repository
    text_eq
scan_rules_test = refl

match_rule-is_match_example :
    is_match (match_rule admin syn none (some (content_fn_for syn)) new_stats).1 ≡ (
      match_header admin syn
      && match_flow admin none
      && match_packet admin syn
      && content_holds admin.contents (call (some (content_fn_for syn)) admin syn))
match_rule-is_match_example =
    match_rule-is_match admin syn none (some (content_fn_for syn)) new_stats

match_rule-WellTested_example :
    WellTested admin new_stats (match_rule admin syn none (some (content_fn_for syn)) new_stats)
match_rule-WellTested_example =
    match_rule-WellTested admin syn none (some (content_fn_for syn)) new_stats

match_header-reply_example : match_header admin (reply syn) ≡ match_header admin syn
match_header-reply_example = match_header-reply admin syn refl

-- Two rules, a third with the sid of the first, which is refused, and then the freezing.
abbrev loads_twice : List Call
loads_twice = add_rule admin ∷ add_rule telnet ∷ add_rule admin ∷ []

entry-after_example :
    let r = after (loads_twice ++ freeze_rules ∷ []) new_repository in
    (entry 8 r ≡ some (1, telnet)) ↔ ((get_elem? (all_rules r) 1 ≡ some telnet) × (telnet.sid ≡ 8))
entry-after_example = entry-after (loads_twice ++ freeze_rules ∷ []) 8 1 telnet

abbrev keep_result : Rule → MatchResult Match → Attempt (MatchResult Match)
keep_result rule result = returned result

-- What the evaluator is after the packet, and what it returned.
tested_packet :
    (ev' : Evaluator) × (results : List (MatchResult Match)) × (run keep_result packet_in none
        evaluator
      ≡ some (ev', results))
unfolding evaluate
tested_packet = let t = evaluate_lem packet_in none evaluator evaluator-IsReady in (t.0, t.1, t.2)

run-Counted_example : Counted keep_result evaluator.stats tested_packet.0.stats tested_packet.1
run-Counted_example =
    run-Counted keep_result packet_in none evaluator tested_packet.0 tested_packet.1 tested_packet.2

run-is_consistent_example : is_consistent tested_packet.0.stats ≡ true
unfolding is_consistent new_stats
run-is_consistent_example =
    run-is_consistent keep_result packet_in none evaluator tested_packet.0 tested_packet.1 refl
      tested_packet.2

-- The reply of the server to the flow of `flow_entry`.
abbrev answer : IdsEvent
answer = record packet_in { direction = some backward }

abbrev context_of : Direction → FlowContext
context_of d = record {
  flow_id = [];
  protocol = FlowProtocol.tcp;
  state = FlowState.established;
  role = some (role_of (is_forward d) true);
  established = true;
  midstream = false;
  direction = d;
}

-- A tracker that holds the flow of `flow_entry`, and an event that it assigned to this flow.
abbrev syn_key : Key
syn_key = make_key (protocol_text FlowProtocol.tcp) client 4000 server 80

abbrev holder : Tracker
holder = record {
  cfg = settings;
  table = (syn_key, flow_entry) ∷ [];
  clock = 7;
  last_sweep = none;
  exported = [];
}

abbrev assigned : IdsEvent
assigned = record packet_in { flow_id = some [] }

holder-get : get Key-discrete syn_key holder.table ≡ some flow_entry
unfolding get
holder-get = if_pos (Key-discrete syn_key syn_key) refl _ _

holder-snapshot : snapshot holder assigned ≡ some flow_entry.flow
unfolding snapshot packet packet_key text_eq
holder-snapshot = rw (snapshot, holder-get) refl
