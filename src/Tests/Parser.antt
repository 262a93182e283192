-- ===== src/Tests/Parser.antt =====
-- Rule lines through the parser and the validator.
use nt204_r11_antn_nguyen_th.Base.{
  map, filter, All, ◌≡◌, refl, true, Option, some, none, List, [], ◌∷◌, ◌++◌, Text, codes, arith,
  lstrip, rstrip, words, find_char, rfind_char, partition, split_on, text_eq, has_prefix,
  decimal_from, is_ascii_digits, int_of, decimal, ends_with, without_last, leb, false,
  if◌then◌else◌,
}
use nt204_r11_antn_nguyen_th.Models.Rule.{Rule, IpSpec}
use nt204_r11_antn_nguyen_th.Models.RuleReport.{accepted, rejected, parse_result_ok}
use nt204_r11_antn_nguyen_th.Engine.Matcher.{ipv4, octet, quad}
use nt204_r11_antn_nguyen_th.Rules.Syntax.{
  unsupported, kind, reason_text, ok, raise_if, noted, raise_first, need,
}
use nt204_r11_antn_nguyen_th.Rules.Syntax.Outcome.{outcome}
use nt204_r11_antn_nguyen_th.Rules.Parser.Tokens.{
  OptionPair, tokenize_rule, split_options, scan_options, read_pieces,
}
use nt204_r11_antn_nguyen_th.Rules.Parser.Header.{
  parse_ip, parse_port, parse_header, prefix_of, parse_action, parse_protocol, parse_direction,
  any_ip, every_port, ip_network,
}
use nt204_r11_antn_nguyen_th.Rules.Parser.Header.Network.{parse_ip-Matched, Matched}
use nt204_r11_antn_nguyen_th.Rules.Parser.Ident.{
  unquote_string, parse_identification, identify_all, identify, set_option, quoted_text,
  positive_int, unquote_from, unquoted, class_name, nothing_found, non_negative_int,
  unsupported_keyword,
}
use nt204_r11_antn_nguyen_th.Rules.Parser.Decode.{
  decode_content, decode_raw, decode_from, decode_step, hex_value, encode_text, utf8, inner_text,
}
use nt204_r11_antn_nguyen_th.Rules.Parser.Decode.Hex.{hex_block, decode_content-hex_block}
use nt204_r11_antn_nguyen_th.Rules.Parser.Content.{
  parse_contents_full, read_contents, read_content, add_content, add_decoded, new_content,
  no_contents, close_content, add_modifier, set_modifier, set_number,
}
use nt204_r11_antn_nguyen_th.Rules.Parser.Specs.{
  parse_flow, parse_flags, parse_dsize, parse_found, single_option,
}
use nt204_r11_antn_nguyen_th.Rules.Parser.Written.{
  write_options, quoted_options, split_options-write_options,
}
use nt204_r11_antn_nguyen_th.Rules.Validator.{
  configured_priority, best_effort_sid, parse_rule, validate_contents, content_error,
  validate_flags_protocol,
}
use nt204_r11_antn_nguyen_th.Rules.Validator.Verdict.{problems, parse_rule_rejects}
use nt204_r11_antn_nguyen_th.Rules.Validator.Accepted.{RuleOk, parse_rule-RuleOk}
use nt204_r11_antn_nguyen_th.Rules.Validator.Errors.{parse_rule-parse_result_ok}
use nt204_r11_antn_nguyen_th.Rules.Validator.Total.{parse_rule_accepts}
use nt204_r11_antn_nguyen_th.Engine.Startup.{init_repository}
use nt204_r11_antn_nguyen_th.Engine.Startup.Rules.{parse_fn, start_detects}
use nt204_r11_antn_nguyen_th.Engine.Stats.{new_stats}
use nt204_r11_antn_nguyen_th.Engine.Detection.{Detection}
use nt204_r11_antn_nguyen_th.Engine.Evaluator.{Evaluator, new_evaluator, detect, eligible}
use nt204_r11_antn_nguyen_th.Engine.Evaluator.Results.{fires}
use nt204_r11_antn_nguyen_th.Rules.Repository.{Repository}
use nt204_r11_antn_nguyen_th.Rules.Loader.{
  RuleFile, Loading, load_rules, load_sources, start_loading,
}
use nt204_r11_antn_nguyen_th.Tests.Rules.{packet_in}

abbrev file : Text
file = codes "a.rules"

-- Two unsupported parts: the action comes before the keyword.
abbrev dropped : Text
dropped = codes "drop tcp any any -> any any (msg:\"a\"; sid:7; pcre:2)"

abbrev header_tokens : Text → List Text
header_tokens action =
    action ∷ codes "tcp" ∷ codes "any" ∷ codes "any" ∷ codes "->" ∷ codes "any" ∷ codes "any" ∷ []

abbrev dropped_options : List OptionPair
dropped_options =
    (codes "msg", some (codes "\"a\""))
    ∷ (codes "sid", some (codes "7"))
    ∷ (codes "pcre", some (codes "2"))
    ∷ []

dropped_tokens : tokenize_rule dropped ≡ ok (header_tokens (codes "drop"), dropped_options)
unfolding tokenize_rule find_char lstrip rstrip rfind_char raise_if split_options scan_options
    read_pieces partition words
dropped_tokens = refl

dropped_outcome :
    outcome (problems (header_tokens (codes "drop")) dropped_options (configured_priority none))
    ≡ some (unsupported (codes "action:drop"))
unfolding parse_header noted parse_action text_eq raise_if parse_protocol parse_ip parse_port
    parse_direction raise_first parse_identification identify_all identify set_option need
    unquote_string quoted_text ends_with int_of is_ascii_digits without_last decimal decimal_from
    positive_int unquote_from unquoted class_name any_ip every_port nothing_found
    configured_priority parse_contents_full read_contents read_content add_content add_decoded
    new_content decode_content decode_raw decode_from decode_step encode_text utf8 inner_text
    has_prefix no_contents close_content add_modifier set_modifier set_number non_negative_int
    parse_flow parse_flags parse_dsize parse_found single_option validate_contents content_error
    validate_flags_protocol unsupported_keyword
dropped_outcome = refl

-- A rule with a content and a depth.
abbrev get_rule : Text
get_rule = codes "alert tcp any any -> any any (msg:\"a\"; sid:7; content:\"GE|54|\"; depth:3)"

abbrev get_options : List OptionPair
get_options =
    (codes "msg", some (codes "\"a\""))
    ∷ (codes "sid", some (codes "7"))
    ∷ (codes "content", some (codes "\"GE|54|\""))
    ∷ (codes "depth", some (codes "3"))
    ∷ []

get_tokens : tokenize_rule get_rule ≡ ok (header_tokens (codes "alert"), get_options)
unfolding tokenize_rule find_char lstrip rstrip rfind_char raise_if split_options scan_options
    read_pieces partition words
get_tokens = refl

get_outcome :
    outcome (problems (header_tokens (codes "alert")) get_options (configured_priority none)) ≡ none
unfolding parse_header noted parse_action text_eq raise_if parse_protocol parse_ip parse_port
    parse_direction raise_first parse_identification identify_all identify set_option need
    unquote_string quoted_text ends_with int_of is_ascii_digits without_last decimal decimal_from
    positive_int unquote_from unquoted class_name any_ip every_port nothing_found
    configured_priority parse_contents_full read_contents read_content add_content add_decoded
    new_content decode_content decode_raw decode_from decode_step encode_text utf8 inner_text
    has_prefix no_contents close_content add_modifier set_modifier set_number non_negative_int
    parse_flow parse_flags parse_dsize parse_found single_option validate_contents content_error
    validate_flags_protocol unsupported_keyword hex_value
get_outcome = refl

positive_priority : leb 1 (configured_priority none) ≡ true
unfolding configured_priority
positive_priority = refl

parse_rule_accepts_example : (rule : Rule) × (parse_rule none get_rule file 3 ≡ accepted rule)
parse_rule_accepts_example =
    parse_rule_accepts none get_rule file 3 (header_tokens (codes "alert")) get_options get_tokens
      get_outcome positive_priority

abbrev parsed_get : (rule : Rule) × (parse_rule none get_rule file 3 ≡ accepted rule)
parsed_get =
    parse_rule_accepts none get_rule file 3 (header_tokens (codes "alert")) get_options get_tokens
      get_outcome positive_priority

parse_rule-RuleOk_example : RuleOk parsed_get.0
parse_rule-RuleOk_example = parse_rule-RuleOk none get_rule file 3 parsed_get.0 parsed_get.1

parse_rule-parse_result_ok_example : parse_result_ok (parse_rule none dropped file 3) ≡ true
parse_rule-parse_result_ok_example = parse_rule-parse_result_ok none dropped file 3

-- 10.0.0.5/24 and the address 10.0.0.9
abbrev network : IpSpec
network = record { any = false; network = 0x0A000000; mask = 0xFFFFFF00 }

network_parsed : parse_ip (codes "10.0.0.5/24") ≡ ok network
unfolding parse_ip text_eq raise_if partition ip_network ipv4 octet quad split_on decimal
    decimal_from prefix_of is_ascii_digits int_of
network_parsed = refl

not_any : text_eq (codes "10.0.0.5/24") (codes "any") ≡ false
unfolding text_eq
not_any = refl

parse_ip-Matched_example : Matched (codes "10.0.0.5/24") 0x0A000009 network
parse_ip-Matched_example =
    parse_ip-Matched (codes "10.0.0.5/24") network 0x0A000009 not_any network_parsed (omega arith)

decode_content-hex_block_example :
    decode_content (some (b'"' ∷ hex_block (0 ∷ 255 ∷ []) ++ b'"' ∷ []))
    ≡ ok (hex_block (0 ∷ 255 ∷ []), 0 ∷ 255 ∷ [])
decode_content-hex_block_example =
    decode_content-hex_block (0 ∷ 255 ∷ []) (omega arith, (omega arith, tt)) (omega arith)

abbrev pairs : List (Text × Text)
pairs = (codes "msg", codes "a;\"b") ∷ (codes "x", codes ")") ∷ []

split_options-write_options_example :
    split_options (write_options pairs) ≡ ok (quoted_options pairs)
split_options-write_options_example = split_options-write_options pairs (refl, (refl, tt))

parse_rule_rejects_example :
    parse_rule none dropped file 3
    ≡ rejected
        (kind (unsupported (codes "action:drop")))
        (reason_text (unsupported (codes "action:drop")))
        (best_effort_sid dropped_options)
parse_rule_rejects_example =
    parse_rule_rejects none dropped file 3 (header_tokens (codes "drop")) dropped_options
      (unsupported (codes "action:drop")) dropped_tokens dropped_outcome

abbrev content : Text → Option Text
content path = some get_rule

abbrev files : List RuleFile
files = record { path = file; enabled = true } ∷ []

abbrev loaded : Loading
loaded = load_sources [] (parse_fn none) (λ path. path) content (file ∷ []) (start_loading files)

loads : load_rules [] (parse_fn none) (λ path. path) content (λ path. true) files [] ≡ some loaded
unfolding load_rules
loads = refl

start_detects_example :
    All RuleOk loaded.rules
    × (r : Repository) × (ev : Evaluator) × (ev' : Evaluator) × (ds : List Detection)
    × (init_repository true loaded.rules ≡ some r)
    × (r.rules ≡ loaded.rules)
    × (new_evaluator r new_stats true ≡ some ev)
    × (detect packet_in none ev ≡ some (ev', ds))
    × (map (λ d. d.sid) ds
        ≡ map
            (λ r. r.sid)
            (if eligible packet_in then filter (fires packet_in none) loaded.rules else []))
start_detects_example =
    start_detects none [] (λ path. path) content (λ path. true) files [] loaded new_stats true
      packet_in none loads
