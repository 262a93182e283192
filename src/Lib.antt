-- ===== src/Lib.antt =====
-- A model of the packet intrusion detection system under `src/`, with the theorems that make its
-- flow tracker, its rule engine and its rule parser correct.
--
-- A packet is captured, parsed into an `IDSEvent`, decoded and preprocessed; the flow tracker then
-- assigns it to a bidirectional flow, follows the TCP state of the flow and exports flows that
-- end; the rule engine tests the event, with the context of its flow, against the rules of the
-- rule files. What is modelled is the part from the flow tracker on, the rule files from their lines
-- to the index of the engine, and before the tracker the decoding of character sets, URLs and forms
-- and the normal forms of hosts and paths.
--
-- Models/        `src/models/`: flows, events, rules and what the stages of the engine exchange.
-- Flow/Key       `src/flow/flow_key.py`: `make_key`, `direction_of`, `make_flow_id`.
-- Flow/Table     `src/flow/flow_table.py`: `FlowTable`, an association list in the order of last
--                use.
-- Flow/TcpState  `src/flow/tcp_state.py`: `next_state`, which returns the context that the source
--                mutates.
-- Flow/Timeout   `src/flow/timeout.py`: timeouts, expiry and close reasons.
-- Flow/Tracker   `src/flow/tracker.py`: the record `Tracker` is the object; `init`, `sweep`,
--                `flush`, `snapshot` and, in Update, `update`. Valid, Preserve and Invariant have
--                its invariant, Export and Evict what leaves the table, Totals and Run whole
--                captures.
-- Engine/Content `src/engine/content_matcher.py`: `find` and the search for a chain of contents.
-- Engine/Matcher `src/engine/matcher.py`: the stages of `match_rule`.
-- Engine/Stats   `src/engine/stats.py`: the counters.
-- Engine/Context `src/engine/flow_context.py`: roles and `build_flow_context`.
-- Engine/Detection `src/engine/detection.py` and `src/models/detection.py`.
-- Engine/Evaluator `src/engine/evaluator.py`: the loop `run` behind `evaluate` and `detect`;
--                Counters has the counters, Results, Payload, Built and Detections what an event
--                yields.
-- Engine/Process, Engine/Startup `src/engine/engine.py`: `Engine.process`, and how
--                `Engine.__init__` fills the repository, also with the rules that the parser
--                accepts.
-- Rules/Repository `src/rules/repository.py`; Rules/Indexer `src/rules/indexer.py`.
-- Rules/Syntax   `RuleSyntaxError` of `src/rules/parser.py` as the error of a result; Errors,
--                Returns and Outcome are about what composed parts raise, return and report.
-- Rules/Parser   `src/rules/parser.py`: Tokens is `tokenize_rule`, Header `parse_header` and its
--                fields, Ident `parse_identification` and `unquote_string`, Decode
--                `decode_content`, Content `parse_contents_full`, Specs `parse_flow`,
--                `parse_flags` and `parse_dsize`.
-- Rules/Validator `src/rules/validator.py`: `parse_rule`. Errors, Verdict, Accepted and Total have
--                what it reports and what it accepts.
-- Rules/Loader   `src/rules/loader.py`: `iter_rule_lines` and `load_rules`, with the records of
--                `src/models/rule_report.py`.
-- Decoder/Charset
--                `src/decoder/charset.py`: `decode_bytes`.
-- Decoder/Url    `src/decoder/url_decoder.py`: `percent_decode`, `decode_uri` and forms, on bytes.
-- Preprocessor/Normalizer
--                `src/preprocessor/normalizer.py`: domains, hosts and the paths of URIs.
-- Base           the names and lemmas that the modules share; Tests runs it all on small inputs.
--
-- Conventions. A time is a number of microseconds, so that comparisons and differences are exact;
-- a timestamp is finite and not negative, which leaves the rounding of floating-point numbers out.
-- A text is its list of code points, with the letter case of ASCII and the white space of Unicode.
-- Fields have the types that the dataclasses declare; a `None` is `none`, and what the source does
-- with objects of other types is left out, except a timestamp that is no number and flags that are
-- no list. Bytes are numbers. The hash of `hashlib` in `make_flow_id` is the parameter `digest`,
-- of which nothing is assumed. The calls of `on_export` are the list `exported`. An exception is
-- `raised` in an `Attempt`, `none` or the left side of a sum, or the error of a `Result`. The
-- number of more than 4300 digits that `int` refuses is written out, and so are
-- `ipaddress.ip_network`, the methods of `str`, the regular expressions of the rule parser and the
-- encoding UTF-8, read and written, and percent decoding. The codec that `codecs.lookup` finds for
-- a label is the parameter `lookup`, and the characters that `str.isdigit` accepts in the port of a
-- host are the parameter `isdigit`; nothing is assumed of either. Counters and clocks are unbounded,
-- as Python's integers are, and the interpreter's limit on nested calls is left out.
--
-- Loops. The eviction loop of `update` has the length of the table as fuel, and every round takes
-- a flow out; a rule file has its number of lines as fuel, and every round takes a line; the
-- search for contents has the length of the payload, plus one, as fuel for each content, and every
-- round starts further right. That the fuel is enough is part of what is proved of them.
--
-- Not modelled: capture and logging, which are input and output; the protocol parsers, the
-- decoder of HTML and MIME and its entry in `src/decoder/decoder.py`, the rest of the
-- preprocessor, the pipeline and the configuration; file access; log messages and the guard
-- `safe_stage` around the stages.
pub mod Base
pub mod Models
pub mod Flow
pub mod Engine
pub mod Rules
pub mod Tests
pub mod Decoder
pub mod Preprocessor
