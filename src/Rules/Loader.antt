-- ===== src/Rules/Loader.antt =====
-- src/rules/loader.py: the lines of a rule file, and the bookkeeping of
-- the load. The contents of files, the resolved name of a path and the parser are arguments.
pub mod Report
pub mod Accepted
pub mod Lines
use nt204_r11_antn_nguyen_th.Base.{
  ℕ, zero, suc, ◌+◌, ◌-◌, ◌≡◌, Bool, true, false, not, ◌&&◌, ◌||◌, Option, none, some, List, [],
  ◌∷◌, ◌++◌, length, any, all, filter, map, leb, ◌==◌, if◌then◌else◌, Text, codes, text_eq,
  split_on, lstrip, rstrip, without_last, ends_with,
}
use nt204_r11_antn_nguyen_th.Models.Rule.{Rule}
use nt204_r11_antn_nguyen_th.Models.RuleReport.{
  Status, valid, invalid, unsupported, disabled, Rejection, is_invalid, is_unsupported, ParseResult,
  accepted, rejected, RuleRecord, LoadReport,
}
use nt204_r11_antn_nguyen_th.Engine.Matcher.{Attempt, returned, raised}

-- A text after the final newline is no line.
drop_final : List Text → List Text
drop_final [] = []
drop_final ([] ∷ []) = []
drop_final (l ∷ []) = l ∷ []
drop_final (l ∷ m ∷ ls) = l ∷ drop_final (m ∷ ls)

abbrev without_cr : Text → Text
without_cr l = if ends_with b'\r' l then without_last l else l

unfoldable pub physical_lines : Text → List Text
unfolding drop_final
physical_lines content = map without_cr (drop_final (split_on b'\n' content))

unfoldable pub continues : Text → Bool
continues text = ends_with b'\\' (rstrip text)

unfoldable pub cut : Text → Text
cut text = rstrip (without_last (rstrip text))

glue : Text → Text → Text
glue text [] = text
glue text (c ∷ cs) = text ++ b' ' ∷ c ∷ cs

-- `while text.rstrip().endswith("\\")`: the joined text and the lines after it.
unfoldable pub join_lines : Text → List Text → Text × List Text
unfolding glue
join_lines text [] = (if continues text then cut text else text, [])
join_lines text (l ∷ ls) =
    let joined = join_lines (glue (cut text) (lstrip l)) ls in
    if continues text then joined else (text, l ∷ ls)

-- What a logical line counts as.
pub data Line : Type 0 where
  blank_line comment_line : Line
  rule_line : ℕ → Text → Line

is_comment : Text → Bool
is_comment [] = false
is_comment (c ∷ cs) = c == b'#'

-- `while i < n`: the logical lines from the line number `i + 1` on. Each round takes a line at
-- least, so the number of lines is fuel enough.
unfoldable pub logical_lines : ℕ → ℕ → List Text → List Line
unfolding is_comment
logical_lines zero i lines = []
logical_lines (suc fuel) i [] = []
logical_lines (suc fuel) i (line ∷ lines) =
    let (text, rest) = join_lines line lines in
    let skipped = logical_lines fuel (suc i) lines in
    let joined = logical_lines fuel (suc i + (length lines - length rest)) rest in
    if length (lstrip line) == 0
    then blank_line ∷ skipped
    else if is_comment (lstrip line)
    then comment_line ∷ skipped
    else rule_line (suc i) text ∷ joined

unfoldable pub iter_rule_lines : Text → List Line
iter_rule_lines content = let lines = physical_lines content in logical_lines (length lines) 0 lines

-- What `load_rules` carries along.
pub record Loading : Type 0 where
  pub report : LoadReport
  pub rules : List Rule
  pub records : List RuleRecord
  pub seen_sids : List ℕ
  pub loaded_paths : List Text

abbrev pub has_sid : ℕ → List ℕ → Bool
has_sid sid sids = any (λ k. sid == k) sids

abbrev count_status : Status → LoadReport → LoadReport
count_status valid r = record r { n_valid = r.n_valid + 1 }
count_status invalid r = record r { n_invalid = r.n_invalid + 1 }
count_status unsupported r = record r { n_unsupported = r.n_unsupported + 1 }
count_status disabled r = record r { n_disabled = r.n_disabled + 1 }

-- The counter of the status and the `RuleRecord`.
unfoldable pub record_rule : Status → Option Text → Option ℕ → Text → ℕ → Text → Loading → Loading
record_rule status reason sid file n text l = record l {
  report = count_status status l.report;
  records =
      l.records
      ++ record { file = file; line = n; status = status; reason = reason; sid = sid; text = text }
        ∷ [];
}

abbrev pub status_of : Rejection → Status
status_of is_invalid = invalid
status_of is_unsupported = unsupported

-- A valid rule whose sid no earlier valid rule had.
unfoldable pub register_rule : Bool → Rule → Text → ℕ → Text → Loading → Loading
register_rule true rule file n text l =
    record_rule disabled (some (codes "disabled:sid")) (some rule.sid) file n text
      (record l { seen_sids = rule.sid ∷ l.seen_sids })
register_rule false rule file n text l =
    record_rule valid none (some rule.sid) file n text
      (record l { seen_sids = rule.sid ∷ l.seen_sids; rules = l.rules ++ rule ∷ [] })

-- `_collect`
unfoldable pub collect_result : List ℕ → ParseResult → Text → ℕ → Text → Loading → Loading
collect_result disabled_sids (rejected status reason sid) file n text l =
    record_rule (status_of status) (some reason) sid file n text l
collect_result disabled_sids (accepted rule) file n text l =
    if has_sid rule.sid l.seen_sids
    then record_rule invalid (some (codes "invalid:duplicate_sid")) (some rule.sid) file n text l
    else register_rule (has_sid rule.sid disabled_sids) rule file n text l

-- `_safe_parse`
safe_result : Attempt ParseResult → ParseResult
safe_result (returned result) = result
safe_result raised = rejected is_invalid (codes "invalid:internal_error") none

abbrev pub ParseFn : Type 0
ParseFn = Text → Text → ℕ → Attempt ParseResult

module _ (disabled_sids : List ℕ) (parse : ParseFn) where
  -- One logical line: the counters of `iter_rule_lines`, then the parser and `_collect`.
  unfoldable pub load_line : Text → Line → Loading → Loading
  unfolding safe_result
  load_line file blank_line l = record l {
    report = record l.report { total_lines = l.report.total_lines + 1; blank = l.report.blank + 1 };
  }
  load_line file comment_line l = record l {
    report = record l.report {
      total_lines = l.report.total_lines + 1;
      comment = l.report.comment + 1;
    };
  }
  load_line file (rule_line n text) l =
      collect_result disabled_sids (safe_result (parse text file n)) file n text (record l {
        report = record l.report {
          total_lines = l.report.total_lines + 1;
          rule_lines = l.report.rule_lines + 1;
        };
      })

  unfoldable pub load_lines : Text → List Line → Loading → Loading
  load_lines file [] l = l
  load_lines file (line ∷ lines) l = load_lines file lines (load_line file line l)

  -- One file; `none` is an `OSError`.
  unfoldable pub load_file : Text → Option Text → Loading → Loading
  load_file file none l = record l {
    report = record l.report { files_failed = l.report.files_failed + 1 };
  }
  load_file file (some content) l = load_lines file (iter_rule_lines content) l

  module _ (path_key : Text → Text) (content : Text → Option Text) where
    -- `for path in sources`: a file that is listed twice is loaded once.
    unfoldable pub load_sources : List Text → Loading → Loading
    load_sources [] l = l
    load_sources (path ∷ paths) l = load_sources paths (
        if any (λ k. text_eq (path_key path) k) l.loaded_paths
        then l
        else load_file path (content path)
            (record l { loaded_paths = path_key path ∷ l.loaded_paths }))

-- An entry of `engine.rule_files`.
pub record RuleFile : Type 0 where
  pub path : Text
  pub enabled : Bool

unfoldable pub new_report : LoadReport
new_report = record {
  total_lines = 0;
  blank = 0;
  comment = 0;
  rule_lines = 0;
  n_valid = 0;
  n_invalid = 0;
  n_unsupported = 0;
  n_disabled = 0;
  files_failed = 0;
  disabled_files = 0;
}

-- Nothing is loaded yet; the files that are disabled have been counted.
unfoldable pub start_loading : List RuleFile → Loading
unfolding new_report
start_loading files = record {
  report = record new_report { disabled_files = length (filter (λ f. not f.enabled) files) };
  rules = [];
  records = [];
  seen_sids = [];
  loaded_paths = [];
}

-- `load_rules`; `none` is the `FileNotFoundError` for an extra path.
unfoldable pub load_rules :
    List ℕ
    → ParseFn
    → (Text → Text)
    → (Text → Option Text)
    → (Text → Bool)
    → List RuleFile
    → List Text
    → Option Loading
load_rules disabled_sids parse path_key content is_file files extras =
    if all is_file extras
    then some (
        load_sources disabled_sids parse path_key content
          (map (λ f. f.path) (filter (λ f. f.enabled) files) ++ extras) (start_loading files))
    else none
