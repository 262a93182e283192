-- ===== src/Tests/Loads.antt =====
-- A load of one rule file with a comment, a rule line in two parts and a rule that is listed twice.
use nt204_r11_antn_nguyen_th.Base.{
  ◌+◌, ◌≡◌, refl, true, Option, some, List, [], ◌∷◌, length, Text, codes, arith, split_on, lstrip,
  rstrip, without_last, ends_with,
}
use nt204_r11_antn_nguyen_th.Engine.Matcher.{returned}
use nt204_r11_antn_nguyen_th.Models.RuleReport.{accepted}
use nt204_r11_antn_nguyen_th.Rules.Loader.{
  blank_line, comment_line, rule_line, ParseFn, RuleFile, Loading, load_rules, load_sources,
  start_loading, iter_rule_lines, logical_lines, physical_lines, join_lines, continues, cut,
}
use nt204_r11_antn_nguyen_th.Rules.Loader.Report.{DistinctSids, load_rules_balanced}
use nt204_r11_antn_nguyen_th.Rules.Loader.Lines.{logical_lines_enough}
use nt204_r11_antn_nguyen_th.Tests.Rules.{admin}

abbrev file_text : Text
file_text = codes "# c\n\nalert \\\n  tcp\nalert\n"

abbrev content : Text → Option Text
content path = some file_text

-- A parser that finds one rule in every line.
abbrev parse : ParseFn
parse text file n = returned (accepted admin)

abbrev files : List RuleFile
files = record { path = codes "a.rules"; enabled = true } ∷ []

abbrev loaded : Loading
loaded = load_sources [] parse (λ path. path) content (codes "a.rules" ∷ []) (start_loading files)

loads : load_rules [] parse (λ path. path) content (λ path. true) files [] ≡ some loaded
unfolding load_rules
loads = refl

iter_rule_lines_test :
    iter_rule_lines file_text
    ≡ comment_line ∷ blank_line ∷ rule_line 3 (codes "alert tcp") ∷ rule_line 5 (codes "alert") ∷ []
unfolding iter_rule_lines logical_lines physical_lines join_lines continues cut lstrip rstrip
    without_last ends_with split_on
iter_rule_lines_test = refl

load_rules_balanced_example :
    (loaded.report.total_lines
      ≡ loaded.report.blank + loaded.report.comment + loaded.report.rule_lines)
    × (loaded.report.rule_lines
        ≡ loaded.report.n_valid + loaded.report.n_invalid + loaded.report.n_unsupported
          + loaded.report.n_disabled)
    × (length loaded.records ≡ loaded.report.rule_lines)
    × (length loaded.rules ≡ loaded.report.n_valid)
    × DistinctSids loaded.rules
load_rules_balanced_example =
    load_rules_balanced [] parse (λ path. path) content (λ path. true) files [] loaded loads

logical_lines_enough_example :
    logical_lines 3 0 (codes "a" ∷ codes "b" ∷ []) ≡ logical_lines 2 0 (codes "a" ∷ codes "b" ∷ [])
logical_lines_enough_example =
    logical_lines_enough 3 2 0 (codes "a" ∷ codes "b" ∷ []) (omega arith) (omega arith)
