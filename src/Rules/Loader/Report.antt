-- ===== src/Rules/Loader/Report.antt =====
-- src/rules/loader.py: the counters and the rules of a load.
use nt204_r11_antn_nguyen_th.Base.{
  ℕ, ◌+◌, ◌≡◌, refl, ap, subst, ◌≢◌, inl, inr, Bool, true, false, Option, none, some, List, [], ◌∷◌,
  ◌++◌, length, length-append, any, all, ◌==◌, if◌then◌else◌, Text, text_eq, arith, Bool-cases, All,
  All-append, All-map,
}
use nt204_r11_antn_nguyen_th.Models.Rule.{Rule}
use nt204_r11_antn_nguyen_th.Engine.Content.Chain.{some-eq}
use nt204_r11_antn_nguyen_th.Models.RuleReport.{
  Status, valid, invalid, unsupported, disabled, Rejection, is_invalid, is_unsupported, ParseResult,
  accepted, rejected,
}
use nt204_r11_antn_nguyen_th.Rules.Loader.{
  Line, blank_line, comment_line, rule_line, Loading, has_sid, record_rule, register_rule,
  collect_result, ParseFn, load_line, load_lines, load_file, load_sources, RuleFile, start_loading,
  load_rules, new_report, iter_rule_lines, status_of,
}

-- No sid stands twice.
abbrev pub DistinctSids : List Rule → Type 0
DistinctSids [] = Unit
DistinctSids (rule ∷ rules) = All (λ r. (rule.sid == r.sid) ≡ false) rules × DistinctSids rules

-- What holds between two lines; `extra` rule lines are counted and not collected yet.
pub record Sound (extra : ℕ) (l : Loading) : Type 0 where
  pub lines : l.report.total_lines ≡ l.report.blank + l.report.comment + l.report.rule_lines
  pub outcomes :
      l.report.rule_lines
      ≡ l.report.n_valid + l.report.n_invalid + l.report.n_unsupported + l.report.n_disabled + extra
  pub one_record : l.report.rule_lines ≡ length l.records + extra
  pub active : length l.rules ≡ l.report.n_valid
  pub seen : All (λ r. has_sid r.sid l.seen_sids ≡ true) l.rules
  pub distinct : DistinctSids l.rules

not_seen :
    (sid : ℕ) (sids : List ℕ) (rules : List Rule)
    → has_sid sid sids ≡ false
    → All (λ r. has_sid r.sid sids ≡ true) rules
    → All (λ r. (r.sid == sid) ≡ false) rules
not_seen sid sids rules h a =
    All-map _ _ rules (λ r s. ground (arith, s, h, ap (λ k. has_sid k sids))) a

append-DistinctSids :
    (rules : List Rule) (rule : Rule)
    → All (λ r. (r.sid == rule.sid) ≡ false) rules
    → DistinctSids rules
    → DistinctSids (rules ++ rule ∷ [])
append-DistinctSids [] rule a d = (tt, tt)
append-DistinctSids (r ∷ rules) rule a d =
    (All-append _ rules (rule ∷ []) d.0 (a.0, tt), append-DistinctSids rules rule a.1 d.1)

seen_more :
    (sid : ℕ) (sids : List ℕ) (rules : List Rule)
    → All (λ r. has_sid r.sid sids ≡ true) rules
    → All (λ r. has_sid r.sid (sid ∷ sids) ≡ true) rules
seen_more sid sids rules a = All-map _ _ rules (λ r s. ground (arith, s)) a

-- A rule that is not valid: one counter and one record.
rejected-Sound :
    (status : Status) (reason : Option Text) (sid : Option ℕ) (file : Text) (n : ℕ) (text : Text)
    (l : Loading)
    → status ≢ valid
    → Sound 1 l
    → Sound 0 (record_rule status reason sid file n text l)
unfolding record_rule
rejected-Sound valid reason sid file n text l ne s = absurd (ne refl)
rejected-Sound invalid reason sid file n text l ne s = record {
  lines = s.lines;
  outcomes = omega (arith, s.outcomes);
  one_record = omega (arith, s.one_record, length-append l.records (_ ∷ []));
  active = s.active;
  seen = s.seen;
  distinct = s.distinct;
}
rejected-Sound unsupported reason sid file n text l ne s = record {
  lines = s.lines;
  outcomes = omega (arith, s.outcomes);
  one_record = omega (arith, s.one_record, length-append l.records (_ ∷ []));
  active = s.active;
  seen = s.seen;
  distinct = s.distinct;
}
rejected-Sound disabled reason sid file n text l ne s = record {
  lines = s.lines;
  outcomes = omega (arith, s.outcomes);
  one_record = omega (arith, s.one_record, length-append l.records (_ ∷ []));
  active = s.active;
  seen = s.seen;
  distinct = s.distinct;
}

register_rule-Sound :
    (switched_off : Bool) (rule : Rule) (file : Text) (n : ℕ) (text : Text) (l : Loading)
    → has_sid rule.sid l.seen_sids ≡ false
    → Sound 1 l
    → Sound 0 (register_rule switched_off rule file n text l)
unfolding register_rule record_rule
register_rule-Sound true rule file n text l h s =
    rejected-Sound disabled _ _ file n text (record l { seen_sids = rule.sid ∷ l.seen_sids })
      (λ e. cc)
      (record {
        lines = s.lines;
        outcomes = s.outcomes;
        one_record = s.one_record;
        active = s.active;
        seen = seen_more rule.sid l.seen_sids l.rules s.seen;
        distinct = s.distinct;
      })
register_rule-Sound false rule file n text l h s = record {
  lines = s.lines;
  outcomes = omega (arith, s.outcomes);
  one_record = omega (arith, s.one_record, length-append l.records (_ ∷ []));
  active = omega (arith, s.active, length-append l.rules (rule ∷ []));
  seen =
      All-append _ l.rules (rule ∷ []) (seen_more rule.sid l.seen_sids l.rules s.seen)
        (ground arith, tt);
  distinct =
      append-DistinctSids l.rules rule (not_seen rule.sid l.seen_sids l.rules h s.seen) s.distinct;
}

status_of-ne-valid : (r : Rejection) → status_of r ≢ valid
status_of-ne-valid is_invalid e = cc
status_of-ne-valid is_unsupported e = cc

collect_result-Sound :
    (disabled_sids : List ℕ) (result : ParseResult) (file : Text) (n : ℕ) (text : Text)
    (l : Loading)
    → Sound 1 l
    → Sound 0 (collect_result disabled_sids result file n text l)
unfolding collect_result
collect_result-Sound ds (rejected st reason sid) file n text l s =
    rejected-Sound (status_of st) (some reason) sid file n text l (status_of-ne-valid st) s
collect_result-Sound ds (accepted rule) file n text l s =
    elim (Bool-cases (has_sid rule.sid l.seen_sids)) [
      | inl h ↦ rw (h) (rejected-Sound invalid _ _ file n text l (λ e. cc) s)
      | inr h ↦ rw (h) (register_rule-Sound (has_sid rule.sid ds) rule file n text l h s)
    ]

load_line-Sound :
    (disabled_sids : List ℕ) (parse : ParseFn) (file : Text) (line : Line) (l : Loading)
    → Sound 0 l
    → Sound 0 (load_line disabled_sids parse file line l)
unfolding load_line
load_line-Sound ds parse file blank_line l s = record {
  lines = omega (arith, s.lines);
  outcomes = s.outcomes;
  one_record = s.one_record;
  active = s.active;
  seen = s.seen;
  distinct = s.distinct;
}
load_line-Sound ds parse file comment_line l s = record {
  lines = omega (arith, s.lines);
  outcomes = s.outcomes;
  one_record = s.one_record;
  active = s.active;
  seen = s.seen;
  distinct = s.distinct;
}
load_line-Sound ds parse file (rule_line n text) l s =
    collect_result-Sound ds _ file n text _ (record {
      lines = omega (arith, s.lines);
      outcomes = omega (arith, s.outcomes);
      one_record = omega (arith, s.one_record);
      active = s.active;
      seen = s.seen;
      distinct = s.distinct;
    })

module _ (disabled_sids : List ℕ) (parse : ParseFn) where
  load_lines-Sound :
      (file : Text) (lines : List Line) (l : Loading)
      → Sound 0 l
      → Sound 0 (load_lines disabled_sids parse file lines l)
  unfolding load_lines
  load_lines-Sound file [] l s = s
  load_lines-Sound file (line ∷ lines) l s =
      load_lines-Sound file lines (load_line disabled_sids parse file line l)
        (load_line-Sound disabled_sids parse file line l s)

  load_file-Sound :
      (file : Text) (content : Option Text) (l : Loading)
      → Sound 0 l
      → Sound 0 (load_file disabled_sids parse file content l)
  unfolding load_file
  load_file-Sound file none l s = record {
    lines = s.lines;
    outcomes = s.outcomes;
    one_record = s.one_record;
    active = s.active;
    seen = s.seen;
    distinct = s.distinct;
  }
  load_file-Sound file (some content) l s = load_lines-Sound file (iter_rule_lines content) l s

  load_sources-Sound :
      (path_key : Text → Text) (content : Text → Option Text) (paths : List Text) (l : Loading)
      → Sound 0 l
      → Sound 0 (load_sources disabled_sids parse path_key content paths l)
  unfolding load_sources
  load_sources-Sound path_key content [] l s = s
  load_sources-Sound path_key content (path ∷ paths) l s =
      load_sources-Sound path_key content paths _
        (elim (Bool-cases (any (λ k. text_eq (path_key path) k) l.loaded_paths)) [
          | inl h ↦ rw (h) s
          | inr h ↦ rw (h) (
              load_file-Sound path (content path)
                (record l { loaded_paths = path_key path ∷ l.loaded_paths })
                (record {
                  lines = s.lines;
                  outcomes = s.outcomes;
                  one_record = s.one_record;
                  active = s.active;
                  seen = s.seen;
                  distinct = s.distinct;
                }))
        ])

start_loading-Sound : (files : List RuleFile) → Sound 0 (start_loading files)
unfolding start_loading new_report
start_loading-Sound files = record {
  lines = omega arith;
  outcomes = omega arith;
  one_record = omega arith;
  active = refl;
  seen = tt;
  distinct = tt;
}

pub if_some : (b : Bool) (o l : Loading) → (if b then some o else none) ≡ some l → some o ≡ some l
if_some true o l h = h
if_some false o l h = cc

module _ (disabled_sids : List ℕ) (parse : ParseFn) (path_key : Text → Text)
    (content : Text → Option Text) (is_file : Text → Bool) (files : List RuleFile)
    (extras : List Text) (l : Loading)
    (h : load_rules disabled_sids parse path_key content is_file files extras ≡ some l) where
  pub load_rules-Sound : Sound 0 l
  unfolding load_rules
  load_rules-Sound = subst (Sound 0) (some-eq (if_some (all is_file extras) _ l h)) (
      load_sources-Sound disabled_sids parse path_key content _ (start_loading files)
        (start_loading-Sound files))

  -- After a load, the report accounts for every line: each logical line is blank, a comment or a rule
  -- line, each rule line is valid, invalid, unsupported or disabled and has one record, and as many
  -- rules are active as lines were valid, no two of them with one sid.
  pub load_rules_balanced :
      (l.report.total_lines ≡ l.report.blank + l.report.comment + l.report.rule_lines)
      × (l.report.rule_lines
          ≡ l.report.n_valid + l.report.n_invalid + l.report.n_unsupported + l.report.n_disabled)
      × (length l.records ≡ l.report.rule_lines)
      × (length l.rules ≡ l.report.n_valid)
      × DistinctSids l.rules
  load_rules_balanced =
      let s = load_rules-Sound in
      (s.lines, omega (arith, s.outcomes), omega (arith, s.one_record), s.active, s.distinct)
