-- ===== src/Rules/Loader/Accepted.antt =====
-- src/rules/loader.py: the rules that are loaded are rules that the parser has accepted.
use nt204_r11_antn_nguyen_th.Base.{
  ℕ, ◌≡◌, refl, ap, subst, Bool, true, false, Option, none, some, List, [], ◌∷◌, All, All-append,
  any, all, text_eq, Text, inl, inr, Bool-cases,
}
use nt204_r11_antn_nguyen_th.Models.Rule.{Rule}
use nt204_r11_antn_nguyen_th.Models.RuleReport.{ParseResult, accepted, rejected}
use nt204_r11_antn_nguyen_th.Engine.Matcher.{Attempt, returned, raised}
use nt204_r11_antn_nguyen_th.Engine.Content.Chain.{some-eq}
use nt204_r11_antn_nguyen_th.Rules.Loader.{
  Line, blank_line, comment_line, rule_line, Loading, has_sid, record_rule, register_rule,
  collect_result, safe_result, ParseFn, load_line, load_lines, load_file, load_sources, RuleFile,
  start_loading, load_rules, iter_rule_lines,
}
use nt204_r11_antn_nguyen_th.Rules.Loader.Report.{if_some}

module _ (Q : Rule → Type 0) where
  abbrev Loaded : Loading → Type 0
  Loaded l = All Q l.rules

  register_rule-Loaded :
      (switched_off : Bool) (rule : Rule) (file : Text) (n : ℕ) (text : Text) (l : Loading)
      → Q rule
      → Loaded l
      → Loaded (register_rule switched_off rule file n text l)
  unfolding register_rule record_rule
  register_rule-Loaded true rule file n text l q h = h
  register_rule-Loaded false rule file n text l q h = All-append Q l.rules (rule ∷ []) h (q, tt)

  collect_result-Loaded :
      (disabled_sids : List ℕ) (result : ParseResult) (file : Text) (n : ℕ) (text : Text)
      → (l : Loading) → ((rule : Rule) → result ≡ accepted rule → Q rule)
      → Loaded l
      → Loaded (collect_result disabled_sids result file n text l)
  unfolding collect_result record_rule
  collect_result-Loaded ds (rejected st reason sid) file n text l q h = h
  collect_result-Loaded ds (accepted rule) file n text l q h =
      elim (Bool-cases (has_sid rule.sid l.seen_sids)) [
        | inl e ↦ rw (e) h
        | inr e ↦
            rw (e) (register_rule-Loaded (has_sid rule.sid ds) rule file n text l (q rule refl) h)
      ]

  safe_result-accepted :
      (a : Attempt ParseResult)
      → ((rule : Rule) → a ≡ returned (accepted rule) → Q rule)
      → (rule : Rule) → safe_result a ≡ accepted rule
      → Q rule
  unfolding safe_result
  safe_result-accepted (returned r) q rule e = q rule (ap returned e)
  safe_result-accepted raised q rule e = cc

  module _ (disabled_sids : List ℕ) (parse : ParseFn)
      (q : (text file : Text) (n : ℕ) (rule : Rule)
        → parse text file n ≡ returned (accepted rule)
        → Q rule) where
    load_line-Loaded :
        (file : Text) (line : Line) (l : Loading)
        → Loaded l
        → Loaded (load_line disabled_sids parse file line l)
    unfolding load_line
    load_line-Loaded file blank_line l h = h
    load_line-Loaded file comment_line l h = h
    load_line-Loaded file (rule_line n text) l h =
        collect_result-Loaded disabled_sids _ file n text _
          (safe_result-accepted (parse text file n) (q text file n)) h

    load_lines-Loaded :
        (file : Text) (lines : List Line) (l : Loading)
        → Loaded l
        → Loaded (load_lines disabled_sids parse file lines l)
    unfolding load_lines
    load_lines-Loaded file [] l h = h
    load_lines-Loaded file (line ∷ lines) l h =
        load_lines-Loaded file lines (load_line disabled_sids parse file line l)
          (load_line-Loaded file line l h)

    load_file-Loaded :
        (file : Text) (content : Option Text) (l : Loading)
        → Loaded l
        → Loaded (load_file disabled_sids parse file content l)
    unfolding load_file
    load_file-Loaded file none l h = h
    load_file-Loaded file (some content) l h = load_lines-Loaded file (iter_rule_lines content) l h

    load_sources-Loaded :
        (path_key : Text → Text) (content : Text → Option Text) (paths : List Text) (l : Loading)
        → Loaded l
        → Loaded (load_sources disabled_sids parse path_key content paths l)
    unfolding load_sources
    load_sources-Loaded path_key content [] l h = h
    load_sources-Loaded path_key content (path ∷ paths) l h =
        load_sources-Loaded path_key content paths _
          (elim (Bool-cases (any (λ k. text_eq (path_key path) k) l.loaded_paths)) [
            | inl e ↦ rw (e) h
            | inr e ↦ rw (e) (
                load_file-Loaded path (content path)
                  (record l { loaded_paths = path_key path ∷ l.loaded_paths }) h)
          ])

    -- What holds of every rule that the parser accepts holds of every rule that is loaded.
    pub load_rules-Loaded :
        (path_key : Text → Text) (content : Text → Option Text) (is_file : Text → Bool)
        → (files : List RuleFile) (extras : List Text) (l : Loading)
        → load_rules disabled_sids parse path_key content is_file files extras ≡ some l
        → All Q l.rules
    unfolding load_rules start_loading
    load_rules-Loaded path_key content is_file files extras l h =
        subst Loaded (some-eq (if_some (all is_file extras) _ l h))
          (load_sources-Loaded path_key content _ (start_loading files) tt)
