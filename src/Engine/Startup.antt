-- ===== src/Engine/Startup.antt =====
-- src/engine/engine.py: `Engine.__init__`, which puts the rules that were loaded into the repository.
pub mod Rules
use nt204_r11_antn_nguyen_th.Base.{
  ℕ, ◌≡◌, refl, sym, ap, ◌∙◌, if_neg, inl, inr, Bool, true, false, Option, none, some, List, [],
  ◌∷◌, ◌++◌, append_assoc, append-nil, length, ◌==◌, ℕ_discrete, arith, All, Text,
}
use nt204_r11_antn_nguyen_th.Models.Rule.{Rule}
use nt204_r11_antn_nguyen_th.Flow.Table.{get, contains}
use nt204_r11_antn_nguyen_th.Flow.Table.Laws.{get-append, set_item_absent}
use nt204_r11_antn_nguyen_th.Rules.Repository.{Repository, new_repository, add, append_rule}
use nt204_r11_antn_nguyen_th.Rules.Repository.Valid.{
  IsValid, contains_absent, new_repository-IsValid, append_rule-IsValid,
}
use nt204_r11_antn_nguyen_th.Rules.Loader.{ParseFn, Loading, RuleFile, load_rules}
use nt204_r11_antn_nguyen_th.Rules.Loader.Report.{DistinctSids, load_rules-Sound}

-- `for rule in rules: self.repository.add(rule)`; `none` is an exception of `add`.
unfoldable pub fill : List Rule → Repository → Option Repository
fill [] r = some r
fill (rule ∷ rules) r = elim (add rule r) [ inl error ↦ none | inr (order, r') ↦ fill rules r' ]

-- The repository that `__init__` fills: an engine that is not enabled loads no rules.
unfoldable pub init_repository : Bool → List Rule → Option Repository
init_repository enabled rules = elim enabled [
  | true ↦ fill rules new_repository
  | false ↦ some new_repository
]

add-append_rule :
    (rule : Rule) (r : Repository)
    → r.frozen ≡ false
    → get ℕ_discrete rule.sid r.by_sid ≡ none
    → add rule r ≡ inr (length r.rules, append_rule rule r)
unfolding add
add-append_rule rule r f h = rw (f, contains_absent rule.sid r.by_sid h) refl

abbrev AbsentFrom : Repository → Rule → Type 0
AbsentFrom r rule = get ℕ_discrete rule.sid r.by_sid ≡ none

still_absent :
    (rule : Rule) (r : Repository) (rules : List Rule)
    → AbsentFrom r rule
    → All (λ x. (rule.sid == x.sid) ≡ false) rules
    → All (AbsentFrom r) rules
    → All (AbsentFrom (append_rule rule r)) rules
still_absent rule r [] h d a = tt
still_absent rule r (x ∷ rules) h d a = (
  ap (get ℕ_discrete x.sid) (set_item_absent ℕ_discrete rule.sid (length r.rules, rule) r.by_sid h)
      ∙ get-append ℕ_discrete x.sid rule.sid (length r.rules, rule) r.by_sid h
      ∙ if_neg (ℕ_discrete rule.sid x.sid) (ground (arith, d.0)) _ _
      ∙ a.0,
  still_absent rule r rules h d.1 a.1,
)

fill_lem :
    (rules : List Rule) (r : Repository)
    → IsValid r
    → r.frozen ≡ false
    → DistinctSids rules
    → All (AbsentFrom r) rules
    → (r' : Repository) × (fill rules r ≡ some r') × IsValid r' × (r'.rules ≡ r.rules ++ rules)
unfolding fill
fill_lem [] r v f d a = (r, refl, v, sym (append-nil r.rules))
fill_lem (rule ∷ rules) r v f d a =
    let (r', made, valid, same) =
      fill_lem rules (append_rule rule r) (append_rule-IsValid rule r v f a.0) f d.1
        (still_absent rule r rules a.0 d.0 a.1) in
    (
      r',
      rw (fill, add-append_rule rule r f a.0) made,
      valid,
      same ∙ append_assoc r.rules (rule ∷ []) rules,
    )

new_repository-AbsentFrom : (rules : List Rule) → All (AbsentFrom new_repository) rules
unfolding new_repository get
new_repository-AbsentFrom [] = tt
new_repository-AbsentFrom (rule ∷ rules) = (refl, new_repository-AbsentFrom rules)

-- Whatever the rule files hold and however the parser behaves, `add` accepts every rule that was
-- loaded: the repository ends up with just these rules, in the order of the load.
pub fill-load_rules :
    (disabled_sids : List ℕ) (parse : ParseFn) (path_key : Text → Text)
    (content : Text → Option Text) (is_file : Text → Bool) (files : List RuleFile)
    (extras : List Text) (l : Loading)
    → load_rules disabled_sids parse path_key content is_file files extras ≡ some l
    → (r : Repository) × (fill l.rules new_repository ≡ some r) × IsValid r × (r.rules ≡ l.rules)
unfolding new_repository
fill-load_rules ds parse path_key content is_file files extras l h =
    let sound = load_rules-Sound ds parse path_key content is_file files extras l h in
    fill_lem l.rules new_repository new_repository-IsValid refl sound.distinct
      (new_repository-AbsentFrom l.rules)
