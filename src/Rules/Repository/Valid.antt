-- ===== src/Rules/Repository/Valid.antt =====
-- The invariant of `RuleRepository`: the dictionary by sid agrees with the list of the rules.
use nt204_r11_antn_nguyen_th.Base.{
  ℕ, zero, suc, ◌+◌, ◌≡◌, refl, sym, ap, ◌∙◌, subst, ◌⊎◌, inl, inr, ◌↔◌, if_neg, Bool, true, false,
  Option, none, some, List, [], ◌∷◌, ◌++◌, length, get_elem?, ℕ_discrete, arith, Bool-cases,
  Option-cases,
}
use nt204_r11_antn_nguyen_th.Models.Rule.{Rule}
use nt204_r11_antn_nguyen_th.Flow.Table.{get, contains}
use nt204_r11_antn_nguyen_th.Flow.Table.Laws.{
  Distinct, contains-get, set_item_absent, set_item-Distinct,
}
use nt204_r11_antn_nguyen_th.Rules.Repository.{
  Repository, new_repository, add, append_rule, entry, freeze, all_rules, or_rules,
  frozen_repository, duplicate_sid,
}

-- The dictionary of the rules, with their numbers from `n` on.
unfoldable pub numbered : ℕ → List Rule → List (ℕ × (ℕ × Rule))
numbered n [] = []
numbered n (rule ∷ rules) = (rule.sid, (n, rule)) ∷ numbered (suc n) rules

unfoldable pub taken : Bool → List Rule → Option (List Rule)
taken true rules = some rules
taken false rules = none

pub record IsValid (r : Repository) : Type 0 where
  pub numbers : r.by_sid ≡ numbered 0 r.rules
  pub sids : Distinct ℕ_discrete r.by_sid
  pub copy : r.snapshot ≡ taken r.frozen r.rules

numbered-append :
    (n : ℕ) (rules : List Rule) (rule : Rule)
    → numbered n (rules ++ rule ∷ [])
      ≡ numbered n rules ++ (rule.sid, (n + length rules, rule)) ∷ []
unfolding numbered
numbered-append n [] rule = ground arith
numbered-append n (r ∷ rules) rule = ground (arith, numbered-append (suc n) rules rule)

get-none :
    (sid : ℕ) (t : List (ℕ × (ℕ × Rule)))
    → contains ℕ_discrete sid t ≡ false
    → get ℕ_discrete sid t ≡ none
get-none sid t h = elim (Option-cases (get ℕ_discrete sid t)) [
  | inl n ↦ n
  | inr (v, e) ↦ ground (arith, contains-get ℕ_discrete sid t v e)
]

pub contains_absent :
    (sid : ℕ) (t : List (ℕ × (ℕ × Rule)))
    → get ℕ_discrete sid t ≡ none
    → contains ℕ_discrete sid t ≡ false
unfolding get contains
contains_absent sid [] h = refl
contains_absent sid ((j, v) ∷ t) h = ground (arith, contains_absent sid t)

pub new_repository-IsValid : IsValid new_repository
unfolding new_repository numbered taken
new_repository-IsValid = record { numbers = refl; sids = tt; copy = refl }

taken_open : (b : Bool) (xs ys : List Rule) → b ≡ false → taken b xs ≡ taken b ys
unfolding taken
taken_open true xs ys h = cc
taken_open false xs ys h = refl

pub append_rule-IsValid :
    (rule : Rule) (r : Repository)
    → IsValid r
    → r.frozen ≡ false
    → get ℕ_discrete rule.sid r.by_sid ≡ none
    → IsValid (append_rule rule r)
append_rule-IsValid rule r v f h = record {
  numbers =
      set_item_absent ℕ_discrete rule.sid (length r.rules, rule) r.by_sid h
      ∙ ground (arith, v.numbers, numbered-append 0 r.rules rule);
  sids = set_item-Distinct ℕ_discrete rule.sid (length r.rules, rule) r.by_sid v.sids;
  copy = v.copy ∙ taken_open r.frozen r.rules (r.rules ++ rule ∷ []) f;
}

-- `add` refuses every rule on a frozen repository and refuses a sid that is stored; else it appends
-- the rule, returns its order number and keeps the invariant.
pub add_lem :
    (rule : Rule) (r : Repository)
    → IsValid r
    → (r.frozen ≡ true × add rule r ≡ inl frozen_repository)
      ⊎ (r.frozen ≡ false
          × contains ℕ_discrete rule.sid r.by_sid ≡ true
          × add rule r ≡ inl duplicate_sid)
      ⊎ ((r' : Repository) × (add rule r ≡ inr (length r.rules, r'))
          × IsValid r'
          × (r'.rules ≡ r.rules ++ rule ∷ [])
          × (r'.frozen ≡ false))
unfolding add
add_lem rule r v = elim (Bool-cases r.frozen) [
  | inl f ↦ inl (f, rw (f) refl)
  | inr f ↦ inr (elim (Bool-cases (contains ℕ_discrete rule.sid r.by_sid)) [
    | inl c ↦ inl (f, c, rw (f, c) refl)
    | inr c ↦ inr (
      append_rule rule r,
      rw (f, c) refl,
      append_rule-IsValid rule r v f (get-none rule.sid r.by_sid c),
      refl,
      f,
    )
  ])
]

pub freeze-IsValid : (r : Repository) → IsValid r → IsValid (freeze r) × ((freeze r).frozen ≡ true)
unfolding freeze taken
freeze-IsValid r v = elim (Bool-cases r.frozen) [
  | inl f ↦
      rw (f) (record { numbers = v.numbers; sids = v.sids; copy = ground (arith, v.copy) }, refl)
  | inr f ↦ rw (f) (record { numbers = v.numbers; sids = v.sids; copy = refl }, refl)
]

or_rules-taken : (b : Bool) (rules : List Rule) → or_rules (taken b rules) rules ≡ rules
unfolding taken
or_rules-taken true rules = refl
or_rules-taken false rules = refl

pub all_rules_lem : (r : Repository) → IsValid r → all_rules r ≡ r.rules
unfolding all_rules
all_rules_lem r v = rw (v.copy) (or_rules-taken r.frozen r.rules)

pub freeze-rules : (r : Repository) → (freeze r).rules ≡ r.rules
unfolding freeze
freeze-rules r = ground arith

-- `freeze` does not change what `all` returns.
all_rules-freeze : (r : Repository) → IsValid r → all_rules (freeze r) ≡ all_rules r
all_rules-freeze r v =
    all_rules_lem (freeze r) (freeze-IsValid r v).0 ∙ freeze-rules r ∙ sym (all_rules_lem r v)

numbered-get :
    (n i : ℕ) (rule : Rule) (rules : List Rule)
    → Distinct ℕ_discrete (numbered n rules)
    → get_elem? rules i ≡ some rule
    → get ℕ_discrete rule.sid (numbered n rules) ≡ some (n + i, rule)
unfolding numbered get
numbered-get n i rule [] d h = cc
numbered-get n zero rule (x ∷ rules) d h = ground arith
numbered-get n (suc i) rule (x ∷ rules) d h =
    ground (arith, numbered-get (suc n) i rule rules d.1 h)

numbered-found :
    (sid n i : ℕ) (rule : Rule) (rules : List Rule)
    → get ℕ_discrete sid (numbered n rules) ≡ some (i, rule)
    → (k : ℕ) × (i ≡ n + k) × (get_elem? rules k ≡ some rule) × (rule.sid ≡ sid)
unfolding numbered get
numbered-found sid n i rule [] h = cc
numbered-found sid n i rule (x ∷ rules) h = elim (ℕ_discrete x.sid sid) [
  | yes e ↦ (0, ground arith, ground arith, ground arith)
  | no ne ↦
      let (k, ik, found, same) =
        numbered-found sid (suc n) i rule rules (sym (if_neg (ℕ_discrete x.sid sid) ne _ _) ∙ h) in
      (suc k, omega (arith, ik), found, same)
]

zero_plus : (i : ℕ) → 0 + i ≡ i
zero_plus i = omega arith

-- In a valid repository `_entry` finds the pair of an order number and a rule under a sid exactly if
-- `all` has the rule, with this sid, at that place.
pub entry_iff :
    (sid i : ℕ) (rule : Rule) (r : Repository)
    → IsValid r
    → (entry sid r ≡ some (i, rule)) ↔ ((get_elem? (all_rules r) i ≡ some rule) × (rule.sid ≡ sid))
unfolding entry
entry_iff sid i rule r v = (
  λ h.
      let (k, ik, found, same) =
        numbered-found sid 0 i rule r.rules (ap (get ℕ_discrete sid) (sym v.numbers) ∙ h) in
      (ground (arith, ik, found, all_rules_lem r v), same),
  λ (h, same).
      ap (get ℕ_discrete sid) v.numbers
      ∙ ap (λ k. get ℕ_discrete k (numbered 0 r.rules)) (sym same)
      ∙ numbered-get 0 i rule r.rules (subst (Distinct ℕ_discrete) v.numbers v.sids)
          (ap (λ rs. get_elem? rs i) (sym (all_rules_lem r v)) ∙ h)
      ∙ ap (λ (k : ℕ). some (k, rule)) (zero_plus i),
)
