-- ===== src/Rules/Repository.antt =====
-- src/rules/repository.py: `RuleRepository`, the validated rules in the order they were added.
pub mod Valid
pub mod History
use nt204_r11_antn_nguyen_th.Base.{
  ℕ, ◌≡◌, ◌⊎◌, inl, inr, Bool, true, false, Option, none, some, List, [], ◌++◌, ◌∷◌, length,
  ℕ_discrete, if◌then◌else◌,
}
use nt204_r11_antn_nguyen_th.Models.Rule.{Rule}
use nt204_r11_antn_nguyen_th.Flow.Table

-- `_by_sid` keeps the pairs (order, rule) in the order of their insertion.
pub record Repository : Type 0 where
  pub rules : List Rule
  pub by_sid : List (ℕ × (ℕ × Rule))
  pub frozen : Bool
  pub snapshot : Option (List Rule)

-- `__init__`
unfoldable pub new_repository : Repository
new_repository = record { rules = []; by_sid = []; frozen = false; snapshot = none }

-- The `RuntimeError` and the `ValueError` of `add`.
pub data AddError : Type 0 where
  frozen_repository duplicate_sid : AddError

abbrev pub append_rule : Rule → Repository → Repository
append_rule rule r = record r {
  rules = r.rules ++ rule ∷ [];
  by_sid = Table.set_item ℕ_discrete rule.sid (length r.rules, rule) r.by_sid;
}

unfoldable pub add : Rule → Repository → AddError ⊎ (ℕ × Repository)
add rule r =
    if r.frozen
    then inl AddError.frozen_repository
    else if Table.contains ℕ_discrete rule.sid r.by_sid
    then inl AddError.duplicate_sid
    else inr (length r.rules, append_rule rule r)

unfoldable pub entry : ℕ → Repository → Option (ℕ × Rule)
entry sid r = Table.get ℕ_discrete sid r.by_sid

unfoldable pub rule_of : Option (ℕ × Rule) → Option Rule
rule_of none = none
rule_of (some (i, rule)) = some rule

unfoldable pub number_of : Option (ℕ × Rule) → Option ℕ
number_of none = none
number_of (some (i, rule)) = some i

unfoldable pub get : ℕ → Repository → Option Rule
get sid r = rule_of (entry sid r)

unfoldable pub order_of : ℕ → Repository → Option ℕ
order_of sid r = number_of (entry sid r)

abbrev or_rules : Option (List Rule) → List Rule → List Rule
or_rules none rules = rules
or_rules (some taken) rules = taken

-- `all`, which is also what `__iter__` goes through.
unfoldable pub all_rules : Repository → List Rule
all_rules r = or_rules r.snapshot r.rules

unfoldable pub freeze : Repository → Repository
freeze r =
    if r.frozen
    then record r { frozen = true }
    else record r { snapshot = some r.rules; frozen = true }
