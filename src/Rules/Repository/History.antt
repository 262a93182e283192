-- ===== src/Rules/Repository/History.antt =====
-- src/rules/repository.py: a repository after any calls of its methods.
use nt204_r11_antn_nguyen_th.Base.{
  ℕ, ◌≡◌, ◌⊎◌, inl, inr, ◌↔◌, Bool, true, false, some, List, [], ◌∷◌, ◌++◌, length, get_elem?, any,
}
use nt204_r11_antn_nguyen_th.Models.Rule.{Rule}
use nt204_r11_antn_nguyen_th.Rules.Repository.{
  Repository, new_repository, AddError, add, entry, freeze, all_rules, frozen_repository,
  duplicate_sid,
}
use nt204_r11_antn_nguyen_th.Rules.Repository.Valid.{
  IsValid, new_repository-IsValid, freeze-IsValid, add_lem, entry_iff,
}

pub data Call : Type 0 where
  add_rule : Rule → Call
  freeze_rules : Call

-- The repository after a call; an `add` that raises leaves it as it was.
abbrev kept_or : Repository → AddError ⊎ (ℕ × Repository) → Repository
kept_or r (inl error) = r
kept_or r (inr (order, r')) = r'

unfoldable pub call : Call → Repository → Repository
call (add_rule rule) r = kept_or r (add rule r)
call freeze_rules r = freeze r

unfoldable pub after : List Call → Repository → Repository
after [] r = r
after (c ∷ cs) r = after cs (call c r)

call-IsValid : (c : Call) (r : Repository) → IsValid r → IsValid (call c r)
unfolding call
call-IsValid freeze_rules r v = (freeze-IsValid r v).0
call-IsValid (add_rule rule) r v = elim (add_lem rule r v) [
  | inl (f, e) ↦ rw (e) v
  | inr (inl (f, c, e)) ↦ rw (e) v
  | inr (inr (r', e, v', rules, f)) ↦ rw (e) v'
]

after-IsValid : (cs : List Call) (r : Repository) → IsValid r → IsValid (after cs r)
unfolding after
after-IsValid [] r v = v
after-IsValid (c ∷ cs) r v = after-IsValid cs (call c r) (call-IsValid c r v)

-- After any calls of `add` and `freeze` on a new repository, refused ones included, `_entry` finds the
-- pair of an order number and a rule under a sid exactly if `all` has the rule, with this sid, at
-- that place.
pub entry-after :
    (cs : List Call) (sid i : ℕ) (rule : Rule)
    → let r = after cs new_repository in
      (entry sid r ≡ some (i, rule)) ↔ ((get_elem? (all_rules r) i ≡ some rule) × (rule.sid ≡ sid))
entry-after cs sid i rule =
    entry_iff sid i rule (after cs new_repository)
      (after-IsValid cs new_repository new_repository-IsValid)

abbrev is_freeze : Call → Bool
is_freeze freeze_rules = true
is_freeze (add_rule rule) = false

abbrev Stored : ℕ → Repository → Type 0
Stored sid r = (i : ℕ) × (rule : Rule) × (get_elem? (all_rules r) i ≡ some rule) × (rule.sid ≡ sid)

-- What `add` does, with what stands for it in the repository.
abbrev pub AddsTo : List Call → Rule → Repository → Type 0
AddsTo cs rule r =
    ((any is_freeze cs ≡ true) × (add rule r ≡ inl frozen_repository))
    ⊎ ((any is_freeze cs ≡ false) × Stored rule.sid r × (add rule r ≡ inl duplicate_sid))
    ⊎ ((any is_freeze cs ≡ false)
        × (r' : Repository) × (add rule r ≡ inr (length (all_rules r), r'))
        × (all_rules r' ≡ all_rules r ++ rule ∷ [])
        × (entry rule.sid r' ≡ some (length (all_rules r), rule)))
