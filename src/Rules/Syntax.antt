-- ===== src/Rules/Syntax.antt =====
-- src/rules/parser.py, `RuleSyntaxError`: a part of a rule, or the reason why it is rejected.
pub mod Outcome
pub mod Errors
pub mod Returns
use nt204_r11_antn_nguyen_th.Base.{
  Bool, true, false, ◌≡◌, refl, ◌⊎◌, inl, inr, Option, none, some, List, [], ◌∷◌, ◌++◌, Text, codes,
  if◌then◌else◌,
}
use nt204_r11_antn_nguyen_th.Models.RuleReport.{Rejection, is_invalid, is_unsupported}

-- A reason by its kind, which is its first word: `invalid (codes "bad_ip")` is "invalid:bad_ip".
pub data Reason : Type 0 where
  invalid unsupported : Text → Reason

abbrev pub kind : Reason → Rejection
kind (invalid t) = is_invalid
kind (unsupported t) = is_unsupported

abbrev pub reason_text : Reason → Text
reason_text (invalid t) = codes "invalid:" ++ t
reason_text (unsupported t) = codes "unsupported:" ++ t

-- `n is not None`
abbrev pub is_given : {A : Type 0} → Option A → Bool
is_given none = false
is_given (some n) = true

-- `err` is a raised `RuleSyntaxError`.
pub data Result {ℓ} (A : Type ℓ) : Type ℓ where
  ok : A → Result A
  err : Reason → Result A

module _ {ℓ} {A : Type ℓ} where
  -- A value that may be missing.
  unfoldable pub need : Option A → Reason → Result A
  need none why = err why
  need (some a) why = ok a

  -- `if b: raise`
  unfoldable pub raise_if : Bool → Reason → Result A → Result A
  raise_if b why m = if b then err why else m

  -- `except RuleSyntaxError`: an unsupported part is noted and the default stands for it.
  unfoldable pub noted : A → Result A → List Reason → Result (A × List Reason)
  noted d (ok a) us = ok (a, us)
  noted d (err (invalid t)) us = err (invalid t)
  noted d (err (unsupported t)) us = ok (d, us ++ unsupported t ∷ [])

  -- The first of the unsupported parts, if there is one.
  unfoldable pub raise_first : List Reason → Result A → Result A
  raise_first [] m = m
  raise_first (why ∷ us) m = err why

-- What follows a part is reached if the part raises nothing.
infixl 5 ◌>>=◌
abbrev pub ◌>>=◌ {ℓ} : {A B : Type ℓ} → Result A → (A → Result B) → Result B
err why >>= rest = err why
ok part >>= rest = rest part
