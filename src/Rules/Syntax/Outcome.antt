-- ===== src/Rules/Syntax/Outcome.antt =====
-- src/rules/parser.py: "invalid wins over unsupported", as a choice among the problems of all parts,
-- with which the loops over the parts are compared.
use nt204_r11_antn_nguyen_th.Base.{◌≡◌, refl, Option, none, some, List, [], ◌∷◌, ◌++◌, append_assoc}
use nt204_r11_antn_nguyen_th.Rules.Syntax.{
  Reason, invalid, unsupported, Result, ok, err, noted, raise_first, ◌>>=◌,
}

-- The reason that a part raises.
abbrev pub problem : {A : Type 0} → Result A → Option Reason
problem (ok a) = none
problem (err why) = some why

-- The value of a part, for which the default stands if the part raises.
abbrev pub value_or : {A : Type 0} → A → Result A → A
value_or d (ok a) = a
value_or d (err why) = d

-- The first invalid problem.
abbrev pub first_invalid : List (Option Reason) → Option Reason
first_invalid [] = none
first_invalid (none ∷ ps) = first_invalid ps
first_invalid (some (invalid t) ∷ ps) = some (invalid t)
first_invalid (some (unsupported t) ∷ ps) = first_invalid ps

-- The unsupported problems in order.
abbrev pub unsupporteds : List (Option Reason) → List Reason
unsupporteds [] = []
unsupporteds (none ∷ ps) = unsupporteds ps
unsupporteds (some (invalid t) ∷ ps) = unsupporteds ps
unsupporteds (some (unsupported t) ∷ ps) = unsupported t ∷ unsupporteds ps

abbrev pub first : List Reason → Option Reason
first [] = none
first (why ∷ us) = some why

abbrev pub prefer : Option Reason → Option Reason → Option Reason
prefer none later = later
prefer (some why) later = some why

-- The first invalid problem, or else the first unsupported one, of which `us` were met before.
abbrev pub outcome_after : List Reason → List (Option Reason) → Option Reason
outcome_after us ps = prefer (first_invalid ps) (first (us ++ unsupporteds ps))

abbrev pub outcome : List (Option Reason) → Option Reason
outcome ps = outcome_after [] ps

-- A part that is noted is a problem more, and its value or the default goes on.
pub noted_lem :
    {A B : Type 0} (d : A) (m : Result A) (us : List Reason) (f : A × List Reason → Result B)
    → (ps : List (Option Reason))
    → ((vs : List Reason) → problem (f (value_or d m, vs)) ≡ outcome_after vs ps)
    → problem (noted d m us >>= f) ≡ outcome_after us (problem m ∷ ps)
unfolding noted
noted_lem d (ok a) us f ps h = h us
noted_lem d (err (invalid t)) us f ps h = refl
noted_lem d (err (unsupported t)) us f ps h =
    rw (h (us ++ unsupported t ∷ []), append_assoc us (unsupported t ∷ []) (unsupporteds ps)) refl

-- A part of which no problem is merely unsupported is raised or goes on.
pub bind-outcome :
    {A B : Type 0} (m : Result A) (us : List Reason) (f : A → Result B)
    → (ps : List (Option Reason)) → ((a : A) → m ≡ ok a → problem (f a) ≡ outcome_after us ps)
    → unsupporteds (problem m ∷ []) ≡ []
    → problem (m >>= f) ≡ outcome_after us (problem m ∷ ps)
bind-outcome (ok a) us f ps h k = h a refl
bind-outcome (err (invalid t)) us f ps h k = refl
bind-outcome (err (unsupported t)) us f ps h k = cc

pub raise_first_lem :
    {A : Type 0} (us : List Reason) (a : A) → problem (raise_first us (ok a)) ≡ outcome_after us []
unfolding raise_first
raise_first_lem [] a = refl
raise_first_lem (why ∷ us) a = refl
