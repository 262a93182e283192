-- ===== src/Rules/Syntax/Errors.antt =====
-- src/rules/parser.py: which reasons a part may raise, through the ways in which parts are composed.
use nt204_r11_antn_nguyen_th.Base.{
  Bool, true, false, ◌≡◌, refl, Option, none, some, List, [], ◌∷◌, ◌++◌, all, all-append,
  if◌then◌else◌, arith,
}
use nt204_r11_antn_nguyen_th.Models.RuleReport.{is_valid_reason}
use nt204_r11_antn_nguyen_th.Rules.Syntax.{
  Reason, invalid, unsupported, reason_text, Result, ok, err, need, raise_if, noted, raise_first,
  ◌>>=◌,
}

-- The check of `RuleSyntaxError.__init__`.
abbrev pub is_declared : Reason → Bool
is_declared why = is_valid_reason (reason_text why)

-- A reason of the kind `invalid` that passes it.
abbrev pub is_declared_invalid : Reason → Bool
is_declared_invalid (invalid t) = is_declared (invalid t)
is_declared_invalid (unsupported t) = false

abbrev pub is_declared_unsupported : Reason → Bool
is_declared_unsupported (invalid t) = false
is_declared_unsupported (unsupported t) = is_declared (unsupported t)

pub invalid-declared : (why : Reason) → is_declared_invalid why ≡ true → is_declared why ≡ true
invalid-declared (invalid t) h = h
invalid-declared (unsupported t) h = cc

pub unsupported-declared :
    (why : Reason) → is_declared_unsupported why ≡ true → is_declared why ≡ true
unsupported-declared (invalid t) h = cc
unsupported-declared (unsupported t) h = h

-- The reason of a part, if it raises one, is such a reason.
unfoldable pub Raises : {A : Type 0} → (Reason → Bool) → Result A → Type 0
Raises P (ok a) = Unit {0}
Raises P (err why) = P why ≡ true

abbrev pub raises_option : (Reason → Bool) → Option Reason → Bool
raises_option P none = true
raises_option P (some why) = P why

pub err-Raises :
    (A : Type 0) (P : Reason → Bool) (why : Reason) → P why ≡ true → Raises {A = A} P (err why)
unfolding Raises
err-Raises A P why h = h

module _ (P : Reason → Bool) {A : Type 0} where
  pub raise_if-Raises :
      (b : Bool) (why : Reason) (m : Result A)
      → (b ≡ true → P why ≡ true)
      → Raises P m
      → Raises P (raise_if b why m)
  unfolding Raises raise_if
  raise_if-Raises true why m h k = h refl
  raise_if-Raises false why m h k = k

  pub ok-Raises : (a : A) → Raises P (ok a)
  unfolding Raises
  ok-Raises a = tt

  pub unless-Raises :
      (b : Bool) (why : Reason) (m : Result A)
      → P why ≡ true
      → (b ≡ false → Raises P m)
      → Raises P (raise_if b why m)
  unfolding Raises raise_if
  unless-Raises true why m h k = h
  unless-Raises false why m h k = k refl

  pub cond-Raises :
      (b : Bool) (m n : Result A) → Raises P m → Raises P n → Raises P (if b then m else n)
  cond-Raises true m n h k = h
  cond-Raises false m n h k = k

  -- The branches may use what the test says.
  pub cases-Raises :
      (b : Bool) (m n : Result A)
      → (b ≡ true → Raises P m)
      → (b ≡ false → Raises P n)
      → Raises P (if b then m else n)
  cases-Raises true m n h k = h refl
  cases-Raises false m n h k = k refl

  pub need-Raises : (o : Option A) (why : Reason) → P why ≡ true → Raises P (need o why)
  unfolding Raises need
  need-Raises none why h = h
  need-Raises (some a) why h = tt

  pub raise_first-Raises :
      (us : List Reason) (m : Result A) → all P us ≡ true → Raises P m → Raises P (raise_first us m)
  unfolding Raises raise_first
  raise_first-Raises [] m h k = k
  raise_first-Raises (why ∷ us) m h k = ground (arith)

module _ (P : Reason → Bool) {A B : Type 0} where
  pub bind-Raises :
      (m : Result A) (f : A → Result B)
      → Raises P m
      → ((a : A) → m ≡ ok a → Raises P (f a))
      → Raises P (m >>= f)
  unfolding Raises
  bind-Raises (ok a) f h k = k a refl
  bind-Raises (err why) f h k = h

  -- A value that has to be there, of which something is made.
  pub set-Raises :
      (o : Option A) (why : Reason) (g : A → B)
      → P why ≡ true
      → Raises P (need o why >>= λ a. ok (g a))
  unfolding Raises need
  set-Raises none why g h = h
  set-Raises (some a) why g h = tt

  -- A part that is noted goes on with more reasons of the kind.
  pub noted-Raises :
      (d : A) (m : Result A) (us : List Reason) (f : A × List Reason → Result B)
      → Raises P m
      → all P us ≡ true
      → ((a : A) (vs : List Reason) → all P vs ≡ true → Raises P (f (a, vs)))
      → Raises P (noted d m us >>= f)
  unfolding Raises noted
  noted-Raises d (ok a) us f h k l = l a us k
  noted-Raises d (err (invalid t)) us f h k l = h
  noted-Raises d (err (unsupported t)) us f h k l =
      l d (us ++ unsupported t ∷ []) (all-append P us _ k (ground (arith)))
