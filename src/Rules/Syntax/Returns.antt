-- ===== src/Rules/Syntax/Returns.antt =====
-- src/rules/parser.py: what a part returns if it raises nothing, through the ways in which parts are
-- composed.
use nt204_r11_antn_nguyen_th.Base.{
  Bool, true, false, ◌≡◌, refl, subst, Option, none, some, List, [], ◌∷◌, ◌++◌, if◌then◌else◌,
}
use nt204_r11_antn_nguyen_th.Rules.Syntax.{
  Reason, invalid, unsupported, Result, ok, err, need, raise_if, noted, raise_first, ◌>>=◌,
}

-- The value of a part, if it returns one, is such a value.
unfoldable pub Returns : {A : Type 0} → (A → Type 0) → Result A → Type 0
Returns Q (ok a) = Q a
Returns Q (err why) = Unit {0}

-- Nothing is asked of the value.
abbrev pub Anything : {A : Type 0} → A → Type 0
Anything a = Unit {0}

pub anything : {A : Type 0} (m : Result A) → Returns Anything m
unfolding Returns
anything (ok a) = tt
anything (err why) = tt

module _ {A : Type 0} (Q : A → Type 0) where
  pub ok-Returns : (a : A) → Q a → Returns Q (ok a)
  unfolding Returns
  ok-Returns a h = h

  pub err-Returns : (why : Reason) → Returns Q (err why)
  unfolding Returns
  err-Returns why = tt

  -- What is returned, by the equation.
  pub returned_lem : (m : Result A) (a : A) → Returns Q m → m ≡ ok a → Q a
  unfolding Returns
  returned_lem m a h e = subst (Returns Q) e h

  pub raise_if-Returns :
      (b : Bool) (why : Reason) (m : Result A)
      → (b ≡ false → Returns Q m)
      → Returns Q (raise_if b why m)
  unfolding Returns raise_if
  raise_if-Returns true why m h = tt
  raise_if-Returns false why m h = h refl

  pub cond-Returns :
      (b : Bool) (m n : Result A) → Returns Q m → Returns Q n → Returns Q (if b then m else n)
  cond-Returns true m n h k = h
  cond-Returns false m n h k = k

  -- The branches may use what the test says.
  pub cases-Returns :
      (b : Bool) (m n : Result A)
      → (b ≡ true → Returns Q m)
      → (b ≡ false → Returns Q n)
      → Returns Q (if b then m else n)
  cases-Returns true m n h k = h refl
  cases-Returns false m n h k = k refl

  pub weaken-Returns :
      (R : A → Type 0) (m : Result A) → ((a : A) → Q a → R a) → Returns Q m → Returns R m
  unfolding Returns
  weaken-Returns R (ok a) f h = f a h
  weaken-Returns R (err why) f h = tt

  pub raise_first-Returns :
      (us : List Reason) (m : Result A) → Returns Q m → Returns Q (raise_first us m)
  unfolding Returns raise_first
  raise_first-Returns [] m h = h
  raise_first-Returns (why ∷ us) m h = tt

pub need-ok : {A : Type 0} (o : Option A) (why : Reason) (a : A) → need o why ≡ ok a → o ≡ some a
unfolding need
need-ok none why a h = cc
need-ok (some b) why a h = cc

module _ {A B : Type 0} (Q : B → Type 0) where
  pub bind-Returns :
      (m : Result A) (f : A → Result B)
      → ((a : A) → m ≡ ok a → Returns Q (f a))
      → Returns Q (m >>= f)
  unfolding Returns
  bind-Returns (ok a) f h = h a refl
  bind-Returns (err why) f h = tt

  pub set-Returns :
      (o : Option A) (why : Reason) (g : A → B)
      → ((a : A) → o ≡ some a → Q (g a))
      → Returns Q (need o why >>= λ a. ok (g a))
  unfolding Returns need
  set-Returns none why g h = tt
  set-Returns (some a) why g h = h a refl

  -- A part that is noted goes on with its value, or with the default.
  pub noted-Returns :
      (R : A → Type 0) (d : A) (m : Result A) (us : List Reason) (f : A × List Reason → Result B)
      → Returns R m
      → R d
      → ((a : A) (vs : List Reason) → R a → Returns Q (f (a, vs)))
      → Returns Q (noted d m us >>= f)
  unfolding Returns noted
  noted-Returns R d (ok a) us f h k l = l a us h
  noted-Returns R d (err (invalid t)) us f h k l = tt
  noted-Returns R d (err (unsupported t)) us f h k l = l d (us ++ unsupported t ∷ []) k
