-- ===== src/Flow/Table/Entries.antt =====
-- Predicates over the entries of the flow table, and what the operations do to them.
use nt204_r11_antn_nguyen_th.Base.{
  ℕ, ◌+◌, ◌≡◌, sym, ◌∙◌, subst, if_pos, if_neg, some, List, [], ◌∷◌, ◌++◌, arith, All, All-append,
}
use nt204_r11_antn_nguyen_th.Flow.Table.{get, set_item, erase, touch}
use nt204_r11_antn_nguyen_th.Flow.Table.Laws.{
  Distinct, touch-eq, erase-Distinct, append-Distinct, get-erase_self,
}

module _ {ℓ} {K V : Type ℓ} (dec : Discrete K) where
  pub get-All {κ} :
      (P : K × V → Type κ) (k : K) (v : V) (t : List (K × V))
      → All P t
      → get dec k t ≡ some v
      → P (k, v)
  unfolding get
  get-All P k v [] a h = cc
  get-All P k v ((j, w) ∷ t) a h = elim (dec j k) [
    | yes e ↦ subst P (pair e (sym (if_pos (dec j k) e (some w) (get dec k t)) ∙ h)) a.0
    | no n ↦ get-All P k v t a.1 (sym (if_neg (dec j k) n (some w) (get dec k t)) ∙ h)
  ]
    where
      pair : j ≡ k → some w ≡ some v → ◌≡◌ {A = K × V} (j, w) (k, v)
      pair e h = ground arith

  pub erase-All {κ} :
      (P : K × V → Type κ) (k : K) (t : List (K × V)) → All P t → All P (erase dec k t)
  unfolding erase
  erase-All P k [] a = a
  erase-All P k ((j, w) ∷ t) a = elim (dec j k) [
    | yes e ↦ rw (if_pos (dec j k) e) a.1
    | no n ↦ rw (if_neg (dec j k) n) (a.0, erase-All P k t a.1)
  ]

  pub set_item-All {κ} :
      (P : K × V → Type κ) (k : K) (v : V) (t : List (K × V))
      → P (k, v)
      → All P t
      → All P (set_item dec k v t)
  unfolding set_item
  set_item-All P k v [] p a = (p, tt)
  set_item-All P k v ((j, w) ∷ t) p a = elim (dec j k) [
    | yes e ↦ rw (if_pos (dec j k) e) (subst (λ i. P (i, v)) (sym e) p, a.1)
    | no n ↦ rw (if_neg (dec j k) n) (a.0, set_item-All P k v t p a.1)
  ]

  pub touch-All {κ} :
      (P : K × V → Type κ) (k : K) (v : V) (t : List (K × V))
      → get dec k t ≡ some v
      → All P t
      → All P (touch dec k t)
  touch-All P k v t h a =
      rw (touch-eq dec k t v h) (All-append P _ _ (erase-All P k t a) (get-All P k v t a h, tt))

  pub touch-Distinct :
      (k : K) (v : V) (t : List (K × V))
      → get dec k t ≡ some v
      → Distinct dec t
      → Distinct dec (touch dec k t)
  touch-Distinct k v t h d =
      rw (touch-eq dec k t v h)
        (append-Distinct dec k v _ (get-erase_self dec k t d) (erase-Distinct dec k t d))

module _ {ℓ} {K V : Type ℓ} where
  -- The sum of a weight over the entries.
  unfoldable pub weigh : (V → ℕ) → List (K × V) → ℕ
  weigh w [] = 0
  weigh w ((k, v) ∷ t) = w v + weigh w t

  pub weigh-append : (w : V → ℕ) (t u : List (K × V)) → weigh w (t ++ u) ≡ weigh w t + weigh w u
  unfolding weigh
  weigh-append w [] u = omega arith
  weigh-append w ((k, v) ∷ t) u = omega (arith, weigh-append w t u)

module _ {ℓ} {K V : Type ℓ} (dec : Discrete K) where
  pub weigh-erase :
      (w : V → ℕ) (k : K) (v : V) (t : List (K × V))
      → get dec k t ≡ some v
      → weigh w (erase dec k t) + w v ≡ weigh w t
  unfolding get erase weigh
  weigh-erase w k v [] h = cc
  weigh-erase w k v ((j, u) ∷ t) h = ground (arith, weigh-erase w k v t)

  pub weigh-set_item :
      (w : V → ℕ) (k : K) (v v' : V) (t : List (K × V))
      → get dec k t ≡ some v
      → weigh w (set_item dec k v' t) + w v ≡ weigh w t + w v'
  unfolding get set_item weigh
  weigh-set_item w k v v' [] h = cc
  weigh-set_item w k v v' ((j, u) ∷ t) h = ground (arith, weigh-set_item w k v v' t)
