-- ===== src/Flow/Table/Laws.antt =====
-- Lookups, sizes and invariants of the flow table.
use nt204_r11_antn_nguyen_th.Base.{
  drop, filter, Bool-cases, zero, inl, inr, ℕ, suc, ◌+◌, ◌≡◌, refl, ap, ◌≢◌, ite, if_pos, if_neg,
  Bool, true, none, some, List, [], ◌∷◌, ◌++◌, arith, length, append-nil, sym, subst, ◌∙◌,
}
use nt204_r11_antn_nguyen_th.Flow.Table.{get, contains, set_item, erase, move_to_end, add, touch}

module _ {ℓ} {K V : Type ℓ} (dec : Discrete K) where
  -- No key stands twice in the table.
  abbrev pub Distinct : List (K × V) → Type ℓ
  Distinct [] = Unit
  Distinct ((k, v) ∷ t) = (get dec k t ≡ none) × Distinct t

  pub contains-get :
      (k : K) (t : List (K × V)) (v : V) → get dec k t ≡ some v → contains dec k t ≡ true
  unfolding get contains
  contains-get k [] v h = cc
  contains-get k ((j, w) ∷ t) v h = elim (dec j k) [
    | yes e ↦ if_pos (dec j k) e true (contains dec k t)
    | no n ↦
        rw (if_neg (dec j k) n)
          (contains-get k t v (sym (if_neg (dec j k) n (some w) (get dec k t)) ∙ h))
  ]

  pub get-append :
      (k j : K) (v : V) (t : List (K × V))
      → get dec j t ≡ none
      → get dec k (t ++ (j, v) ∷ []) ≡ ite (dec j k) (some v) (get dec k t)
  unfolding get
  get-append k j v [] h = refl
  get-append k j v ((i, w) ∷ t) h = ground (arith, get-append k j v t)

  pub get-erase_self : (k : K) (t : List (K × V)) → Distinct t → get dec k (erase dec k t) ≡ none
  unfolding get erase
  get-erase_self k [] d = refl
  get-erase_self k ((j, w) ∷ t) d = elim (dec j k) [
    | yes e ↦ rw (if_pos _ e) (subst_none e d.0)
    | no n ↦ rw (if_neg _ n, if_neg _ n) (get-erase_self k t d.1)
  ]
    where
      subst_none : j ≡ k → get dec j t ≡ none → get dec k t ≡ none
      subst_none e h = rw (← e) h

  pub get-erase_ne : (k j : K) (t : List (K × V)) → j ≢ k → get dec k (erase dec j t) ≡ get dec k t
  unfolding get erase
  get-erase_ne k j [] n = refl
  get-erase_ne k j ((i, w) ∷ t) n = ground (arith, get-erase_ne k j t)

  pub erase_absent : (k : K) (t : List (K × V)) → get dec k t ≡ none → erase dec k t ≡ t
  unfolding get erase
  erase_absent k [] h = refl
  erase_absent k ((j, w) ∷ t) h = ground (arith, erase_absent k t)

  pub erase_append_head :
      (k : K) (pre t : List (K × V)) (v : V)
      → get dec k pre ≡ none
      → erase dec k (pre ++ (k, v) ∷ t) ≡ pre ++ t
  unfolding get erase
  erase_append_head k [] t v h = if_pos (dec k k) refl _ _
  erase_append_head k ((j, w) ∷ pre) t v h = ground (arith, erase_append_head k pre t v)

  pub get-append_none :
      (k : K) (pre t : List (K × V)) → get dec k pre ≡ none → get dec k (pre ++ t) ≡ get dec k t
  unfolding get
  get-append_none k [] t h = refl
  get-append_none k ((j, w) ∷ pre) t h = ground (arith, get-append_none k pre t)

  -- In a table with distinct keys no earlier entry has the key of a later one.
  pub get-none_before :
      (pre : List (K × V)) (k : K) (v : V) (t : List (K × V))
      → Distinct (pre ++ (k, v) ∷ t)
      → get dec k pre ≡ none
  unfolding get
  get-none_before [] k v t d = refl
  get-none_before ((j, w) ∷ pre) k v t d =
      let ih = get-none_before pre k v t d.1 in
      elim (dec j k) [
        | yes e ↦ absurd (
            some-ne-none (
              sym (if_pos (dec k k) refl (some v) (get dec k t))
              ∙ sym (get-append_none k pre ((k, v) ∷ t) ih)
              ∙ subst (λ i. get dec i (pre ++ (k, v) ∷ t) ≡ none) e d.0))
        | no n ↦ if_neg (dec j k) n (some w) (get dec k pre) ∙ ih
      ]
    where
      some-ne-none : some v ≢ none
      some-ne-none e = cc

  get-erase-none :
      (k j : K) (t : List (K × V)) → get dec j t ≡ none → get dec j (erase dec k t) ≡ none
  unfolding get erase
  get-erase-none k j [] h = refl
  get-erase-none k j ((i, w) ∷ t) h = ground (arith, get-erase-none k j t)

  pub erase-Distinct : (k : K) (t : List (K × V)) → Distinct t → Distinct (erase dec k t)
  unfolding erase
  erase-Distinct k [] d = d
  erase-Distinct k ((j, w) ∷ t) d = elim (dec j k) [
    | yes e ↦ rw (if_pos _ e) d.1
    | no n ↦ rw (if_neg _ n) (get-erase-none k j t d.0, erase-Distinct k t d.1)
  ]

  pub drop-Distinct : (n : ℕ) (t : List (K × V)) → Distinct t → Distinct (drop n t)
  drop-Distinct zero t d = d
  drop-Distinct (suc n) [] d = d
  drop-Distinct (suc n) (e ∷ t) d = drop-Distinct n t d.1

  pub get-drop-none :
      (n : ℕ) (k : K) (t : List (K × V)) → get dec k t ≡ none → get dec k (drop n t) ≡ none
  unfolding get
  get-drop-none zero k t h = h
  get-drop-none (suc n) k [] h = h
  get-drop-none (suc n) k ((j, w) ∷ t) h = get-drop-none n k t (ground arith)

  get-filter-none :
      (p : K × V → Bool) (k : K) (t : List (K × V))
      → get dec k t ≡ none
      → get dec k (filter p t) ≡ none
  unfolding get
  get-filter-none p k [] h = refl
  get-filter-none p k ((j, w) ∷ t) h =
      let ih = get-filter-none p k t in
      elim (Bool-cases (p (j, w))) [
        | inl e ↦ rw e (ground (arith, ih))
        | inr e ↦ rw e (ih (ground arith))
      ]

  pub filter-Distinct : (p : K × V → Bool) (t : List (K × V)) → Distinct t → Distinct (filter p t)
  filter-Distinct p [] d = d
  filter-Distinct p ((j, w) ∷ t) d = elim (Bool-cases (p (j, w))) [
    | inl e ↦ rw e (get-filter-none p j t d.0, filter-Distinct p t d.1)
    | inr e ↦ rw e (filter-Distinct p t d.1)
  ]

  pub append-Distinct :
      (k : K) (v : V) (t : List (K × V))
      → get dec k t ≡ none
      → Distinct t
      → Distinct (t ++ (k, v) ∷ [])
  unfolding get
  append-Distinct k v [] h d = (refl, tt)
  append-Distinct k v ((j, w) ∷ t) h d =
      (ground (arith, get-append j k v t), append-Distinct k v t (ground arith) d.1)

  -- What stands under each key after a store, and that a store keeps the keys distinct.
  get-set_item :
      (k j : K) (v : V) (t : List (K × V))
      → get dec k (set_item dec j v t) ≡ ite (dec j k) (some v) (get dec k t)
  unfolding get set_item
  get-set_item k j v [] = refl
  get-set_item k j v ((i, w) ∷ t) = ground (arith, get-set_item k j v t)

  pub set_item-Distinct :
      (k : K) (v : V) (t : List (K × V)) → Distinct t → Distinct (set_item dec k v t)
  unfolding get set_item
  set_item-Distinct k v [] d = (refl, tt)
  set_item-Distinct k v ((j, w) ∷ t) d = elim (dec j k) [
    | yes e ↦ rw (if_pos _ e) d
    | no n ↦ rw (if_neg _ n) (ground (arith, get-set_item j k v t), set_item-Distinct k v t d.1)
  ]

  pub set_item_absent :
      (k : K) (v : V) (t : List (K × V))
      → get dec k t ≡ none
      → set_item dec k v t ≡ t ++ (k, v) ∷ []
  unfolding get set_item
  set_item_absent k v [] h = refl
  set_item_absent k v ((j, w) ∷ t) h = ground (arith, set_item_absent k v t)

  move_to_end_last :
      (k : K) (v : V) (t : List (K × V))
      → get dec k t ≡ none
      → move_to_end dec k (t ++ (k, v) ∷ []) ≡ t ++ (k, v) ∷ []
  unfolding move_to_end
  move_to_end_last k v t h =
      rw (move_to_end, get-append k k v t h, if_pos (dec k k) refl (some v) (get dec k t))
        (ap (λ u. u ++ (k, v) ∷ []) (erase_append_head k t [] v h ∙ append-nil t))

  -- A new key is appended, so it is the last to be evicted.
  pub add_absent :
      (k : K) (v : V) (t : List (K × V)) → get dec k t ≡ none → add dec k v t ≡ t ++ (k, v) ∷ []
  unfolding add
  add_absent k v t h = ap (move_to_end dec k) (set_item_absent k v t h) ∙ move_to_end_last k v t h

  -- A touched entry moves behind all others, which keep their order.
  pub touch-eq :
      (k : K) (t : List (K × V)) (v : V)
      → get dec k t ≡ some v
      → touch dec k t ≡ erase dec k t ++ (k, v) ∷ []
  unfolding touch move_to_end
  touch-eq k t v h = rw (contains-get k t v h, move_to_end, h)

  pub length-erase :
      (k : K) (t : List (K × V)) (v : V)
      → get dec k t ≡ some v
      → length (erase dec k t) + 1 ≡ length t
  unfolding get erase
  length-erase k [] v h = cc
  length-erase k ((j, w) ∷ t) v h = ground (arith, length-erase k t v)

  pub length-set_item :
      (k : K) (t : List (K × V)) (v w : V)
      → get dec k t ≡ some w
      → length (set_item dec k v t) ≡ length t
  unfolding get set_item
  length-set_item k [] v w h = cc
  length-set_item k ((j, u) ∷ t) v w h = ground (arith, length-set_item k t v w)

  -- A store under the key of the last entry replaces that entry.
  pub set_item_last :
      (k : K) (v v' : V) (t : List (K × V))
      → get dec k t ≡ none
      → set_item dec k v' (t ++ (k, v) ∷ []) ≡ t ++ (k, v') ∷ []
  unfolding get set_item
  set_item_last k v v' [] h = if_pos (dec k k) refl _ _
  set_item_last k v v' ((j, w) ∷ t) h = ground (arith, set_item_last k v v' t)
