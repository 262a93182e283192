-- ===== src/Rules/Indexer/Sets.antt =====
-- Sets of order numbers as ascending lists: two of them with the same elements are equal.
use nt204_r11_antn_nguyen_th.Base.{
  ℕ, ◌<◌, ◌≡◌, refl, Bool, true, false, ◌||◌, List, [], ◌∷◌, ◌++◌, ltb, ◌==◌, arith, Bool-cases,
  All, ==_refl, inl, inr,
}
use nt204_r11_antn_nguyen_th.Rules.Indexer.{insert, insert_all}

abbrev pub mem : ℕ → List ℕ → Bool
mem o [] = false
mem o (x ∷ xs) = o == x || mem o xs

-- Every element is below those behind it.
abbrev pub Ascending : List ℕ → Type 0
Ascending [] = Unit
Ascending (x ∷ xs) = All (λ y. x < y) xs × Ascending xs

pub mem-append : (o : ℕ) (xs ys : List ℕ) → mem o (xs ++ ys) ≡ (mem o xs || mem o ys)
mem-append o [] ys = refl
mem-append o (x ∷ xs) ys = ground (arith, mem-append o xs ys)

pub mem-insert : (o x : ℕ) (s : List ℕ) → mem o (insert x s) ≡ (o == x || mem o s)
unfolding insert
mem-insert o x [] = refl
mem-insert o x (y ∷ s) = ground (arith, mem-insert o x s)

pub mem-insert_all : (o : ℕ) (xs s : List ℕ) → mem o (insert_all xs s) ≡ (mem o xs || mem o s)
unfolding insert_all
mem-insert_all o [] s = refl
mem-insert_all o (x ∷ xs) s = ground (arith, mem-insert_all o xs (insert x s), mem-insert o x s)

above_trans : (x y : ℕ) (s : List ℕ) → x < y → All (λ z. y < z) s → All (λ z. x < z) s
above_trans x y [] h a = tt
above_trans x y (z ∷ s) h a = (omega (arith, a.0), above_trans x y s h a.1)

above-insert : (z x : ℕ) (s : List ℕ) → z < x → All (λ y. z < y) s → All (λ y. z < y) (insert x s)
unfolding insert
above-insert z x [] h a = (h, tt)
above-insert z x (y ∷ s) h a = elim (Bool-cases (ltb x y)) [
  | inl e ↦ rw e (h, a)
  | inr e ↦ rw e (elim (Bool-cases (x == y)) [
    | inl e2 ↦ rw e2 a
    | inr e2 ↦ rw e2 (a.0, above-insert z x s h a.1)
  ])
]

insert-Ascending : (x : ℕ) (s : List ℕ) → Ascending s → Ascending (insert x s)
unfolding insert
insert-Ascending x [] a = (tt, tt)
insert-Ascending x (y ∷ s) a = elim (Bool-cases (ltb x y)) [
  | inl e ↦ rw e ((ground arith, above_trans x y s (ground arith) a.0), a)
  | inr e ↦ rw e (elim (Bool-cases (x == y)) [
    | inl e2 ↦ rw e2 a
    | inr e2 ↦ rw e2 (above-insert y x s (ground arith) a.0, insert-Ascending x s a.1)
  ])
]

pub insert_all-Ascending : (xs s : List ℕ) → Ascending s → Ascending (insert_all xs s)
unfolding insert_all
insert_all-Ascending [] s a = a
insert_all-Ascending (x ∷ xs) s a = insert_all-Ascending xs (insert x s) (insert-Ascending x s a)

not-mem_above : (x : ℕ) (s : List ℕ) → All (λ y. x < y) s → mem x s ≡ false
not-mem_above x [] a = refl
not-mem_above x (y ∷ s) a = ground (arith, not-mem_above x s)

mem_above : (o x : ℕ) (s : List ℕ) → All (λ y. x < y) s → mem o s ≡ true → x < o
mem_above o x [] a h = cc
mem_above o x (y ∷ s) a h = ground (arith, mem_above o x s)

-- Two ascending lists with the same head have the same elements behind it.
tails_same :
    (x y : ℕ) (xs ys : List ℕ)
    → x ≡ y
    → All (λ z. x < z) xs
    → All (λ z. y < z) ys
    → ((o : ℕ) → mem o (x ∷ xs) ≡ mem o (y ∷ ys))
    → (o : ℕ) → mem o xs ≡ mem o ys
tails_same x y xs ys xy a b h o = elim (Bool-cases (o == x)) [
  | inl e ↦ ground (arith, not-mem_above x xs a, not-mem_above y ys b)
  | inr e ↦ ground (arith, h o)
]

heads_same :
    (x y : ℕ) (xs ys : List ℕ)
    → All (λ z. x < z) xs
    → All (λ z. y < z) ys
    → ((o : ℕ) → mem o (x ∷ xs) ≡ mem o (y ∷ ys))
    → x ≡ y
heads_same x y xs ys a b h =
    ground (arith, h x, h y, ==_refl x, ==_refl y, mem_above x y ys b, mem_above y x xs a)

pub Ascending-ext :
    (xs ys : List ℕ) → Ascending xs → Ascending ys → ((o : ℕ) → mem o xs ≡ mem o ys) → xs ≡ ys
Ascending-ext [] [] a b h = refl
Ascending-ext [] (y ∷ ys) a b h = ground (arith, h y, ==_refl y)
Ascending-ext (x ∷ xs) [] a b h = ground (arith, h x, ==_refl x)
Ascending-ext (x ∷ xs) (y ∷ ys) a b h =
    let e = heads_same x y xs ys a.0 b.0 h in
    let rest = Ascending-ext xs ys a.1 b.1 (tails_same x y xs ys e a.0 b.0 h) in cc
