-- ===== src/Base/Strip.antt =====
-- Texts that `str.strip()` leaves as they are, the parts of `str.partition()` and the pieces of `split`.
use Prim.Native.Nat.{ℕ}
use mathlib.Core.Path.{◌≡◌, refl, ap}
use mathlib.Core.List.{[], ◌∷◌, ◌++◌}
use mathlib.Core.Bool.{true, false, not}
use native.Mathlib.Omega.{arith}
use nt204_r11_antn_nguyen_th.Base.Tests.{◌==◌}
use nt204_r11_antn_nguyen_th.Base.Lists.{all}
use nt204_r11_antn_nguyen_th.Base.Texts.{Text, split_on}
use nt204_r11_antn_nguyen_th.Base.Strings.{
  is_space, lstrip, put_back, rstrip, strip, without_last, ends_with, partition,
}

-- Nothing is stripped on the right behind a character that is no space.
pub rstrip-append : (xs : Text) (c : ℕ) → is_space c ≡ false → rstrip (xs ++ c ∷ []) ≡ xs ++ c ∷ []
unfolding rstrip put_back
rstrip-append [] c h = rw (h) refl
rstrip-append (x ∷ []) c h = rw (h) refl
rstrip-append (x ∷ y ∷ ys) c h = rw (rstrip-append (y ∷ ys) c h) refl

pub lstrip-cons : (c : ℕ) (cs : Text) → is_space c ≡ false → lstrip (c ∷ cs) ≡ c ∷ cs
unfolding lstrip
lstrip-cons c cs h = rw (h) refl

-- A text that starts and ends with a character that is no space.
pub strip-append :
    (c : ℕ) (xs : Text) (d : ℕ)
    → is_space c ≡ false
    → is_space d ≡ false
    → strip (c ∷ xs ++ d ∷ []) ≡ c ∷ xs ++ d ∷ []
strip-append c xs d h k = rw (rstrip-append (c ∷ xs) d k) (lstrip-cons c (xs ++ d ∷ []) h)

rstrip-solid : (xs : Text) → all (λ c. not (is_space c)) xs ≡ true → rstrip xs ≡ xs
unfolding rstrip put_back
rstrip-solid [] h = refl
rstrip-solid (x ∷ []) h = ground (arith, h)
rstrip-solid (x ∷ y ∷ ys) h = rw (rstrip-solid (y ∷ ys) (ground (arith, h))) refl

-- A text without spaces.
pub strip-solid : (xs : Text) → all (λ c. not (is_space c)) xs ≡ true → strip xs ≡ xs
unfolding lstrip
strip-solid [] h = rw (rstrip-solid [] h) refl
strip-solid (x ∷ xs) h = rw (rstrip-solid (x ∷ xs) h) (lstrip-cons x xs (ground (arith, h)))

-- The last character.
pub without_last-append : (xs : Text) (c : ℕ) → without_last (xs ++ c ∷ []) ≡ xs
unfolding without_last
without_last-append [] c = refl
without_last-append (x ∷ []) c = refl
without_last-append (x ∷ y ∷ ys) c = ap (λ t. x ∷ t) (without_last-append (y ∷ ys) c)

pub ends_with-append : (xs : Text) (c : ℕ) → ends_with c (xs ++ c ∷ []) ≡ true
unfolding ends_with
ends_with-append [] c = ground arith
ends_with-append (x ∷ []) c = ground arith
ends_with-append (x ∷ y ∷ ys) c = ends_with-append (y ∷ ys) c

-- The parts at the first separator.
pub partition-append :
    (sep : ℕ) (xs ys : Text)
    → all (λ c. not (c == sep)) xs ≡ true
    → partition sep (xs ++ sep ∷ ys) ≡ record { before = xs; found = true; after = ys }
unfolding partition
partition-append sep [] ys h = ground arith
partition-append sep (x ∷ xs) ys h =
    rw (partition-append sep xs ys (ground (arith, h))) (ground (arith, h))

-- The pieces up to the first separator and behind it.
pub split_on-append :
    (sep : ℕ) (xs ys : Text)
    → all (λ c. not (c == sep)) xs ≡ true
    → split_on sep (xs ++ sep ∷ ys) ≡ xs ∷ split_on sep ys
unfolding split_on
split_on-append sep [] ys h = ground arith
split_on-append sep (x ∷ xs) ys h =
    rw (split_on-append sep xs ys (ground (arith, h))) (ground (arith, h))

pub split_on_whole :
    (sep : ℕ) (xs : Text) → all (λ c. not (c == sep)) xs ≡ true → split_on sep xs ≡ xs ∷ []
unfolding split_on
split_on_whole sep [] h = refl
split_on_whole sep (x ∷ xs) h = rw (split_on_whole sep xs (ground (arith, h))) (ground (arith, h))
