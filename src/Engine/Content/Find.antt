-- ===== src/Engine/Content/Find.antt =====
-- `find` against a description of where a pattern stands in a payload.
use nt204_r11_antn_nguyen_th.Base.{
  ℕ, zero, suc, ◌+◌, ◌-◌, ◌≤◌, ◌<◌, ◌≡◌, refl, ap, sym, ◌∙◌, dec_le, inl, inr, Bool, true, false,
  Option, none, some, List, [], ◌∷◌, length, arith, lower, if◌then◌else◌, Bool-cases, ℕ_discrete,
}
use nt204_r11_antn_nguyen_th.Engine.Content.{
  occurs_at, scan, bytes_find, lowered_or, stop_of, find_in,
}

-- What a comparison looks at: the bytes, in lower case under `nocase`.
abbrev pub folded : Bool → List ℕ → List ℕ
folded nocase bytes = if nocase then lower bytes else bytes

-- The pattern stands at `pos`, completely inside the window from `start` up to `end`.
pub record Occurs (bytes pattern : List ℕ) (nocase : Bool) (start : ℕ) (end : Option ℕ) (pos : ℕ)
    : Type 0 where
  pub from : start ≤ pos
  pub upto : pos + length pattern ≤ stop_of bytes end
  pub here : occurs_at (folded nocase bytes) (folded nocase pattern) pos ≡ true

-- The lower-cased payload that callers may pass.
abbrev pub LoweredOk : List ℕ → Option (List ℕ) → Type 0
LoweredOk bytes none = Unit
LoweredOk bytes (some l) = l ≡ lower bytes

differ : {b : Bool} → b ≡ false → b ≡ true → ⊥
differ e h = cc

scan-some :
    (bytes pattern : List ℕ) (n i p : ℕ)
    → scan bytes pattern n i ≡ some p
    → (i ≤ p) × (p < i + n) × (occurs_at bytes pattern p ≡ true)
unfolding scan
scan-some bytes pattern zero i p h = cc
scan-some bytes pattern (suc n) i p h = ground (arith, scan-some bytes pattern n (suc i) p)

scan_first :
    (bytes pattern : List ℕ) (n i p q : ℕ)
    → scan bytes pattern n i ≡ some p
    → i ≤ q
    → q < p
    → occurs_at bytes pattern q ≡ false
unfolding scan
scan_first bytes pattern zero i p q h a b = cc
scan_first bytes pattern (suc n) i p q h a b = elim (Bool-cases (occurs_at bytes pattern i)) [
  | inl e ↦ absurd (ground arith)
  | inr e ↦ elim (ℕ_discrete i q) [
    | yes same ↦ rw (← same) e
    | no other ↦ scan_first bytes pattern n (suc i) p q (ground arith) (omega arith) b
  ]
]

scan-none :
    (bytes pattern : List ℕ) (n i q : ℕ)
    → scan bytes pattern n i ≡ none
    → i ≤ q
    → q < i + n
    → occurs_at bytes pattern q ≡ false
unfolding scan
scan-none bytes pattern zero i q h a b = absurd (omega arith)
scan-none bytes pattern (suc n) i q h a b = elim (ℕ_discrete i q) [
  | yes same ↦ rw (← same) (ground arith)
  | no other ↦ scan-none bytes pattern n (suc i) q (ground arith) (omega arith) (omega arith)
]

length-lower : (xs : List ℕ) → length (lower xs) ≡ length xs
length-lower [] = refl
length-lower (x ∷ xs) = ap suc (length-lower xs)

lowered_or-lower :
    (bytes : List ℕ) (lowered : Option (List ℕ))
    → LoweredOk bytes lowered
    → lowered_or bytes lowered ≡ lower bytes
unfolding lowered_or
lowered_or-lower bytes none ok = refl
lowered_or-lower bytes (some l) ok = ground arith

-- The search of `find`, written on what a comparison looks at.
find_in-folded :
    (bytes pattern : List ℕ) (nocase : Bool) (start : ℕ) (end : Option ℕ)
    (lowered : Option (List ℕ))
    → LoweredOk bytes lowered
    → 0 < length pattern
    → start + length pattern ≤ stop_of bytes end
    → find_in bytes pattern nocase start end lowered
      ≡ scan
          (folded nocase bytes)
          (folded nocase pattern)
          (suc (stop_of bytes end) - (start + length pattern))
          start
unfolding find_in bytes_find
find_in-folded bytes pattern true start end lowered ok pos fits =
    ground (arith, lowered_or-lower bytes lowered, length-lower pattern)
find_in-folded bytes pattern false start end lowered ok pos fits = ground arith

find_in_small :
    (bytes pattern : List ℕ) (nocase : Bool) (start : ℕ) (end : Option ℕ)
    (lowered : Option (List ℕ))
    → 0 < length pattern
    → stop_of bytes end < start + length pattern
    → find_in bytes pattern nocase start end lowered ≡ none
unfolding find_in
find_in_small bytes pattern nocase start end lowered pos small = ground arith

module _ (bytes pattern : List ℕ) (nocase : Bool) (start : ℕ) (end : Option ℕ)
    (lowered : Option (List ℕ)) (ok : LoweredOk bytes lowered) (pos : 0 < length pattern) where
  -- For a pattern that is not empty, and with no other lower-cased payload than that of the
  -- payload, `find` returns the first place where the pattern occurs in its window.
  pub find_in-some :
      (p : ℕ)
      → find_in bytes pattern nocase start end lowered ≡ some p
      → Occurs bytes pattern nocase start end p
        × ((q : ℕ) → q < p → ¬ Occurs bytes pattern nocase start end q)
  find_in-some p h = elim (dec_le (start + length pattern) (stop_of bytes end)) [
    | no small ↦ absurd (ground (arith, find_in_small bytes pattern nocase start end lowered))
    | yes fits ↦
        let found = sym (find_in-folded bytes pattern nocase start end lowered ok pos fits) ∙ h in
        let (from, below, here) = scan-some _ _ _ start p found in
        (
          record { from = from; upto = omega arith; here = here },
          λ q lt o. differ (scan_first _ _ _ start p q found o.from lt) o.here,
        )
  ]

  -- For a pattern that is not empty, and with no other lower-cased payload than that of the
  -- payload, `find` returns nothing only if the pattern occurs nowhere in its window.
  pub find_in-none :
      find_in bytes pattern nocase start end lowered ≡ none
      → (q : ℕ) → ¬ Occurs bytes pattern nocase start end q
  find_in-none h q o = elim (dec_le (start + length pattern) (stop_of bytes end)) [
    | no small ↦ small (omega (arith, o.from, o.upto))
    | yes fits ↦
        let found = sym (find_in-folded bytes pattern nocase start end lowered ok pos fits) ∙ h in
        differ (scan-none _ _ _ start q found o.from (omega (arith, o.upto))) o.here
  ]
