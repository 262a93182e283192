-- ===== src/Engine/Content/Chain.antt =====
-- What a match of a rule's contents is, and that every chain that the search returns is one.
use nt204_r11_antn_nguyen_th.Base.{
  ℕ, zero, suc, ◌+◌, ◌≤◌, ◌<◌, ◌≡◌, refl, ap, sym, ◌∙◌, ◌⊎◌, inl, inr, Bool, Option, none, some,
  List, [], ◌∷◌, length, arith, All, if◌then◌else◌, Option-cases, Bool-cases,
}
use nt204_r11_antn_nguyen_th.Models.Rule.{ContentSpec}
use nt204_r11_antn_nguyen_th.Engine.Content.{
  find_in, window, is_relative, Failed, HitPath, Outcome, try_hit, remember, known, hits,
  search_from,
}
use nt204_r11_antn_nguyen_th.Engine.Content.Find.{Occurs, LoweredOk, find_in-some}

-- The content occurs at `pos` in the window that it has after a match that ended at `prev_end`.
abbrev pub HitAt : List ℕ → ContentSpec → ℕ → ℕ → Type 0
HitAt bytes spec prev_end pos =
    Occurs bytes spec.pattern spec.nocase (window spec prev_end).0 (window spec prev_end).1 pos

-- A chain: one hit of each content, in order, each in the window after the hit before it.
abbrev pub IsChain : List ℕ → List ContentSpec → ℕ → HitPath → Type 0
IsChain bytes [] prev_end [] = Unit
IsChain bytes [] prev_end (h ∷ path) = ⊥
IsChain bytes (c ∷ cs) prev_end [] = ⊥
IsChain bytes (c ∷ cs) prev_end ((pos, len) ∷ path) =
    HitAt bytes c prev_end pos × (len ≡ length c.pattern) × IsChain bytes cs (pos + len) path

-- No pattern is empty, as `ContentSpec.__post_init__` makes sure.
abbrev pub Patterns : List ContentSpec → Type 0
Patterns = All (λ c. 0 < length c.pattern)

pub Outcome-cases :
    (r : Outcome)
    → ((path : HitPath) × (f : Failed) × (r ≡ (some path, f))) ⊎ ((f : Failed) × (r ≡ (none, f)))
Outcome-cases (some path, f) = inl (path, f, refl)
Outcome-cases (none, f) = inr (f, refl)

pub some-eq {ℓ} : {A : Type ℓ} {a b : A} → some a ≡ some b → a ≡ b
some-eq e = cc

pub Occurs-earlier :
    (bytes pattern : List ℕ) (nocase : Bool) (start later : ℕ) (end : Option ℕ) (pos : ℕ)
    → start ≤ later
    → Occurs bytes pattern nocase later end pos
    → Occurs bytes pattern nocase start end pos
Occurs-earlier bytes pattern nocase start later end pos le o = record {
  from = omega (arith, o.from);
  upto = o.upto;
  here = o.here;
}

module _ (bytes : List ℕ) (lowered : Option (List ℕ)) where
  module _ (next : ℕ → Failed → Outcome) (spec : ContentSpec) (end : Option ℕ) (fuel start : ℕ)
      (failed : Failed) (pos : ℕ)
      (found : find_in bytes spec.pattern spec.nocase start end lowered ≡ some pos) where
    -- One round of the loop, by what the rest of the chain returns.
    pub hits_hit :
        (rest : HitPath) (f : Failed)
        → next (pos + length spec.pattern) failed ≡ (some rest, f)
        → hits bytes lowered next spec end (suc fuel) start failed
          ≡ (some ((pos, length spec.pattern) ∷ rest), f)
    unfolding hits try_hit
    hits_hit rest f r = rw (hits, found, r)

    pub hits_again :
        (f : Failed)
        → next (pos + length spec.pattern) failed ≡ (none, f)
        → hits bytes lowered next spec end (suc fuel) start failed
          ≡ hits bytes lowered next spec end fuel (pos + 1) f
    unfolding hits try_hit
    hits_again f r = rw (hits, found, r)

module _ (bytes : List ℕ) (lowered : Option (List ℕ)) (ok : LoweredOk bytes lowered) where
  -- The loop over the hits of one content returns a hit and a chain that `next` returned after it.
  hits_sound :
      (next : ℕ → Failed → Outcome) (spec : ContentSpec) (end : Option ℕ) (fuel start : ℕ)
      (failed : Failed) (path : HitPath)
      → 0 < length spec.pattern
      → (hits bytes lowered next spec end fuel start failed).0 ≡ some path
      → (pos : ℕ) × (rest : HitPath) × (before : Failed) × (path
          ≡ (pos, length spec.pattern) ∷ rest)
        × Occurs bytes spec.pattern spec.nocase start end pos
        × ((next (pos + length spec.pattern) before).0 ≡ some rest)
  unfolding hits
  hits_sound next spec end zero start failed path ne h = cc
  hits_sound next spec end (suc fuel) start failed path ne h =
      elim (Option-cases (find_in bytes spec.pattern spec.nocase start end lowered)) [
        | inl e ↦ absurd (nothing e)
        | inr (pos, e) ↦
            let len = length spec.pattern in
            let (occurs, _) =
              find_in-some bytes spec.pattern spec.nocase start end lowered ok ne pos e in
            elim (Outcome-cases (next (pos + len) failed)) [
              | inl (rest, f, r) ↦ (
                pos,
                rest,
                failed,
                sym (
                    some-eq (
                      sym (
                        ap (λ o. o.0)
                          (hits_hit bytes lowered next spec end fuel start failed pos e rest f r))
                      ∙ h)),
                occurs,
                ap (λ o. o.0) r,
              )
              | inr (f, r) ↦
                  let again =
                    sym (
                      ap (λ o. o.0)
                        (hits_again bytes lowered next spec end fuel start failed pos e f r))
                    ∙ h in
                  let (pos', rest, before, split, later, ended) =
                    hits_sound next spec end fuel (pos + 1) f path ne again in
                  (
                    pos',
                    rest,
                    before,
                    split,
                    Occurs-earlier bytes spec.pattern spec.nocase start (pos + 1) end pos'
                        (omega (arith, occurs.from)) later,
                    ended,
                  )
            ]
      ]
    where
      nothing : find_in bytes spec.pattern spec.nocase start end lowered ≡ none → ⊥
      nothing e = ground arith

  remember_path : (s : ℕ × ℕ) (r : Outcome) → (remember s r).0 ≡ r.0
  unfolding remember
  remember_path s (some path, f) = refl
  remember_path s (none, f) = refl

  -- What `search` returns is a chain of the contents from here on.
  pub search_sound :
      (cs : List ContentSpec) (i prev_end : ℕ) (failed : Failed) (path : HitPath)
      → Patterns cs
      → (search_from bytes lowered cs i prev_end failed).0 ≡ some path
      → IsChain bytes cs prev_end path
  unfolding search_from
  search_sound [] i prev_end failed [] ne h = tt
  search_sound [] i prev_end failed (x ∷ path) ne h = ground arith
  search_sound (c ∷ cs) i prev_end failed path ne h =
      let next = search_from bytes lowered cs (suc i) in
      let state : ℕ × ℕ = (i, if is_relative c then prev_end else 0) in
      let (start, end) = window c prev_end in
      let looped = hits bytes lowered next c end (suc (length bytes)) start failed in
      elim (Bool-cases (known state failed)) [
        | inl e ↦ absurd (ground arith)
        | inr e ↦
            let (pos, rest, before, split, occurs, ended) =
              hits_sound next c end (suc (length bytes)) start failed path ne.0
                (sym (remember_path state looped) ∙ ground arith) in
            rw split (occurs, refl, search_sound cs (suc i) _ before rest ne.1 ended)
      ]
