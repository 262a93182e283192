-- ===== src/Engine/Content/Complete.antt =====
-- The search with its memory of failed states misses no chain, and its result for a whole rule.
use nt204_r11_antn_nguyen_th.Base.{
  ℕ, zero, suc, ◌+◌, ◌≤◌, ◌<◌, ◌≡◌, refl, ap, sym, subst, ◌∙◌, inl, inr, true, false, Option, none,
  some, List, [], ◌∷◌, length, drop, arith, All, if◌then◌else◌, Option-cases, Bool-cases, any, ◌&&◌,
  ◌==◌, dec_lt,
}
use nt204_r11_antn_nguyen_th.Models.Rule.{ContentSpec}
use nt204_r11_antn_nguyen_th.Engine.Content.{
  find_in, window, is_relative, absolute_window, Failed, HitPath, Outcome, remember, known, hits,
  search_from, lower_once, match_chain, as_bytes, stop_of,
}
use nt204_r11_antn_nguyen_th.Engine.Content.Find.{Occurs, LoweredOk, find_in-some, find_in-none}
use nt204_r11_antn_nguyen_th.Engine.Content.Chain.{
  HitAt, IsChain, Patterns, Outcome-cases, hits_hit, hits_again, search_sound,
}

-- No chain of the contents starts at this state.
abbrev Dead : List ℕ → List ContentSpec → ℕ → Type 0
Dead bytes cs prev_end = (path : HitPath) → ¬ IsChain bytes cs prev_end path

-- Every state that is remembered as failed is dead.
abbrev AllDead : List ℕ → List ContentSpec → Failed → Type 0
AllDead bytes contents = All (λ s. Dead bytes (drop s.0 contents) s.1)

-- A search keeps the memory right, and is right if it finds nothing.
abbrev Complete : List ℕ → List ContentSpec → List ContentSpec → ℕ → Outcome → Type 0
Complete bytes contents cs prev_end r =
    AllDead bytes contents r.1 × (r.0 ≡ none → Dead bytes cs prev_end)

drop-suc :
    (i : ℕ) (contents : List ContentSpec) (c : ContentSpec) (cs : List ContentSpec)
    → drop i contents ≡ c ∷ cs
    → drop (suc i) contents ≡ cs
drop-suc zero [] c cs h = cc
drop-suc zero (x ∷ xs) c cs h = cc
drop-suc (suc i) [] c cs h = cc
drop-suc (suc i) (x ∷ xs) c cs h = drop-suc i xs c cs h

known-Dead :
    (bytes : List ℕ) (contents : List ContentSpec) (i q : ℕ) (failed : Failed)
    → AllDead bytes contents failed
    → known (i, q) failed ≡ true
    → Dead bytes (drop i contents) q
unfolding known
known-Dead bytes contents i q [] a h = cc
known-Dead bytes contents i q ((j, r) ∷ failed) a h = elim (Bool-cases (i == j && q == r)) [
  | inl e ↦
      let same_number : i ≡ j = ground arith in
      let same_end : q ≡ r = ground arith in rw (same_number, same_end) a.0
  | inr e ↦ known-Dead bytes contents i q failed a.1 (ground arith)
]

window_absolute : (c : ContentSpec) (p : ℕ) → is_relative c ≡ false → window c p ≡ absolute_window c
unfolding window
window_absolute c p h = rw (window, h)

-- A content that is not relative has the same window whatever came before.
forget_prev_end :
    (bytes : List ℕ) (c : ContentSpec) (cs : List ContentSpec) (p q : ℕ)
    → is_relative c ≡ false
    → Dead bytes (c ∷ cs) p
    → Dead bytes (c ∷ cs) q
forget_prev_end bytes c cs p q h dead [] chain = chain
forget_prev_end bytes c cs p q h dead ((pos, len) ∷ path) chain =
    let same = window_absolute c q h ∙ sym (window_absolute c p h) in
    dead ((pos, len) ∷ path)
      (subst (λ w. Occurs bytes c.pattern c.nocase w.0 w.1 pos) same chain.0, chain.1, chain.2)

-- The end that a state remembers stands for every end from which the content is searched alike.
abbrev state_end : ContentSpec → ℕ → ℕ
state_end c prev_end = if is_relative c then prev_end else 0

to_state :
    (bytes : List ℕ) (c : ContentSpec) (cs : List ContentSpec) (p : ℕ)
    → (Dead bytes (c ∷ cs) p → Dead bytes (c ∷ cs) (state_end c p))
      × (Dead bytes (c ∷ cs) (state_end c p) → Dead bytes (c ∷ cs) p)
to_state bytes c cs p = elim (Bool-cases (is_relative c)) [
  | inl e ↦ rw e (λ d. d, λ d. d)
  | inr e ↦ rw e (forget_prev_end bytes c cs p 0 e, forget_prev_end bytes c cs 0 p e)
]

-- Without a hit that leads to a chain there is no chain.
Dead-cons :
    (bytes : List ℕ) (c : ContentSpec) (cs : List ContentSpec) (prev_end : ℕ)
    → ((pos : ℕ) → HitAt bytes c prev_end pos → Dead bytes cs (pos + length c.pattern))
    → Dead bytes (c ∷ cs) prev_end
Dead-cons bytes c cs prev_end none_leads [] chain = chain
Dead-cons bytes c cs prev_end none_leads ((pos, len) ∷ path) chain =
    none_leads pos chain.0 path (subst (λ n. IsChain bytes cs (pos + n) path) chain.1 chain.2)

stop_of-le : (bytes : List ℕ) (end : Option ℕ) → stop_of bytes end ≤ length bytes
stop_of-le bytes none = omega arith
stop_of-le bytes (some e) = omega arith

-- The loop keeps the memory right, and finds nothing only if no hit leads to a chain.
abbrev Exhausted :
    List ℕ → List ContentSpec → List ContentSpec → ContentSpec → Option ℕ → ℕ → Outcome → Type 0
Exhausted bytes contents cs spec end start r =
    AllDead bytes contents r.1
    × (r.0 ≡ none
        → (pos : ℕ) → Occurs bytes spec.pattern spec.nocase start end pos
        → Dead bytes cs (pos + length spec.pattern))

module _ (bytes : List ℕ) (lowered : Option (List ℕ)) (ok : LoweredOk bytes lowered)
    (contents : List ContentSpec) where
  -- The loop over the hits of one content, given that the search of the rest is complete.
  hits-Complete :
      (cs : List ContentSpec) (next : ℕ → Failed → Outcome) (spec : ContentSpec) (end : Option ℕ)
      (fuel start : ℕ) (failed : Failed)
      → ((q : ℕ) (f : Failed) → AllDead bytes contents f → Complete bytes contents cs q (next q f))
      → 0 < length spec.pattern
      → length bytes < fuel + start
      → AllDead bytes contents failed
      → Exhausted bytes contents cs spec end start
          (hits bytes lowered next spec end fuel start failed)
  unfolding hits
  hits-Complete cs next spec end zero start failed right ne enough dead =
      (dead, λ e pos o. absurd (omega (arith, o.from, o.upto, stop_of-le bytes end)))
  hits-Complete cs next spec end (suc fuel) start failed right ne enough dead =
      elim (Option-cases (find_in bytes spec.pattern spec.nocase start end lowered)) [
        | inl e ↦
            rw (hits, e)
              (
                dead,
                λ z pos o.
                    absurd
                      (find_in-none bytes spec.pattern spec.nocase start end lowered ok ne e pos o),
              )
        | inr (pos, e) ↦
            let len = length spec.pattern in
            let (occurs, first) =
              find_in-some bytes spec.pattern spec.nocase start end lowered ok ne pos e in
            let tried = right (pos + len) failed dead in
            elim (Outcome-cases (next (pos + len) failed)) [
              | inl (rest, f, r) ↦
                  subst (Exhausted bytes contents cs spec end start)
                    (sym (hits_hit bytes lowered next spec end fuel start failed pos e rest f r))
                    (subst (λ o. AllDead bytes contents o.1) r tried.0, λ z. cc)
              | inr (f, r) ↦
                  let ih =
                    hits-Complete cs next spec end fuel (pos + 1) f right ne
                      (omega (arith, occurs.from))
                      (subst (λ o. AllDead bytes contents o.1) r tried.0) in
                  subst (Exhausted bytes contents cs spec end start)
                    (sym (hits_again bytes lowered next spec end fuel start failed pos e f r))
                    (
                      ih.0,
                      λ z q o. elim (dec_lt q pos) [
                        | yes before ↦ absurd (first q before o)
                        | no after ↦ elim (dec_lt pos q) [
                          | yes later ↦
                              ih.1 z q (record { from = omega arith; upto = o.upto; here = o.here })
                          | no here ↦
                              let same : pos ≡ q = omega arith in
                              subst (λ x. Dead bytes cs (x + len)) same (tried.1 (ap (λ o. o.0) r))
                        ]
                      ],
                    )
            ]
      ]

  -- `search` is complete from every state, if its memory is right.
  search-Complete :
      (cs : List ContentSpec) (i prev_end : ℕ) (failed : Failed)
      → Patterns cs
      → drop i contents ≡ cs
      → AllDead bytes contents failed
      → Complete bytes contents cs prev_end (search_from bytes lowered cs i prev_end failed)
  unfolding search_from remember
  search-Complete [] i prev_end failed ne at dead = (dead, λ e. cc)
  search-Complete (c ∷ cs) i prev_end failed ne at dead =
      let next = search_from bytes lowered cs (suc i) in
      let state : ℕ × ℕ = (i, state_end c prev_end) in
      let (start, end) = window c prev_end in
      let looped = hits bytes lowered next c end (suc (length bytes)) start failed in
      let (forth, back) = to_state bytes c cs prev_end in
      elim (Bool-cases (known state failed)) [
        | inl e ↦ rw e (
          dead,
          λ z. back (
              subst (λ l. Dead bytes l (state_end c prev_end)) at
                (known-Dead bytes contents i (state_end c prev_end) failed dead e)),
        )
        | inr e ↦
            let after =
              hits-Complete cs next c end (suc (length bytes)) start failed
                (λ q f d. search-Complete cs (suc i) q f ne.1 (drop-suc i contents c cs at) d) ne.0
                (omega arith) dead in
            rw e (elim (Outcome-cases looped) [
              | inl (path, f, r) ↦
                  subst (λ o. Complete bytes contents (c ∷ cs) prev_end (remember state o)) (sym r)
                    (subst (λ o. AllDead bytes contents o.1) r after.0, λ z. cc)
              | inr (f, r) ↦
                  let gone = Dead-cons bytes c cs prev_end (after.1 (ap (λ o. o.0) r)) in
                  subst (λ o. Complete bytes contents (c ∷ cs) prev_end (remember state o)) (sym r)
                    (
                      (
                        subst (λ l. Dead bytes l (state_end c prev_end)) (sym at) (forth gone),
                        subst (λ o. AllDead bytes contents o.1) r after.0,
                      ),
                      λ z. gone,
                    )
            ])
      ]

lower_once-LoweredOk :
    (bytes : List ℕ) (contents : List ContentSpec) (lowered : Option (List ℕ))
    → LoweredOk bytes lowered
    → LoweredOk bytes (lower_once bytes contents lowered)
unfolding lower_once
lower_once-LoweredOk bytes contents none ok = elim (Bool-cases (any (λ c. c.nocase) contents)) [
  | inl e ↦ rw e refl
  | inr e ↦ rw e tt
]
lower_once-LoweredOk bytes contents (some l) ok = ok

-- What `match_chain` returns for a payload that is not empty, and for contents none of which has an
-- empty pattern, is a chain: one occurrence of each content, each in the window that the one before
-- it leaves. A lower-cased payload that is passed along has to be that of the payload.
pub match_chain_sound :
    (b : ℕ) (bs : List ℕ) (contents : List ContentSpec) (lowered : Option (List ℕ)) (path : HitPath)
    → LoweredOk (b ∷ bs) lowered
    → Patterns contents
    → match_chain (some (b ∷ bs)) contents lowered ≡ some path
    → IsChain (b ∷ bs) contents 0 path
unfolding match_chain as_bytes
match_chain_sound b bs [] lowered [] ok ne h = tt
match_chain_sound b bs [] lowered (x ∷ path) ok ne h = ground arith
match_chain_sound b bs (c ∷ cs) lowered path ok ne h =
    search_sound (b ∷ bs) _ (lower_once-LoweredOk (b ∷ bs) (c ∷ cs) lowered ok) (c ∷ cs) 0 0 [] path
      ne h

-- `match_chain` returns nothing for a payload that is not empty only if the contents, none of which
-- has an empty pattern, have no chain in it at all, however its memory of failed states cut the
-- search short. A lower-cased payload that is passed along has to be that of the payload.
pub match_chain_complete :
    (b : ℕ) (bs : List ℕ) (contents : List ContentSpec) (lowered : Option (List ℕ))
    → LoweredOk (b ∷ bs) lowered
    → Patterns contents
    → match_chain (some (b ∷ bs)) contents lowered ≡ none
    → (path : HitPath) → ¬ IsChain (b ∷ bs) contents 0 path
unfolding match_chain as_bytes
match_chain_complete b bs [] lowered ok ne h = cc
match_chain_complete b bs (c ∷ cs) lowered ok ne h =
    (search-Complete (b ∷ bs) _ (lower_once-LoweredOk (b ∷ bs) (c ∷ cs) lowered ok) (c ∷ cs)
        (c ∷ cs) 0 0 [] ne refl tt).1
      h
