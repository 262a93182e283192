-- ===== src/Engine/Evaluator/Payload.antt =====
-- src/engine/evaluator.py and src/engine/content_matcher.py: what a rule that fires says of the
-- payload, without the search that finds it.
use nt204_r11_antn_nguyen_th.Base.{
  ℕ, ◌<◌, ◌≤◌, ◌≡◌, refl, ◌↔◌, inl, inr, Bool, true, false, ◌&&◌, Option, none, some, List, [], ◌∷◌,
  length, any, arith, Bool-cases, Option-cases,
}
use nt204_r11_antn_nguyen_th.Models.Rule.{Rule, ContentSpec}
use nt204_r11_antn_nguyen_th.Models.Event.{IdsEvent}
use nt204_r11_antn_nguyen_th.Models.EngineTypes.{FlowContext}
use nt204_r11_antn_nguyen_th.Engine.Content.{
  Match, as_bytes, HitPath, match_chain, report, match_contents, window, stop_of,
}
use nt204_r11_antn_nguyen_th.Engine.Content.Find.{LoweredOk}
use nt204_r11_antn_nguyen_th.Engine.Content.Chain.{IsChain, Patterns}
use nt204_r11_antn_nguyen_th.Engine.Content.Complete.{match_chain_sound, match_chain_complete}
use nt204_r11_antn_nguyen_th.Engine.Matcher.{returned, match_header, match_flow, match_packet}
use nt204_r11_antn_nguyen_th.Engine.Matcher.Stages.{content_holds}
use nt204_r11_antn_nguyen_th.Engine.Evaluator.{content_fn_for, lowered_for}
use nt204_r11_antn_nguyen_th.Engine.Evaluator.Results.{fires}

-- The bytes of the payload, none if there is no payload.
abbrev pub bytes_of : Option (List ℕ) → List ℕ
bytes_of none = []
bytes_of (some bytes) = bytes

-- Some chain of occurrences of the contents in the bytes.
abbrev pub HasChain : List ℕ → List ContentSpec → Type 0
HasChain bytes cs = (path : HitPath) × IsChain bytes cs 0 path

differ : false ≡ true → ⊥
differ h = cc

abbrev pub reported : List ContentSpec → Option HitPath → Option (List Match)
reported cs none = none
reported cs (some chain) = some (report cs chain)

pub match_contents-eq :
    (rule : Rule) (payload lowered : Option (List ℕ))
    → match_contents rule payload lowered
      ≡ reported rule.contents (match_chain payload rule.contents lowered)
unfolding match_contents
match_contents-eq rule payload lowered =
    elim (Option-cases (match_chain payload rule.contents lowered)) [
      | inl e ↦ rw (match_contents, e) refl
      | inr (chain, e) ↦ rw (match_contents, e) refl
    ]

pub lowered_for-LoweredOk :
    (rule : Rule) (bytes : List ℕ) → LoweredOk bytes (lowered_for rule (some bytes))
unfolding lowered_for
lowered_for-LoweredOk rule bytes = elim (Bool-cases (any (λ c. c.nocase) rule.contents)) [
  | inl e ↦ rw (e) refl
  | inr e ↦ rw (e) tt
]

chain_holds :
    (bytes : List ℕ) (cs : List ContentSpec) (path : HitPath)
    → IsChain bytes cs 0 path
    → content_holds cs (returned (some (report cs path))) ≡ true
unfolding report
chain_holds bytes [] path h = refl
chain_holds bytes (c ∷ cs) [] h = absurd h
chain_holds bytes (c ∷ cs) ((pos, len) ∷ path) h = refl

stop_empty : (end : Option ℕ) → stop_of [] end ≤ 0
stop_empty none = omega arith
stop_empty (some e) = omega arith

nothing_fits :
    (c : ContentSpec) (cs : List ContentSpec) (path : HitPath)
    → 0 < length c.pattern
    → ¬ IsChain [] (c ∷ cs) 0 path
nothing_fits c cs [] ne h = h
nothing_fits c cs ((pos, len) ∷ path) ne h = omega (arith, h.0.upto, stop_empty (window c 0).1, ne)

-- By what `match_chain` returns for a payload that is not empty.
full-HasChain :
    (b : ℕ) (bs : List ℕ) (cs : List ContentSpec) (lowered : Option (List ℕ))
    → LoweredOk (b ∷ bs) lowered
    → Patterns cs
    → (content_holds cs (returned (reported cs (match_chain (some (b ∷ bs)) cs lowered))) ≡ true)
      ↔ HasChain (b ∷ bs) cs
full-HasChain b bs [] lowered ok ne = (λ h. ([], tt), λ h. refl)
full-HasChain b bs (c ∷ cs) lowered ok ne =
    elim (Option-cases (match_chain (some (b ∷ bs)) (c ∷ cs) lowered)) [
      | inl e ↦ rw (e) (
        λ h. absurd (differ h),
        λ (path, h). absurd (match_chain_complete b bs (c ∷ cs) lowered ok ne e path h),
      )
      | inr (chain, e) ↦
          let sound = match_chain_sound b bs (c ∷ cs) lowered chain ok ne e in
          rw (e) (λ h. (chain, sound), λ h. chain_holds (b ∷ bs) (c ∷ cs) chain sound)
    ]

pub match_chain_empty :
    (payload : Option (List ℕ)) (c : ContentSpec) (cs : List ContentSpec)
    (lowered : Option (List ℕ))
    → as_bytes payload ≡ none
    → match_chain payload (c ∷ cs) lowered ≡ none
unfolding match_chain
match_chain_empty payload c cs lowered e = rw (match_chain, e) refl

empty-HasChain :
    (payload : Option (List ℕ)) (cs : List ContentSpec) (lowered : Option (List ℕ))
    → as_bytes payload ≡ none
    → Patterns cs
    → (content_holds cs (returned (reported cs (match_chain payload cs lowered))) ≡ true)
      ↔ HasChain [] cs
unfolding match_chain
empty-HasChain payload [] lowered e ne = (λ h. ([], tt), λ h. refl)
empty-HasChain payload (c ∷ cs) lowered e ne =
    rw (match_chain_empty payload c cs lowered e)
      (λ h. absurd (differ h), λ (path, h). absurd (nothing_fits c cs path ne.0 h))

payload-HasChain :
    (payload : Option (List ℕ)) (rule : Rule)
    → Patterns rule.contents
    → (content_holds rule.contents
          (returned (match_contents rule payload (lowered_for rule payload)))
        ≡ true)
      ↔ HasChain (bytes_of payload) rule.contents
unfolding as_bytes
payload-HasChain none rule ne =
    rw (match_contents-eq rule none (lowered_for rule none))
      (empty-HasChain none rule.contents (lowered_for rule none) refl ne)
payload-HasChain (some []) rule ne =
    rw (match_contents-eq rule (some []) (lowered_for rule (some [])))
      (empty-HasChain (some []) rule.contents (lowered_for rule (some [])) refl ne)
payload-HasChain (some (b ∷ bs)) rule ne =
    rw (match_contents-eq rule (some (b ∷ bs)) (lowered_for rule (some (b ∷ bs)))) (
      full-HasChain b bs rule.contents (lowered_for rule (some (b ∷ bs)))
        (lowered_for-LoweredOk rule (b ∷ bs)) ne)

and_iff :
    (a b c d : Bool)
    → ((a && b && c && d) ≡ true) ↔ ((a ≡ true) × (b ≡ true) × (c ≡ true) × (d ≡ true))
and_iff a b c d = (λ h. ground arith, λ h. ground arith)

-- A rule whose patterns are not empty fires exactly if its header, flow and packet stages pass and
-- its contents have a chain in the payload: one occurrence of each content, in order, each in the
-- window that the one before it leaves. Without contents the empty chain will do.
pub fires_iff :
    (e : IdsEvent) (ctx : Option FlowContext) (rule : Rule)
    → Patterns rule.contents
    → (fires e ctx rule ≡ true) ↔ (
        (match_header rule e ≡ true)
        × (match_flow rule ctx ≡ true)
        × (match_packet rule e ≡ true)
        × HasChain (bytes_of e.payload) rule.contents)
unfolding fires content_fn_for
fires_iff e ctx rule ne =
    let chain = payload-HasChain e.payload rule ne in
    let stages = and_iff (match_header rule e) (match_flow rule ctx) (match_packet rule e) _ in
    (
      λ h. let (a, b, c, d) = stages.0 h in (a, b, c, chain.0 d),
      λ (a, b, c, d). stages.1 (a, b, c, chain.1 d),
    )
