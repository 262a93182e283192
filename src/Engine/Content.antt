-- ===== src/Engine/Content.antt =====
-- src/engine/content_matcher.py: the search for the contents of a rule in a payload. A position is
-- an `Option`, with `none` for the -1 of the source; start positions are numbers, since no caller
-- passes a negative one.
pub mod Find
pub mod Chain
pub mod Complete
use nt204_r11_antn_nguyen_th.Base.{
  ℕ, zero, suc, ◌+◌, ◌-◌, min, Bool, true, false, ◌&&◌, ◌||◌, Option, none, some, List, [], ◌∷◌,
  length, drop, any, ltb, leb, ◌==◌, if◌then◌else◌, Text, codes, lower, ℤ, add_clamped,
}
use nt204_r11_antn_nguyen_th.Models.Rule.{ContentSpec, Rule}
use nt204_r11_antn_nguyen_th.Models.Event.{IdsEvent}

-- `_as_bytes`: an empty payload is none.
unfoldable pub as_bytes : Option (List ℕ) → Option (List ℕ)
as_bytes none = none
as_bytes (some []) = none
as_bytes (some (b ∷ bs)) = some (b ∷ bs)

unfoldable pub starts_with : List ℕ → List ℕ → Bool
starts_with [] xs = true
starts_with (p ∷ ps) [] = false
starts_with (p ∷ ps) (x ∷ xs) = p == x && starts_with ps xs

abbrev pub occurs_at : List ℕ → List ℕ → ℕ → Bool
occurs_at bytes pattern i = starts_with pattern (drop i bytes)

-- The first of `count` positions from `i` on at which the pattern stands.
unfoldable pub scan : List ℕ → List ℕ → ℕ → ℕ → Option ℕ
scan bytes pattern zero i = none
scan bytes pattern (suc count) i =
    let rest = scan bytes pattern count (suc i) in
    if occurs_at bytes pattern i then some i else rest

-- `bytes.find(pattern, start, stop)`
unfoldable pub bytes_find : List ℕ → List ℕ → ℕ → ℕ → Option ℕ
unfolding scan
bytes_find bytes pattern start stop = scan bytes pattern (suc stop - (start + length pattern)) start

-- `lowered`, if it was passed and has the right length, else `data.lower()`
unfoldable pub lowered_or : List ℕ → Option (List ℕ) → List ℕ
lowered_or bytes none = lower bytes
lowered_or bytes (some l) = if length l == length bytes then l else lower bytes

abbrev pub stop_of : List ℕ → Option ℕ → ℕ
stop_of bytes none = length bytes
stop_of bytes (some e) = min e (length bytes)

unfoldable pub find_in : List ℕ → List ℕ → Bool → ℕ → Option ℕ → Option (List ℕ) → Option ℕ
find_in bytes pattern nocase start end lowered =
    let stop = stop_of bytes end in
    if length pattern == 0 || leb stop start || ltb (stop - start) (length pattern)
    then none
    else (if nocase
        then bytes_find (lowered_or bytes lowered) (lower pattern) start stop
        else bytes_find bytes pattern start stop)

unfoldable pub find : Option (List ℕ) → List ℕ → Bool → ℕ → Option ℕ → Option (List ℕ) → Option ℕ
find payload pattern nocase start end lowered = elim (as_bytes payload) [
  | none ↦ none
  | some bytes ↦ find_in bytes pattern nocase start end lowered
]

abbrev pub is_some {ℓ} : {A : Type ℓ} → Option A → Bool
is_some none = false
is_some (some a) = true

unfoldable pub is_relative : ContentSpec → Bool
is_relative spec = is_some spec.distance || is_some spec.within

abbrev pub or_zero : Option ℕ → ℕ
or_zero none = 0
or_zero (some n) = n

abbrev pub end_after : ℕ → Option ℕ → Option ℕ
end_after start none = none
end_after start (some size) = some (start + size)

unfoldable pub absolute_window : ContentSpec → ℕ × Option ℕ
absolute_window spec = let start = or_zero spec.offset in (start, end_after start spec.depth)

unfoldable pub find_absolute : Option (List ℕ) → ContentSpec → Option (List ℕ) → Option ℕ
find_absolute payload spec lowered =
    let (start, end) = absolute_window spec in
    find payload spec.pattern spec.nocase start end lowered

shift : ℕ → Option ℤ → ℕ
shift n none = n
shift n (some d) = add_clamped n d

unfoldable pub relative_window : ContentSpec → ℕ → ℕ × Option ℕ
unfolding shift
relative_window spec prev_end =
    let start = shift prev_end spec.distance in (start, end_after start spec.within)

unfoldable pub window : ContentSpec → ℕ → ℕ × Option ℕ
window spec prev_end =
    if is_relative spec then relative_window spec prev_end else absolute_window spec

-- The states (content number, previous end) from which the search is known to fail.
abbrev pub Failed : Type 0
Failed = List (ℕ × ℕ)

-- The pairs (position, length) of one match of each content from here on.
abbrev pub HitPath : Type 0
HitPath = List (ℕ × ℕ)

abbrev pub Outcome : Type 0
Outcome = Option HitPath × Failed

unfoldable pub known : ℕ × ℕ → Failed → Bool
known s [] = false
known (i, q) ((j, r) ∷ failed) = i == j && q == r || known (i, q) failed

-- `path.append(hit)`, then `path.pop()` and the next round if the rest of the chain fails.
unfoldable pub try_hit : ℕ × ℕ → Outcome → (Failed → Outcome) → Outcome
try_hit hit (some path, failed) again = (some (hit ∷ path), failed)
try_hit hit (none, failed) again = again failed

unfoldable pub remember : ℕ × ℕ → Outcome → Outcome
remember state (some path, failed) = (some path, failed)
remember state (none, failed) = (none, state ∷ failed)

module _ (bytes : List ℕ) (lowered : Option (List ℕ)) where
  -- `while True` of `search`, for the content `spec`; `next` is `search(i + 1, ...)`. The start grows
  -- with each round, so the length of the payload is fuel enough.
  unfoldable pub hits : (ℕ → Failed → Outcome) → ContentSpec → Option ℕ → ℕ → ℕ → Failed → Outcome
  hits next spec end zero start failed = (none, failed)
  hits next spec end (suc fuel) start failed =
      elim (find_in bytes spec.pattern spec.nocase start end lowered) [
        | none ↦ (none, failed)
        | some pos ↦
            try_hit (pos, length spec.pattern) (next (pos + length spec.pattern) failed)
              (λ failed'. hits next spec end fuel (pos + 1) failed')
      ]

  -- `search(i, prev_end)`, where the list holds the contents from number `i` on.
  unfoldable pub search_from : List ContentSpec → ℕ → ℕ → Failed → Outcome
  search_from [] i prev_end failed = (some [], failed)
  search_from (spec ∷ rest) i prev_end failed =
      let state : ℕ × ℕ = (i, if is_relative spec then prev_end else 0) in
      let (start, end) = window spec prev_end in
      let found =
        remember state
          (hits (search_from rest (suc i)) spec end (suc (length bytes)) start failed) in
      if known state failed then (none, failed) else found

unfoldable pub lower_once : List ℕ → List ContentSpec → Option (List ℕ) → Option (List ℕ)
lower_once bytes contents none = if any (λ c. c.nocase) contents then some (lower bytes) else none
lower_once bytes contents (some l) = some l

unfoldable pub match_chain : Option (List ℕ) → List ContentSpec → Option (List ℕ) → Option HitPath
match_chain payload [] lowered = some []
match_chain payload (c ∷ cs) lowered = elim (as_bytes payload) [
  | none ↦ none
  | some bytes ↦ (search_from bytes (lower_once bytes (c ∷ cs) lowered) (c ∷ cs) 0 0 []).0
]

-- An element of `Detection.matched`.
pub data Match : Type 0 where
  header : Match
  content : Text → ℕ → ℕ → Match

unfoldable pub report : List ContentSpec → HitPath → List Match
report (c ∷ cs) ((pos, len) ∷ path) = content c.raw pos len ∷ report cs path
report _ _ = []

unfoldable pub match_contents : Rule → Option (List ℕ) → Option (List ℕ) → Option (List Match)
match_contents rule payload lowered = elim (match_chain payload rule.contents lowered) [
  | none ↦ none
  | some chain ↦ some (report rule.contents chain)
]

unfoldable pub content_fn : Rule → IdsEvent → Option (List Match)
content_fn rule event = match_contents rule event.payload none
