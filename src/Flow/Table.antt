-- ===== src/Flow/Table.antt =====
-- src/flow/flow_table.py: `FlowTable`, an `OrderedDict` as an association list with the entry that
-- was touched longest ago in front. The functions are generic in the keys and the entries.
pub mod Laws
pub mod Entries
use nt204_r11_antn_nguyen_th.Base.{
  ℕ, suc, ◌+◌, ◌≤◌, ◌≡◌, refl, ap, ◌≢◌, ite, if_pos, if_neg, Bool, true, false, Option, none, some,
  List, [], ◌∷◌, ◌++◌, arith, if◌then◌else◌,
}

module _ {ℓ} {K V : Type ℓ} (dec : Discrete K) where
  -- `self._table.get(key)`
  unfoldable pub get : K → List (K × V) → Option V
  get k [] = none
  get k ((j, v) ∷ t) = ite (dec j k) (some v) (get k t)

  -- `key in self._table`
  unfoldable pub contains : K → List (K × V) → Bool
  contains k [] = false
  contains k ((j, v) ∷ t) = ite (dec j k) true (contains k t)

  -- `self._table[key] = entry`: a known key keeps its place.
  unfoldable pub set_item : K → V → List (K × V) → List (K × V)
  set_item k v [] = (k, v) ∷ []
  set_item k v ((j, w) ∷ t) = ite (dec j k) ((j, v) ∷ t) ((j, w) ∷ set_item k v t)

  -- The table without the key.
  unfoldable pub erase : K → List (K × V) → List (K × V)
  erase k [] = []
  erase k ((j, v) ∷ t) = ite (dec j k) t ((j, v) ∷ erase k t)

  -- `self._table.move_to_end(key)`; both callers have just stored or found the key.
  unfoldable pub move_to_end : K → List (K × V) → List (K × V)
  move_to_end k t = elim (get k t) [ none ↦ t | some v ↦ erase k t ++ (k, v) ∷ [] ]

  unfoldable pub add : K → V → List (K × V) → List (K × V)
  unfolding move_to_end
  add k v t = move_to_end k (set_item k v t)

  unfoldable pub touch : K → List (K × V) → List (K × V)
  unfolding move_to_end
  touch k t = if contains k t then move_to_end k t else t

  -- `self._table.pop(key, None)`
  unfoldable pub remove : K → List (K × V) → Option V × List (K × V)
  remove k t = (get k t, erase k t)

module _ {ℓ} {K V : Type ℓ} where
  unfoldable pub oldest : List (K × V) → Option (K × V)
  oldest [] = none
  oldest (e ∷ t) = some e
