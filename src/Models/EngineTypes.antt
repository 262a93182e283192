-- ===== src/Models/EngineTypes.antt =====
-- src/models/engine_types.py: what the stages of the engine exchange.
use nt204_r11_antn_nguyen_th.Base.{◌≡◌, Bool, true, false, Option, none, some, List, [], ◌∷◌, Text}
use nt204_r11_antn_nguyen_th.Models.Flow.{FlowProtocol, FlowState, Direction}
use nt204_r11_antn_nguyen_th.Models.Rule.{FlowRole, Rule}

pub data Stage : Type 0 where
  header flow packet content : Stage

pub record FlowContext : Type 0 where
  pub flow_id : Text
  pub protocol : FlowProtocol
  pub state : FlowState
  pub role : Option FlowRole
  pub established : Bool
  pub midstream : Bool
  pub direction : Direction

abbrev pub is_udp : FlowProtocol → Bool
is_udp FlowProtocol.udp = true
is_udp FlowProtocol.tcp = false

abbrev pub is_active : FlowState → Bool
is_active FlowState.active = true
is_active _ = false

-- The check of `FlowContext.__post_init__` that the types do not make: UDP goes with ACTIVE.
abbrev pub ContextOk : FlowContext → Type 0
ContextOk c = is_udp c.protocol ≡ is_active c.state

pub record MatchResult {ℓ} (M : Type ℓ) : Type ℓ where
  pub matched : Bool
  pub rule : Rule
  pub failed_stage : Option Stage
  pub matches : List M

result_ok : {M : Type 0} → Bool → Option Stage → List M → Bool
result_ok true none (m ∷ ms) = true
result_ok false (some s) [] = true
result_ok _ _ _ = false

-- The checks of `MatchResult.__post_init__`.
unfoldable pub match_result_ok : {M : Type 0} → MatchResult M → Bool
unfolding result_ok
match_result_ok r = result_ok r.matched r.failed_stage r.matches
