-- ===== src/ActionGraph/State.antt =====
-- The state of the action graph as far as its nodes read it (python/planner/state.py), what the
-- nodes do outside it, and the answers that they get.
use mc_bot_egent_practice.Prelude.{ℕ, String, Bool, true, false, Option, none, some, List}
use mc_bot_egent_practice.Prelude.Traced.{Traced}
use mc_bot_egent_practice.Python.{Value, Fields, null, text}
use mc_bot_egent_practice.Building.{Coords}

-- The part of `SkillMatch` of python/skills/models.py that the graph reads.
pub record SkillMatch : Type 0 where
  pub identifier : String
  pub title : String
  pub description : String
  pub unlocked : Bool

-- `UnifiedPlanState`. The last of the perception history stands for it; the backlog is in the
-- effects, and so is what is written to the memory.
pub record ActionState : Type 0 where
  pub category : String
  pub step : String
  pub last_target_coords : Option Coords
  pub explicit_coords : Option Coords
  pub target_player : Option String
  pub rule_label : String
  pub rule_implemented : Bool
  pub recent_perception : Fields
  pub active_role : String
  pub role_transitioned : Bool
  pub role_transition_reason : Option String
  pub handled : Bool
  pub updated_target : Option Coords
  pub failure_detail : Option Value
  pub module_name : String
  pub skill_candidate : Option SkillMatch
  pub skill_status : String

pub data Effect : Type 0 where
  -- orchestrator.memory.set(key, value)
  kept : String → Value → Effect
  -- state["backlog"].append(item)
  queued : Fields → Effect
  skill_sought : String → String → Effect
  skill_invoked : String → String → Effect
  usage_recorded : String → Bool → Effect
  exploration_begun : String → String → String → Effect
  role_applied : String → Option String → Effect
  said : String → Effect
  followed : String → Effect
  moved : Coords → Effect
  -- MovementService.report_execution_barrier
  barrier_reported : String → String → Effect
  inventory_gathered : Effect
  equipped : Option String → Option String → String → Effect
  mined : List String → ℕ → ℕ → Effect

abbrev pub Act {ℓ} : Type ℓ → Type ℓ
Act A = Traced Effect A

-- What the calls of one run come to; none is an exception. `memory` is what `memory.get` finds, the
-- perception and the role are those at the beginning.
pub record Answers : Type 0 where
  pub memory : Fields
  pub recent_perception : Fields
  pub current_role : String
  pub skill : Option (Option SkillMatch)
  pub skill_response : Option Fields
  pub usage_recorded : Bool
  pub exploration_response : Option Fields
  -- the pending switch of the role with its reason, how it ends, and the role that is current then
  pub pending_role : Option (String × Option String)
  pub role_switched : Option Bool
  pub role_after : String
  pub said : Bool
  pub follow_response : Option Value
  pub move_response : Option Fields
  pub barrier_told : Bool
  pub first_inventory : Option Value
  pub second_inventory : Option Value
  pub equip_response : Option Fields
  pub mine_response : Option Fields

pub record EquipArguments : Type 0 where
  pub tool_type : Option String
  pub item_name : Option String
  pub destination : String

pub record MiningRequest : Type 0 where
  pub targets : List String
  pub scan_radius : ℕ
  pub max_targets : ℕ

-- The classification of texts (action_analyzer.py), the orchestrator's settings, whether a pickaxe
-- lasts (a question on floats), `str` of what is no text, and `str.lower`.
pub record Rules : Type 0 where
  pub extract_coordinates : String → Option Coords
  pub default_move_target : Option Coords
  pub is_source_excluded : String → Bool
  pub is_low_food : Value → Bool
  pub infer_equip_arguments : String → Option EquipArguments
  pub infer_mining_request : String → MiningRequest
  pub is_durable : Fields → Bool
  pub str : Value → String
  pub lower : String → String

-- str(value)
abbrev pub show : Rules → Value → String
show rules (text s) = s
show rules null = "None"
show rules v = rules.str v

-- What a handler returns.
pub record NodeResult : Type 0 where
  pub handled : Bool
  pub updated_target : Option Coords
  pub failure_detail : Option Value

abbrev pub succeeded : Option Coords → NodeResult
succeeded target = record { handled = true; updated_target = target; failure_detail = none }

abbrev pub refused : Option Coords → Value → NodeResult
refused target detail = record {
  handled = false;
  updated_target = target;
  failure_detail = some detail;
}

-- The state after a node that returns a result.
abbrev pub merge : ActionState → NodeResult → ActionState
merge s r = record s {
  handled = r.handled;
  updated_target = r.updated_target;
  failure_detail = r.failure_detail;
}
