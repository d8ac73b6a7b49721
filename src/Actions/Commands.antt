-- ===== src/Actions/Commands.antt =====
-- The commands of python/actions/: chat.py, management.py, mining.py, movement.py, building.py and
-- skills.py. Arguments that the source annotates as `int` or `bool` are integers and booleans.
use Prim.Native.Char.{code}
use mc_bot_egent_practice.Prelude.{
  ℕ, ◌+◌, String, Bool, true, false, ◌&&◌, Option, none, some, List, [], ◌∷◌, ◌==◌, leb, str_eq,
  if◌then◌else◌, ◌>>=◌, is_empty,
}
use mc_bot_egent_practice.Prelude.Int.{ℤ, pos, ltb_ℤ}
use mc_bot_egent_practice.Python.{
  Value, Items, Fields, boolean, integer, text, list, dict, nil, cons, end, field, put,
}
use mc_bot_egent_practice.Actions.Dispatch.{Answer, Outcome, invalid, Dispatcher, dispatch}
use mc_bot_egent_practice.Actions.Validate.{
  require_position, require_positions, require_non_empty_text,
}

-- Validation has failed, or the command goes to the dispatcher under its type.
unfoldable pub submit : (ℕ → Answer) → String → Option Fields → Dispatcher → Dispatcher × Outcome
submit answers command none d = (d, invalid)
submit answers command (some args) d =
    dispatch answers command (field "type" (text command) (field "args" (dict args) end)) d

-- `if value: args[key] = value`
abbrev pub put_text : String → Option String → Fields → Fields
put_text key none args = args
put_text key (some value) args = if str_eq value "" then args else put key (text value) args

abbrev pub texts : List String → Items
texts [] = nil
texts (t ∷ ts) = cons (text t) (texts ts)

-- str.lower() as far as the test needs it: no character outside ASCII becomes a letter of it.
abbrev pub lower : ℕ → ℕ
lower c = if leb b'A' c && leb c b'Z' then c + 32 else c

abbrev pub lowers_to : String → String → Bool
lowers_to String.[] String.[] = true
lowers_to (String.◌∷◌ c s) (String.◌∷◌ e t) = lower (code c) == code e && lowers_to s t
lowers_to _ _ = false

unfoldable pub normalized_mode : String → Option String
normalized_mode mode =
    if lowers_to mode "melee"
    then some "melee"
    else if lowers_to mode "ranged"
    then some "ranged"
    else none

module _ (answers : ℕ → Answer) where
  unfoldable pub say : String → Dispatcher → Dispatcher × Outcome
  unfolding submit
  say message =
      submit answers "chat"
        (do t ← require_non_empty_text message; some (field "text" (text t) end))

  unfoldable pub set_role : String → Option String → Dispatcher → Dispatcher × Outcome
  unfolding submit
  set_role role_id reason =
      submit answers "setAgentRole"
        (some (put_text "reason" reason (field "roleId" (text role_id) end)))

  unfoldable pub gather_status : String → Dispatcher → Dispatcher × Outcome
  unfolding submit
  gather_status kind = submit answers "gatherStatus" (some (field "kind" (text kind) end))

  unfoldable pub mine_blocks : List Fields → Dispatcher → Dispatcher × Outcome
  unfolding submit
  mine_blocks positions =
      submit answers "mineBlocks"
        (do ps ← require_positions positions; some (field "positions" (list ps) end))

  unfoldable pub mine_ores : List String → ℤ → ℤ → Dispatcher → Dispatcher × Outcome
  unfolding submit
  mine_ores ore_names scan_radius max_targets = submit answers "mineOre" (
      if is_empty ore_names
      then none
      else some (
          field "ores" (list (texts ore_names)) (
            field "scanRadius" (integer scan_radius)
              (field "maxTargets" (integer max_targets) end))))

  unfoldable pub move_to : Value → Value → Value → Dispatcher → Dispatcher × Outcome
  unfolding submit
  move_to x y z =
      submit answers "moveTo" (require_position (field "x" x (field "y" y (field "z" z end))))

  unfoldable pub follow_player : String → ℤ → Bool → Dispatcher → Dispatcher × Outcome
  unfolding submit
  follow_player target_name stop_distance maintain_line_of_sight = submit answers "followPlayer" (do
    target ← require_non_empty_text target_name
    some (
        field "target" (text target) (
          field "stopDistance" (integer stop_distance)
            (field "maintainLineOfSight" (boolean maintain_line_of_sight) end))))

  unfoldable pub attack_entity : String → String → ℤ → Dispatcher → Dispatcher × Outcome
  unfolding submit
  attack_entity entity_name mode chase_distance = submit answers "attackEntity" (do
    normalized ← normalized_mode mode
    target ← require_non_empty_text entity_name
    some (
        field "target" (text target)
          (field "mode" (text normalized) (field "chaseDistance" (integer chase_distance) end))))

  unfoldable pub place_torch : Fields → Dispatcher → Dispatcher × Outcome
  unfolding submit
  place_torch position = submit answers "placeTorch" (require_position position)

  unfoldable pub equip_item :
      Option String → Option String → String → Dispatcher → Dispatcher × Outcome
  unfolding submit
  equip_item tool_type item_name destination = submit answers "equipItem" (
      some (
        put_text "itemName" item_name
          (put_text "toolType" tool_type (field "destination" (text destination) end))))

  unfoldable pub place_block :
      String → Fields → Option String → Bool → Dispatcher → Dispatcher × Outcome
  unfolding submit
  place_block block position face sneak = submit answers "placeBlock" (do
    named ← require_non_empty_text block
    at ← require_position position
    some (
        put_text "face" face (
          field "block" (text named)
            (field "position" (dict at) (field "sneak" (boolean sneak) end)))))

  unfoldable pub craft_item : String → ℤ → Bool → Dispatcher → Dispatcher × Outcome
  unfolding submit
  craft_item item_name amount use_crafting_table = submit answers "craftItem" (
      if ltb_ℤ (pos 0) amount
      then (do
        item ← require_non_empty_text item_name
        some (
            field "item" (text item) (
              field "amount" (integer amount)
                (field "useCraftingTable" (boolean use_crafting_table) end))))
      else none)

  unfoldable pub register_skill :
      String
      → String
      → String
      → List String
      → Option (List String)
      → Dispatcher
      → Dispatcher × Outcome
  unfolding submit
  register_skill skill_id title description steps tags =
      let args = field "skillId" (text skill_id) (
        field "title" (text title)
          (field "description" (text description) (field "steps" (list (texts steps)) end))) in
      submit answers "registerSkill" (
        some (elim tags [
          | none ↦ args
          | some ts ↦ if is_empty ts then args else put "tags" (list (texts ts)) args
        ]))

  unfoldable pub invoke_skill : String → Option String → Dispatcher → Dispatcher × Outcome
  unfolding submit
  invoke_skill skill_id context =
      submit answers "invokeSkill"
        (some (put_text "context" context (field "skillId" (text skill_id) end)))

  unfoldable pub begin_skill_exploration :
      String → String → String → Dispatcher → Dispatcher × Outcome
  unfolding submit
  begin_skill_exploration skill_id description step_context = submit answers "skillExplore" (
      some (
        field "skillId" (text skill_id)
          (field "description" (text description) (field "context" (text step_context) end))))
