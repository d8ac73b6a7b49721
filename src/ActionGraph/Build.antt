-- ===== src/ActionGraph/Build.antt =====
-- The node `handle_building`: python/runtime/building_plan_processor.py, without its log line.
use mc_bot_egent_practice.Prelude.{ℕ, String, Bool, true, Option, none, some, List, [], ◌∷◌, str_eq}
use mc_bot_egent_practice.Prelude.{Dict}
use mc_bot_egent_practice.Prelude.Int.{pos}
use mc_bot_egent_practice.Prelude.Traced.{pure, raised, ask, done, ◌>>=◌}
use mc_bot_egent_practice.Python.{
  PlacementTask, Value, Items, Fields, nil, cons, text, list, dict, end, field, get, append, show_ℕ,
  show_ℤ,
}
use mc_bot_egent_practice.Building.{
  BuildingCheckpoint, advance_building_state, restore_checkpoint, checkpoint_to_dict, phase_value,
}
use mc_bot_egent_practice.Planning.{join, or_text}
use mc_bot_egent_practice.ActionGraph.State.{
  ActionState, kept, queued, Act, Answers, NodeResult, succeeded,
}
use mc_bot_egent_practice.ActionGraph.Move.{only_if}

abbrev pub field_pairs : Fields → Dict Value
field_pairs end = []
field_pairs (field k v fs) = (k, v) ∷ field_pairs fs

-- value if isinstance(value, dict) else {}
abbrev pub dict_entries : Value → Dict Value
dict_entries (dict fs) = field_pairs fs
dict_entries _ = []

abbrev pub values_of : Items → List Value
values_of nil = []
values_of (cons v vs) = v ∷ values_of vs

-- value if isinstance(value, list) else []
abbrev pub list_values : Value → List Value
list_values (list items) = values_of items
list_values _ = []

abbrev pub procurement_texts : Dict ℕ → List String
procurement_texts [] = []
procurement_texts ((name, amount) ∷ plan) =
    append name (append ":" (show_ℕ amount)) ∷ procurement_texts plan

abbrev pub placement_texts : List PlacementTask → List String
placement_texts [] = []
placement_texts (t ∷ ts) =
    append t.block (
      append "@" (append (show_ℤ t.x) (append "," (append (show_ℤ t.y) (append "," (show_ℤ t.z))))))
    ∷ placement_texts ts

abbrev pub joined : List String → String
joined [] = "なし"
joined (t ∷ ts) = join ", " (t ∷ ts)

abbrev pub building_item : ActionState → BuildingCheckpoint → Dict ℕ → List PlacementTask → Fields
building_item s updated procurement_plan placement_plan = field "category" (text "build") (
    field "step" (text s.step) (
      field "label" (text (or_text s.rule_label "建築作業")) (
        field "module" (text "building") (
          field "phase" (text (phase_value updated.phase)) (
            field "procurement" (text (joined (procurement_texts procurement_plan))) (
              field "placement" (text (joined (placement_texts placement_plan)))
                (field "role" (text s.active_role) end)))))))

-- not isinstance(checkpoint_base_id, str) or not checkpoint_base_id
abbrev pub is_no_id : Value → Bool
is_no_id (text t) = str_eq t ""
is_no_id _ = true

abbrev pub building_advanced : Fields → Option (BuildingCheckpoint × Dict ℕ × List PlacementTask)
building_advanced memory =
    advance_building_state (restore_checkpoint (get "building_checkpoint" memory))
      (dict_entries (get "building_material_requirements" memory))
      (dict_entries (get "inventory_summary" memory)) (list_values (get "building_layout" memory))
      (pos 5)

unfoldable pub building_saved :
    ActionState → Option (BuildingCheckpoint × Dict ℕ × List PlacementTask) → Act NodeResult
building_saved s none = raised
building_saved s (some (updated, procurement_plan, placement_plan)) = do
  _ ← ask (kept "building_checkpoint" (checkpoint_to_dict updated)) (done true)
  _ ← ask (queued (building_item s updated procurement_plan placement_plan)) (done true)
  pure (succeeded s.last_target_coords)

unfoldable pub handle_building : Answers → ActionState → Act NodeResult
unfolding building_saved
handle_building answers s = do
  _ ←
      only_if (is_no_id (get "building_checkpoint_base_id" answers.memory))
        (ask (kept "building_checkpoint_base_id" (text (append "building:" s.step))) (done true))
  building_saved s (building_advanced answers.memory)
