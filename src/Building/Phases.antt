-- ===== src/Building/Phases.antt =====
-- The checkpoint, `transition_phase`, `advance_building_state`, `rollback_building_state` and the
-- checkpoint's way to a dict and back.
use mc_bot_egent_practice.Prelude.{
  insert, str_eq, String, ℕ, Bool, true, false, not, ◌&&◌, Option, none, some, List, [], ◌∷◌, ltb,
  leb, if◌then◌else◌, ◌>>=◌, Dict, length, is_empty,
}
use mc_bot_egent_practice.Prelude.Int.{ℤ, pos, pos_part, ltb_ℤ, ◌-ℤ◌}
use mc_bot_egent_practice.Python.{
  integer, end, field, get, int, text, dict, Fields, Value, PlacementTask,
}
use mc_bot_egent_practice.Building.Layout.{normalize_layout, plan_normalized}
use mc_bot_egent_practice.Building.Materials.{
  plan_material_procurement, synchronize_reserved_materials,
}

pub data BuildingPhase : Type 0 where
  survey procurement placement inspection : BuildingPhase

pub record BuildingCheckpoint : Type 0 where
  pub phase : BuildingPhase
  pub reserved_materials : Dict ℤ
  pub placed_blocks : ℤ

abbrev pub fresh : BuildingCheckpoint
fresh = record { phase = survey; reserved_materials = []; placed_blocks = pos 0 }

abbrev pub after_placing : BuildingPhase → Bool → BuildingPhase
after_placing _ true = inspection
after_placing inspection false = inspection
after_placing _ false = survey

unfoldable pub transition_phase :
    BuildingPhase → Dict ℕ → List PlacementTask → ℕ → ℕ → BuildingPhase
transition_phase current_phase procurement_plan placement_plan total_blocks placed_blocks =
    if not (is_empty procurement_plan)
    then procurement
    else if not (is_empty placement_plan)
    then placement
    else after_placing current_phase (ltb 0 total_blocks && leb total_blocks placed_blocks)

abbrev pub is_inspection : BuildingPhase → Bool
is_inspection inspection = true
is_inspection _ = false

-- The count of the new checkpoint.
abbrev pub placed_after : ℤ → List PlacementTask → ℕ → BuildingPhase → ℕ → ℤ
placed_after placed placement_plan updated_count next_phase total =
    if not (is_empty placement_plan)
    then pos updated_count
    else if is_inspection next_phase
    then pos total
    else placed

unfoldable pub advance_building_state :
    BuildingCheckpoint
    → Dict Value
    → Dict Value
    → List Value
    → ℤ
    → Option (BuildingCheckpoint × Dict ℕ × List PlacementTask)
unfolding transition_phase
advance_building_state checkpoint requirements inventory layout batch_size = do
  let normalized_layout = normalize_layout layout
  procurement_plan ← plan_material_procurement requirements inventory checkpoint.reserved_materials
  let placing = plan_normalized normalized_layout checkpoint.placed_blocks batch_size
  let next_phase =
      transition_phase checkpoint.phase procurement_plan placing.0 (length normalized_layout)
        placing.1
  synchronized ← synchronize_reserved_materials requirements inventory checkpoint.reserved_materials
  let updated : BuildingCheckpoint = record {
    phase = next_phase;
    reserved_materials = synchronized;
    placed_blocks =
        placed_after checkpoint.placed_blocks placing.0 placing.1 next_phase
          (length normalized_layout);
  }
  some (updated, procurement_plan, placing.0)

-- `_PHASE_SEQUENCE[max(0, _PHASE_SEQUENCE.index(phase) - 1)]`
abbrev pub phase_before : BuildingPhase → BuildingPhase
phase_before survey = survey
phase_before procurement = survey
phase_before placement = procurement
phase_before inspection = placement

unfoldable pub positive_entries : Dict ℤ → Dict ℤ
positive_entries [] = []
positive_entries ((k, n) ∷ d) =
    let rest = positive_entries d in if ltb_ℤ (pos 0) n then (k, n) ∷ rest else rest

-- `failed_phase or checkpoint.phase`: every member of the enumeration is true
abbrev pub target_phase : Option BuildingPhase → BuildingPhase → BuildingPhase
target_phase none phase = phase
target_phase (some failed) phase = failed

-- `placements_attempted` is none, or a list
abbrev pub placements_reverted : Option (List PlacementTask) → ℤ → ℤ
unfolding ◌-ℤ◌
placements_reverted none placed = placed
placements_reverted (some []) placed = placed
placements_reverted (some (t ∷ ts)) placed = pos (pos_part (placed -ℤ pos (length (t ∷ ts))))

abbrev pub rolled_back : BuildingPhase → Dict ℤ → ℤ → BuildingCheckpoint
rolled_back survey reserved placed = fresh
rolled_back phase reserved placed = record {
  phase = phase;
  reserved_materials = reserved;
  placed_blocks = placed;
}

unfoldable pub rollback_building_state :
    BuildingCheckpoint → Option BuildingPhase → Option (List PlacementTask) → BuildingCheckpoint
unfolding positive_entries ◌-ℤ◌
rollback_building_state checkpoint failed_phase placements_attempted =
    rolled_back (phase_before (target_phase failed_phase checkpoint.phase))
      (positive_entries checkpoint.reserved_materials)
      (placements_reverted placements_attempted checkpoint.placed_blocks)

-- BuildingPhase(text); `none` is ValueError
unfoldable pub phase_of_text : String → Option BuildingPhase
phase_of_text s =
    if str_eq s "survey"
    then some survey
    else if str_eq s "procurement"
    then some procurement
    else if str_eq s "placement"
    then some placement
    else if str_eq s "inspection"
    then some inspection
    else none

abbrev pub phase_value : BuildingPhase → String
phase_value survey = "survey"
phase_value procurement = "procurement"
phase_value placement = "placement"
phase_value inspection = "inspection"

-- `BuildingPhase(str(phase_value))`, or SURVEY: `str` of what is no text names no phase
unfoldable pub restored_phase : Value → BuildingPhase
unfolding phase_of_text
restored_phase (text s) = elim (phase_of_text s) [ none ↦ survey | some phase ↦ phase ]
restored_phase _ = survey

unfoldable pub restored_reserve : Dict ℤ → Fields → Dict ℤ
restored_reserve reserved end = reserved
restored_reserve reserved (field key value rest) =
    restored_reserve
      (elim (int value) [
        | none ↦ reserved
        | some quantity ↦ if ltb_ℤ (pos 0) quantity then insert key quantity reserved else reserved
      ])
      rest

unfoldable pub restored_placed : Value → ℤ
restored_placed value = elim (int value) [ none ↦ pos 0 | some n ↦ pos (pos_part n) ]

abbrev pub reserve_of : Value → Dict ℤ
unfolding restored_reserve
reserve_of (dict fs) = restored_reserve [] fs
reserve_of _ = []

unfoldable pub restore_checkpoint : Value → BuildingCheckpoint
unfolding restored_phase restored_reserve restored_placed
restore_checkpoint (dict raw) = record {
  phase = restored_phase (get "phase" raw);
  reserved_materials = reserve_of (get "reserved_materials" raw);
  placed_blocks = restored_placed (get "placed_blocks" raw);
}
restore_checkpoint _ = fresh

unfoldable pub reserve_fields : Dict ℤ → Fields
reserve_fields [] = end
reserve_fields ((k, n) ∷ d) = field k (integer n) (reserve_fields d)

unfoldable pub checkpoint_to_dict : BuildingCheckpoint → Value
unfolding reserve_fields
checkpoint_to_dict c = dict (
    field "phase" (text (phase_value c.phase)) (
      field "reserved_materials" (dict (reserve_fields c.reserved_materials))
        (field "placed_blocks" (integer c.placed_blocks) end)))
