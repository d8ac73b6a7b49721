-- ===== src/Building/Rollback.antt =====
-- The checkpoint's way to a dict and back, and `rollback_building_state`.
use mc_bot_egent_practice.Prelude.{
  ◌<◌, inr, inl, ◌⊎◌, ℕ, ◌-◌, ◌≡◌, ◌≢◌, refl, String, Option, none, some, List, [], ◌∷◌, arith,
  eq_iff, if◌then◌else◌, Dict, IsUnique, lookup, insert, lookup-insert, length,
}
use mc_bot_egent_practice.Prelude.Int.{ℤ, pos, pos_part, ltb_ℤ}
use mc_bot_egent_practice.Python.{Value, int, get, PlacementTask}
use mc_bot_egent_practice.Building.Phases.{
  BuildingPhase, survey, procurement, placement, inspection, BuildingCheckpoint, phase_before,
  target_phase, positive_entries, rollback_building_state, phase_value, restored_phase,
  restored_reserve, restore_checkpoint, reserve_fields, checkpoint_to_dict,
}

-- A quantity, if it is positive.
abbrev pub positive : Option ℤ → Option ℤ
positive none = none
positive (some n) = if ltb_ℤ (pos 0) n then some n else none

abbrev or_else : Option ℤ → Option ℤ → Option ℤ
or_else none before = before
or_else (some n) before = some n

lookup-restored_reserve :
    (reserved d : Dict ℤ) (k : String)
    → IsUnique d
    → lookup k (restored_reserve reserved (reserve_fields d))
      ≡ or_else (positive (lookup k d)) (lookup k reserved)
unfolding restored_reserve reserve_fields lookup int
lookup-restored_reserve reserved [] k u = refl
lookup-restored_reserve reserved ((j, n) ∷ d) k u = ground (
  arith,
  lookup-restored_reserve (if ltb_ℤ (pos 0) n then insert j n reserved else reserved) d k u.1,
  lookup-insert j k n reserved,
  eq_iff j k,
)

restored_phase-phase_value : (p : BuildingPhase) → restored_phase (Value.text (phase_value p)) ≡ p
unfolding restored_phase
restored_phase-phase_value survey = refl
restored_phase-phase_value procurement = refl
restored_phase-phase_value placement = refl
restored_phase-phase_value inspection = refl

-- A checkpoint with no name reserved twice, restored from its own dict, has the same phase, the
-- count (a negative one as 0), and the positive reservations; entries that are 0 or negative are
-- dropped.
pub restore_checkpoint-checkpoint_to_dict :
    (c : BuildingCheckpoint)
    → IsUnique c.reserved_materials
    → ((restore_checkpoint (checkpoint_to_dict c)).phase ≡ c.phase)
      × ((restore_checkpoint (checkpoint_to_dict c)).placed_blocks ≡ pos (pos_part c.placed_blocks))
      × ((k : String)
          → lookup k (restore_checkpoint (checkpoint_to_dict c)).reserved_materials
            ≡ positive (lookup k c.reserved_materials))
unfolding restore_checkpoint checkpoint_to_dict get int lookup
restore_checkpoint-checkpoint_to_dict c u = (
  restored_phase-phase_value c.phase,
  refl,
  λ k. ground (arith, lookup-restored_reserve [] c.reserved_materials k u),
)

lookup-positive_entries :
    (d : Dict ℤ) (k : String) → IsUnique d → lookup k (positive_entries d) ≡ positive (lookup k d)
unfolding positive_entries lookup
lookup-positive_entries [] k u = refl
lookup-positive_entries ((j, n) ∷ d) k u =
    ground (arith, lookup-positive_entries d k u.1, eq_iff j k)

-- How many placements are taken back.
abbrev pub attempted_count : Option (List PlacementTask) → ℕ
attempted_count none = 0
attempted_count (some ts) = length ts

-- The place of a phase in the order of the phases, from 0.
abbrev pub rank : BuildingPhase → ℕ
rank survey = 0
rank procurement = 1
rank placement = 2
rank inspection = 3

-- The place to go back to: one before the failed phase, or else before the current one, but never
-- before the first.
abbrev pub rank_before : Option BuildingPhase → BuildingPhase → ℕ
rank_before none current = rank current - 1
rank_before (some failed) current = rank failed - 1

rank-phase_before :
    (failed : Option BuildingPhase) (p : BuildingPhase)
    → rank (phase_before (target_phase failed p)) ≡ rank_before failed p
rank-phase_before none survey = refl
rank-phase_before none procurement = refl
rank-phase_before none placement = refl
rank-phase_before none inspection = refl
rank-phase_before (some survey) p = refl
rank-phase_before (some procurement) p = refl
rank-phase_before (some placement) p = refl
rank-phase_before (some inspection) p = refl

is_survey : (p : BuildingPhase) → ((p ≡ survey) × (rank p ≡ 0)) ⊎ ((p ≢ survey) × (0 < rank p))
is_survey survey = inl (refl, refl)
is_survey procurement = inr (λ e. cc, omega arith)
is_survey placement = inr (λ e. cc, omega arith)
is_survey inspection = inr (λ e. cc, omega arith)

-- For reservations with no name twice: of the phases in their order, SURVEY, PROCUREMENT,
-- PLACEMENT, INSPECTION, a rollback goes to the one before the failed phase, or before the current
-- one when none is named, and stays at the first. If that is the first, nothing is reserved and
-- nothing counts as placed; else the positive reservations are kept, and the attempted placements
-- are taken back from the count, down to 0 (a negative count is read as 0).
pub rollback_building_state_lem :
    (c : BuildingCheckpoint) (failed : Option BuildingPhase)
    (attempted : Option (List PlacementTask))
    → IsUnique c.reserved_materials
    → (rank (rollback_building_state c failed attempted).phase ≡ rank_before failed c.phase)
      × (((rank_before failed c.phase ≡ 0)
            × (rollback_building_state c failed attempted
                ≡ record { phase = survey; reserved_materials = []; placed_blocks = pos 0 }))
          ⊎ ((0 < rank_before failed c.phase)
              × (pos_part (rollback_building_state c failed attempted).placed_blocks
                  ≡ pos_part c.placed_blocks - attempted_count attempted)
              × ((k : String)
                  → lookup k (rollback_building_state c failed attempted).reserved_materials
                    ≡ positive (lookup k c.reserved_materials))))
unfolding rollback_building_state
rollback_building_state_lem c failed attempted u =
    let place = rank-phase_before failed c.phase in
    elim (is_survey (phase_before (target_phase failed c.phase))) [
      | inl (starts, first) ↦
          (ground (arith, place, starts), inl (omega (arith, place, first), ground (arith, starts)))
      | inr (later, above) ↦ (
        ground (arith, place, later),
        inr (
          omega (arith, place, above),
          ground (arith, later),
          λ k. ground (arith, lookup-positive_entries c.reserved_materials k u),
        ),
      )
    ]
