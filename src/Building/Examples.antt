-- ===== src/Building/Examples.antt =====
-- Concrete building jobs: tests of the definitions and instances of the theorems.
use mc_bot_egent_practice.Prelude.{
  ◌⊎◌, min, ℕ, ◌+◌, ◌-◌, ◌≤◌, ◌<◌, ◌≡◌, refl, String, none, some, List, [], ◌∷◌, ◌++◌, inr, arith,
  Dict, lookup, insert, length, drop, max, IsUnique,
}
use mc_bot_egent_practice.Prelude.Int.{ℤ, pos, negsuc, pos_part}
use mc_bot_egent_practice.Python.{
  Value, integer, text, list, cons, nil, PlacementTask, int, int_of_text, strip,
}
use mc_bot_egent_practice.Building.{
  normalize_layout, plan_normalized, plan_material_procurement, synchronize_reserved_materials,
  held, advance_building_state, BuildingCheckpoint, survey, procurement, placement, fresh,
  rollback_building_state, restore_checkpoint, checkpoint_to_dict,
}
use mc_bot_egent_practice.Building.Shortage.{
  IsNumeric, available, missing, planned_at, plan_material_procurement_lem,
}
use mc_bot_egent_practice.Building.Reservation.{reservation_holds, same_stock_counts_twice}
use mc_bot_egent_practice.Building.Batches.{start_of, plan_normalized_lem}
use mc_bot_egent_practice.Building.Progress.{shortage_still_places, job, IsDone, job_completes}
use mc_bot_egent_practice.Building.Rollback.{
  rank_before, rank, positive, attempted_count, restore_checkpoint-checkpoint_to_dict,
  rollback_building_state_lem,
}

abbrev ten_stones : Dict Value
ten_stones = ("stone", integer (pos 10)) ∷ []

abbrev six_stones : Dict Value
six_stones = ("stone", integer (pos 6)) ∷ []

abbrev stone : PlacementTask
stone = record { block = "stone"; x = pos 0; y = pos 64; z = negsuc 3 }

abbrev two_blocks : List Value
two_blocks =
    Value.task stone
    ∷ text "no block"
    ∷ list (
        cons (text "dirt")
          (cons (list (cons (integer (pos 1)) (cons (text "2") (cons (integer (pos 3)) nil)))) nil))
    ∷ []

abbrev two_tasks : List PlacementTask
two_tasks = stone ∷ record { block = "dirt"; x = pos 1; y = pos 2; z = pos 3 } ∷ []

normalize_two_blocks : normalize_layout two_blocks ≡ two_tasks
unfolding normalize_layout int int_of_text strip
normalize_two_blocks = refl

six_missing : plan_material_procurement ten_stones six_stones [] ≡ some (("stone", 4) ∷ [])
unfolding plan_material_procurement int lookup insert
six_missing = refl

six_IsNumeric : IsNumeric six_stones
unfolding int
six_IsNumeric = (refl, tt)

ten_IsUnique : IsUnique ten_stones
unfolding lookup
ten_IsUnique = (refl, tt)

plan_material_procurement_lem_example :
    (plan : Dict ℕ) × (plan_material_procurement ten_stones six_stones [] ≡ some plan)
    × ((name : String)
        → lookup name plan ≡ planned_at (missing six_stones [] name (lookup name ten_stones)) none)
plan_material_procurement_lem_example =
    plan_material_procurement_lem ten_stones six_stones [] six_IsNumeric ten_IsUnique

enough_held : plan_material_procurement ten_stones six_stones (("stone", pos 4) ∷ []) ≡ some []
unfolding plan_material_procurement int lookup
enough_held = refl

reservation_holds_example :
    (kept : Dict ℤ) × (synchronize_reserved_materials ten_stones six_stones (("stone", pos 4) ∷ [])
      ≡ some kept)
    × (plan_material_procurement ten_stones [] kept ≡ some [])
reservation_holds_example =
    reservation_holds ten_stones six_stones [] (("stone", pos 4) ∷ []) six_IsNumeric tt ten_IsUnique
      enough_held

short_by_less :
    (name : String)
    → missing six_stones [] name (lookup name ten_stones) ≤ available six_stones name
unfolding missing available lookup held int
short_by_less name = ground arith

same_stock_counts_twice_example :
    (kept : Dict ℤ) × (synchronize_reserved_materials ten_stones six_stones [] ≡ some kept)
    × (plan_material_procurement ten_stones six_stones kept ≡ some [])
same_stock_counts_twice_example =
    same_stock_counts_twice ten_stones six_stones [] six_IsNumeric ten_IsUnique short_by_less

plan_normalized_lem_example :
    (drop (start_of two_tasks (pos 1)) two_tasks
      ≡ (plan_normalized two_tasks (pos 1) (pos 5)).0
        ++ drop (plan_normalized two_tasks (pos 1) (pos 5)).1 two_tasks)
    × (length (plan_normalized two_tasks (pos 1) (pos 5)).0 + start_of two_tasks (pos 1)
        ≡ (plan_normalized two_tasks (pos 1) (pos 5)).1)
    × ((plan_normalized two_tasks (pos 1) (pos 5)).1 ≤ length two_tasks)
    × (length (plan_normalized two_tasks (pos 1) (pos 5)).0 ≤ max (pos_part (pos 5)) 1)
    × (min (start_of two_tasks (pos 1) + 1) (length two_tasks)
        ≤ (plan_normalized two_tasks (pos 1) (pos 5)).1)
plan_normalized_lem_example = plan_normalized_lem two_tasks (pos 1) (pos 5)

shortage_still_places_example :
    (c' : BuildingCheckpoint) × (batch : List PlacementTask) × (advance_building_state fresh
        ten_stones six_stones two_blocks
        (pos 5)
      ≡ some (c', ("stone", 4) ∷ [], batch))
    × (c'.phase ≡ procurement)
    × (pos_part c'.placed_blocks
        ≡ start_of (normalize_layout two_blocks) fresh.placed_blocks + length batch)
    × (0 < length batch)
unfolding normalize_layout
shortage_still_places_example =
    shortage_still_places ten_stones two_blocks (pos 5) fresh six_stones six_IsNumeric six_missing
      (λ e. cc) (omega arith)

abbrev supplied_job : BuildingCheckpoint
supplied_job = record {
  phase = survey;
  reserved_materials = ("stone", pos 4) ∷ [];
  placed_blocks = pos 0;
}

job_completes_example :
    (last : BuildingCheckpoint) × (job ten_stones two_blocks (pos 1) 3 six_stones supplied_job
      ≡ some (
        last,
        drop (start_of (normalize_layout two_blocks) (pos 0)) (normalize_layout two_blocks),
      ))
    × IsDone ten_stones two_blocks (pos 1) last
unfolding normalize_layout int int_of_text strip
job_completes_example =
    job_completes ten_stones two_blocks (pos 1) 3 supplied_job six_stones six_IsNumeric ten_IsUnique
      (omega arith) enough_held (inr (omega arith))

abbrev half_done : BuildingCheckpoint
half_done = record {
  phase = placement;
  reserved_materials = ("stone", pos 4) ∷ ("dirt", pos 0) ∷ [];
  placed_blocks = pos 7;
}

half_done_IsUnique : IsUnique half_done.reserved_materials
unfolding lookup
half_done_IsUnique = (refl, (refl, tt))

restore_checkpoint-checkpoint_to_dict_example :
    ((restore_checkpoint (checkpoint_to_dict half_done)).phase ≡ placement)
    × ((restore_checkpoint (checkpoint_to_dict half_done)).placed_blocks ≡ pos 7)
    × ((k : String)
        → lookup k (restore_checkpoint (checkpoint_to_dict half_done)).reserved_materials
          ≡ positive (lookup k half_done.reserved_materials))
restore_checkpoint-checkpoint_to_dict_example =
    restore_checkpoint-checkpoint_to_dict half_done half_done_IsUnique

rollback_building_state_lem_example :
    (rank (rollback_building_state half_done none (some two_tasks)).phase
      ≡ rank_before none half_done.phase)
    × (((rank_before none half_done.phase ≡ 0)
          × (rollback_building_state half_done none (some two_tasks)
              ≡ record { phase = survey; reserved_materials = []; placed_blocks = pos 0 }))
        ⊎ ((0 < rank_before none half_done.phase)
            × (pos_part (rollback_building_state half_done none (some two_tasks)).placed_blocks
                ≡ pos_part half_done.placed_blocks - attempted_count (some two_tasks))
            × ((k : String)
                → lookup k
                    (rollback_building_state half_done none (some two_tasks)).reserved_materials
                  ≡ positive (lookup k half_done.reserved_materials))))
rollback_building_state_lem_example =
    rollback_building_state_lem half_done none (some two_tasks) half_done_IsUnique
