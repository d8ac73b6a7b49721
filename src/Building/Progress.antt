-- ===== src/Building/Progress.antt =====
-- What a call of `advance_building_state` does, and where repeated calls lead.
use mc_bot_egent_practice.Prelude.{
  ℕ, zero, suc, ◌+◌, ◌≤◌, ◌<◌, ◌≡◌, ◌≢◌, ◌⊎◌, inl, inr, refl, Option, some, List, [], ◌++◌, arith,
  ◌>>=◌, Dict, IsUnique, length, drop, drop_all,
}
use native.Mathlib.Decide.{dec_lt}
use mc_bot_egent_practice.Prelude.Int.{ℤ, pos, pos_part}
use mc_bot_egent_practice.Python.{Value, PlacementTask}
use mc_bot_egent_practice.Building.Layout.{normalize_layout, plan_normalized}
use mc_bot_egent_practice.Building.Materials.{
  plan_material_procurement, synchronize_reserved_materials,
}
use mc_bot_egent_practice.Building.Phases.{
  procurement, inspection, BuildingCheckpoint, transition_phase, advance_building_state,
  placed_after,
}
use mc_bot_egent_practice.Building.Shortage.{IsNumeric}
use mc_bot_egent_practice.Building.Reservation.{
  reservation_holds, synchronized, synchronize_reserved_materials_lem,
}
use mc_bot_egent_practice.Building.Batches.{start_of, plan_normalized_lem}

module _ (requirements : Dict Value) (layout : List Value) (batch_size : ℤ) where
  -- One call, from the plan and the reservation that it computes.
  advance_lem :
      (c : BuildingCheckpoint) (inventory : Dict Value) (plan : Dict ℕ) (kept : Dict ℤ)
      → plan_material_procurement requirements inventory c.reserved_materials ≡ some plan
      → synchronize_reserved_materials requirements inventory c.reserved_materials ≡ some kept
      → let total = length (normalize_layout layout) in
        let placing = plan_normalized (normalize_layout layout) c.placed_blocks batch_size in
        let next = transition_phase c.phase plan placing.0 total placing.1 in
        advance_building_state c requirements inventory layout batch_size
        ≡ some (
          record {
            phase = next;
            reserved_materials = kept;
            placed_blocks = placed_after c.placed_blocks placing.0 placing.1 next total;
          },
          plan,
          placing.0,
        )
  unfolding advance_building_state
  advance_lem c inventory plan kept p q = rw p (rw q refl)

  -- With a numeric stock and where a name is short, the phase is PROCUREMENT, and a batch is handed
  -- out and counted as placed all the same, unless the layout is exhausted.
  pub shortage_still_places :
      (c : BuildingCheckpoint) (inventory : Dict Value) {plan : Dict ℕ}
      → IsNumeric inventory
      → plan_material_procurement requirements inventory c.reserved_materials ≡ some plan
      → plan ≢ []
      → start_of (normalize_layout layout) c.placed_blocks < length (normalize_layout layout)
      → (c' : BuildingCheckpoint) × (batch : List PlacementTask) × (advance_building_state c
            requirements inventory layout batch_size
          ≡ some (c', plan, batch))
        × (c'.phase ≡ procurement)
        × (pos_part c'.placed_blocks
            ≡ start_of (normalize_layout layout) c.placed_blocks + length batch)
        × (0 < length batch)
  unfolding transition_phase
  shortage_still_places c inventory {plan} h p short room =
      let placing = plan_normalized (normalize_layout layout) c.placed_blocks batch_size in
      let facts = plan_normalized_lem (normalize_layout layout) c.placed_blocks batch_size in
      let kept = synchronized inventory c.reserved_materials [] requirements in
      let synced =
        synchronize_reserved_materials_lem requirements inventory c.reserved_materials h in
      (
        _,
        placing.0,
        advance_lem c inventory plan kept p synced,
        ground arith,
        ground (arith, facts.1, facts.4),
        omega (arith, facts.1, facts.4),
      )

  -- Repeated calls at one stock, each from the checkpoint that the last one left, with all that
  -- they hand out.
  pub job : ℕ → Dict Value → BuildingCheckpoint → Option (BuildingCheckpoint × List PlacementTask)
  job zero inventory c = some (c, [])
  job (suc n) inventory c = do
    (c', plan, batch) ← advance_building_state c requirements inventory layout batch_size
    (last, later) ← job n inventory c'
    some (last, batch ++ later)

  abbrev pub IsDone : BuildingCheckpoint → Type 0
  IsDone c = (c.phase ≡ inspection) × (c.placed_blocks ≡ pos (length (normalize_layout layout)))

  -- A call where no name is short.
  supplied :
      (c : BuildingCheckpoint) (inventory : Dict Value)
      → IsNumeric inventory
      → IsUnique requirements
      → plan_material_procurement requirements inventory c.reserved_materials ≡ some []
      → let total = length (normalize_layout layout) in
        let placing = plan_normalized (normalize_layout layout) c.placed_blocks batch_size in
        (c' : BuildingCheckpoint) × (advance_building_state c requirements inventory layout
            batch_size
          ≡ some (c', [], placing.0))
        × (plan_material_procurement requirements inventory c'.reserved_materials ≡ some [])
        × (start_of (normalize_layout layout) c.placed_blocks < total
            → c'.placed_blocks ≡ pos placing.1)
        × (0 < total → total ≤ start_of (normalize_layout layout) c.placed_blocks → IsDone c')
  unfolding transition_phase
  supplied c inventory h u e =
      let placing = plan_normalized (normalize_layout layout) c.placed_blocks batch_size in
      let facts = plan_normalized_lem (normalize_layout layout) c.placed_blocks batch_size in
      let (kept, synced, holds) =
        reservation_holds requirements inventory inventory c.reserved_materials h h u e in
      (
        _,
        advance_lem c inventory [] kept e synced,
        holds,
        λ room. ground (arith, facts.1, facts.4),
        λ some_work full. ground (arith, facts.1, facts.2),
      )

  -- Enough calls are left: none once the job is done.
  abbrev pub IsEnough : ℕ → BuildingCheckpoint → Type 0
  IsEnough n c =
      IsDone c
      ⊎ (length (normalize_layout layout) < start_of (normalize_layout layout) c.placed_blocks + n)

  -- One call leaves enough, and the next goes on where it ended.
  IsEnough-left :
      (n : ℕ) (c c' : BuildingCheckpoint)
      → 0 < length (normalize_layout layout)
      → (start_of (normalize_layout layout) c.placed_blocks < length (normalize_layout layout)
          → c'.placed_blocks
            ≡ pos (plan_normalized (normalize_layout layout) c.placed_blocks batch_size).1)
      → (length (normalize_layout layout) ≤ start_of (normalize_layout layout) c.placed_blocks
          → IsDone c')
      → IsEnough (suc n) c
      → IsEnough n c'
        × (start_of (normalize_layout layout) c'.placed_blocks
            ≡ (plan_normalized (normalize_layout layout) c.placed_blocks batch_size).1)
  IsEnough-left n c c' some_work going finished enough =
      let facts = plan_normalized_lem (normalize_layout layout) c.placed_blocks batch_size in
      let total = length (normalize_layout layout) in
      let start = start_of (normalize_layout layout) c.placed_blocks in
      elim (dec_lt start total) [
        | yes room ↦ (
          inr (ground (arith, going room, facts.4, facts.2, enough)),
          ground (arith, going room, facts.2),
        )
        | no full ↦
            (inl (finished (omega arith)), ground (arith, finished (omega arith), facts.1, facts.2))
      ]

  -- With a numeric stock and no requirement twice, where no name is short and the layout is not
  -- empty, calls at one stock, more of them than
  -- blocks are left, reach INSPECTION with every block counted, and have handed out exactly the
  -- blocks from the starting count on, each once and in order.
  pub job_completes :
      (n : ℕ) (c : BuildingCheckpoint) (inventory : Dict Value)
      → IsNumeric inventory
      → IsUnique requirements
      → 0 < length (normalize_layout layout)
      → plan_material_procurement requirements inventory c.reserved_materials ≡ some []
      → IsEnough n c
      → (last : BuildingCheckpoint) × (job n inventory c
          ≡ some (
            last,
            drop (start_of (normalize_layout layout) c.placed_blocks) (normalize_layout layout),
          ))
        × IsDone last
  unfolding job
  job_completes zero c inventory h u some_work e enough = (
    c,
    ground (
      arith,
      enough,
      drop_all (start_of (normalize_layout layout) c.placed_blocks) (normalize_layout layout),
    ),
    ground (arith, enough),
  )
  job_completes (suc n) c inventory h u some_work e enough =
      let total = length (normalize_layout layout) in
      let placing = plan_normalized (normalize_layout layout) c.placed_blocks batch_size in
      let facts = plan_normalized_lem (normalize_layout layout) c.placed_blocks batch_size in
      let (c', call, e', going, finished) = supplied c inventory h u e in
      let (enough', next) = IsEnough-left n c c' some_work going (finished some_work) enough in
      let (last, calls, done) = job_completes n c' inventory h u some_work e' enough' in
      (last, ground (arith, call, calls, next, facts.0), done)
