-- ===== src/Building/Batches.antt =====
-- The batches of `plan_block_placement` tile the layout.
use mc_bot_egent_practice.Prelude.{
  ℕ, ◌+◌, ◌-◌, ◌≤◌, ◌≡◌, sym, ap, ◌∙◌, List, ◌++◌, min, max, arith, length, take, drop, drop-drop,
  length-take, length-drop, take-append-drop,
}
use mc_bot_egent_practice.Prelude.Int.{ℤ, pos_part}
use mc_bot_egent_practice.Python.{PlacementTask}
use mc_bot_egent_practice.Building.Layout.{plan_normalized}

-- The count from which a call goes on: a negative count is 0, one past the end is the end.
abbrev pub start_of : List PlacementTask → ℤ → ℕ
start_of layout placed = min (pos_part placed) (length layout)

tile :
    (s e : ℕ) (layout : List PlacementTask)
    → s ≤ e
    → drop s layout ≡ take (e - s) (drop s layout) ++ drop e layout
tile s e layout h =
    sym (take-append-drop (e - s) (drop s layout))
    ∙ ap (λ rest. take (e - s) (drop s layout) ++ rest)
        (drop-drop s (e - s) layout
          ∙ ap (λ k. drop k layout) {x = s + (e - s)} {y = e} (omega arith))

-- A call's batch is the part of the layout from the clamped count to the new count: it is at most
-- the batch size long (at least 1), and it is not empty unless the layout is exhausted.
pub plan_normalized_lem :
    (layout : List PlacementTask) (placed batch_size : ℤ)
    → (drop (start_of layout placed) layout
        ≡ (plan_normalized layout placed batch_size).0
          ++ drop (plan_normalized layout placed batch_size).1 layout)
      × (length (plan_normalized layout placed batch_size).0 + start_of layout placed
          ≡ (plan_normalized layout placed batch_size).1)
      × ((plan_normalized layout placed batch_size).1 ≤ length layout)
      × (length (plan_normalized layout placed batch_size).0 ≤ max (pos_part batch_size) 1)
      × (min (start_of layout placed + 1) (length layout)
          ≤ (plan_normalized layout placed batch_size).1)
unfolding plan_normalized
plan_normalized_lem layout placed batch_size =
    let s = start_of layout placed in
    let e = min (s + max (pos_part batch_size) 1) (length layout) in
    let measured = length-take (e - s) (drop s layout) in
    let dropped = length-drop s layout in
    (
      tile s e layout (omega arith),
      omega (arith, measured, dropped),
      omega arith,
      omega (arith, measured, dropped),
      omega arith,
    )
