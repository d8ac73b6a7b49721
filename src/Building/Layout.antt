-- ===== src/Building/Layout.antt =====
-- `_as_coords_tuple`, `_normalize_layout` and `plan_block_placement`.
use mc_bot_egent_practice.Prelude.{
  ℕ, ◌+◌, ◌-◌, Option, none, some, List, [], ◌∷◌, min, max, length, take, drop, ◌>>=◌,
}
use mc_bot_egent_practice.Prelude.Int.{ℤ, pos_part}
use mc_bot_egent_practice.Python.{Value, list, dict, task, text, nil, cons, PlacementTask, int, get}

abbrev pub Coords : Type 0
Coords = ℤ × ℤ × ℤ

unfoldable pub ints : Value → Value → Value → Option Coords
ints a b c = do x ← int a; y ← int b; z ← int c; some (x, y, z)

unfoldable pub as_coords_tuple : Value → Option Coords
unfolding ints
as_coords_tuple (task t) = some (t.x, t.y, t.z)
as_coords_tuple (list (cons a (cons b (cons c nil)))) = ints a b c
as_coords_tuple (dict fs) = ints (get "x" fs) (get "y" fs) (get "z" fs)
as_coords_tuple _ = none

-- The loop's body from `if not isinstance(block, str)` on.
unfoldable pub placement_of : Value → Value → Option PlacementTask
unfolding as_coords_tuple
placement_of (text block) coords = do
  (x, y, z) ← as_coords_tuple coords
  some (record { block = block; x = x; y = y; z = z })
placement_of _ coords = none

-- The loop's body: a task, a mapping, or what unpacks into a block and its coordinates. (A text of
-- two characters unpacks too, and its second half is no coordinates.)
unfoldable pub entry : Value → Option PlacementTask
unfolding placement_of
entry (task t) = some t
entry (dict fs) = placement_of (get "block" fs) (get "coords" fs)
entry (list (cons block (cons coords nil))) = placement_of block coords
entry _ = none

abbrev pub keep {ℓ} : {A : Type ℓ} → Option A → List A → List A
keep none xs = xs
keep (some x) xs = x ∷ xs

unfoldable pub normalize_layout : List Value → List PlacementTask
unfolding entry
normalize_layout [] = []
normalize_layout (v ∷ vs) = keep (entry v) (normalize_layout vs)

-- layout[start:end] and the new count; the layout is one that is already normalized
unfoldable pub plan_normalized : List PlacementTask → ℤ → ℤ → List PlacementTask × ℕ
plan_normalized layout placed_blocks batch_size =
    let start_index = min (pos_part placed_blocks) (length layout) in
    let end_index = min (start_index + max (pos_part batch_size) 1) (length layout) in
    (take (end_index - start_index) (drop start_index layout), end_index)

unfoldable pub plan_block_placement : List Value → ℤ → ℤ → List PlacementTask × ℕ
unfolding normalize_layout plan_normalized
plan_block_placement layout placed_blocks batch_size =
    plan_normalized (normalize_layout layout) placed_blocks batch_size
