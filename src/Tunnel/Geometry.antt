-- ===== src/Tunnel/Geometry.antt =====
-- python/modes/tunnel_geometry.py. A `ValueError` is `none`. Sizes and steps are natural numbers:
-- `range` of a negative number is empty, as that of 0.
use mc_bot_egent_practice.Prelude.{
  ℕ, zero, suc, Bool, ◌&&◌, Option, none, some, List, [], ◌∷◌, ◌++◌, ◌==◌, if◌then◌else◌, ◌>>=◌,
}
use mc_bot_egent_practice.Prelude.Int.{ℤ, pos, negsuc, ◌+ℤ◌, ◌*ℤ◌}

pub record Position : Type 0 where
  pub x : ℤ
  pub y : ℤ
  pub z : ℤ

-- A direction vector, as a position.
abbrev pub Direction : Type 0
Direction = Position

pub record TunnelSection : Type 0 where
  pub width : ℕ
  pub height : ℕ

abbrev pub is_ℕ : ℕ → ℤ → Bool
is_ℕ n (pos m) = m == n
is_ℕ n (negsuc m) = Bool.false

abbrev pub is_minus_one : ℤ → Bool
is_minus_one (pos m) = Bool.false
is_minus_one (negsuc m) = m == 0

abbrev pub vector : ℤ → ℤ → ℤ → Position
vector x y z = record { x = x; y = y; z = z }

unfoldable pub lateral_vector : Direction → Option Position
lateral_vector d =
    if is_ℕ 1 d.x && is_ℕ 0 d.z
    then some (vector (pos 0) (pos 0) (pos 1))
    else if is_minus_one d.x && is_ℕ 0 d.z
    then some (vector (pos 0) (pos 0) (pos 1))
    else if is_ℕ 1 d.z && is_ℕ 0 d.x
    then some (vector (pos 1) (pos 0) (pos 0))
    else if is_minus_one d.z && is_ℕ 0 d.x
    then some (vector (pos 1) (pos 0) (pos 0))
    else none

unfoldable pub right_vector : Direction → Option Position
right_vector d =
    if is_ℕ 1 d.x && is_ℕ 0 d.z
    then some (vector (pos 0) (pos 0) (negsuc 0))
    else if is_minus_one d.x && is_ℕ 0 d.z
    then some (vector (pos 0) (pos 0) (pos 1))
    else if is_ℕ 1 d.z && is_ℕ 0 d.x
    then some (vector (negsuc 0) (pos 0) (pos 0))
    else if is_minus_one d.z && is_ℕ 0 d.x
    then some (vector (pos 1) (pos 0) (pos 0))
    else none

-- The block of one `yield`; `depth` is `step + offset`.
unfoldable pub block_at : Position → Direction → Position → ℕ → ℕ → ℕ → Position
block_at anchor d lateral depth w h = record {
  x = anchor.x +ℤ d.x *ℤ pos depth +ℤ lateral.x *ℤ pos w;
  y = anchor.y +ℤ pos h +ℤ lateral.y *ℤ pos w;
  z = anchor.z +ℤ d.z *ℤ pos depth +ℤ lateral.z *ℤ pos w;
}

-- `for h in range(height)`, from `h` on
unfoldable pub columns : (ℕ → Position) → ℕ → ℕ → List Position
columns at h zero = []
columns at h (suc n) = at h ∷ columns at (suc h) n

-- `for w in range(width)`, from `w` on
unfoldable pub rows : (ℕ → ℕ → Position) → ℕ → ℕ → ℕ → List Position
unfolding columns
rows at height w zero = []
rows at height w (suc n) = columns (at w) 0 height ++ rows at height (suc w) n

-- `for offset in range(window)`, from the depth on
unfoldable pub slices : Position → Direction → Position → TunnelSection → ℕ → ℕ → List Position
unfolding rows block_at
slices anchor d lateral section depth zero = []
slices anchor d lateral section depth (suc n) =
    rows (block_at anchor d lateral depth) section.height 0 section.width
    ++ slices anchor d lateral section (suc depth) n

unfoldable pub generate_window :
    Position → Direction → TunnelSection → ℕ → ℕ → Option (List Position)
generate_window anchor d section step window =
    if is_ℕ 0 d.y
    then (do lateral ← lateral_vector d; some (slices anchor d lateral section step window))
    else none
