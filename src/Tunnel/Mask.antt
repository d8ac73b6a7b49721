-- ===== src/Tunnel/Mask.antt =====
-- python/heuristics/artificial_filters.py. What a missing key or a failed `int` raises is `none`.
use mc_bot_egent_practice.Prelude.{
  String, Bool, true, false, not, ◌&&◌, ◌||◌, Option, none, some, List, [], ◌∷◌, ◌==◌, str_eq,
  if◌then◌else◌, ◌>>=◌,
}
use mc_bot_egent_practice.Prelude.Int.{ℤ, pos, negsuc}
use mc_bot_egent_practice.Python.{Value, Fields, dict, text, end, field, int, truth, get}
use mc_bot_egent_practice.Tunnel.Geometry.{Position}

abbrev pub natural_blocks : List String
natural_blocks =
    "minecraft:stone" ∷ "minecraft:diorite" ∷ "minecraft:andesite" ∷ "minecraft:granite"
    ∷ "minecraft:tuff" ∷ "minecraft:deepslate" ∷ "minecraft:cobbled_deepslate" ∷ "minecraft:dirt"
    ∷ "minecraft:coarse_dirt" ∷ "minecraft:gravel" ∷ "minecraft:sand" ∷ "minecraft:red_sand"
    ∷ "minecraft:sandstone" ∷ "minecraft:red_sandstone" ∷ "minecraft:clay" ∷ "minecraft:coal_ore"
    ∷ "minecraft:iron_ore" ∷ "minecraft:copper_ore" ∷ "minecraft:lapis_ore" ∷ "minecraft:gold_ore"
    ∷ "minecraft:redstone_ore" ∷ "minecraft:diamond_ore" ∷ "minecraft:emerald_ore"
    ∷ "minecraft:nether_quartz_ore" ∷ "minecraft:nether_gold_ore" ∷ "minecraft:ancient_debris"
    ∷ "minecraft:oak_log" ∷ "minecraft:birch_log" ∷ "minecraft:spruce_log"
    ∷ "minecraft:dark_oak_log" ∷ "minecraft:jungle_log" ∷ "minecraft:acacia_log"
    ∷ "minecraft:oak_leaves" ∷ "minecraft:birch_leaves" ∷ "minecraft:spruce_leaves"
    ∷ "minecraft:jungle_leaves" ∷ "minecraft:acacia_leaves" ∷ "minecraft:dark_oak_leaves" ∷ []

unfoldable pub is_member : String → List String → Bool
is_member s [] = false
is_member s (t ∷ ts) = str_eq t s || is_member s ts

unfoldable pub is_natural : String → Bool
unfolding is_member
is_natural block_id = is_member block_id natural_blocks

-- is_natural(str(value)): `str` of what is no text is no block's name
unfoldable pub names_natural : Value → Bool
names_natural (text block_id) = is_natural block_id
names_natural _ = false

-- (int(pos["x"]), int(pos["y"]), int(pos["z"]))
unfoldable pub key_of : Value → Option Position
key_of (dict p) = do
  x ← int (get "x" p)
  y ← int (get "y" p)
  z ← int (get "z" p)
  some (record { x = x; y = y; z = z })
key_of _ = none

abbrev pub int_eq : ℤ → ℤ → Bool
int_eq (pos a) (pos b) = a == b
int_eq (negsuc a) (negsuc b) = a == b
int_eq _ _ = false

unfoldable pub position_eq : Position → Position → Bool
position_eq p q = int_eq p.x q.x && int_eq p.y q.y && int_eq p.z q.z

-- fields.get(key, True)
unfoldable pub get_or_true : String → Fields → Bool
get_or_true k end = true
get_or_true k (field j v fs) = if str_eq j k then truth v else get_or_true k fs

abbrev pub CpMap : Type 0
CpMap = List (Position × Bool)

-- `cp_map`, the last result first: a later result at one position replaces an earlier one
unfoldable pub cp_map : CpMap → List Fields → Option CpMap
cp_map m [] = some m
cp_map m (result ∷ rest) = elim (key_of (get "pos" result)) [
  | none ↦ none
  | some key ↦ cp_map ((key, get_or_true "is_player_placed" result) ∷ m) rest
]

-- cp_map.get(key, True)
unfoldable pub player_placed : CpMap → Position → Bool
unfolding position_eq
player_placed [] key = true
player_placed ((k, b) ∷ m) key = if position_eq k key then b else player_placed m key

unfoldable pub is_safe : CpMap → Position → Fields → Bool
unfolding player_placed
is_safe m key evaluation =
    truth (get "in_job_region" evaluation)
    && not (truth (get "is_liquid" evaluation))
    && not (truth (get "near_functional" evaluation))
    && not (player_placed m key)
    && names_natural (get "block_id" evaluation)

unfoldable pub mask_from : CpMap → List Fields → Option (List Bool)
mask_from m [] = some []
mask_from m (evaluation ∷ rest) = do
  key ← key_of (get "pos" evaluation)
  mask ← mask_from m rest
  some (is_safe m key evaluation ∷ mask)

unfoldable pub build_mining_mask : List Fields → List Fields → Option (List Bool)
build_mining_mask evaluations cp_results = do m ← cp_map [] cp_results; mask_from m evaluations
