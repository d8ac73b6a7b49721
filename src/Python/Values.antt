-- ===== src/Python/Values.antt =====
-- The values that the program takes apart dynamically.
use mc_bot_egent_practice.Prelude.{
  ◌≡◌, refl, arith, eq_iff, String, Bool, true, false, not, Option, none, some, ◌==◌, str_eq,
  if◌then◌else◌,
}
use mc_bot_egent_practice.Prelude.Int.{ℤ, pos}
use mc_bot_egent_practice.Python.Text.{int_of_text}

-- The frozen dataclass of services/building_service.py.
pub record PlacementTask : Type 0 where
  pub block : String
  pub x : ℤ
  pub y : ℤ
  pub z : ℤ

-- A `float` is given by its integer part and by whether it is 0; infinities and NaN are left out.
mutual
  pub data Value : Type 0 where
    null : Value
    boolean : Bool → Value
    integer : ℤ → Value
    float : ℤ → Bool → Value
    text : String → Value
    list : Items → Value
    dict : Fields → Value
    task : PlacementTask → Value

  pub data Items : Type 0 where
    nil : Items
    cons : Value → Items → Items

  pub data Fields : Type 0 where
    end : Fields
    field : String → Value → Fields → Fields

abbrev is_zero : ℤ → Bool
is_zero (pos n) = n == 0
is_zero _ = false

-- bool(value)
unfoldable pub truth : Value → Bool
truth null = false
truth (boolean b) = b
truth (integer n) = not (is_zero n)
truth (float n zero) = not zero
truth (text s) = not (str_eq s "")
truth (list Items.nil) = false
truth (list _) = true
truth (dict end) = false
truth (dict _) = true
truth (task t) = true

-- int(value); `none` is TypeError or ValueError
unfoldable pub int : Value → Option ℤ
int (boolean true) = some (pos 1)
int (boolean false) = some (pos 0)
int (integer n) = some n
int (float n zero) = some n
int (text s) = int_of_text s
int _ = none

-- fields.get(key)
unfoldable pub get : String → Fields → Value
get k end = null
get k (field j v fs) = if str_eq j k then v else get k fs

-- isinstance(value, dict)
abbrev pub as_dict : Value → Option Fields
as_dict (dict fs) = some fs
as_dict _ = none

-- fields[key] = value
unfoldable pub put : String → Value → Fields → Fields
put k v end = field k v end
put k v (field j w fs) = if str_eq j k then field j v fs else field j w (put k v fs)

-- fields.get(key, default)
unfoldable pub get_or : Value → String → Fields → Value
get_or d k end = d
get_or d k (field j v fs) = if str_eq j k then v else get_or d k fs

pub get-put :
    (k j : String) (v : Value) (fs : Fields)
    → get j (put k v fs) ≡ (if str_eq k j then v else get j fs)
unfolding get put
get-put k j v end = refl
get-put k j v (field i w fs) = ground (arith, eq_iff k j, eq_iff i k, eq_iff i j, get-put k j v fs)
