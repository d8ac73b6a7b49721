-- ===== src/Python/Show.antt =====
-- Texts: `str` of integers, `+`, `in` and `startswith`.
use Prim.Native.Char.{code}
use Prim.Native.String.{[], ◌∷◌, ◌++◌ as append_text}
use mc_bot_egent_practice.Prelude.{
  ℕ, zero, suc, ◌/◌, ◌%◌, String, Bool, true, false, ◌&&◌, ◌||◌, List, ltb, ◌==◌, if◌then◌else◌,
}
use mc_bot_egent_practice.Prelude.Int.{ℤ, pos, negsuc}

abbrev pub append : String → String → String
append s t = append_text s t

abbrev digit : ℕ → String
digit d =
    if d == 0
    then "0"
    else if d == 1
    then "1"
    else if d == 2
    then "2"
    else if d == 3
    then "3"
    else if d == 4
    then "4"
    else if d == 5
    then "5"
    else if d == 6
    then "6"
    else if d == 7
    then "7"
    else if d == 8
    then "8"
    else "9"

-- The fuel is the number itself and one more, which is more than its digits.
show_from : ℕ → ℕ → String
show_from zero n = ""
show_from (suc fuel) n = elim (ltb n 10) [
  | true ↦ digit n
  | false ↦ append (show_from fuel (n / 10)) (digit (n % 10))
]

-- str(n)
unfoldable pub show_ℕ : ℕ → String
unfolding show_from
show_ℕ n = show_from (suc n) n

unfoldable pub show_ℤ : ℤ → String
unfolding show_ℕ
show_ℤ (pos n) = show_ℕ n
show_ℤ (negsuc n) = append "-" (show_ℕ (suc n))

-- text.startswith(prefix)
unfoldable pub starts_with : String → String → Bool
starts_with [] text = true
starts_with (c ∷ prefix) [] = false
starts_with (c ∷ prefix) (d ∷ text) = code c == code d && starts_with prefix text

-- part in text
unfoldable pub is_in : String → String → Bool
unfolding starts_with
is_in part [] = starts_with part []
is_in part (c ∷ text) = starts_with part (c ∷ text) || is_in part text

-- any(keyword and keyword in text for keyword in keywords)
unfoldable pub any_in : List String → String → Bool
unfolding is_in
any_in List.[] text = false
any_in (List.◌∷◌ keyword keywords) text = is_in keyword text || any_in keywords text
