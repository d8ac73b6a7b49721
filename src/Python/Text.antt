-- ===== src/Python/Text.antt =====
-- `str.strip()` and `int(text)`.
use Prim.Native.Char.{Char, code}
use Prim.Native.String.{[], ◌∷◌}
use mc_bot_egent_practice.Prelude.{
  ℕ, ◌+◌, ◌-◌, ◌*◌, ◌≡◌, refl, String, Bool, true, false, ◌&&◌, ◌||◌, Option, none, some, leb, ◌==◌,
  str_eq, if◌then◌else◌,
}
use mc_bot_egent_practice.Prelude.Int.{ℤ, pos, sub_ℕ}

-- `str.isspace` of one character
is_space : ℕ → Bool
is_space c =
    (leb 9 c && leb c 13)
    || (leb 28 c && leb c 32)
    || c == 0x85
    || c == 0xa0
    || c == 0x1680
    || (leb 0x2000 c && leb c 0x200a)
    || c == 0x2028
    || c == 0x2029
    || c == 0x202f
    || c == 0x205f
    || c == 0x3000

lstrip : String → String
unfolding is_space
lstrip [] = []
lstrip (c ∷ s) = if is_space (code c) then lstrip s else c ∷ s

rstrip_before : Char → String → String
unfolding is_space
rstrip_before c [] = if is_space (code c) then [] else c ∷ []
rstrip_before c (d ∷ s) = c ∷ d ∷ s

rstrip : String → String
unfolding rstrip_before
rstrip [] = []
rstrip (c ∷ s) = rstrip_before c (rstrip s)

-- text.strip()
unfoldable pub strip : String → String
unfolding lstrip rstrip
strip s = rstrip (lstrip s)

-- The digits of `int(text)`, one underscore allowed between two of them; `after_digit` says
-- whether a digit stands just before.
digits : ℕ → Bool → String → Option ℕ
digits n after_digit [] = if after_digit then some n else none
digits n after_digit (c ∷ s) =
    if leb b'0' (code c) && leb (code c) b'9'
    then digits (n * 10 + (code c - b'0')) true s
    else if code c == b'_' && after_digit
    then digits n false s
    else none

signed : String → Option ℤ
unfolding digits
signed [] = none
signed (c ∷ s) =
    if code c == b'-'
    then elim (digits 0 false s) [ none ↦ none | some n ↦ some (sub_ℕ 0 n) ]
    else if code c == b'+'
    then elim (digits 0 false s) [ none ↦ none | some n ↦ some (pos n) ]
    else elim (digits 0 false (c ∷ s)) [ none ↦ none | some n ↦ some (pos n) ]

-- int(text); `none` is ValueError. Decimal digits outside ASCII are refused.
unfoldable pub int_of_text : String → Option ℤ
unfolding signed
int_of_text s = signed (strip s)

-- Whether a text is more than white space.
abbrev pub is_blank : String → Bool
is_blank s = str_eq (strip s) ""

strip_sides : strip "  go  " ≡ "go"
unfolding strip
strip_sides = refl

int_of_text_signed : int_of_text " -1_2 " ≡ some (sub_ℕ 0 12)
unfolding int_of_text strip
int_of_text_signed = refl

int_of_text_word : int_of_text "1x" ≡ none
unfolding int_of_text strip
int_of_text_word = refl
