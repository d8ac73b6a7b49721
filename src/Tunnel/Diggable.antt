-- ===== src/Tunnel/Diggable.antt =====
-- What the answers of a turn allow to dig: the mask and the hard stop of python/modes/tunnel.py.
use mc_bot_egent_practice.Prelude.{
  Bool-cases, ◌||◌, >>=-eq-some, ◌≡◌, refl, ◌⊎◌, inl, inr, Bool, true, false, not, ◌&&◌, some, List,
  [], ◌∷◌, arith, if◌then◌else◌,
}
use mc_bot_egent_practice.Python.{Fields, truth, get}
use mc_bot_egent_practice.Tunnel.Geometry.{Position}
use mc_bot_egent_practice.Tunnel.Mask.{
  position_eq, CpMap, key_of, player_placed, names_natural, is_safe, mask_from,
}
use mc_bot_egent_practice.Tunnel.Mode.{Settings, is_air, detect_hard_stop, to_mine}

-- The last look-up at the position says that no player placed a block there.
abbrev pub NotPlaced : CpMap → Position → Type 0
NotPlaced [] key = ⊥
NotPlaced ((k, placed) ∷ m) key =
    ((position_eq k key ≡ true) × (placed ≡ false))
    ⊎ ((position_eq k key ≡ false) × NotPlaced m key)

player_placed-NotPlaced :
    (m : CpMap) (key : Position) → player_placed m key ≡ false → NotPlaced m key
unfolding player_placed
player_placed-NotPlaced [] key h = cc
player_placed-NotPlaced ((k, placed) ∷ m) key h = elim (Bool-cases (position_eq k key)) [
  | inl same ↦ inl (same, ground (arith, same, h))
  | inr other ↦ inr (other, player_placed-NotPlaced m key (ground (arith, other, h)))
]

-- The answer about one block allows digging it: it says that the block lies in the job's region, is
-- a natural block, no liquid, no air and not near a functional block; and the last look-up at the
-- position which the answer names says that no player placed a block there.
pub record IsDiggable (m : CpMap) (e : Fields) : Type 0 where
  pub in_region : truth (get "in_job_region" e) ≡ true
  pub not_liquid : truth (get "is_liquid" e) ≡ false
  pub not_functional : truth (get "near_functional" e) ≡ false
  pub not_air : truth (get "is_air" e) ≡ false
  pub natural : names_natural (get "block_id" e) ≡ true
  pub key : Position
  pub located : key_of (get "pos" e) ≡ some key
  pub untouched : NotPlaced m key

abbrev pub InList : Position → List Position → Type 0
InList a [] = ⊥
InList a (b ∷ bs) = (a ≡ b) ⊎ InList a bs

-- The position and the answer stand at one place of the two lists.
abbrev pub PairedWith : Position → Fields → List Position → List Fields → Type 0
PairedWith p e (q ∷ ps) (f ∷ es) = ((p ≡ q) × (e ≡ f)) ⊎ PairedWith p e ps es
PairedWith p e _ _ = ⊥

-- The answer and the look-up stand at one place of the two lists.
abbrev pub Together : Fields → Fields → List Fields → List Fields → Type 0
Together e c (f ∷ es) (g ∷ cps) = ((e ≡ f) × (c ≡ g)) ⊎ Together e c es cps
Together e c _ _ = ⊥

-- An answer and the look-up beside it give no reason for a stop.
pub record IsHarmless (settings : Settings) (e c : Fields) : Type 0 where
  pub not_functional : truth (get "near_functional" e) ≡ false
  pub not_liquid : settings.liquids_stop ≡ true → truth (get "is_liquid" e) ≡ false
  pub not_placed : truth (get "is_player_placed" c) ≡ false

first-IsHarmless :
    (settings : Settings) (e c : Fields) (rest : Bool)
    → (truth (get "near_functional" e)
        || (settings.liquids_stop && truth (get "is_liquid" e))
        || truth (get "is_player_placed" c)
        || rest)
      ≡ false
    → IsHarmless settings e c
first-IsHarmless settings e c rest h = record {
  not_functional = ground (arith, h);
  not_liquid = λ on. ground (arith, h, on);
  not_placed = ground (arith, h);
}

pub detect_hard_stop-IsHarmless :
    (settings : Settings) (es cps : List Fields)
    → detect_hard_stop settings es cps ≡ false
    → (e c : Fields) → Together e c es cps
    → IsHarmless settings e c
unfolding detect_hard_stop
detect_hard_stop-IsHarmless settings [] cps h e c i = elim i [ ]
detect_hard_stop-IsHarmless settings (f ∷ es) [] h e c i = elim i [ ]
detect_hard_stop-IsHarmless settings (f ∷ es) (g ∷ cps) h e c (inl (here, beside)) =
    rw (here, beside) (first-IsHarmless settings f g (detect_hard_stop settings es cps) h)
detect_hard_stop-IsHarmless settings (f ∷ es) (g ∷ cps) h e c (inr there) =
    detect_hard_stop-IsHarmless settings es cps (ground (arith, h)) e c there

abbrev pub Dug : CpMap → List Position → List Fields → Position → Type 0
Dug m window es p = (e : Fields) × PairedWith p e window es × IsDiggable m e

safe-IsDiggable :
    (m : CpMap) (key : Position) (e : Fields)
    → key_of (get "pos" e) ≡ some key
    → is_safe m key e ≡ true
    → is_air e ≡ false
    → IsDiggable m e
unfolding is_safe
safe-IsDiggable m key e located safe dry = record {
  in_region = ground arith;
  not_liquid = ground arith;
  not_functional = ground arith;
  not_air = dry;
  natural = ground arith;
  key = key;
  located = located;
  untouched = player_placed-NotPlaced m key (ground (arith, safe));
}

later-Dug :
    (m : CpMap) (q : Position) (ps : List Position) (f : Fields) (es : List Fields) (p : Position)
    → Dug m ps es p
    → Dug m (q ∷ ps) (f ∷ es) p
later-Dug m q ps f es p d = (d.0, inr d.1, d.2)

mask_from-eq-some :
    (m : CpMap) (f : Fields) (es : List Fields) (b : Bool) (mask : List Bool)
    → mask_from m (f ∷ es) ≡ some (b ∷ mask)
    → (key : Position) × (key_of (get "pos" f) ≡ some key)
      × (is_safe m key f ≡ b)
      × (mask_from m es ≡ some mask)
unfolding mask_from
mask_from-eq-some m f es b mask h =
    let (key, located, after) = >>=-eq-some (key_of (get "pos" f)) _ h in
    let (rest, masked, pushed) = >>=-eq-some (mask_from m es) _ after in
    (key, located, ground (arith, pushed), ground (arith, pushed, masked))

InList-if :
    (p q : Position) (rest : List Position) (chosen : Bool)
    → InList p (if chosen then q ∷ rest else rest)
    → ((chosen ≡ true) × (p ≡ q)) ⊎ InList p rest
InList-if p q rest true (inl e) = inl (refl, e)
InList-if p q rest true (inr i) = inr i
InList-if p q rest false i = inr i

-- Every block of the comprehension is dug under an answer that allows it.
pub to_mine-Dug :
    (m : CpMap) (window : List Position) (es : List Fields) (mask : List Bool) (p : Position)
    → mask_from m es ≡ some mask
    → InList p (to_mine window mask es)
    → Dug m window es p
unfolding to_mine mask_from
to_mine-Dug m [] es mask p h i = elim i [ ]
to_mine-Dug m (q ∷ ps) [] [] p h i = elim i [ ]
to_mine-Dug m (q ∷ ps) [] (b ∷ mask) p h i = elim i [ ]
to_mine-Dug m (q ∷ ps) (f ∷ es) [] p h i = elim i [ ]
to_mine-Dug m (q ∷ ps) (f ∷ es) (b ∷ mask) p h i =
    let (key, located, safe, rest) = mask_from-eq-some m f es b mask h in
    elim (InList-if p q (to_mine ps mask es) (b && not (is_air f)) i) [
      | inl (chosen, here) ↦ (
        f,
        inl (here, refl),
        safe-IsDiggable m key f located (ground (arith, safe, chosen)) (ground (arith, chosen)),
      )
      | inr there ↦ later-Dug m q ps f es p (to_mine-Dug m ps es mask p rest there)
    ]
