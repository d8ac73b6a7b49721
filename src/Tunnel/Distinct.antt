-- ===== src/Tunnel/Distinct.antt =====
-- The blocks of a window, `generate_window` of python/modes/tunnel_geometry.py, are distinct.
use mc_bot_egent_practice.Prelude.{
  ◌∙◌, sym, ℕ, zero, suc, ◌≤◌, ◌≡◌, refl, List, [], ◌∷◌, ◌++◌, some, arith, inl, inr, ◌⊎◌,
}
use mc_bot_egent_practice.Tunnel.Geometry.{
  Position, Direction, TunnelSection, columns, rows, slices, block_at, lateral_vector,
  generate_window,
}
use mc_bot_egent_practice.Tunnel.Diggable.{InList}
use mc_bot_egent_practice.Tunnel.Windows.{
  IsCardinal, lateral_exists, generate_window-eq, block_at-injective,
}

-- No position stands twice in the list.
abbrev pub NoDup : List Position → Type 0
NoDup [] = Unit
NoDup (p ∷ ps) = (¬ InList p ps) × NoDup ps

InList-append :
    (p : Position) (xs ys : List Position) → InList p (xs ++ ys) → InList p xs ⊎ InList p ys
InList-append p [] ys i = inr i
InList-append p (x ∷ xs) ys (inl e) = inl (inl e)
InList-append p (x ∷ xs) ys (inr i) = elim (InList-append p xs ys i) [
  | inl before ↦ inl (inr before)
  | inr after ↦ inr after
]

NoDup-append :
    (xs ys : List Position)
    → NoDup xs
    → NoDup ys
    → ((p : Position) → InList p xs → ¬ InList p ys)
    → NoDup (xs ++ ys)
NoDup-append [] ys dx dy apart = dy
NoDup-append (x ∷ xs) ys (fresh, dx) dy apart = (
  λ i. elim (InList-append x xs ys i) [
    | inl before ↦ fresh before
    | inr after ↦ apart x (inl refl) after
  ],
  NoDup-append xs ys dx dy (λ p i. apart p (inr i)),
)

columns-InList :
    (at : ℕ → Position) (p : Position) (h n : ℕ)
    → InList p (columns at h n)
    → (i : ℕ) × (h ≤ i) × (p ≡ at i)
unfolding columns
columns-InList at p h zero i = elim i [ ]
columns-InList at p h (suc n) (inl e) = (h, omega arith, e)
columns-InList at p h (suc n) (inr i) =
    let (k, above, e) = columns-InList at p (suc h) n i in (k, omega (arith, above), e)

columns-NoDup :
    (at : ℕ → Position) (h n : ℕ) → ((i j : ℕ) → at i ≡ at j → i ≡ j) → NoDup (columns at h n)
unfolding columns
columns-NoDup at h zero injective = tt
columns-NoDup at h (suc n) injective = (
  λ i.
      let (k, above, e) = columns-InList at (at h) (suc h) n i in
      let same = injective h k e in omega (arith, same, above),
  columns-NoDup at (suc h) n injective,
)

-- The two numbers of a block in a slice are read off it.
abbrev IsGrid : (ℕ → ℕ → Position) → Type 0
IsGrid at = (w w' h h' : ℕ) → at w h ≡ at w' h' → (w ≡ w') × (h ≡ h')

rows-InList :
    (at : ℕ → ℕ → Position) (p : Position) (height w n : ℕ)
    → InList p (rows at height w n)
    → (i j : ℕ) × (w ≤ i) × (p ≡ at i j)
unfolding rows
rows-InList at p height w zero i = elim i [ ]
rows-InList at p height w (suc n) i =
    elim (InList-append p (columns (at w) 0 height) (rows at height (suc w) n) i) [
      | inl here ↦
          let (j, above, e) = columns-InList (at w) p 0 height here in (w, j, omega arith, e)
      | inr there ↦
          let (k, j, above, e) = rows-InList at p height (suc w) n there in
          (k, j, omega (arith, above), e)
    ]

rows-NoDup : (at : ℕ → ℕ → Position) (height w n : ℕ) → IsGrid at → NoDup (rows at height w n)
unfolding rows
rows-NoDup at height w zero grid = tt
rows-NoDup at height w (suc n) grid =
    NoDup-append (columns (at w) 0 height) (rows at height (suc w) n)
      (columns-NoDup (at w) 0 height (λ i j e. (grid w w i j e).1))
      (rows-NoDup at height (suc w) n grid)
      (λ p here there.
        let (j, above, e) = columns-InList (at w) p 0 height here in
        let (k, j', later, e') = rows-InList at p height (suc w) n there in
        let same = (grid w k j j' (sym e ∙ e')).0 in omega (arith, same, later))

module _ (anchor : Position) (d lateral : Position) (section : TunnelSection) where
  slices-InList :
      (p : Position) (depth n : ℕ)
      → InList p (slices anchor d lateral section depth n)
      → (k w h : ℕ) × (depth ≤ k) × (p ≡ block_at anchor d lateral k w h)
  unfolding slices
  slices-InList p depth zero i = elim i [ ]
  slices-InList p depth (suc n) i =
      elim (InList-append p (rows (block_at anchor d lateral depth) section.height 0 section.width)
        (slices anchor d lateral section (suc depth) n) i) [
          | inl here ↦
              let (w, h, above, e) =
                rows-InList (block_at anchor d lateral depth) p section.height 0 section.width
                  here in
              (depth, w, h, omega arith, e)
          | inr there ↦
              let (k, w, h, above, e) = slices-InList p (suc depth) n there in
              (k, w, h, omega (arith, above), e)
        ]

  slices-NoDup :
      (depth n : ℕ)
      → IsCardinal d
      → lateral_vector d ≡ some lateral
      → NoDup (slices anchor d lateral section depth n)
  unfolding slices
  slices-NoDup depth zero c l = tt
  slices-NoDup depth (suc n) c l =
      NoDup-append (rows (block_at anchor d lateral depth) section.height 0 section.width)
        (slices anchor d lateral section (suc depth) n)
        (rows-NoDup (block_at anchor d lateral depth) section.height 0 section.width (λ w w' h h' e.
          let same = block_at-injective anchor d lateral depth depth w w' h h' c l e in
          (same.1, same.2)))
        (slices-NoDup (suc depth) n c l)
        (λ p here there.
          let (w, h, above, e) =
            rows-InList (block_at anchor d lateral depth) p section.height 0 section.width here in
          let (k, w', h', later, e') = slices-InList p (suc depth) n there in
          let same = (block_at-injective anchor d lateral depth k w w' h h' c l (sym e ∙ e')).0 in
          omega (arith, same, later))

-- For a direction of one unit along x or z there is a window, and no block stands twice in it.
pub generate_window-NoDup :
    (anchor : Position) (d : Direction) (section : TunnelSection) (step window : ℕ)
    → IsCardinal d
    → (w : List Position) × (generate_window anchor d section step window ≡ some w) × NoDup w
generate_window-NoDup anchor d section step window c =
    let (lateral, l) = lateral_exists d c in
    (
      slices anchor d lateral section step window,
      generate_window-eq anchor d section lateral step window c.0 l,
      slices-NoDup anchor d lateral section step window c l,
    )
