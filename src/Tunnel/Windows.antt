-- ===== src/Tunnel/Windows.antt =====
-- The blocks of a window: how many, how windows join, and when there is none; and where a block
-- stands.
use mc_bot_egent_practice.Prelude.{
  ℕ, zero, suc, ◌+◌, ◌*◌, ◌≡◌, refl, sym, ap, ◌∙◌, List, ◌++◌, none, some, arith, length,
  length-append, append_assoc, Option-cases, inl, inr, ◌⊎◌,
}
use mc_bot_egent_practice.Prelude.Int.{
  +ℤ_cancel, +ℤ_zero, *ℤ_unit, pos_part, *ℤ_zero, ℤ, pos, negsuc, ◌+ℤ◌, ◌*ℤ◌,
}
use mc_bot_egent_practice.Tunnel.Geometry.{
  Position, Direction, TunnelSection, columns, rows, slices, block_at, lateral_vector,
  generate_window, vector,
}

length-columns : (at : ℕ → Position) (h n : ℕ) → length (columns at h n) ≡ n
unfolding columns
length-columns at h zero = refl
length-columns at h (suc n) = ap suc (length-columns at (suc h) n)

length-rows : (at : ℕ → ℕ → Position) (height w n : ℕ) → length (rows at height w n) ≡ n * height
unfolding rows
length-rows at height w zero = omega arith
length-rows at height w (suc n) = grind (
  arith,
  length-append (columns (at w) 0 height) (rows at height (suc w) n),
  length-columns (at w) 0 height,
  length-rows at height (suc w) n,
)

module _ (anchor : Position) (d lateral : Position) (section : TunnelSection) where
  length-slices :
      (depth n : ℕ)
      → length (slices anchor d lateral section depth n) ≡ n * (section.width * section.height)
  unfolding slices
  length-slices depth zero = omega arith
  length-slices depth (suc n) = grind (
    arith,
    length-append (rows (block_at anchor d lateral depth) section.height 0 section.width)
        (slices anchor d lateral section (suc depth) n),
    length-rows (block_at anchor d lateral depth) section.height 0 section.width,
    length-slices (suc depth) n,
  )

  slices-append :
      (depth m n : ℕ)
      → slices anchor d lateral section depth (m + n)
        ≡ slices anchor d lateral section depth m ++ slices anchor d lateral section (depth + m) n
  unfolding slices
  slices-append depth zero n =
      ap (λ k. slices anchor d lateral section depth k) {x = 0 + n} {y = n} (omega arith)
      ∙ ap (λ k. slices anchor d lateral section k n) {x = depth} {y = depth + 0} (omega arith)
  slices-append depth (suc m) n =
      let first = rows (block_at anchor d lateral depth) section.height 0 section.width in
      ap (λ k. slices anchor d lateral section depth k) {x = suc m + n} {y = suc (m + n)}
        (omega arith)
      ∙ ap (λ rest. first ++ rest) (slices-append (suc depth) m n)
      ∙ sym (
          append_assoc first (slices anchor d lateral section (suc depth) m)
            (slices anchor d lateral section (suc depth + m) n))
      ∙ ap
          (λ k.
            first
            ++ slices anchor d lateral section (suc depth) m
            ++ slices anchor d lateral section k n)
          {x = suc depth + m} {y = depth + suc m} (omega arith)

-- Which directions the geometry takes: one unit along x or along z.
abbrev pub IsCardinal : Direction → Type 0
IsCardinal d =
    (d.y ≡ pos 0)
    × ((((d.x ≡ pos 1) ⊎ (d.x ≡ negsuc 0)) × (d.z ≡ pos 0))
        ⊎ (((d.z ≡ pos 1) ⊎ (d.z ≡ negsuc 0)) × (d.x ≡ pos 0)))

pub lateral_exists :
    (d : Direction) → IsCardinal d → (lateral : Position) × (lateral_vector d ≡ some lateral)
lateral_exists d c = elim (Option-cases (lateral_vector d)) [
  | inl e ↦ absurd (unfold lateral_vector in ground (arith, e, c))
  | inr found ↦ found
]

pub generate_window-eq :
    (anchor : Position) (d : Direction) (section : TunnelSection) (lateral : Position)
    (step window : ℕ)
    → d.y ≡ pos 0
    → lateral_vector d ≡ some lateral
    → generate_window anchor d section step window
      ≡ some (slices anchor d lateral section step window)
unfolding generate_window
generate_window-eq anchor d section lateral step window y l = ground (arith, y, l)

-- For a direction of one unit along x or z a window has width times height blocks for each step,
-- and windows join: the window over m + n steps is that over the first m followed by that over the
-- n steps after them.
pub generate_window_lem :
    (anchor : Position) (d : Direction) (section : TunnelSection) (step m n : ℕ)
    → IsCardinal d
    → (w w' : List Position) × (generate_window anchor d section step m ≡ some w)
      × (generate_window anchor d section (step + m) n ≡ some w')
      × (generate_window anchor d section step (m + n) ≡ some (w ++ w'))
      × (length w ≡ m * (section.width * section.height))
generate_window_lem anchor d section step m n c =
    let (lateral, l) = lateral_exists d c in
    (
      slices anchor d lateral section step m,
      slices anchor d lateral section (step + m) n,
      generate_window-eq anchor d section lateral step m c.0 l,
      generate_window-eq anchor d section lateral (step + m) n c.0 l,
      generate_window-eq anchor d section lateral step (m + n) c.0 l
          ∙ ap some (slices-append anchor d lateral section step m n),
      length-slices anchor d lateral section step m,
    )

-- A direction that is not one unit along x or z has no window, whatever its size.
pub generate_window-none :
    (anchor : Position) (d : Direction) (section : TunnelSection) (step window : ℕ)
    → ¬ IsCardinal d
    → generate_window anchor d section step window ≡ none
unfolding generate_window lateral_vector
generate_window-none anchor d section step window h =
    elim (Option-cases (generate_window anchor d section step window)) [
      | inl e ↦ e
      | inr (w, e) ↦ absurd (h (ground (arith, e)))
    ]

along :
    (a u : ℤ) (n n' w w' : ℕ)
    → (u ≡ pos 1) ⊎ (u ≡ negsuc 0)
    → a +ℤ u *ℤ pos n +ℤ pos 0 *ℤ pos w ≡ a +ℤ u *ℤ pos n' +ℤ pos 0 *ℤ pos w'
    → n ≡ n'
along a u n n' w w' unit e =
    *ℤ_unit u n n' unit (+ℤ_cancel a (u *ℤ pos n) (u *ℤ pos n') (simp (*ℤ_zero, +ℤ_zero) at e))

across :
    (a : ℤ) (n n' w w' : ℕ)
    → a +ℤ pos 0 *ℤ pos n +ℤ pos 1 *ℤ pos w ≡ a +ℤ pos 0 *ℤ pos n' +ℤ pos 1 *ℤ pos w'
    → w ≡ w'
across a n n' w w' e =
    *ℤ_unit (pos 1) w w' (inl refl)
      (+ℤ_cancel a (pos 1 *ℤ pos w) (pos 1 *ℤ pos w') (simp (*ℤ_zero, +ℤ_zero) at e))

upwards :
    (a : ℤ) (h h' w w' : ℕ) → a +ℤ pos h +ℤ pos 0 *ℤ pos w ≡ a +ℤ pos h' +ℤ pos 0 *ℤ pos w' → h ≡ h'
upwards a h h' w w' e =
    let raised = +ℤ_cancel a (pos h) (pos h') (simp (*ℤ_zero, +ℤ_zero) at e) in ap pos_part raised

-- The offset, the column and the row of a block are read off its position.
pub block_at-injective :
    (anchor : Position) (d lateral : Position) (depth depth' w w' h h' : ℕ)
    → IsCardinal d
    → lateral_vector d ≡ some lateral
    → block_at anchor d lateral depth w h ≡ block_at anchor d lateral depth' w' h'
    → (depth ≡ depth') × (w ≡ w') × (h ≡ h')
unfolding block_at lateral_vector
block_at-injective anchor d lateral depth depth' w w' h h' c l e =
    let ex = ap (λ (p : Position). p.x) e in
    let ey = ap (λ (p : Position). p.y) e in
    let ez = ap (λ (p : Position). p.z) e in
    elim c.1 [
      | inl (unit, flat) ↦
          let side : lateral ≡ vector (pos 0) (pos 0) (pos 1) = ground (arith, unit, flat, l) in
          let sx = ap (λ (p : Position). p.x) side in
          let sy = ap (λ (p : Position). p.y) side in
          let sz = ap (λ (p : Position). p.z) side in
          (
            along anchor.x d.x depth depth' w w' unit (simp sx at ex),
            across anchor.z depth depth' w w' (simp (sz, flat) at ez),
            upwards anchor.y h h' w w' (simp sy at ey),
          )
      | inr (unit, flat) ↦
          let side : lateral ≡ vector (pos 1) (pos 0) (pos 0) = ground (arith, unit, flat, l) in
          let sx = ap (λ (p : Position). p.x) side in
          let sy = ap (λ (p : Position). p.y) side in
          let sz = ap (λ (p : Position). p.z) side in
          (
            along anchor.z d.z depth depth' w w' unit (simp sz at ez),
            across anchor.x depth depth' w w' (simp (sx, flat) at ex),
            upwards anchor.y h h' w w' (simp sy at ey),
          )
    ]
