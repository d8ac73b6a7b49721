-- ===== src/ActionGraph/Search.antt =====
-- The search for the best pickaxe, `select_pickaxe_for_targets` of python/chat_pipeline.py.
use mc_bot_egent_practice.Prelude.{
  ℕ, max, ◌≤◌, ◌<◌, ltb, ◌≡◌, refl, ap, arith, Option, none, some, List, [], ◌∷◌, ◌++◌, Bool-cases,
  ◌⊎◌, inl, inr,
}
use mc_bot_egent_practice.Python.{Fields}
use mc_bot_egent_practice.ActionGraph.State.{Rules}
use mc_bot_egent_practice.ActionGraph.Mining.{usable_tier, better, best_of}

abbrev pub or_zero : Option ℕ → ℕ
or_zero none = 0
or_zero (some tier) = tier

-- The highest tier of the pickaxes that are usable, or 0.
abbrev pub highest_tier : Rules → ℕ → List Fields → ℕ
highest_tier rules required [] = 0
highest_tier rules required (item ∷ items) =
    max (or_zero (usable_tier rules required item)) (highest_tier rules required items)

-- An item of the list that is usable, with its tier.
abbrev pub IsUsable : Rules → ℕ → List Fields → Fields → ℕ → Type 0
IsUsable rules required items item tier =
    (usable_tier rules required item ≡ some tier)
    × ((before : List Fields) × (after : List Fields) × (items ≡ before ++ item ∷ after))

-- The search keeps the best so far, or finds a better one that is as good as any.
pub Found : Rules → ℕ → List Fields → Option Fields → ℕ → Option Fields × ℕ → Type 0
Found rules required items o n result =
    ((result ≡ (o, n)) × (highest_tier rules required items ≤ n))
    ⊎ ((item : Fields) × (tier : ℕ) × (result ≡ (some item, tier))
        × IsUsable rules required items item tier
        × (highest_tier rules required items ≡ tier)
        × (n < tier))

module _ (rules : Rules) (required : ℕ) where
  unusable-Found :
      (item : Fields) (items : List Fields) (o : Option Fields) (n : ℕ) (r : Option Fields × ℕ)
      → usable_tier rules required item ≡ none
      → Found rules required items o n r
      → Found rules required (item ∷ items) o n r
  unfolding Found
  unusable-Found item items o n r e (inl (same, below)) = inl (same, rw e (omega (arith, below)))
  unusable-Found item items o n r e (inr (p, t, same, (u, (before, after, split)), top, above)) =
      inr (
        p,
        t,
        same,
        (u, (item ∷ before, after, ap (λ xs. item ∷ xs) split)),
        rw e (omega (arith, top)),
        above,
      )

  worse-Found :
      (item : Fields) (items : List Fields) (o : Option Fields) (n tier : ℕ) (r : Option Fields × ℕ)
      → usable_tier rules required item ≡ some tier
      → tier ≤ n
      → Found rules required items o n r
      → Found rules required (item ∷ items) o n r
  unfolding Found
  worse-Found item items o n tier r e h (inl (same, below)) =
      inl (same, rw e (omega (arith, below, h)))
  worse-Found item items o n tier r e h
        (inr (p, t, same, (u, (before, after, split)), top, above)) =
      inr (
        p,
        t,
        same,
        (u, (item ∷ before, after, ap (λ xs. item ∷ xs) split)),
        rw e (omega (arith, top, h, above)),
        above,
      )

  better-Found :
      (item : Fields) (items : List Fields) (o : Option Fields) (n tier : ℕ) (r : Option Fields × ℕ)
      → usable_tier rules required item ≡ some tier
      → n < tier
      → Found rules required items (some item) tier r
      → Found rules required (item ∷ items) o n r
  unfolding Found
  better-Found item items o n tier r e h (inl (same, below)) =
      inr (item, tier, same, (e, ([], items, refl)), rw e (omega (arith, below)), h)
  better-Found item items o n tier r e h
        (inr (p, t, same, (u, (before, after, split)), top, above)) =
      inr (
        p,
        t,
        same,
        (u, (item ∷ before, after, ap (λ xs. item ∷ xs) split)),
        rw e (omega (arith, top, h, above)),
        omega (arith, h, above),
      )

  nothing-Found : (o : Option Fields) (n : ℕ) → Found rules required [] o n (o, n)
  unfolding Found
  nothing-Found o n = inl (refl, omega arith)

  next-Found :
      (item : Fields) (items : List Fields) (o : Option Fields) (n : ℕ) (u : Option ℕ)
      → usable_tier rules required item ≡ u
      → ((o' : Option Fields) (n' : ℕ)
          → Found rules required items o' n' (best_of rules required items (o', n')))
      → Found rules required
          (item ∷ items)
          o
          n
          (best_of rules required items (better item u (o, n)))
  next-Found item items o n none e h = unusable-Found item items o n _ e (h o n)
  next-Found item items o n (some tier) e h = elim (Bool-cases (ltb n tier)) [
    | inl l ↦ rw l (better-Found item items o n tier _ e (ground (arith, l)) (h (some item) tier))
    | inr l ↦ rw l (worse-Found item items o n tier _ e (ground (arith, l)) (h o n))
  ]

  pub best_of-Found :
      (items : List Fields) (o : Option Fields) (n : ℕ)
      → Found rules required items o n (best_of rules required items (o, n))
  unfolding best_of
  best_of-Found [] o n = nothing-Found o n
  best_of-Found (item ∷ items) o n =
      next-Found item items o n (usable_tier rules required item) refl
        (λ o' n'. best_of-Found items o' n')

pub chosen :
    (rules : Rules) (required : ℕ) (items : List Fields) (r : Option Fields × ℕ)
    → Found rules required items none 0 r
    → ((r.0 ≡ none) × (highest_tier rules required items ≡ 0))
      ⊎ ((item : Fields) × (r.0 ≡ some item)
          × (0 < highest_tier rules required items)
          × IsUsable rules required items item (highest_tier rules required items))
unfolding Found
chosen rules required items r (inl (same, below)) = inl (ap (λ x. x.0) same, omega (arith, below))
chosen rules required items r (inr (item, tier, same, u, top, above)) =
    inr (item, ap (λ x. x.0) same, omega (arith, top, above), rw top u)
