-- ===== src/Tunnel/Trace.antt =====
-- The rule for what a run of the tunnel mode asks for: a predicate of the actions, and an invariant
-- of the turns left, the step and the torch counter.
use mc_bot_egent_practice.Prelude.{
  ℕ, zero, suc, ◌≡◌, refl, true, List, [], ◌∷◌, ◌++◌, Bool-cases, Option-cases, inl, inr,
}
use mc_bot_egent_practice.Tunnel.Geometry.{Position, Direction, TunnelSection}
use mc_bot_egent_practice.Tunnel.Mode.{
  Settings, Reply, Action, mine, place_torch, advance, Outcome, Survey, leave, dig, torch_position,
  mine_part, advance_part, survey, torch_due, torch_part, turn, next_counter, loop,
}

abbrev pub All {ℓ} : {A : Type ℓ} → (A → Type 0) → List A → Type 0
All P [] = Unit
All P (x ∷ xs) = P x × All P xs

pub All-append {ℓ} :
    {A : Type ℓ} (P : A → Type 0) (xs ys : List A) → All P xs → All P ys → All P (xs ++ ys)
All-append P [] ys h k = k
All-append P (x ∷ xs) ys h k = (h.0, All-append P xs ys h.1 k)

module _ (settings : Settings) (anchor : Position) (d : Direction) (section : TunnelSection)
    (replies : ℕ → Reply) (P : Action → Type 0) where
  abbrev TorchFits : ℕ → ℕ → Type 0
  TorchFits step counter =
      (at : Position) → torch_due settings anchor d section counter ≡ true → P (place_torch step at)

  mine_part-All :
      (step : ℕ) (blocks : List Position) (reply : Reply)
      → P (mine step blocks)
      → All P (mine_part step blocks reply).0
  unfolding mine_part
  mine_part-All step [] reply h = tt
  mine_part-All step (p ∷ ps) reply h = (h, tt)

  torch_part-All :
      (step counter : ℕ) (reply : Reply)
      → TorchFits step counter
      → All P (torch_part settings anchor d section step counter reply).0
  unfolding torch_part
  torch_part-All step counter reply fits =
      elim (Bool-cases (torch_due settings anchor d section counter)) [
        | inl due ↦ elim (Option-cases (torch_position anchor d step)) [
          | inl nowhere ↦ rw due (rw (nowhere, torch_part) tt)
          | inr (at, there) ↦ rw due (rw (there, torch_part) (fits at due, tt))
        ]
        | inr not_due ↦ rw not_due tt
      ]

  turn-All :
      (step counter : ℕ) (s : Survey) (later : Outcome × List Action)
      → ((blocks : List Position) → s ≡ dig blocks → P (mine step blocks))
      → TorchFits step counter
      → P (advance step)
      → All P later.1
      → All P (turn settings anchor d section step counter (replies step) s later).1
  unfolding turn
  turn-All step counter (leave outcome) later digs fits adv rest = tt
  turn-All step counter (dig blocks) later digs fits adv rest =
      let mining = mine_part step blocks (replies step) in
      let torches = torch_part settings anchor d section step counter (replies step) in
      let mined = mine_part-All step blocks (replies step) (digs blocks refl) in
      let lit = torch_part-All step counter (replies step) fits in
      elim (Bool-cases mining.1) [
        | inr failed ↦ rw failed mined
        | inl well ↦ elim (Bool-cases torches.1) [
          | inr failed ↦ rw (well, failed) (All-append P mining.0 torches.0 mined lit)
          | inl placed ↦ elim (Option-cases (advance_part (replies step).advanced)) [
            | inr (outcome, ends) ↦
                rw (well, placed)
                  (rw (ends, turn)
                    (All-append P (mining.0 ++ torches.0) (advance step ∷ [])
                      (All-append P mining.0 torches.0 mined lit) (adv, tt)))
            | inl goes_on ↦
                rw (well, placed)
                  (rw (goes_on, turn)
                    (All-append P (mining.0 ++ torches.0) (advance step ∷ later.1)
                      (All-append P mining.0 torches.0 mined lit) (adv, rest)))
          ]
        ]
      ]

  pub loop-All :
      (I : ℕ → ℕ → ℕ → Type 0)
      → ((left step counter : ℕ)
          → I (suc left) step counter
          → I left (suc step) (next_counter settings anchor d section counter))
      → ((left step counter : ℕ) (blocks : List Position)
          → I (suc left) step counter
          → survey settings anchor d section (suc left) step (replies step) ≡ dig blocks
          → P (mine step blocks))
      → ((left step counter : ℕ) (at : Position)
          → I (suc left) step counter
          → torch_due settings anchor d section counter ≡ true
          → P (place_torch step at))
      → ((left step counter : ℕ) → I (suc left) step counter → P (advance step))
      → (left step counter : ℕ) → I left step counter
      → All P (loop settings anchor d section left step counter replies).1
  unfolding loop
  loop-All I keep digs fits adv zero step counter i = tt
  loop-All I keep digs fits adv (suc left) step counter i =
      turn-All step counter (survey settings anchor d section (suc left) step (replies step)) _
        (λ blocks e. digs left step counter blocks i e) (λ at due. fits left step counter at i due)
        (adv left step counter i)
        (loop-All I keep digs fits adv left (suc step)
          (next_counter settings anchor d section counter) (keep left step counter i))
