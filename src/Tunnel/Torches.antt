-- ===== src/Tunnel/Torches.antt =====
-- Where the run places torches, and what it always asks last.
use mc_bot_egent_practice.Prelude.{
  ℕ, suc, ◌+◌, ◌*◌, ◌≤◌, ◌<◌, ◌≡◌, Bool, true, false, [], ◌∷◌, arith, Bool-cases, inl, inr,
}
use mc_bot_egent_practice.Tunnel.Geometry.{Position, Direction, TunnelSection}
use mc_bot_egent_practice.Tunnel.Trace.{All, All-append, loop-All}
use mc_bot_egent_practice.Tunnel.Mode.{
  Settings, Reply, Action, place_torch, stop, torch_due, next_counter, loop, run,
}

module _ (settings : Settings) (anchor : Position) (d : Direction) (section : TunnelSection)
    (replies : ℕ → Reply) where
  -- A torch stands at a step that ends a stretch of whole intervals.
  abbrev pub Spaced : Action → Type 0
  Spaced (place_torch step at) = (q : ℕ) × (suc step ≡ q * settings.torch_interval)
  Spaced a = Unit

  abbrev Counts : ℕ → ℕ → Type 0
  Counts step counter =
      (q : ℕ) × (step ≡ q * settings.torch_interval + counter) × (counter < settings.torch_interval)

  due-reached :
      (counter : ℕ)
      → torch_due settings anchor d section counter ≡ true
      → settings.torch_interval ≤ counter + 1
  due-reached counter due = ground arith

  Counts-next :
      (step counter : ℕ)
      → Counts step counter
      → Counts (suc step) (next_counter settings anchor d section counter)
  Counts-next step counter (q, e, h) =
      elim (Bool-cases (torch_due settings anchor d section counter)) [
        | inl due ↦ rw due (suc q, omega (arith, due-reached counter due), omega arith)
        | inr not_due ↦ rw not_due (q, omega arith, ground arith)
      ]

  -- With a torch interval set, whatever the answers, a run places torches only at the steps where a
  -- whole number of intervals is complete.
  pub run-Spaced :
      (starts stops : Bool) (length : ℕ)
      → 0 < settings.torch_interval
      → All Spaced (run settings anchor d section starts stops length replies).1
  unfolding run
  run-Spaced false stops length h = tt
  run-Spaced true stops length h =
      All-append Spaced (loop settings anchor d section length 0 0 replies).1 (stop ∷ [])
        (loop-All settings anchor d section replies Spaced
          (λ left step counter. Counts step counter)
          (λ left step counter e. Counts-next step counter e) (λ left step counter blocks e dug. tt)
          (λ left step counter at e due.
            (suc e.0, omega (arith, due-reached counter due, e.1, e.2)))
          (λ left step counter e. tt) length 0 0 (0, omega arith, h))
        (tt, tt)
