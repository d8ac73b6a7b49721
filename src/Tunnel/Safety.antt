-- ===== src/Tunnel/Safety.antt =====
-- What the loop digs: only blocks that the answers of the same turn allow.
use mc_bot_egent_practice.Prelude.{
  ℕ, suc, ◌-◌, ◌≡◌, refl, ◌⊎◌, inl, inr, Bool, true, false, some, List, [], ◌∷◌, arith, min,
  Option-cases,
}
use mc_bot_egent_practice.Python.{Value, Fields}
use mc_bot_egent_practice.Tunnel.Geometry.{Position, Direction, TunnelSection, generate_window}
use mc_bot_egent_practice.Tunnel.Mask.{CpMap, cp_map, mask_from, build_mining_mask}
use mc_bot_egent_practice.Tunnel.Trace.{All, All-append, loop-All}
use mc_bot_egent_practice.Tunnel.Mode.{
  Settings, Response, ok, bridge_error, Reply, Action, mine, stop, dig, to_mine, survey_cp,
  survey_window, survey, loop, run,
}
use mc_bot_egent_practice.Tunnel.Diggable.{
  InList, Together, IsHarmless, Dug, to_mine-Dug, detect_hard_stop-IsHarmless,
}

response-cases {ℓ} :
    {A : Type ℓ} (r : Response A)
    → ((a : A) × (r ≡ ok a)) ⊎ ((n : ℕ) × (v : Value) × (r ≡ bridge_error n v))
response-cases (ok a) = inl (a, refl)
response-cases (bridge_error n v) = inr (n, v, refl)

module _ (settings : Settings) (anchor : Position) (d : Direction) (section : TunnelSection)
    (replies : ℕ → Reply) (length : ℕ) where
  -- The blocks dug at a step come from that step's window and answers, and what is examined of
  -- these gives no reason for a stop.
  pub record IsJustified (step : ℕ) (blocks : List Position) : Type 0 where
    pub window : List Position
    pub evaluations : List Fields
    pub cp_results : List Fields
    pub placed : CpMap
    pub windowed :
        generate_window anchor d section step (min settings.window_length (length - step))
        ≡ some window
    pub evaluated : (replies step).evaluations ≡ ok evaluations
    pub looked_up : (replies step).cp_results ≡ ok cp_results
    pub mapped : cp_map [] cp_results ≡ some placed
    pub no_stop : (e c : Fields) → Together e c evaluations cp_results → IsHarmless settings e c
    pub dug : (p : Position) → InList p blocks → Dug placed window evaluations p

  -- What is dug is justified; nothing is asked of the other actions.
  abbrev pub Justified : Action → Type 0
  Justified (mine step blocks) = IsJustified step blocks
  Justified a = Unit

  survey_cp-IsJustified :
      (step : ℕ) (blocks window : List Position) (es cps : List Fields)
      → generate_window anchor d section step (min settings.window_length (length - step))
        ≡ some window
      → (replies step).evaluations ≡ ok es
      → (replies step).cp_results ≡ ok cps
      → survey_cp settings (some window) es (ok cps) ≡ dig blocks
      → IsJustified step blocks
  unfolding survey_cp build_mining_mask
  survey_cp-IsJustified step blocks window es cps w e c h = elim (Option-cases (cp_map [] cps)) [
    | inl none_mapped ↦ absurd (ground (arith, none_mapped, h))
    | inr (m, mapped) ↦ elim (Option-cases (mask_from m es)) [
      | inl none_masked ↦ absurd (ground (arith, mapped, none_masked, h))
      | inr (mask, masked) ↦
          let chosen : to_mine window mask es ≡ blocks = ground (arith, mapped, masked, h) in
          record {
            window = window;
            evaluations = es;
            cp_results = cps;
            placed = m;
            windowed = w;
            evaluated = e;
            looked_up = c;
            mapped = mapped;
            no_stop =
                detect_hard_stop-IsHarmless settings es cps (ground (arith, mapped, masked, h));
            dug = λ p i. to_mine-Dug m window es mask p masked (rw chosen i);
          }
    ]
  ]

  survey-IsJustified :
      (left step : ℕ) (blocks : List Position)
      → left ≡ length - step
      → survey settings anchor d section left step (replies step) ≡ dig blocks
      → IsJustified step blocks
  unfolding survey survey_window
  survey-IsJustified left step blocks e h =
      elim (Option-cases
        (generate_window anchor d section step (min settings.window_length left))) [
          | inl no_window ↦ absurd (ground (arith, no_window, h))
          | inr (window, windowed) ↦ elim (response-cases (replies step).evaluations) [
            | inr (n, v, failed) ↦ absurd (ground (arith, windowed, failed, h))
            | inl (es, evaluated) ↦ elim (response-cases (replies step).cp_results) [
              | inr (n, v, failed) ↦
                  absurd (unfold survey_cp in ground (arith, windowed, evaluated, failed, h))
              | inl (cps, looked_up) ↦
                  survey_cp-IsJustified step blocks window es cps (rw (← e) windowed) evaluated
                    looked_up (ground (arith, windowed, evaluated, looked_up, h))
            ]
          ]
        ]

  -- Every block that a run has dug, whatever is answered, stands in its turn's window, and the
  -- answer at its place of the turn's answers says that it lies in the job's region, is natural, no
  -- liquid and no air, and stands near no functional block; and the last of the turn's look-ups at
  -- the position which that answer names says that no player placed a block there. Besides, of the
  -- answers of the turn beside which a look-up stands in the lists (where one list is longer, the
  -- rest of it is not examined), none says that a functional block is near, none says liquid if
  -- liquids stop the job, and no such look-up says that a player placed a block.
  pub run-Justified :
      (starts stops : Bool)
      → All Justified (run settings anchor d section starts stops length replies).1
  unfolding run
  run-Justified false stops = tt
  run-Justified true stops =
      All-append Justified (loop settings anchor d section length 0 0 replies).1 (stop ∷ [])
        (loop-All settings anchor d section replies Justified
          (λ left step counter. left ≡ length - step) (λ left step counter e. omega arith)
          (λ left step counter blocks e dug. survey-IsJustified (suc left) step blocks e dug)
          (λ left step counter at e due. tt) (λ left step counter e. tt) length 0 0 (omega arith))
        (tt, tt)
