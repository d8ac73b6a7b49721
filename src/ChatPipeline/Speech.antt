-- ===== src/ChatPipeline/Speech.antt =====
-- Who speaks for a plan that waits for the player.
use mc_bot_egent_practice.Prelude.{
  none, ◌⊎◌, some, ℕ, suc, ◌≡◌, String, Bool, true, false, List, [], ◌∷◌,
}
use mc_bot_egent_practice.Planning.Directive.{Directive}
use mc_bot_egent_practice.Planning.{Rules as PlanRules}
use mc_bot_egent_practice.ChatPipeline.Task.{plan_executed, recovery_text, Effect, said, Act, Rules}

-- The texts that the pipeline says.
abbrev pub sayings : List Effect → List String
sayings [] = []
sayings (said t ∷ es) = t ∷ sayings es
sayings (e ∷ es) = sayings es

-- How often the pipeline runs a plan.
abbrev pub runs : List Effect → ℕ
runs [] = 0
runs (plan_executed p c ∷ es) = suc (runs es)
runs (e ∷ es) = runs es

-- What a computation says, and how often it runs a plan.
abbrev Shows {ℓ} : {A : Type ℓ} → List String → ℕ → Act A → Type 0
Shows texts n m = (sayings m.0 ≡ texts) × (runs m.0 ≡ n)

-- The recovery says its text and takes the plan over, or says nothing and leaves the plan.
TakesOver : Act Bool → Type 0
TakesOver m =
    (Shows (recovery_text ∷ []) 0 m × ((m.1 ≡ none) ⊎ (m.1 ≡ some true)))
    ⊎ (Shows [] 0 m × (m.1 ≡ some false))

-- The recovery takes the plan over and says its text, or the plan is run in silence.
abbrev Either : Act (Unit {0}) → Type 0
Either m = Shows (recovery_text ∷ []) 0 m ⊎ Shows [] 1 m
