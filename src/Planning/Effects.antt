-- ===== src/Planning/Effects.antt =====
-- What the execution of a plan does to the rest of the program.
use mc_bot_egent_practice.Prelude.{ℕ, String, Bool, Option, List}
use mc_bot_egent_practice.Prelude.Int.{ℤ}
use mc_bot_egent_practice.Prelude.Traced.{Traced}
unfoldable pub use mc_bot_egent_practice.Prelude.Traced.{
  pure, raised, ask, continue_with, ◌>>=◌, done,
}
use mc_bot_egent_practice.Python.{Fields}

abbrev pub Coords : Type 0
Coords = ℤ × ℤ × ℤ

pub data Effect : Type 0 where
  -- Actions.begin_directive_scope and end_directive_scope
  scope_begun : Fields → Effect
  scope_ended : Effect
  said : String → Effect
  moved : Coords → Effect
  -- MovementService.report_execution_barrier
  barrier_reported : String → String → Effect
  -- the MineDojo handler, the hybrid handler and the task router
  minedojo_asked : ℕ → Effect
  hybrid_executed : Fields → Effect
  detection_performed : String → Effect
  action_performed : String → String → Option Coords → Option Coords → Effect
  reports_handled : List Fields → Bool → Effect
  backlog_handled : List Fields → Bool → Effect
  -- react_entry.observation = …
  observed : String → Effect
  -- a step of the plan is taken up
  step_begun : ℕ → ℕ → Effect
  -- Memory.finalize_pending_reflection and begin_reflection
  reflection_finalized : String → String → Effect
  reflection_begun : String → String → Effect
  -- memory.set("last_reflection_prompt", …) and memory.set("recovery_hints", …)
  prompt_kept : String → Effect
  hints_kept : String → String → Effect
  -- the planner is asked for another plan, at a depth
  replan_requested : ℕ → String → Effect
  -- the recursion of the model has no fuel left
  exhausted : Effect

abbrev pub Act {ℓ} : Type ℓ → Type ℓ
Act A = Traced Effect A
