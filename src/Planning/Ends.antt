-- ===== src/Planning/Ends.antt =====
-- What is said of the end of `PlanExecutor`'s loop over the steps of a plan.
use mc_bot_egent_practice.Prelude.{
  Bool-cases, str_eq, ◌⊎◌, ℕ, suc, ◌+◌, ◌≤◌, ◌≡◌, refl, String, true, false, Option, none, some,
  List, ◌∷◌, arith, inl, inr, is_some, length, drop, if◌then◌else◌,
}
use mc_bot_egent_practice.Python.{Fields, strip}
use mc_bot_egent_practice.Planning.Directive.{Directive, PlanOut, at}
use mc_bot_egent_practice.Planning.Steps.{or_default, refused_text, Rules}
use mc_bot_egent_practice.Planning.Handlers.{DirectiveResult}
use mc_bot_egent_practice.Planning.Executor.{handle_step}
use mc_bot_egent_practice.Planning.Run.{
  reason_of, World, Progress, LoopEnd, finished, halted, step_input,
}

-- The first text of these that is not empty.
abbrev pub first_text : Option String → String → String → String
first_text none second third = if str_eq second "" then third else second
first_text (some first) second third =
    if str_eq first "" then (if str_eq second "" then third else second) else first

module _ (validate : Fields → Option Directive) (rules : Rules) (world : World) (plan_out : PlanOut)
    (total : ℕ) where
  -- The step with this number, handled after some progress, has a result that halts the plan; its
  -- failure's reason, or else its observation, or else a fixed text is the reason.
  abbrev pub HaltsAt : ℕ → String → String → Type 0
  HaltsAt index raw reason =
      (q : Progress) × (backlog : List Fields) × (r : DirectiveResult) × ((handle_step rules
          (world.steps index)
          (step_input validate rules plan_out index total (strip raw) q.last_target_coords)
          q.action_backlog).1
        ≡ some (r, backlog))
      × (r.should_halt ≡ true)
      × (reason ≡ first_text r.failure_reason r.observation refused_text)
      × (str_eq reason "" ≡ false)

  -- The loop over `steps`, the first of which has the number `index`, is left at the step `j` after
  -- it: the name and the rest are those, as many steps were begun, and it halts for the reason.
  abbrev pub LeftAt : ℕ → List String → ℕ → String → String → List String → ℕ → Type 0
  LeftAt index steps j step reason remaining count =
      (raw : String) × ((at j steps ≡ some raw)
        × (step ≡ strip raw)
        × (remaining ≡ drop (suc j) steps)
        × (count ≡ suc j)
        × HaltsAt (index + j) raw reason)

  -- What an end of the loop over `steps` says of the effects before it.
  abbrev pub EndFacts : ℕ → List String → ℕ → LoopEnd → Type 0
  EndFacts index steps count (finished p) = count ≤ length steps
  EndFacts index steps count (halted step reason remaining p) =
      (is_some p.execution_failure_reason ≡ true)
      × ((j : ℕ) × LeftAt index steps j step reason remaining count)

  -- The same after the first step was begun, which may be the one that halts.
  abbrev pub AfterFacts : ℕ → String → List String → ℕ → LoopEnd → Type 0
  AfterFacts index first rest count (finished p) = count ≤ length rest
  AfterFacts index first rest count (halted step reason remaining p) =
      (is_some p.execution_failure_reason ≡ true)
      × (((step ≡ strip first) × (remaining ≡ rest) × (count ≡ 0) × HaltsAt index first reason)
          ⊎ ((j : ℕ) × LeftAt (index + 1) rest j step reason remaining count))

  at_index : {m n : ℕ} → m ≡ n → (raw reason : String) → HaltsAt m raw reason → HaltsAt n raw reason
  at_index e raw reason h = rw (← e) h

  pub first-step :
      (index : ℕ) (first : String) (rest : List String) (count : ℕ) (ended : LoopEnd)
      → AfterFacts index first rest count ended
      → EndFacts index (first ∷ rest) (suc count) ended
  first-step index first rest count (finished p) h = omega (arith, h)
  first-step index first rest count (halted step reason remaining p) (f, inl (s, r, c, halts)) =
      (f, (0, (first, (refl, s, r, omega (arith, c), at_index (omega arith) first reason halts))))
  first-step index first rest count (halted step reason remaining p)
        (f, inr (j, (raw, (a, s, r, c, halts)))) =
      (f, (suc j, (raw, (a, s, r, omega (arith, c), at_index (omega arith) raw reason halts))))

  pub rest-facts :
      (index : ℕ) (first : String) (rest : List String) (count : ℕ) (ended : LoopEnd)
      → EndFacts (index + 1) rest count ended
      → AfterFacts index first rest count ended
  rest-facts index first rest count (finished p) h = h
  rest-facts index first rest count (halted step reason remaining p) (f, left) = (f, inr left)

or_default-first_text :
    (o : Option String) (second third : String)
    → or_default o (or_default (some second) third) ≡ first_text o second third
or_default-first_text none second third = refl
or_default-first_text (some first) second third = refl

pub reason_of-first_text :
    (r : DirectiveResult) → reason_of r ≡ first_text r.failure_reason r.observation refused_text
reason_of-first_text r = or_default-first_text r.failure_reason r.observation refused_text

first_text-none :
    (second third : String)
    → str_eq third "" ≡ false
    → str_eq (first_text none second third) "" ≡ false
first_text-none second third h = elim (Bool-cases (str_eq second "")) [
  | inl e ↦ rw e h
  | inr e ↦ rw e e
]

-- A choice among texts of which the last is not empty.
first_text-not_empty :
    (o : Option String) (second third : String)
    → str_eq third "" ≡ false
    → str_eq (first_text o second third) "" ≡ false
first_text-not_empty none second third h = first_text-none second third h
first_text-not_empty (some first) second third h = elim (Bool-cases (str_eq first "")) [
  | inl e ↦ rw e (first_text-none second third h)
  | inr e ↦ rw e e
]

pub reason_of-not_empty : (r : DirectiveResult) → str_eq (reason_of r) "" ≡ false
reason_of-not_empty r =
    rw (reason_of-first_text r)
      (first_text-not_empty r.failure_reason r.observation refused_text refl)
