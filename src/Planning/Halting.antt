-- ===== src/Planning/Halting.antt =====
-- Where the loop over a plan's steps ends.
use mc_bot_egent_practice.Prelude.{
  sym, ℕ, suc, ◌+◌, ◌≡◌, refl, String, Bool, true, false, Option, none, some, List, [], ◌∷◌, ◌++◌,
  arith, inl, is_some, if◌then◌else◌,
}
use mc_bot_egent_practice.Python.{Fields, strip}
use mc_bot_egent_practice.Planning.Effects.{Effect, scope_ended, step_begun, Act, ◌>>=◌}
use mc_bot_egent_practice.Planning.Directive.{Directive, PlanOut}
use mc_bot_egent_practice.Planning.Steps.{Answers, Rules}
use mc_bot_egent_practice.Planning.Handlers.{DirectiveResult}
use mc_bot_egent_practice.Planning.Executor.{StepInput, handle_step, observe_text}
use mc_bot_egent_practice.Planning.Run.{
  World, Progress, LoopEnd, is_failed, first_reason, absorb, after_step, has_entry, resume,
  step_input, steps_from,
}
use mc_bot_egent_practice.Planning.Ends.{
  EndFacts, AfterFacts, first-step, rest-facts, reason_of-first_text, reason_of-not_empty,
}
use mc_bot_egent_practice.Planning.Traces.{IsTraceRule, is_work, observe-P}
use mc_bot_egent_practice.Planning.StepTraces.{handle_step-P}
use mc_bot_egent_practice.Prelude.Traced.{Returns-tt, Returns}
use mc_bot_egent_practice.Planning.Results.{is_coherent, CoherentFirst}
use mc_bot_egent_practice.Planning.Coherence.{handle_step-IsCoherent}

-- The steps that are taken up.
abbrev pub begun : List Effect → ℕ
begun [] = 0
begun (step_begun index total ∷ es) = suc (begun es)
begun (e ∷ es) = begun es

abbrev one_step : Effect → ℕ
one_step (step_begun index total) = 1
one_step _ = 0

begun-cons : (e : Effect) (es : List Effect) → begun (e ∷ es) ≡ one_step e + begun es
begun-cons (step_begun index total) es = omega arith
begun-cons e es = omega arith

begun-append : (xs ys : List Effect) → begun (xs ++ ys) ≡ begun xs + begun ys
begun-append [] ys = omega arith
begun-append (x ∷ xs) ys =
    omega (arith, begun-cons x xs, begun-cons x (xs ++ ys), begun-append xs ys)

BeginsNone : List Effect → Type 0
BeginsNone es = begun es ≡ 0

work-BeginsNone : (e : Effect) → is_work e ≡ true → begun (e ∷ []) ≡ 0
work-BeginsNone (step_begun index total) w = cc
work-BeginsNone e w = refl

no_steps : IsTraceRule BeginsNone
unfolding BeginsNone
no_steps = record {
  nothing = refl;
  both = λ xs ys h k. omega (arith, h, k, begun-append xs ys);
  work = work-BeginsNone;
  scoped = λ meta e w.
      omega (arith, work-BeginsNone e w, begun-cons e (scope_ended ∷ []), begun-cons e []);
}

first_reason-of_failed :
    (o : Option String) (r : DirectiveResult)
    → is_failed r.status ≡ true
    → is_some (first_reason o r) ≡ true
first_reason-of_failed (some reason) r h = refl
first_reason-of_failed none r h = ground (arith, h)

-- A result that halts the plan sets the reason.
halting-reason :
    (r : DirectiveResult) (backlog : List Fields) (p : Progress)
    → is_coherent r ≡ true
    → r.should_halt ≡ true
    → is_some (absorb r backlog p).execution_failure_reason ≡ true
unfolding absorb
halting-reason r backlog p c h =
    first_reason-of_failed p.execution_failure_reason r (ground (arith, c, h))

-- A predicate on the number of steps begun and the value.
abbrev Facts : (ℕ → LoopEnd → Type 0) → Act LoopEnd → Type 0
Facts F m = Returns (F (begun m.0)) m.1

either-Facts :
    (F : ℕ → LoopEnd → Type 0) (ends halts : Bool) (x y z : Act LoopEnd)
    → Facts F x
    → (halts ≡ true → Facts F y)
    → Facts F z
    → Facts F (if ends then x else if halts then y else z)
either-Facts F true halts x y z h k l = h
either-Facts F false true x y z h k l = k refl
either-Facts F false false x y z h k l = l

Returns-equal :
    {A : Type 0} (Q : A → Type 0) (o : Option A) → Returns Q o → Returns (λ a. Q a × (o ≡ some a)) o
Returns-equal Q none h = tt
Returns-equal Q (some a) h = (h, refl)

begun-silent : (xs ys : List Effect) → begun xs ≡ 0 → begun ys ≡ begun (xs ++ ys)
begun-silent xs ys z = omega (arith, z, begun-append xs ys)

at-count : {m n : ℕ} → m ≡ n → (P : ℕ → Type 0) → P m → P n
at-count e P h = rw (sym e) h

-- Effects without steps before a computation.
silent-Facts :
    {A : Type 0} (F : ℕ → LoopEnd → Type 0) (Q : A → Type 0) (m : Act A) (f : A → Act LoopEnd)
    → begun m.0 ≡ 0
    → Returns Q m.1
    → ((a : A) → Q a → Facts F (f a))
    → Facts F (m >>= f)
silent-Facts F Q (es, none) f z q h = tt
silent-Facts F Q (es, some a) f z q h =
    at-count (begun-silent es (f a).0 z) (λ n. Returns (F n) (f a).1) (h a q)

observe_text-silent : (b : Bool) (t : String) → begun (observe_text b t).0 ≡ 0
unfolding BeginsNone
observe_text-silent b t = observe-P no_steps _ t

handle_step-silent :
    (rules : Rules) (answers : Answers) (i : StepInput) (backlog : List Fields)
    → begun (handle_step rules answers i backlog).0 ≡ 0
unfolding BeginsNone
handle_step-silent rules answers i backlog = handle_step-P no_steps rules answers i backlog

module _ (validate : Fields → Option Directive) (rules : Rules) (world : World) (plan_out : PlanOut)
    (total index : ℕ) where
  abbrev Ends : List String → ℕ → LoopEnd → Type 0
  Ends steps count ended = EndFacts validate rules world plan_out total index steps count ended

  abbrev Later : List String → ℕ → LoopEnd → Type 0
  Later rest count ended = EndFacts validate rules world plan_out total (index + 1) rest count ended

  abbrev After : String → List String → ℕ → LoopEnd → Type 0
  After first rest count ended =
      AfterFacts validate rules world plan_out total index first rest count ended

  rest-Facts :
      (first : String) (rest : List String) (m : Act LoopEnd)
      → Facts (Later rest) m
      → Facts (After first rest) m
  rest-Facts first rest (es, none) h = tt
  rest-Facts first rest (es, some ended) h =
      rest-facts validate rules world plan_out total index first rest (begun es) ended h

  -- What the handlers make of the step.
  abbrev settle_step : String → Progress → Act (DirectiveResult × List Fields)
  settle_step first p =
      handle_step rules (world.steps index)
        (step_input validate rules plan_out index total (strip first) p.last_target_coords)
        p.action_backlog

  after_step-Facts :
      (r : DirectiveResult) (first : String) (rest : List String) (backlog : List Fields)
      (p : Progress) (later : Act LoopEnd)
      → is_coherent r ≡ true
      → (settle_step first p).1 ≡ some (r, backlog)
      → Facts (Later rest) later
      → Facts (After first rest) (after_step r (strip first) rest (absorb r backlog p) later)
  unfolding after_step
  after_step-Facts r first rest backlog p later c settled h =
      either-Facts (After first rest) r.terminal_failure r.should_halt _ _ later (omega arith)
        (λ halts. (
          halting-reason r backlog p c halts,
          inl (
            refl,
            refl,
            refl,
            (p, backlog, r, settled, halts, reason_of-first_text r, reason_of-not_empty r),
          ),
        ))
        (rest-Facts first rest later h)

  resume-Facts :
      (step : String) (rest : List String) (p : Progress) (loop : Progress → Act LoopEnd)
      (settled : DirectiveResult × List Fields)
      → CoherentFirst settled × ((settle_step step p).1 ≡ some settled)
      → ((q : Progress) → Facts (Later rest) (loop q))
      → Facts (After step rest) (resume plan_out (strip step) rest index p loop settled)
  unfolding resume
  resume-Facts step rest p loop (r, backlog) (c, settled) h =
      silent-Facts (After step rest) (λ u. Unit)
        (observe_text (has_entry plan_out.react_trace index) r.observation) _
        (observe_text-silent _ r.observation) (Returns-tt _)
        (λ u k.
          after_step-Facts r step rest backlog p (loop (absorb r backlog p)) c settled
            (h (absorb r backlog p)))

  begun-Facts :
      (first : String) (rest : List String) (m : Act LoopEnd)
      → Facts (After first rest) m
      → Returns (Ends (first ∷ rest) (suc (begun m.0))) m.1
  begun-Facts first rest (es, none) h = tt
  begun-Facts first rest (es, some ended) h =
      first-step validate rules world plan_out total index first rest (begun es) ended h

-- Of the loop over the steps of a plan, whatever the answers: if it ends at a failure for recovery,
-- that is at one of the steps, whose stripped text is the failed step. The steps that are left are
-- those after it, and as many steps were begun as stand up to it. From some progress of the plan the
-- handlers' result for that step halts it, and the reason is the failure's of that result, or else
-- its observation, or else a fixed text, and is not empty. Otherwise no more steps were begun than
-- there are.
pub steps_from-EndFacts :
    (validate : Fields → Option Directive) (rules : Rules) (world : World) (plan_out : PlanOut)
    (total : ℕ) (steps : List String) (index : ℕ) (p : Progress)
    → Returns
        (EndFacts validate rules world plan_out total index steps
          (begun (steps_from validate rules world plan_out total steps index p).0))
        (steps_from validate rules world plan_out total steps index p).1
unfolding steps_from
steps_from-EndFacts validate rules world plan_out total [] index p = omega arith
steps_from-EndFacts validate rules world plan_out total (step ∷ rest) index p =
    let i = step_input validate rules plan_out index total (strip step) p.last_target_coords in
    let loop = steps_from validate rules world plan_out total rest (index + 1) in
    let settling = handle_step rules (world.steps index) i p.action_backlog in
    let go_on = resume plan_out (strip step) rest index p loop in
    begun-Facts validate rules world plan_out total index step rest (settling >>= go_on) (
      silent-Facts (After validate rules world plan_out total index step rest)
        (λ settled. CoherentFirst settled × (settling.1 ≡ some settled)) settling go_on
        (handle_step-silent rules (world.steps index) i p.action_backlog)
        (Returns-equal CoherentFirst settling.1
          (handle_step-IsCoherent rules (world.steps index) i p.action_backlog))
        (λ settled c.
          resume-Facts validate rules world plan_out total index step rest p loop settled c
            (steps_from-EndFacts validate rules world plan_out total rest (index + 1))))
