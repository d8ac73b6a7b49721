-- ===== src/Planning/Replans.antt =====
-- How often a plan that fails is planned again.
use mc_bot_egent_practice.Prelude.{
  str_eq, ℕ, zero, suc, ◌+◌, ◌-◌, ◌≤◌, ◌<◌, ◌≡◌, refl, String, Bool, true, Option, none, some, List,
  [], ◌∷◌, ◌++◌, arith, leb, Bool-cases, inl, inr,
}
use mc_bot_egent_practice.Python.{Fields, strip}
use mc_bot_egent_practice.Planning.Effects.{
  ◌>>=◌, Coords, Effect, scope_ended, said, replan_requested, exhausted, Act, pure, ask, done,
}
use mc_bot_egent_practice.Planning.Directive.{Directive, PlanOut}
use mc_bot_egent_practice.Planning.Steps.{Rules}
use mc_bot_egent_practice.Planning.Recovery.{RecoveryAnswers, say_resp, request_replan}
use mc_bot_egent_practice.Planning.Run.{World, run_plan}
use mc_bot_egent_practice.Planning.Traces.{IsTraceRule, is_work, if-P}
use mc_bot_egent_practice.Planning.RunTraces.{IsRunRule, is_bookkeeping, continue-R, execute-R}

-- The other plans that are asked for, and the ends of the fuel.
abbrev pub replans : List Effect → ℕ
replans [] = 0
replans (replan_requested depth instruction ∷ es) = suc (replans es)
replans (e ∷ es) = replans es

abbrev pub exhaustions : List Effect → ℕ
exhaustions [] = 0
exhaustions (exhausted ∷ es) = suc (exhaustions es)
exhaustions (e ∷ es) = exhaustions es

abbrev one_replan : Effect → ℕ
one_replan (replan_requested depth instruction) = 1
one_replan _ = 0

abbrev one_exhaustion : Effect → ℕ
one_exhaustion exhausted = 1
one_exhaustion _ = 0

replans-cons : (e : Effect) (es : List Effect) → replans (e ∷ es) ≡ one_replan e + replans es
replans-cons (replan_requested depth instruction) es = omega arith
replans-cons e es = omega arith

exhaustions-cons :
    (e : Effect) (es : List Effect) → exhaustions (e ∷ es) ≡ one_exhaustion e + exhaustions es
exhaustions-cons exhausted es = omega arith
exhaustions-cons e es = omega arith

replans-append : (xs ys : List Effect) → replans (xs ++ ys) ≡ replans xs + replans ys
replans-append [] ys = omega arith
replans-append (x ∷ xs) ys =
    omega (arith, replans-cons x xs, replans-cons x (xs ++ ys), replans-append xs ys)

exhaustions-append :
    (xs ys : List Effect) → exhaustions (xs ++ ys) ≡ exhaustions xs + exhaustions ys
exhaustions-append [] ys = omega arith
exhaustions-append (x ∷ xs) ys =
    omega (arith, exhaustions-cons x xs, exhaustions-cons x (xs ++ ys), exhaustions-append xs ys)

-- At most n other plans are asked for, and the fuel does not end.
abbrev pub IsBounded : ℕ → List Effect → Type 0
IsBounded n es = (replans es ≤ n) × (exhaustions es ≡ 0)

IsBounded-append :
    (n : ℕ) (xs ys : List Effect) → IsBounded 0 xs → IsBounded n ys → IsBounded n (xs ++ ys)
IsBounded-append n xs ys (h, k) (h', k') =
    (omega (arith, replans-append xs ys), omega (arith, exhaustions-append xs ys))

work-IsBounded : (e : Effect) → is_work e ≡ true → IsBounded 0 (e ∷ [])
work-IsBounded (replan_requested depth instruction) w = cc
work-IsBounded exhausted w = cc
work-IsBounded e w = (omega arith, refl)

bookkeeping-IsBounded : (e : Effect) → is_bookkeeping e ≡ true → IsBounded 0 (e ∷ [])
bookkeeping-IsBounded (replan_requested depth instruction) w = cc
bookkeeping-IsBounded exhausted w = cc
bookkeeping-IsBounded e w = (omega arith, refl)

handlers-IsBounded : IsTraceRule (IsBounded 0)
handlers-IsBounded = record {
  nothing = (omega arith, refl);
  both = IsBounded-append 0;
  work = work-IsBounded;
  scoped = λ meta e w.
      IsBounded-append 0 (e ∷ []) (scope_ended ∷ []) (work-IsBounded e w) (omega arith, refl);
}

runs-IsBounded : (n : ℕ) → IsRunRule (IsBounded 0) (IsBounded n)
runs-IsBounded n = record {
  handlers = handlers-IsBounded;
  bookkeeping = bookkeeping-IsBounded;
  whole = λ xs h. (omega (arith, h.0), h.1);
  before = IsBounded-append n;
}

say_resp-IsBounded : (returns : Bool) (resp : String) → IsBounded 0 (say_resp returns resp).0
say_resp-IsBounded returns resp =
    if-P handlers-IsBounded (str_eq (strip resp) "") (pure tt) (ask (said resp) (done returns))
      (omega arith, refl) (omega arith, refl)

-- A replan and the plan that is run then.
replanned-IsBounded :
    (n depth : ℕ) (instruction : String) (answers : RecoveryAnswers) (o : Option PlanOut)
    (runner : PlanOut → Act (Unit {0}))
    → ((plan_out : PlanOut) → IsBounded n (runner plan_out).0)
    → IsBounded
        (suc n)
        (ask (replan_requested depth instruction) o >>= λ new_plan.
          say_resp answers.resp_said new_plan.resp >>= λ u. runner new_plan).0
replanned-IsBounded n depth instruction answers none runner h = (omega arith, refl)
replanned-IsBounded n depth instruction answers (some new_plan) runner h =
    let said_plan =
      continue-R (runs-IsBounded n) (say_resp answers.resp_said new_plan.resp).0
        (say_resp answers.resp_said new_plan.resp).1 (λ u. runner new_plan)
        (say_resp-IsBounded answers.resp_said new_plan.resp) (λ u. h new_plan) in
    (omega (arith, said_plan.0), said_plan.1)

module _ (validate : Fields → Option Directive) (rules : Rules) (max : ℕ) (worlds : ℕ → World) where
  request_replan-IsBounded :
      (depth : ℕ) (runner : PlanOut → Act (Unit {0})) (instruction : String)
      → (depth < max → (plan_out : PlanOut) → IsBounded (max - (depth + 1)) (runner plan_out).0)
      → IsBounded
          (max - depth)
          (request_replan rules (worlds depth).recovery max depth runner instruction).0
  unfolding request_replan
  request_replan-IsBounded depth runner instruction h = elim (Bool-cases (leb max depth)) [
    | inl enough ↦ rw enough (omega arith, refl)
    | inr more ↦
        let below : depth < max = ground (arith, more) in
        let r =
          replanned-IsBounded (max - (depth + 1)) (depth + 1) instruction (worlds depth).recovery
            (worlds depth).recovery.new_plan runner (h below) in
        rw more (omega (arith, r.0, below), r.1)
  ]

  -- Whatever the answers, a run asks for no more plans than the depths that are left, so that one
  -- with more fuel than these always comes to its end: it never runs out of fuel.
  pub run_plan-IsBounded :
      (fuel depth : ℕ) (plan_out : PlanOut) (target : Option Coords)
      → max - depth < fuel
      → IsBounded (max - depth) (run_plan validate rules max worlds fuel depth plan_out target).0
  unfolding run_plan
  run_plan-IsBounded zero depth plan_out target h = absurd (omega (arith, h))
  run_plan-IsBounded (suc fuel) depth plan_out target h =
      let runner = λ (p : PlanOut). run_plan validate rules max worlds fuel (depth + 1) p none in
      execute-R (runs-IsBounded (max - depth)) validate rules max worlds depth plan_out target
        runner
        (λ instruction.
          request_replan-IsBounded depth runner instruction
            (λ below p. run_plan-IsBounded fuel (depth + 1) p none (omega (arith, h, below))))
