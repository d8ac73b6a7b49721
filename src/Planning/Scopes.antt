-- ===== src/Planning/Scopes.antt =====
-- The directive scopes of a run.
use mc_bot_egent_practice.Prelude.{
  sym, ◌∙◌, fun_ext, ap, sym, ap, fun_ext, ◌∙◌, str_eq, ℕ, zero, suc, ◌+◌, ◌≡◌, refl, String, Bool,
  true, false, Option, none, some, List, [], ◌∷◌, ◌++◌, leb,
}
use mc_bot_egent_practice.Python.{strip, Fields}
use mc_bot_egent_practice.Planning.Effects.{
  ◌>>=◌, Coords, Effect, scope_begun, scope_ended, said, replan_requested, Act, pure, ask, done,
}
use mc_bot_egent_practice.Planning.Directive.{Directive, PlanOut}
use mc_bot_egent_practice.Planning.Steps.{Rules}
use mc_bot_egent_practice.Planning.Recovery.{say_resp, request_replan}
use mc_bot_egent_practice.Planning.Run.{World, run_plan}
use mc_bot_egent_practice.Planning.Traces.{IsTraceRule, is_work, bind-P, if-P}
use mc_bot_egent_practice.Planning.RunTraces.{IsRunRule, is_bookkeeping, execute-R}

-- Whether a scope is open after an effect; none where one begins in another or ends without one.
abbrev scope_after : Effect → Bool → Option Bool
scope_after (scope_begun meta) false = some true
scope_after (scope_begun meta) true = none
scope_after scope_ended true = some false
scope_after scope_ended false = none
scope_after _ is_open = some is_open

abbrev follow : Option Bool → (Bool → Option Bool) → Option Bool
follow none f = none
follow (some b) f = f b

abbrev scope_at_end : List Effect → Bool → Option Bool
scope_at_end [] is_open = some is_open
scope_at_end (e ∷ es) is_open = follow (scope_after e is_open) (scope_at_end es)

-- Every scope that begins ends, and none begins in another.
abbrev pub AreScopesClosed : List Effect → Type 0
AreScopesClosed es = scope_at_end es false ≡ some false

follow_assoc :
    (o : Option Bool) (f g : Bool → Option Bool)
    → follow (follow o f) g ≡ follow o (λ b. follow (f b) g)
follow_assoc none f g = refl
follow_assoc (some b) f g = refl

scope_at_end-append :
    (xs ys : List Effect) (b : Bool)
    → scope_at_end (xs ++ ys) b ≡ follow (scope_at_end xs b) (scope_at_end ys)
scope_at_end-append [] ys b = refl
scope_at_end-append (x ∷ xs) ys b =
    ap (follow (scope_after x b)) (fun_ext (λ c. scope_at_end-append xs ys c))
    ∙ sym (follow_assoc (scope_after x b) (scope_at_end xs) (scope_at_end ys))

work-keeps : (e : Effect) (b : Bool) → is_work e ≡ true → scope_after e b ≡ some b
work-keeps (scope_begun meta) b w = cc
work-keeps scope_ended b w = cc
work-keeps e b w = refl

bookkeeping-keeps : (e : Effect) (b : Bool) → is_bookkeeping e ≡ true → scope_after e b ≡ some b
bookkeeping-keeps (scope_begun meta) b w = cc
bookkeeping-keeps scope_ended b w = cc
bookkeeping-keeps e b w = refl

AreScopesClosed-append :
    (xs ys : List Effect) → AreScopesClosed xs → AreScopesClosed ys → AreScopesClosed (xs ++ ys)
AreScopesClosed-append xs ys h k = scope_at_end-append xs ys false ∙ rw h k

closed_handlers : IsTraceRule AreScopesClosed
closed_handlers = record {
  nothing = refl;
  both = AreScopesClosed-append;
  work = λ e w. rw (work-keeps e false w) refl;
  scoped = λ meta e w. rw (work-keeps e true w) refl;
}

closed_runs : IsRunRule AreScopesClosed AreScopesClosed
closed_runs = record {
  handlers = closed_handlers;
  bookkeeping = λ e w. rw (bookkeeping-keeps e false w) refl;
  whole = λ xs h. h;
  before = AreScopesClosed-append;
}

say_resp-closed : (returns : Bool) (resp : String) → AreScopesClosed (say_resp returns resp).0
say_resp-closed returns resp =
    if-P closed_handlers (str_eq (strip resp) "") (pure tt) (ask (said resp) (done returns)) refl
      refl

module _ (validate : Fields → Option Directive) (rules : Rules) (max : ℕ) (worlds : ℕ → World) where
  request_replan-closed :
      (depth : ℕ) (runner : PlanOut → Act (Unit {0})) (instruction : String)
      → ((plan_out : PlanOut) → AreScopesClosed (runner plan_out).0)
      → AreScopesClosed
          (request_replan rules (worlds depth).recovery max depth runner instruction).0
  unfolding request_replan
  request_replan-closed depth runner instruction h =
      let r = (worlds depth).recovery in
      if-P closed_handlers (leb max depth) (pure tt) _ refl (
        bind-P closed_handlers (ask (replan_requested (depth + 1) instruction) r.new_plan)
          (λ new_plan. say_resp r.resp_said new_plan.resp >>= λ u. runner new_plan) refl
          (λ new_plan.
            bind-P closed_handlers (say_resp r.resp_said new_plan.resp) (λ u. runner new_plan)
              (say_resp-closed r.resp_said new_plan.resp) (λ u. h new_plan)))

  -- Whatever the answers, and also where an exception ends it: in a run of a plan, with the plans
  -- that recovery runs inside it, every directive scope that begins ends, and none begins inside
  -- another.
  pub run_plan-AreScopesClosed :
      (fuel depth : ℕ) (plan_out : PlanOut) (target : Option Coords)
      → AreScopesClosed (run_plan validate rules max worlds fuel depth plan_out target).0
  unfolding run_plan
  run_plan-AreScopesClosed zero depth plan_out target = refl
  run_plan-AreScopesClosed (suc fuel) depth plan_out target =
      execute-R closed_runs validate rules max worlds depth plan_out target
        (λ new_plan. run_plan validate rules max worlds fuel (depth + 1) new_plan none)
        (λ instruction.
          request_replan-closed depth
            (λ new_plan. run_plan validate rules max worlds fuel (depth + 1) new_plan none)
            instruction (λ new_plan. run_plan-AreScopesClosed fuel (depth + 1) new_plan none))
