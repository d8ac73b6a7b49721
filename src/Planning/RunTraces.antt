-- ===== src/Planning/RunTraces.antt =====
-- What holds of the effects of a whole run of a plan, up to the plan that recovery runs inside it.
use mc_bot_egent_practice.Prelude.{
  ℕ, ◌+◌, ◌≡◌, refl, String, Bool, true, false, Option, none, some, List, [], ◌∷◌, ◌++◌, length,
  ◌==◌, if◌then◌else◌,
}
use mc_bot_egent_practice.Python.{Fields, strip}
use mc_bot_egent_practice.Planning.Effects.{
  Coords, Effect, said, barrier_reported, step_begun, reports_handled, backlog_handled,
  reflection_finalized, reflection_begun, prompt_kept, hints_kept, Act, pure, ask, done,
  continue_with, ◌>>=◌,
}
use mc_bot_egent_practice.Planning.Directive.{Directive, PlanOut}
use mc_bot_egent_practice.Planning.Steps.{Rules}
use mc_bot_egent_practice.Planning.Handlers.{DirectiveResult}
use mc_bot_egent_practice.Planning.Executor.{handle_step, observe_text}
use mc_bot_egent_practice.Planning.Recovery.{
  share_and_replan, RecoveryAnswers, hand_over, request_replan, handle_failure,
}
use mc_bot_egent_practice.Planning.Run.{
  execute_steps, reason_of, conclude_steps, resume, World, Progress, LoopEnd, finished, halted,
  absorb, after_step, has_entry, step_input, steps_from, finish, waits, follow_up, conclude_loop,
  execute,
}
use mc_bot_egent_practice.Planning.Traces.{if-P, IsTraceRule, bind-P, observe-P}
use mc_bot_egent_practice.Planning.StepTraces.{handle_step-P}

-- The effects of a run beside those of its handlers, its scopes and its replans.
abbrev pub is_bookkeeping : Effect → Bool
is_bookkeeping (step_begun n m) = true
is_bookkeeping (reports_handled r b) = true
is_bookkeeping (backlog_handled r b) = true
is_bookkeeping (reflection_finalized o d) = true
is_bookkeeping (reflection_begun s r) = true
is_bookkeeping (prompt_kept p) = true
is_bookkeeping (hints_kept s r) = true
is_bookkeeping _ = false

-- `P` holds of every part of a run, and `R` of the parts followed by a replan.
pub record IsRunRule (P R : List Effect → Type 0) : Type 0 where
  pub handlers : IsTraceRule P
  pub bookkeeping : (e : Effect) → is_bookkeeping e ≡ true → P (e ∷ [])
  pub whole : (xs : List Effect) → P xs → R xs
  pub before : (xs ys : List Effect) → P xs → R ys → R (xs ++ ys)

module _ {P R : List Effect → Type 0} (rule : IsRunRule P R) where
  pub continue-R :
      {A B : Type 0} (es : List Effect) (o : Option A) (f : A → Act B)
      → P es
      → ((a : A) → R (f a).0)
      → R (continue_with es o f).0
  continue-R es none f h k = rule.whole es h
  continue-R es (some a) f h k = rule.before es (f a).0 h (k a)

  bind-R :
      {A B : Type 0} (m : Act A) (f : A → Act B) → P m.0 → ((a : A) → R (f a).0) → R (m >>= f).0
  bind-R m f h k = continue-R m.0 m.1 f h k

  hand_over-P :
      (effect : List Fields → Bool → Effect) (xs : List Fields) (responded returns : Bool)
      → ((ys : List Fields) (b : Bool) → is_bookkeeping (effect ys b) ≡ true)
      → P (hand_over effect xs responded returns).0
  hand_over-P effect [] responded returns h = rule.handlers.nothing
  hand_over-P effect (x ∷ xs) responded returns h =
      rule.bookkeeping (effect (x ∷ xs) responded) (h (x ∷ xs) responded)

  pub if-R : {A : Type 0} (b : Bool) (m n : Act A) → R m.0 → R n.0 → R (if b then m else n).0
  if-R true m n h k = h
  if-R false m n h k = k

  note-P : (e : Effect) (xs : List Effect) → is_bookkeeping e ≡ true → P xs → P (e ∷ xs)
  note-P e xs b h = rule.handlers.both (e ∷ []) xs (rule.bookkeeping e b) h

  note-R : (e : Effect) (xs : List Effect) → is_bookkeeping e ≡ true → R xs → R (e ∷ xs)
  note-R e xs b h = rule.before (e ∷ []) xs (rule.bookkeeping e b) h

  after_step-P :
      (r : DirectiveResult) (normalized : String) (remaining : List String) (p : Progress)
      (later : Act LoopEnd)
      → P later.0
      → P (after_step r normalized remaining p later).0
  unfolding after_step
  after_step-P r normalized remaining p later h =
      if-P rule.handlers r.terminal_failure (pure (finished p)) _ rule.handlers.nothing (
        if-P rule.handlers r.should_halt (pure (halted normalized (reason_of r) remaining p)) later
          rule.handlers.nothing h)

  resume-P :
      (plan_out : PlanOut) (normalized : String) (rest : List String) (index : ℕ) (p : Progress)
      (loop : Progress → Act LoopEnd) (settled : DirectiveResult × List Fields)
      → ((p' : Progress) → P (loop p').0)
      → P (resume plan_out normalized rest index p loop settled).0
  unfolding resume
  resume-P plan_out normalized rest index p loop (r, backlog) h =
      bind-P rule.handlers (observe_text (has_entry plan_out.react_trace index) r.observation)
        (λ u. after_step r normalized rest (absorb r backlog p) (loop (absorb r backlog p)))
        (observe-P rule.handlers _ r.observation)
        (λ u. after_step-P r normalized rest (absorb r backlog p) _ (h (absorb r backlog p)))

  module _ (validate : Fields → Option Directive) (rules : Rules) where
    pub steps_from-P :
        (world : World) (plan_out : PlanOut) (total : ℕ) (steps : List String) (index : ℕ)
        (p : Progress)
        → P (steps_from validate rules world plan_out total steps index p).0
    unfolding steps_from
    steps_from-P world plan_out total [] index p = rule.handlers.nothing
    steps_from-P world plan_out total (step ∷ rest) index p =
        let input =
          step_input validate rules plan_out index total (strip step) p.last_target_coords in
        let loop = steps_from validate rules world plan_out total rest (index + 1) in
        note-P (step_begun index total) _ refl (
          bind-P rule.handlers (handle_step rules (world.steps index) input p.action_backlog)
            (resume plan_out (strip step) rest index p loop)
            (handle_step-P rule.handlers rules (world.steps index) input p.action_backlog)
            (λ settled.
              resume-P plan_out (strip step) rest index p loop settled
                (steps_from-P world plan_out total rest (index + 1))))

    conclude_steps-P :
        (world : World) (plan_out : PlanOut) (o : Option String) (reports backlog : List Fields)
        → P (conclude_steps validate rules world plan_out o reports backlog).0
    unfolding conclude_steps
    conclude_steps-P world plan_out (some reason) reports backlog =
        rule.bookkeeping (reflection_finalized "failed" reason) refl
    conclude_steps-P world plan_out none reports backlog =
        bind-P rule.handlers (hand_over reports_handled reports _ world.reports_said) _
          (hand_over-P reports_handled reports _ world.reports_said (λ r b. refl))
          (λ u.
            bind-P rule.handlers (hand_over backlog_handled backlog _ world.backlog_said) _
              (hand_over-P backlog_handled backlog _ world.backlog_said (λ r b. refl))
              (λ v. rule.bookkeeping (reflection_finalized "success" "計画ステップを完了") refl))

    follow_up-P :
        (world : World) (plan_out : PlanOut) → P (follow_up validate rules world plan_out).0
    unfolding follow_up
    follow_up-P world plan_out =
        bind-P rule.handlers (ask (said _) (done world.follow_up_said)) _
          (rule.handlers.work (said _) refl) (λ u. rule.bookkeeping (backlog_handled _ true) refl)

    module _ (answers : RecoveryAnswers) (max depth : ℕ) (runner : PlanOut → Act (Unit {0}))
        (replans : (instruction : String)
          → R (request_replan rules answers max depth runner instruction).0) where
      share_and_replan-R :
          (reports backlog : List Fields) (instruction : String)
          → R (share_and_replan rules answers max depth runner reports backlog instruction).0
      unfolding share_and_replan
      share_and_replan-R reports backlog instruction =
          bind-R {B = Unit {0}} (hand_over reports_handled reports true true) _
            (hand_over-P reports_handled reports true true (λ r b. refl))
            (λ u.
              bind-R {B = Unit {0}} (hand_over backlog_handled backlog true true)
                (λ v. request_replan rules answers max depth runner instruction)
                (hand_over-P backlog_handled backlog true true (λ r b. refl))
                (λ v. replans instruction))

      handle_failure-R :
          (step reason : String) (reports backlog : List Fields) (remaining : List String)
          → R
              (handle_failure rules answers max depth runner step reason reports backlog
                remaining).0
      unfolding handle_failure
      handle_failure-R step reason reports backlog remaining =
          bind-R {B = Unit {0}} (ask (barrier_reported step reason) (done answers.barrier_told)) _
            (rule.handlers.work (barrier_reported step reason) refl)
            (λ u. note-R (reflection_finalized "failed" _) _ refl (
              note-R (reflection_begun step _) _ refl (
                note-R (prompt_kept _) _ refl
                  (note-R (hints_kept _ _) _ refl (share_and_replan-R _ backlog _)))))

    module _ (max : ℕ) (worlds : ℕ → World) where
      conclude_loop-R :
          (depth : ℕ) (plan_out : PlanOut) (runner : PlanOut → Act (Unit {0})) (ended : LoopEnd)
          → ((instruction : String)
              → R (request_replan rules (worlds depth).recovery max depth runner instruction).0)
          → R (conclude_loop validate rules max worlds depth plan_out runner ended).0
      unfolding conclude_loop finish
      conclude_loop-R depth plan_out runner (finished p) replans = rule.whole _ (
          conclude_steps-P (worlds depth) plan_out p.execution_failure_reason p.detection_reports
            p.action_backlog)
      conclude_loop-R depth plan_out runner (halted step reason remaining p) replans =
          handle_failure-R (worlds depth).recovery max depth runner replans step reason
            p.detection_reports p.action_backlog remaining

      execute_steps-R :
          (depth : ℕ) (plan_out : PlanOut) (target : Option Coords)
          (runner : PlanOut → Act (Unit {0}))
          → ((instruction : String)
              → R (request_replan rules (worlds depth).recovery max depth runner instruction).0)
          → R (execute_steps validate rules max worlds depth plan_out target runner).0
      unfolding execute_steps
      execute_steps-R depth plan_out target runner replans =
          bind-R {A = LoopEnd} {B = Unit {0}} _
            (conclude_loop validate rules max worlds depth plan_out runner)
            (steps_from-P (worlds depth) plan_out (length plan_out.plan) plan_out.plan 1 _)
            (λ ended. conclude_loop-R depth plan_out runner ended replans)

      pub execute-R :
          (depth : ℕ) (plan_out : PlanOut) (target : Option Coords)
          (runner : PlanOut → Act (Unit {0}))
          → ((instruction : String)
              → R (request_replan rules (worlds depth).recovery max depth runner instruction).0)
          → R (execute validate rules max worlds depth plan_out target runner).0
      unfolding execute
      execute-R depth plan_out target runner replans =
          if-R (waits plan_out) (follow_up validate rules (worlds depth) plan_out) _
            (rule.whole _ (follow_up-P (worlds depth) plan_out))
            (if-R (length plan_out.plan == 0)
              (ask (barrier_reported _ _) (done (worlds depth).barrier_told))
              (execute_steps validate rules max worlds depth plan_out target runner)
              (rule.whole _ (rule.handlers.work (barrier_reported _ _) refl))
              (execute_steps-R depth plan_out target runner replans))
