-- ===== src/Planning/Run.antt =====
-- `PlanExecutor.run` of python/orchestrator/plan_executor.py.
use mc_bot_egent_practice.Prelude.{
  ◌==◌, ℕ, zero, suc, ◌+◌, ◌-◌, String, Bool, true, false, not, ◌||◌, Option, none, some, List, [],
  ◌∷◌, ◌++◌, str_eq, is_some, length, if◌then◌else◌,
}
use mc_bot_egent_practice.Python.{Fields, text, end, field, strip}
use mc_bot_egent_practice.Planning.Effects.{
  Coords, said, barrier_reported, reports_handled, backlog_handled, step_begun,
  reflection_finalized, exhausted, Act, pure, ask, done, ◌>>=◌,
}
use mc_bot_egent_practice.Planning.Directive.{
  Directive, PlanOut, at, resolve_directive_for_step, build_directive_meta,
  extract_directive_coordinates, coerce_coordinate_tuple,
}
use mc_bot_egent_practice.Planning.Steps.{
  Answers, Rules, Status, failed, refused_text, or_default, or_coords,
}
use mc_bot_egent_practice.Planning.Handlers.{DirectiveResult}
use mc_bot_egent_practice.Planning.Executor.{StepInput, handle_step, observe_text}
use mc_bot_egent_practice.Planning.Recovery.{RecoveryAnswers, hand_over, handle_failure}

-- What the calls come to while one plan is run; the n-th step has the n-th answers.
pub record World : Type 0 where
  pub steps : ℕ → Answers
  pub follow_up_said : Bool
  pub barrier_told : Bool
  pub reports_said : Bool
  pub backlog_said : Bool
  pub recovery : RecoveryAnswers

-- The variables of the loop.
pub record Progress : Type 0 where
  pub last_target_coords : Option Coords
  pub execution_failure_reason : Option String
  pub detection_reports : List Fields
  pub action_backlog : List Fields

-- How the loop ends: after the last step or a terminal failure, or at a failure that recovery
-- handles, with the step, the reason and the steps that are left.
pub data LoopEnd : Type 0 where
  finished : Progress → LoopEnd
  halted : String → String → List String → Progress → LoopEnd

abbrev pub is_failed : Status → Bool
is_failed failed = true
is_failed _ = false

-- result.failure_reason or observation_text or the default
abbrev pub reason_of : DirectiveResult → String
reason_of r = or_default r.failure_reason (or_default (some r.observation) refused_text)

abbrev pub first_reason : Option String → DirectiveResult → Option String
first_reason (some reason) r = some reason
first_reason none r = if is_failed r.status then some (reason_of r) else none

abbrev pub with_report : List Fields → Option Fields → List Fields
with_report reports none = reports
with_report reports (some end) = reports
with_report reports (some (field k v fs)) = reports ++ field k v fs ∷ []

unfoldable pub absorb : DirectiveResult → List Fields → Progress → Progress
absorb r backlog p = record {
  last_target_coords = or_coords r.last_target_coords p.last_target_coords;
  execution_failure_reason = first_reason p.execution_failure_reason r;
  detection_reports = with_report p.detection_reports r.detection_report;
  action_backlog = backlog;
}

-- After a step: the loop ends, or goes on with the rest.
unfoldable pub after_step :
    DirectiveResult → String → List String → Progress → Act LoopEnd → Act LoopEnd
after_step r normalized remaining p later =
    if r.terminal_failure
    then pure (finished p)
    else if r.should_halt
    then pure (halted normalized (reason_of r) remaining p)
    else later

abbrev pub has_entry : List String → ℕ → Bool
has_entry react_trace index = is_some (at (index - 1) react_trace)

-- The part of the loop's body after `handle_step`, with the rest of the loop.
unfoldable pub resume :
    PlanOut
    → String
    → List String
    → ℕ
    → Progress
    → (Progress → Act LoopEnd)
    → DirectiveResult × List Fields
    → Act LoopEnd
unfolding absorb after_step
resume plan_out normalized rest index p loop (r, backlog) = do
  _ ← observe_text (has_entry plan_out.react_trace index) r.observation
  after_step r normalized rest (absorb r backlog p) (loop (absorb r backlog p))

-- A plan that waits for the player.
unfoldable pub waits : PlanOut → Bool
waits plan_out =
    plan_out.blocking
    || not (str_eq plan_out.clarification_needed "none")
    || str_eq plan_out.next_action "chat"

module _ (validate : Fields → Option Directive) (rules : Rules) where
  unfoldable pub step_input : PlanOut → ℕ → ℕ → String → Option Coords → StepInput
  unfolding resolve_directive_for_step build_directive_meta extract_directive_coordinates
      coerce_coordinate_tuple
  step_input plan_out index total_steps normalized last_target_coords =
      let d = resolve_directive_for_step validate plan_out.directives index normalized in
      record {
        directive = d;
        meta = build_directive_meta d plan_out index total_steps;
        directive_coords = extract_directive_coordinates d;
        argument_coords = coerce_coordinate_tuple plan_out.coordinates;
        normalized = normalized;
        intent = plan_out.intent;
        index = index;
        has_react = has_entry plan_out.react_trace index;
        last_target_coords = last_target_coords;
      }

  -- The loop from a step's number on. `result.handled` is never false; the loop would go on.
  unfoldable pub steps_from : World → PlanOut → ℕ → List String → ℕ → Progress → Act LoopEnd
  unfolding step_input handle_step resume
  steps_from world plan_out total_steps [] index p = pure (finished p)
  steps_from world plan_out total_steps (step ∷ rest) index p = do
    _ ← ask (step_begun index total_steps) (done true)
    settled ←
        handle_step rules (world.steps index)
          (step_input plan_out index total_steps (strip step) p.last_target_coords) p.action_backlog
    resume plan_out (strip step) rest index p
        (steps_from world plan_out total_steps rest (index + 1)) settled

  -- After the loop: `bool(plan_out.resp.strip())` tells the handlers whether to speak.
  unfoldable pub conclude_steps :
      World → PlanOut → Option String → List Fields → List Fields → Act (Unit {0})
  conclude_steps world plan_out (some reason) reports backlog =
      ask (reflection_finalized "failed" reason) (done true)
  conclude_steps world plan_out none reports backlog =
      let responded = not (str_eq (strip plan_out.resp) "") in
      (do
        _ ← hand_over reports_handled reports responded world.reports_said
        _ ← hand_over backlog_handled backlog responded world.backlog_said
        ask (reflection_finalized "success" "計画ステップを完了") (done true))

  unfoldable pub finish : World → PlanOut → Progress → Act (Unit {0})
  unfolding conclude_steps
  finish world plan_out p =
      conclude_steps world plan_out p.execution_failure_reason p.detection_reports p.action_backlog

  unfoldable pub follow_up : World → PlanOut → Act (Unit {0})
  follow_up world plan_out =
      let message = or_default (some (strip plan_out.resp)) "作業内容を確認させてください。" in
      let reason =
        or_default (some plan_out.clarification_needed)
          (if plan_out.blocking then "blocking" else "none") in
      let item = field "category" (text "chat") (
        field "label" (text "フォローアップ質問")
          (field "message" (text message) (field "reason" (text reason) end))) in
      (do
        _ ← ask (said message) (done world.follow_up_said)
        ask (backlog_handled (plan_out.backlog ++ item ∷ []) true) (done true))

  module _ (max_replan_depth : ℕ) (worlds : ℕ → World) where
    -- The end of the loop; recovery runs another plan by the last argument.
    unfoldable pub conclude_loop :
        ℕ → PlanOut → (PlanOut → Act (Unit {0})) → LoopEnd → Act (Unit {0})
    unfolding finish handle_failure
    conclude_loop depth plan_out runner (finished p) = finish (worlds depth) plan_out p
    conclude_loop depth plan_out runner (halted step reason remaining p) =
        handle_failure rules (worlds depth).recovery max_replan_depth depth runner step reason
          p.detection_reports p.action_backlog remaining

    -- The loop over the steps, and what follows it.
    unfoldable pub execute_steps :
        ℕ → PlanOut → Option Coords → (PlanOut → Act (Unit {0})) → Act (Unit {0})
    unfolding steps_from conclude_loop
    execute_steps depth plan_out initial_target runner = do
      ended ← steps_from (worlds depth) plan_out (length plan_out.plan) plan_out.plan 1 (record {
        last_target_coords = initial_target;
        execution_failure_reason = none;
        detection_reports = [];
        action_backlog = plan_out.backlog;
      })
      conclude_loop depth plan_out runner ended

    unfoldable pub execute :
        ℕ → PlanOut → Option Coords → (PlanOut → Act (Unit {0})) → Act (Unit {0})
    unfolding execute_steps waits follow_up
    execute depth plan_out initial_target runner =
        if waits plan_out
        then follow_up (worlds depth) plan_out
        else if length plan_out.plan == 0
        then ask (barrier_reported "LLM が生成した計画" "手順が 1 件も返されず、行動に移れません。プロンプトや状況を確認してください。")
            (done (worlds depth).barrier_told)
        else execute_steps depth plan_out initial_target runner

    -- The fuel counts the plans that are run one inside the other.
    unfoldable pub run_plan : ℕ → ℕ → PlanOut → Option Coords → Act (Unit {0})
    unfolding execute
    run_plan zero depth plan_out initial_target = ask exhausted (done true)
    run_plan (suc fuel) depth plan_out initial_target =
        execute depth plan_out initial_target (λ new_plan. run_plan fuel (depth + 1) new_plan none)
