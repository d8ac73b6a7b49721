-- ===== src/Planning/StepTraces.antt =====
-- What holds of the effects of a step: those of the handlers of Traces and of the chain of them.
use mc_bot_egent_practice.Prelude.{refl, String, Bool, ◌||◌, Option, none, some, List, str_eq}
use mc_bot_egent_practice.Python.{Fields, is_in}
use mc_bot_egent_practice.Planning.Effects.{Coords, Effect, moved, Act, pure, done}
use mc_bot_egent_practice.Planning.Steps.{
  Answers, Rules, ActionStepResult, move_to_coordinates, perform_action_task, report_status,
  report_or_none, handle_categorised, handle_action_step, resolve_action_category,
}
use mc_bot_egent_practice.Planning.Handlers.{
  DirectiveResult, observe, handle_minedojo_directive, handle_chat_directive,
  handle_hybrid_directive, handle_detection_task, detection_category, directive_category,
}
use mc_bot_egent_practice.Planning.Executor.{
  Settled, handle_coordinates_task, handle_status_check, attempt_proactive_progress,
  handle_proactive_move, handle_fallback, observe_text, conclude, or_else, or_after, StepInput,
  from_action_step, from_proactive_move, from_status_check, from_coordinates, from_detection,
  from_hybrid, from_chat, from_minedojo, handle_step,
}
use mc_bot_egent_practice.Planning.Traces.{
  IsTraceRule, bind-P, when-P, observe-P, settle-P, ask-P, scope-P, minedojo-P, chat-P, hybrid-P,
  detect-P, move_there-P, status_check-P, moved_on-P, if-P,
}

module _ {P : List Effect → Type 0} (rule : IsTraceRule P) where
  move-P : (answers : Answers) (c : Coords) → P (move_to_coordinates answers c).0
  unfolding move_to_coordinates
  move-P answers c = ask-P rule (moved c) answers.move_response _ refl (λ r. rule.nothing)

  progress-P :
      (rules : Rules) (answers : Answers) (step : String) (c : Option Coords)
      → P (attempt_proactive_progress rules answers step c).0
  unfolding attempt_proactive_progress
  progress-P rules answers step none = rule.nothing
  progress-P rules answers step (some c) =
      if-P rule (rules.should_continue_move step) _ _
        (bind-P rule (move_to_coordinates answers c) _ (move-P answers c)
          (λ m. moved_on-P rule rules answers step m.ok m.error_detail))
        rule.nothing

  proactive-P :
      (rules : Rules) (answers : Answers) (normalized : String) (c : Option Coords) (b : Bool)
      → P (handle_proactive_move rules answers normalized c b).0
  unfolding handle_proactive_move
  proactive-P rules answers normalized c b =
      bind-P rule (attempt_proactive_progress rules answers normalized c) _
        (progress-P rules answers normalized c) (λ on. when-P rule on _ (settle-P rule b _))

  perform_action-P :
      (rules : Rules) (answers : Answers) (step category : String) (meta : Option Fields)
      (c l : Option Coords) (backlog : List Fields)
      → P (perform_action_task rules answers step category meta c l backlog).0
  unfolding perform_action_task
  perform_action-P rules answers step category meta c l backlog =
      scope-P rule meta _ answers.action _ refl (λ a. rule.nothing)

  report-P :
      (answers : Answers) (step : String) (meta : Option Fields) (backlog : List Fields)
      → P (report_or_none answers step meta backlog).0
  unfolding report_or_none report_status
  report-P answers step meta backlog =
      if-P rule (is_in "報告" step || is_in "伝える" step) _ _
        (scope-P rule meta _ (done answers.report_said) _ refl (λ u. rule.nothing)) rule.nothing

  categorised-P :
      (rules : Rules) (answers : Answers) (step : String) (category : Option String)
      (meta : Option Fields) (c l : Option Coords) (backlog : List Fields)
      → P (handle_categorised rules answers step category meta c l backlog).0
  unfolding handle_categorised
  categorised-P rules answers step none meta c l backlog = report-P answers step meta backlog
  categorised-P rules answers step (some category) meta c l backlog =
      if-P rule (str_eq category "") _ _ (report-P answers step meta backlog)
        (perform_action-P rules answers step category meta c l backlog)

  fallback-P :
      (answers : Answers) (normalized : String) (b : Bool)
      → P (handle_fallback answers normalized b).0
  unfolding handle_fallback
  fallback-P answers normalized b =
      bind-P rule (observe b _) _ (observe-P rule b _)
        (λ u. ask-P rule _ (done answers.fallback_told) _ refl (λ v. rule.nothing))

  conclude-P :
      (answers : Answers) (normalized : String) (b : Bool) (r : Option ActionStepResult)
      (backlog : List Fields)
      → P (conclude answers normalized b (r, backlog)).0
  unfolding conclude
  conclude-P answers normalized b none backlog =
      bind-P rule (handle_fallback answers normalized b) _ (fallback-P answers normalized b)
        (λ r. rule.nothing)
  conclude-P answers normalized b (some r) backlog =
      bind-P rule (observe_text b r.observation) _ (observe-P rule _ r.observation)
        (λ u. rule.nothing)

  answered-P :
      (backlog : List Fields) (rest : Act (DirectiveResult × List Fields))
      (r : Option DirectiveResult)
      → P rest.0
      → P
          (elim r as (λ x. Act (DirectiveResult × List Fields)) [
            | none ↦ rest
            | some r' ↦ pure (r', backlog)
          ]).0
  answered-P backlog rest none h = h
  answered-P backlog rest (some r) h = rule.nothing

  or_else-P :
      (backlog : List Fields) (m : Act (Option DirectiveResult))
      (rest : Act (DirectiveResult × List Fields))
      → P m.0
      → P rest.0
      → P (or_else backlog m rest).0
  or_else-P backlog m rest h k = bind-P rule m _ h (λ r. answered-P backlog rest r k)

  or_after-P :
      (m : Act Settled) (rest : List Fields → Act (DirectiveResult × List Fields))
      → P m.0
      → ((backlog : List Fields) → P (rest backlog).0)
      → P (or_after m rest).0
  or_after-P m rest h k = bind-P rule m _ h (λ r. answered-P r.1 (rest r.1) r.0 (k r.1))

  module _ (rules : Rules) (answers : Answers) (i : StepInput) where
    action_step-P : (backlog : List Fields) → P (from_action_step rules answers i backlog).0
    unfolding from_action_step handle_action_step
    action_step-P backlog =
        bind-P rule
          (handle_action_step rules answers i.normalized (directive_category i.directive) i.meta
            i.directive_coords i.last_target_coords backlog)
          (conclude answers i.normalized i.has_react)
          (categorised-P rules answers i.normalized
            (resolve_action_category rules i.normalized (directive_category i.directive)) i.meta
            i.directive_coords i.last_target_coords backlog)
          (λ (r : Option ActionStepResult × List Fields).
            conclude-P answers i.normalized i.has_react r.0 r.1)

    status_check-then-P : (backlog : List Fields) → P (from_status_check rules answers i backlog).0
    unfolding from_status_check from_proactive_move
    status_check-then-P backlog =
        or_else-P backlog (handle_status_check i.normalized i.has_react)
          (from_proactive_move rules answers i backlog)
          (status_check-P rule i.normalized i.has_react)
          (or_else-P backlog
            (handle_proactive_move rules answers i.normalized i.last_target_coords i.has_react)
            (from_action_step rules answers i backlog)
            (proactive-P rules answers i.normalized i.last_target_coords i.has_react)
            (action_step-P backlog))

    detection-then-P : (backlog : List Fields) → P (from_detection rules answers i backlog).0
    unfolding from_detection from_coordinates handle_detection_task handle_coordinates_task
    detection-then-P backlog =
        or_else-P backlog
          (handle_detection_task rules answers i.directive i.meta i.normalized i.intent i.has_react)
          (from_coordinates rules answers i backlog)
          (detect-P rule rules answers i.meta i.has_react
            (detection_category rules (directive_category i.directive) i.normalized i.intent))
          (or_after-P
            (handle_coordinates_task rules answers i.directive i.meta i.normalized
              i.directive_coords i.argument_coords i.has_react backlog)
            (from_status_check rules answers i)
            (move_there-P rule answers i.directive i.meta i.normalized _ i.has_react backlog)
            status_check-then-P)

    minedojo-then-P : (backlog : List Fields) → P (from_minedojo rules answers i backlog).0
    unfolding from_minedojo from_chat from_hybrid
    minedojo-then-P backlog =
        or_else-P backlog (handle_minedojo_directive answers i.directive i.index i.has_react)
          (from_chat rules answers i backlog)
          (minedojo-P rule answers i.directive i.index i.has_react)
          (or_else-P backlog
            (handle_chat_directive rules answers i.directive i.normalized i.meta i.has_react)
            (from_hybrid rules answers i backlog)
            (chat-P rule rules answers i.directive i.normalized i.meta i.has_react)
            (or_else-P backlog (handle_hybrid_directive answers i.directive i.meta i.has_react)
              (from_detection rules answers i backlog)
              (hybrid-P rule answers i.directive i.meta i.has_react) (detection-then-P backlog)))

    pub handle_step-P : (backlog : List Fields) → P (handle_step rules answers i backlog).0
    unfolding handle_step
    handle_step-P backlog =
        if-P rule (str_eq i.normalized "") _ (from_minedojo rules answers i backlog) rule.nothing
          (minedojo-then-P backlog)
