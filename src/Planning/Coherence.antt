-- ===== src/Planning/Coherence.antt =====
-- The result of a step over the whole chain of handlers.
use mc_bot_egent_practice.Prelude.{
  refl, String, Bool, Option, none, some, List, Bool-cases, inl, inr, str_eq,
}
use mc_bot_egent_practice.Python.{Fields}
use mc_bot_egent_practice.Planning.Effects.{Act, pure, ask, done}
use mc_bot_egent_practice.Planning.Steps.{
  Answers, Rules, ActionStepResult, handle_action_step, resolve_action_category,
}
use mc_bot_egent_practice.Planning.Handlers.{
  DirectiveResult, observe, handle_minedojo_directive, handle_chat_directive,
  handle_hybrid_directive, handle_detection_task, detection_category, directive_category,
}
use mc_bot_egent_practice.Planning.Executor.{
  Settled, handle_coordinates_task, handle_status_check, handle_proactive_move, handle_fallback,
  observe_text, conclude, or_else, or_after, StepInput, from_action_step, from_proactive_move,
  from_status_check, from_coordinates, from_detection, from_hybrid, from_chat, from_minedojo,
  handle_step,
}
use mc_bot_egent_practice.Prelude.Traced.{Returns, Returns-bind, Returns-then}
use mc_bot_egent_practice.Planning.Results.{
  IsCoherent, Answered, AnsweredFirst, CoherentFirst, AnsweredStep, minedojo-Answered,
  chat-Answered, hybrid-Answered, detect-Answered, move_there-Answered, status_check-Answered,
  proactive-Answered, categorised-Answered,
}

fallback-IsCoherent :
    (answers : Answers) (normalized : String) (b : Bool)
    → Returns IsCoherent (handle_fallback answers normalized b).1
unfolding handle_fallback
fallback-IsCoherent answers normalized b =
    Returns-bind IsCoherent (observe b _) _
      (λ u. Returns-bind IsCoherent (ask _ (done answers.fallback_told)) _ (λ v. refl))

conclude-CoherentFirst :
    (answers : Answers) (normalized : String) (b : Bool) (r : Option ActionStepResult)
    (backlog : List Fields)
    → AnsweredStep (r, backlog)
    → Returns CoherentFirst (conclude answers normalized b (r, backlog)).1
unfolding conclude
conclude-CoherentFirst answers normalized b none backlog h =
    Returns-then IsCoherent CoherentFirst (handle_fallback answers normalized b) _
      (fallback-IsCoherent answers normalized b) (λ r k. k)
conclude-CoherentFirst answers normalized b (some r) backlog h =
    Returns-bind CoherentFirst (observe_text b r.observation) _ (λ u. h)

Answered-CoherentFirst :
    (backlog : List Fields) (rest : Act (DirectiveResult × List Fields))
    (r : Option DirectiveResult)
    → Answered r
    → Returns CoherentFirst rest.1
    → Returns CoherentFirst
        (elim r as (λ x. Act (DirectiveResult × List Fields)) [
          | none ↦ rest
          | some r' ↦ pure (r', backlog)
        ]).1
Answered-CoherentFirst backlog rest none a h = h
Answered-CoherentFirst backlog rest (some r) a h = a

or_else-CoherentFirst :
    (backlog : List Fields) (m : Act (Option DirectiveResult))
    (rest : Act (DirectiveResult × List Fields))
    → Returns Answered m.1
    → Returns CoherentFirst rest.1
    → Returns CoherentFirst (or_else backlog m rest).1
or_else-CoherentFirst backlog m rest h k =
    Returns-then Answered CoherentFirst m _ h (λ r a. Answered-CoherentFirst backlog rest r a k)

or_after-CoherentFirst :
    (m : Act Settled) (rest : List Fields → Act (DirectiveResult × List Fields))
    → Returns AnsweredFirst m.1
    → ((backlog : List Fields) → Returns CoherentFirst (rest backlog).1)
    → Returns CoherentFirst (or_after m rest).1
or_after-CoherentFirst m rest h k =
    Returns-then AnsweredFirst CoherentFirst m _ h
      (λ r a. Answered-CoherentFirst r.1 (rest r.1) r.0 a (k r.1))

module _ (rules : Rules) (answers : Answers) (i : StepInput) where
  action_step-CoherentFirst :
      (backlog : List Fields) → Returns CoherentFirst (from_action_step rules answers i backlog).1
  unfolding from_action_step handle_action_step
  action_step-CoherentFirst backlog =
      Returns-then AnsweredStep CoherentFirst
        (handle_action_step rules answers i.normalized (directive_category i.directive) i.meta
          i.directive_coords i.last_target_coords backlog)
        (conclude answers i.normalized i.has_react)
        (categorised-Answered rules answers i.normalized
          (resolve_action_category rules i.normalized (directive_category i.directive)) i.meta
          i.directive_coords i.last_target_coords backlog)
        (λ (r : Option ActionStepResult × List Fields) h.
          conclude-CoherentFirst answers i.normalized i.has_react r.0 r.1 h)

  status_check-CoherentFirst :
      (backlog : List Fields) → Returns CoherentFirst (from_status_check rules answers i backlog).1
  unfolding from_status_check from_proactive_move
  status_check-CoherentFirst backlog =
      or_else-CoherentFirst backlog (handle_status_check i.normalized i.has_react)
        (from_proactive_move rules answers i backlog)
        (status_check-Answered i.normalized i.has_react)
        (or_else-CoherentFirst backlog
          (handle_proactive_move rules answers i.normalized i.last_target_coords i.has_react)
          (from_action_step rules answers i backlog)
          (proactive-Answered rules answers i.normalized i.last_target_coords i.has_react)
          (action_step-CoherentFirst backlog))

  detection-CoherentFirst :
      (backlog : List Fields) → Returns CoherentFirst (from_detection rules answers i backlog).1
  unfolding from_detection from_coordinates handle_detection_task handle_coordinates_task
  detection-CoherentFirst backlog =
      or_else-CoherentFirst backlog
        (handle_detection_task rules answers i.directive i.meta i.normalized i.intent i.has_react)
        (from_coordinates rules answers i backlog)
        (detect-Answered rules answers i.meta i.has_react
          (detection_category rules (directive_category i.directive) i.normalized i.intent))
        (or_after-CoherentFirst
          (handle_coordinates_task rules answers i.directive i.meta i.normalized i.directive_coords
            i.argument_coords i.has_react backlog)
          (from_status_check rules answers i)
          (move_there-Answered answers i.directive i.meta i.normalized _ i.has_react backlog)
          status_check-CoherentFirst)

  minedojo-CoherentFirst :
      (backlog : List Fields) → Returns CoherentFirst (from_minedojo rules answers i backlog).1
  unfolding from_minedojo from_chat from_hybrid
  minedojo-CoherentFirst backlog =
      or_else-CoherentFirst backlog
        (handle_minedojo_directive answers i.directive i.index i.has_react)
        (from_chat rules answers i backlog)
        (minedojo-Answered answers i.directive i.index i.has_react)
        (or_else-CoherentFirst backlog
          (handle_chat_directive rules answers i.directive i.normalized i.meta i.has_react)
          (from_hybrid rules answers i backlog)
          (chat-Answered rules answers i.directive i.normalized i.meta i.has_react)
          (or_else-CoherentFirst backlog
            (handle_hybrid_directive answers i.directive i.meta i.has_react)
            (from_detection rules answers i backlog)
            (hybrid-Answered answers i.directive i.meta i.has_react)
            (detection-CoherentFirst backlog)))

  -- Whichever handler a step goes to, and whatever the answers: if it returns, the result is
  -- coherent. It is handled; it stops the plan only if it has failed and has a reason, and then
  -- either for recovery or for good, not both; and one that has failed carries no report.
  pub handle_step-IsCoherent :
      (backlog : List Fields) → Returns CoherentFirst (handle_step rules answers i backlog).1
  unfolding handle_step
  handle_step-IsCoherent backlog = elim (Bool-cases (str_eq i.normalized "")) [
    | inl empty ↦ rw empty refl
    | inr named ↦ rw named (minedojo-CoherentFirst backlog)
  ]
