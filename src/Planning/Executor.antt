-- ===== src/Planning/Executor.antt =====
-- The other handlers of `DirectiveExecutor`, and `handle_step`, which asks them in turn.
use mc_bot_egent_practice.Prelude.{
  ℕ, String, Bool, true, false, not, ◌&&◌, Option, none, some, List, [], ◌∷◌, ◌++◌, str_eq,
  if◌then◌else◌,
}
use mc_bot_egent_practice.Python.{Value, Fields, append, any_in}
use mc_bot_egent_practice.Planning.Effects.{
  Coords, barrier_reported, action_performed, Act, pure, ask, done, ◌>>=◌,
}
use mc_bot_egent_practice.Planning.Directive.{Directive, directive_scope}
use mc_bot_egent_practice.Planning.Steps.{
  ActionAnswer, Answers, Rules, skipped, trace, ActionStepResult, move_to_coordinates, or_default,
  or_coords, moved_text, handle_action_step,
}
use mc_bot_egent_practice.Planning.Handlers.{
  DirectiveResult, plain, completed_result, failed_result, observe, settle, when, str_value,
  directive_category, handle_minedojo_directive, handle_chat_directive, handle_hybrid_directive,
  handle_detection_task,
}

-- The result of a handler with the backlog after it.
abbrev pub Settled : Type 0
Settled = Option DirectiveResult × List Fields

abbrev pub coordinates_category : Option Directive → String
coordinates_category none = "move"
coordinates_category (some d) = if str_eq d.category "" then "move" else d.category

unfoldable pub coordinates_result : Coords → ActionAnswer → DirectiveResult
coordinates_result coords a =
    if a.handled
    then record (completed_result (moved_text (or_coords a.updated_target (some coords)))) {
      last_target_coords = or_coords a.updated_target (some coords);
    }
    else record (failed_result (or_default a.failure_detail "座標移動の処理に失敗しました。")) {
      last_target_coords = a.updated_target;
      failure_reason = some (or_default a.failure_detail "座標移動の処理に失敗しました。Mineflayer の応答を確認してください。");
      should_halt = true;
    }

unfoldable pub move_there :
    Answers
    → Option Directive
    → Option Fields
    → String
    → Option Coords
    → Bool
    → List Fields
    → Act Settled
unfolding coordinates_result directive_scope
move_there answers d meta normalized none has_react backlog = pure (none, backlog)
move_there answers d meta normalized (some coords) has_react backlog = do
  a ← directive_scope meta (
      ask (action_performed (coordinates_category d) normalized (some coords) (some coords))
        answers.action)
  r ← settle has_react (coordinates_result coords a)
  pure (r, backlog ++ a.queued)

-- directive_coords or argument_coords or self._plan._extract_coordinates(normalized)
unfoldable pub handle_coordinates_task :
    Rules
    → Answers
    → Option Directive
    → Option Fields
    → String
    → Option Coords
    → Option Coords
    → Bool
    → List Fields
    → Act Settled
unfolding move_there
handle_coordinates_task rules answers d meta normalized directive_coords argument_coords has_react
      backlog =
    move_there answers d meta normalized
      (or_coords directive_coords
        (or_coords argument_coords (rules.extract_coordinates normalized)))
      has_react backlog

abbrev pub status_keywords : List String
status_keywords = "現在位置" ∷ "座標表示" ∷ "位置を確認" ∷ "所持品を確認" ∷ "状況を確認" ∷ []

unfoldable pub handle_status_check : String → Bool → Act (Option DirectiveResult)
handle_status_check normalized has_react =
    when (any_in status_keywords normalized)
      (settle has_react (plain "ステータス確認ステップのため実行要と判断しました。" skipped trace false))

abbrev pub proactive_result : Option Coords → DirectiveResult
proactive_result coords = record (completed_result "前回の目的地へ継続移動しました。") {
  last_target_coords = coords;
}

-- `_attempt_proactive_progress` after the move, whether it is ok and with its error.
unfoldable pub moved_on : Rules → Answers → String → Bool → Option Value → Act Bool
moved_on rules answers step true detail = pure true
moved_on rules answers step false none = pure false
moved_on rules answers step false (some detail) = do
  _ ←
      ask (barrier_reported step (append "継続移動に失敗しました（" (append (str_value rules detail) "）。")))
        (done answers.move_told)
  pure false

unfoldable pub attempt_proactive_progress : Rules → Answers → String → Option Coords → Act Bool
unfolding moved_on move_to_coordinates
attempt_proactive_progress rules answers step none = pure false
attempt_proactive_progress rules answers step (some coords) =
    if rules.should_continue_move step
    then (do
      m ← move_to_coordinates answers coords
      moved_on rules answers step m.ok m.error_detail)
    else pure false

unfoldable pub handle_proactive_move :
    Rules → Answers → String → Option Coords → Bool → Act (Option DirectiveResult)
unfolding attempt_proactive_progress
handle_proactive_move rules answers normalized last_target_coords has_react = do
  on_the_way ← attempt_proactive_progress rules answers normalized last_target_coords
  when on_the_way (settle has_react (proactive_result last_target_coords))

unfoldable pub handle_fallback : Answers → String → Bool → Act DirectiveResult
handle_fallback answers normalized has_react = do
  _ ← observe has_react "対応可能なアクションが見つからず障壁を通知しました。"
  _ ←
      ask (barrier_reported normalized "対応可能なアクションが見つからず停滞しています。計画ステップの表現を見直してください。")
        (done answers.fallback_told)
  pure (failed_result "対応可能なアクションが見つからず障壁を通知しました。")

-- `if react_entry and action_step_result.observation:`
abbrev pub observe_text : Bool → String → Act (Unit {0})
observe_text has_react t = observe (has_react && not (str_eq t "")) t

unfoldable pub of_action_step : ActionStepResult → DirectiveResult
of_action_step r = record {
  handled = true;
  observation = r.observation;
  status = r.status;
  event_level = r.event_level;
  warns = r.warns;
  detection_report = none;
  last_target_coords = r.last_target_coords;
  failure_reason = r.failure_reason;
  should_halt = r.should_halt;
  terminal_failure = r.terminal_failure;
  emit_log = true;
}

-- The end of the chain: the action step's result, or the fallback.
unfoldable pub conclude :
    Answers
    → String
    → Bool
    → Option ActionStepResult × List Fields
    → Act (DirectiveResult × List Fields)
unfolding handle_fallback of_action_step
conclude answers normalized has_react (none, backlog) = do
  r ← handle_fallback answers normalized has_react
  pure (r, backlog)
conclude answers normalized has_react (some r, backlog) = do
  _ ← observe_text has_react r.observation
  pure (of_action_step r, backlog)

-- A handler that leaves the backlog alone, and then the rest of the chain.
abbrev pub or_else :
    List Fields
    → Act (Option DirectiveResult)
    → Act (DirectiveResult × List Fields)
    → Act (DirectiveResult × List Fields)
or_else backlog m rest = m >>= λ answer. elim answer [ none ↦ rest | some r ↦ pure (r, backlog) ]

abbrev pub or_after :
    Act Settled
    → (List Fields → Act (DirectiveResult × List Fields))
    → Act (DirectiveResult × List Fields)
or_after m rest =
    m >>= λ answer. elim answer.0 [ none ↦ rest answer.1 | some r ↦ pure (r, answer.1) ]

-- What `handle_step` is given.
pub record StepInput : Type 0 where
  pub directive : Option Directive
  pub meta : Option Fields
  pub directive_coords : Option Coords
  pub argument_coords : Option Coords
  pub normalized : String
  pub intent : String
  pub index : ℕ
  pub has_react : Bool
  pub last_target_coords : Option Coords

module _ (rules : Rules) (answers : Answers) (i : StepInput) where
  -- The chain from its end: each definition asks one handler and goes on with the one above.
  unfoldable pub from_action_step : List Fields → Act (DirectiveResult × List Fields)
  unfolding conclude handle_action_step
  from_action_step backlog = do
    r ←
        handle_action_step rules answers i.normalized (directive_category i.directive) i.meta
          i.directive_coords i.last_target_coords backlog
    conclude answers i.normalized i.has_react r

  unfoldable pub from_proactive_move : List Fields → Act (DirectiveResult × List Fields)
  unfolding handle_proactive_move from_action_step
  from_proactive_move backlog =
      or_else backlog
        (handle_proactive_move rules answers i.normalized i.last_target_coords i.has_react)
        (from_action_step backlog)

  unfoldable pub from_status_check : List Fields → Act (DirectiveResult × List Fields)
  unfolding handle_status_check from_proactive_move
  from_status_check backlog =
      or_else backlog (handle_status_check i.normalized i.has_react) (from_proactive_move backlog)

  unfoldable pub from_coordinates : List Fields → Act (DirectiveResult × List Fields)
  unfolding handle_coordinates_task from_status_check
  from_coordinates backlog =
      or_after
        (handle_coordinates_task rules answers i.directive i.meta i.normalized i.directive_coords
          i.argument_coords i.has_react backlog)
        from_status_check

  unfoldable pub from_detection : List Fields → Act (DirectiveResult × List Fields)
  unfolding handle_detection_task from_coordinates
  from_detection backlog =
      or_else backlog
        (handle_detection_task rules answers i.directive i.meta i.normalized i.intent i.has_react)
        (from_coordinates backlog)

  unfoldable pub from_hybrid : List Fields → Act (DirectiveResult × List Fields)
  unfolding handle_hybrid_directive from_detection
  from_hybrid backlog =
      or_else backlog (handle_hybrid_directive answers i.directive i.meta i.has_react)
        (from_detection backlog)

  unfoldable pub from_chat : List Fields → Act (DirectiveResult × List Fields)
  unfolding handle_chat_directive from_hybrid
  from_chat backlog =
      or_else backlog
        (handle_chat_directive rules answers i.directive i.normalized i.meta i.has_react)
        (from_hybrid backlog)

  unfoldable pub from_minedojo : List Fields → Act (DirectiveResult × List Fields)
  unfolding handle_minedojo_directive from_chat
  from_minedojo backlog =
      or_else backlog (handle_minedojo_directive answers i.directive i.index i.has_react)
        (from_chat backlog)

  unfoldable pub handle_step : List Fields → Act (DirectiveResult × List Fields)
  unfolding from_minedojo
  handle_step backlog =
      if str_eq i.normalized ""
      then pure (plain "ステップ文字列が空だったためスキップしました。" skipped trace false, backlog)
      else from_minedojo backlog
