-- ===== src/Planning/Steps.antt =====
-- python/orchestrator/action_step_executor.py and python/services/movement_service.py. What the
-- calls of one step come to is a parameter, `Answers`; an answer none is an exception.
use mc_bot_egent_practice.Prelude.{
  String, Bool, true, false, not, ◌||◌, ◌&&◌, Option, none, some, List, ◌++◌, str_eq, if◌then◌else◌,
}
use mc_bot_egent_practice.Python.{Value, Fields, text, truth, get, append, show_ℤ, is_in}
use mc_bot_egent_practice.Planning.Effects.{
  Coords, said, moved, action_performed, Act, pure, ask, done, ◌>>=◌,
}
use mc_bot_egent_practice.Planning.Directive.{directive_scope}

-- `handle_action_task` of the task router: the triple, and what it appended to the backlog.
pub record ActionAnswer : Type 0 where
  pub handled : Bool
  pub updated_target : Option Coords
  pub failure_detail : Option String
  pub queued : List Fields

-- What the hybrid handler makes of the arguments: a payload, or a ValueError with its text.
pub data Parsed : Type 0 where
  payload : Fields → Parsed
  value_error : String → Parsed

-- How `actions.execute_hybrid_action` ends: it returns, or raises ActionValidationError with its
-- text, or another exception.
pub data HybridEnding : Type 0 where
  executed : HybridEnding
  validation_failed : String → HybridEnding
  execution_raised : HybridEnding

pub record Answers : Type 0 where
  pub minedojo : Option Bool
  pub chat_said : Bool
  pub hybrid_parsed : Parsed
  -- whether a report of a barrier about a hybrid directive returns
  pub hybrid_told : Bool
  -- none when it is cancelled
  pub hybrid_done : Option HybridEnding
  -- what the hybrid handler left as the observation of the ReAct step
  pub hybrid_observation : String
  pub detection : Option (Option Fields)
  pub action : Option ActionAnswer
  pub move_response : Option Fields
  pub move_told : Bool
  pub report_said : Bool
  pub fallback_told : Bool

-- The classification of texts (action_analyzer.py), the target of a move without one, and `str` of
-- what is no text.
pub record Rules : Type 0 where
  pub classify_action_task : String → Option String
  pub classify_detection_task : String → Option String
  pub extract_coordinates : String → Option Coords
  pub is_action_category : String → Bool
  pub is_detection_category : String → Bool
  pub should_continue_move : String → Bool
  pub default_move_target : Option Coords
  pub str : Value → String

pub data Status : Type 0 where
  skipped completed failed : Status

pub data EventLevel : Type 0 where
  trace progress fault : EventLevel

pub record ActionStepResult : Type 0 where
  pub observation : String
  pub status : Status
  pub event_level : EventLevel
  pub warns : Bool
  pub last_target_coords : Option Coords
  pub failure_reason : Option String
  pub should_halt : Bool
  pub terminal_failure : Bool

abbrev pub refused_text : String
refused_text = "Mineflayer からアクションが拒否され、残りの計画を進められませんでした。"

-- detail or default
abbrev pub or_default : Option String → String → String
or_default none default = default
or_default (some detail) default = if str_eq detail "" then default else detail

abbrev pub or_coords : Option Coords → Option Coords → Option Coords
or_coords none other = other
or_coords (some c) other = some c

unfoldable pub arrival_text : Coords → String
arrival_text (x, y, z) =
    append "移動成功: X="
      (append (show_ℤ x) (append " / Y=" (append (show_ℤ y) (append " / Z=" (show_ℤ z)))))

abbrev pub moved_text : Option Coords → String
moved_text none = "移動に成功しました。"
moved_text (some c) = arrival_text c

unfoldable pub success_text : Rules → String → Option Coords → String
unfolding arrival_text
success_text rules category updated_target =
    if str_eq category "move_to_player"
    then "合流しました。"
    else if str_eq category "move"
    then moved_text (or_coords updated_target rules.default_move_target)
    else append category " タスクを完了しました。"

-- The result for the triple of the task router.
unfoldable pub action_result : Rules → String → ActionAnswer → ActionStepResult
unfolding success_text
action_result rules category a =
    if a.handled
    then record {
      observation = success_text rules category a.updated_target;
      status = completed;
      event_level = progress;
      warns = false;
      last_target_coords = a.updated_target;
      failure_reason = none;
      should_halt = false;
      terminal_failure = false;
    }
    else record {
      observation = or_default a.failure_detail refused_text;
      status = failed;
      event_level = fault;
      warns = true;
      last_target_coords = a.updated_target;
      failure_reason = some (or_default a.failure_detail refused_text);
      should_halt = not (str_eq category "move_to_player");
      terminal_failure = str_eq category "move_to_player";
    }

abbrev pub is_move : String → Bool
is_move category = str_eq category "move" || str_eq category "move_to_player"

abbrev pub explicit_coords : String → Option Coords → Option Coords
explicit_coords category coords = if is_move category then coords else none

unfoldable pub perform_action_task :
    Rules
    → Answers
    → String
    → String
    → Option Fields
    → Option Coords
    → Option Coords
    → List Fields
    → Act (Option ActionStepResult × List Fields)
unfolding action_result directive_scope
perform_action_task rules answers step category meta directive_coords last_target_coords backlog =
    do
      a ← directive_scope meta (
          ask
            (action_performed category step last_target_coords
              (explicit_coords category directive_coords))
            answers.action)
      pure (some (action_result rules category a), backlog ++ a.queued)

unfoldable pub status_report_result : ActionStepResult
status_report_result = record {
  observation = "進捗報告メッセージを送信しました。";
  status = completed;
  event_level = progress;
  warns = false;
  last_target_coords = none;
  failure_reason = none;
  should_halt = false;
  terminal_failure = false;
}

unfoldable pub report_status :
    Answers → Option Fields → List Fields → Act (Option ActionStepResult × List Fields)
unfolding status_report_result directive_scope
report_status answers meta backlog = do
  _ ← directive_scope meta (ask (said "進捗を確認しています。続報をお待ちください。") (done answers.report_said))
  pure (some status_report_result, backlog)

-- `_resolve_action_category`
unfoldable pub resolve_action_category : Rules → String → Option String → Option String
resolve_action_category rules step none = rules.classify_action_task step
resolve_action_category rules step (some category) =
    if not (str_eq category "") && rules.is_action_category category
    then some category
    else rules.classify_action_task step

unfoldable pub report_or_none :
    Answers → String → Option Fields → List Fields → Act (Option ActionStepResult × List Fields)
unfolding report_status
report_or_none answers step meta backlog =
    if is_in "報告" step || is_in "伝える" step
    then report_status answers meta backlog
    else pure (none, backlog)

-- `ActionStepExecutor.handle_step`, from the category on.
unfoldable pub handle_categorised :
    Rules
    → Answers
    → String
    → Option String
    → Option Fields
    → Option Coords
    → Option Coords
    → List Fields
    → Act (Option ActionStepResult × List Fields)
unfolding perform_action_task report_or_none
handle_categorised rules answers step none meta directive_coords last_target_coords backlog =
    report_or_none answers step meta backlog
handle_categorised rules answers step (some category) meta directive_coords last_target_coords
      backlog =
    if str_eq category ""
    then report_or_none answers step meta backlog
    else perform_action_task rules answers step category meta directive_coords last_target_coords
        backlog

unfoldable pub handle_action_step :
    Rules
    → Answers
    → String
    → Option String
    → Option Fields
    → Option Coords
    → Option Coords
    → List Fields
    → Act (Option ActionStepResult × List Fields)
unfolding handle_categorised resolve_action_category
handle_action_step rules answers step directive_category meta directive_coords last_target_coords
      backlog =
    handle_categorised rules answers step (resolve_action_category rules step directive_category)
      meta directive_coords last_target_coords backlog

-- `MovementResult`, without the destination and the response.
pub record MovementResult : Type 0 where
  pub ok : Bool
  pub error_detail : Option Value

unfoldable pub movement_result : Fields → MovementResult
movement_result resp =
    if truth (get "ok" resp) then record { ok = true; error_detail = none } else record {
      ok = false;
      error_detail =
          some (if truth (get "error" resp) then get "error" resp else text "Mineflayer 側の理由不明な拒否");
    }

-- `MovementService.move_to_coordinates`
unfoldable pub move_to_coordinates : Answers → Coords → Act MovementResult
unfolding movement_result
move_to_coordinates answers coords = do
  resp ← ask (moved coords) answers.move_response
  pure (movement_result resp)
