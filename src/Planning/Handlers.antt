-- ===== src/Planning/Handlers.antt =====
-- The handlers of `DirectiveExecutor` of python/orchestrator/directive_executor.py, each with the
-- result that it has for a step, or none when the step is not its own.
use Prim.Native.Char.{code}
use mc_bot_egent_practice.Prelude.{
  ℕ, ◌==◌, String, Bool, true, false, not, ◌&&◌, Option, none, some, [], ◌∷◌, str_eq, if◌then◌else◌,
}
use mc_bot_egent_practice.Python.{
  Value, Fields, null, boolean, integer, float, text, dict, truth, get, strip, append, show_ℤ,
}
use mc_bot_egent_practice.Building.{ints}
use mc_bot_egent_practice.Actions.{lower}
use mc_bot_egent_practice.Planning.Effects.{
  Coords, said, barrier_reported, minedojo_asked, hybrid_executed, detection_performed, observed,
  Act, pure, ask, done, ◌>>=◌,
}
use mc_bot_egent_practice.Planning.Directive.{
  Directive, ExecutorName, mineflayer, minedojo, chat, hybrid, or_text, directive_scope,
}
use mc_bot_egent_practice.Planning.Steps.{
  HybridEnding, executed, validation_failed, execution_raised, Parsed, payload, value_error,
  Answers, Rules, Status, completed, failed, EventLevel, progress, fault,
}

pub record DirectiveResult : Type 0 where
  pub handled : Bool
  pub observation : String
  pub status : Status
  pub event_level : EventLevel
  pub warns : Bool
  pub detection_report : Option Fields
  pub last_target_coords : Option Coords
  pub failure_reason : Option String
  pub should_halt : Bool
  pub terminal_failure : Bool
  pub emit_log : Bool

-- The result with the defaults of the other fields.
abbrev pub plain : String → Status → EventLevel → Bool → DirectiveResult
plain observation status event_level warns = record {
  handled = true;
  observation = observation;
  status = status;
  event_level = event_level;
  warns = warns;
  detection_report = none;
  last_target_coords = none;
  failure_reason = none;
  should_halt = false;
  terminal_failure = false;
  emit_log = true;
}

abbrev pub completed_result : String → DirectiveResult
completed_result observation = plain observation completed progress false

abbrev pub failed_result : String → DirectiveResult
failed_result observation = plain observation failed fault true

-- `if react_entry: react_entry.observation = text`
abbrev pub observe : Bool → String → Act (Unit {0})
observe true t = (observed t ∷ [], some tt)
observe false t = pure tt

-- A result whose observation is noted down.
abbrev pub settle : Bool → DirectiveResult → Act (Option DirectiveResult)
settle has_react r = do _ ← observe has_react r.observation; pure (some r)

abbrev pub when {ℓ} : {A : Type ℓ} → Bool → Act (Option A) → Act (Option A)
when true m = m
when false m = pure none

abbrev pub is_for : ExecutorName → ExecutorName → Bool
is_for mineflayer mineflayer = true
is_for minedojo minedojo = true
is_for chat chat = true
is_for hybrid hybrid = true
is_for _ _ = false

unfoldable pub minedojo_answered : Bool → Bool → Act (Option DirectiveResult)
minedojo_answered has_react false = pure none
minedojo_answered has_react true = settle has_react (completed_result "MineDojo の自己対話タスクを実行しました。")

unfoldable pub handle_minedojo_directive :
    Answers → Option Directive → ℕ → Bool → Act (Option DirectiveResult)
unfolding minedojo_answered
handle_minedojo_directive answers none index has_react = pure none
handle_minedojo_directive answers (some d) index has_react =
    when (is_for d.executor minedojo) (do
      handled ← ask (minedojo_asked index) answers.minedojo
      minedojo_answered has_react handled)

-- str(value)
abbrev pub str_value : Rules → Value → String
str_value rules (text s) = s
str_value rules null = "None"
str_value rules v = rules.str v

-- str(directive.args.get("message")) or directive.label or normalized
abbrev pub chat_message : Rules → Directive → String → String
chat_message rules d normalized =
    or_text (str_value rules (get "message" d.args)) (or_text d.label normalized)

unfoldable pub handle_chat_directive :
    Rules
    → Answers
    → Option Directive
    → String
    → Option Fields
    → Bool
    → Act (Option DirectiveResult)
unfolding directive_scope
handle_chat_directive rules answers none normalized meta has_react = pure none
handle_chat_directive rules answers (some d) normalized meta has_react =
    let message = chat_message rules d normalized in
    let observation = append "チャット通知を送信: " message in
    when (is_for d.executor chat && not (str_eq message "")) (do
      _ ← directive_scope meta (ask (said message) (done answers.chat_said))
      settle has_react (completed_result observation))

unfoldable pub hybrid_handled : Answers → Bool → Bool → Act (Option DirectiveResult)
hybrid_handled answers has_react false = pure none
hybrid_handled answers has_react true =
    let observation = if has_react then answers.hybrid_observation else "ハイブリッド指示を完了しました。" in
    pure (some (record (completed_result observation) { emit_log = false }))

-- directive.label or directive.step or "hybrid"
abbrev pub hybrid_label : Directive → String
hybrid_label d = or_text d.label (or_text d.step "hybrid")

-- The end of `HybridDirectiveHandler.execute`.
unfoldable pub hybrid_ended : Answers → Directive → HybridEnding → Act Bool
hybrid_ended answers d executed = pure true
hybrid_ended answers d (validation_failed exc) = do
  _ ←
      ask (barrier_reported (hybrid_label d) (append "ハイブリッド指示の検証に失敗しました: " exc))
        (done answers.hybrid_told)
  pure false
hybrid_ended answers d execution_raised = do
  _ ← ask (barrier_reported (hybrid_label d) "hybrid 指示の実行中に例外が発生しました。") (done answers.hybrid_told)
  pure false

-- `HybridDirectiveHandler.execute` of python/runtime/hybrid_directive.py
unfoldable pub execute_hybrid : Answers → Directive → Option Fields → Fields → Act Bool
unfolding directive_scope hybrid_ended
execute_hybrid answers d meta fs = do
  ending ← directive_scope meta (ask (hybrid_executed fs) answers.hybrid_done)
  hybrid_ended answers d ending

unfoldable pub hybrid_parsed :
    Answers → Directive → Option Fields → Bool → Parsed → Act (Option DirectiveResult)
unfolding hybrid_handled execute_hybrid
hybrid_parsed answers d meta has_react (value_error exc) = do
  _ ←
      ask (barrier_reported (hybrid_label d) (append "ハイブリッド指示の解析に失敗しました: " exc))
        (done answers.hybrid_told)
  pure (some (failed_result exc))
hybrid_parsed answers d meta has_react (payload fs) = do
  handled ← execute_hybrid answers d meta fs
  hybrid_handled answers has_react handled

unfoldable pub handle_hybrid_directive :
    Answers → Option Directive → Option Fields → Bool → Act (Option DirectiveResult)
unfolding hybrid_parsed
handle_hybrid_directive answers none meta has_react = pure none
handle_hybrid_directive answers (some d) meta has_react =
    when (is_for d.executor hybrid) (hybrid_parsed answers d meta has_react answers.hybrid_parsed)

-- text.lower().startswith(prefix), for a prefix of small letters of ASCII
abbrev pub lowers_with : String → String → Bool
lowers_with String.[] t = true
lowers_with (String.◌∷◌ c p) String.[] = false
lowers_with (String.◌∷◌ c p) (String.◌∷◌ d t) = lower (code d) == code c && lowers_with p t

abbrev pub directive_category : Option Directive → Option String
directive_category none = none
directive_category (some d) = some d.category

abbrev pub classified : Rules → String → String → Option String → Option String
classified rules normalized intent (some category) = some category
classified rules normalized intent none =
    if lowers_with "report" (strip intent) then some "general_status" else none

unfoldable pub detection_category : Rules → Option String → String → String → Option String
detection_category rules none normalized intent =
    classified rules normalized intent (rules.classify_detection_task normalized)
detection_category rules (some category) normalized intent =
    if rules.is_detection_category category
    then some category
    else classified rules normalized intent (rules.classify_detection_task normalized)

-- isinstance(value, (int, float))
abbrev pub is_number : Value → Bool
is_number (integer n) = true
is_number (boolean b) = true
is_number (float n zero) = true
is_number _ = false

abbrev pub position_text : Coords → String
position_text (x, y, z) =
    append "位置報告: X="
      (append (show_ℤ x) (append " / Y=" (append (show_ℤ y) (append " / Z=" (show_ℤ z)))))

abbrev pub summary_text : Rules → Fields → String
summary_text rules report =
    if truth (get "summary" report) then str_value rules (get "summary" report) else "ステータスを報告しました。"

abbrev pub position_or : String → Option Coords → String
position_or default none = default
position_or default (some c) = position_text c

abbrev pub data_text : String → Value → String
data_text default (dict fs) =
    if is_number (get "x" fs) && is_number (get "y" fs) && is_number (get "z" fs)
    then position_or default (ints (get "x" fs) (get "y" fs) (get "z" fs))
    else default
data_text default _ = default

unfoldable pub report_text : Rules → Fields → String
report_text rules report = data_text (summary_text rules report) (get "data" report)

-- An empty report is as none.
unfoldable pub detection_reported : Rules → Bool → Option Fields → Act (Option DirectiveResult)
unfolding report_text
detection_reported rules has_react (some (Fields.field k v fs)) =
    let report = Fields.field k v fs in
    let observation = report_text rules report in
    settle has_react (record (completed_result observation) { detection_report = some report })
detection_reported rules has_react _ = settle has_react (failed_result "ステータス取得に失敗し障壁を報告しました。")

unfoldable pub detect :
    Rules → Answers → Option Fields → Bool → Option String → Act (Option DirectiveResult)
unfolding detection_reported directive_scope
detect rules answers meta has_react none = pure none
detect rules answers meta has_react (some category) = do
  report ← directive_scope meta (ask (detection_performed category) answers.detection)
  detection_reported rules has_react report

unfoldable pub handle_detection_task :
    Rules
    → Answers
    → Option Directive
    → Option Fields
    → String
    → String
    → Bool
    → Act (Option DirectiveResult)
unfolding detect detection_category
handle_detection_task rules answers d meta normalized intent has_react =
    detect rules answers meta has_react
      (detection_category rules (directive_category d) normalized intent)
