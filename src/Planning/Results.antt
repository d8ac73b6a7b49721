-- ===== src/Planning/Results.antt =====
-- The results of a step.
use mc_bot_egent_practice.Prelude.{
  ℕ, ◌≡◌, refl, String, Bool, true, false, not, ◌||◌, ◌&&◌, Option, none, some, List, ◌++◌,
  Bool-cases, inl, inr, str_eq, is_some,
}
use mc_bot_egent_practice.Prelude.Traced.{Returns, Returns-bind}
use mc_bot_egent_practice.Python.{Fields, end, field, is_in}
use mc_bot_egent_practice.Planning.Effects.{Coords, Act, pure, ask, done, ◌>>=◌}
use mc_bot_egent_practice.Planning.Directive.{Directive, directive_scope}
use mc_bot_egent_practice.Planning.Steps.{
  ActionAnswer, Parsed, payload, value_error, Answers, Rules, ActionStepResult, action_result,
  perform_action_task, report_status, status_report_result, report_or_none, handle_categorised,
}
use mc_bot_egent_practice.Planning.Handlers.{
  DirectiveResult, settle, when, minedojo_answered, handle_minedojo_directive,
  handle_chat_directive, hybrid_handled, execute_hybrid, hybrid_parsed, handle_hybrid_directive,
  detection_reported, detect,
}
use mc_bot_egent_practice.Planning.Executor.{
  Settled, coordinates_result, move_there, handle_status_check, attempt_proactive_progress,
  handle_proactive_move, of_action_step,
}
use mc_bot_egent_practice.Planning.Run.{is_failed}

abbrev pub implies : Bool → Bool → Bool
implies true b = b
implies false b = true

-- A step that stops the plan has failed and has a reason, and it stops it in one of the two ways;
-- a step that has failed has no report.
abbrev pub is_coherent : DirectiveResult → Bool
is_coherent r =
    r.handled
    && implies (r.should_halt || r.terminal_failure)
        (is_failed r.status && is_some r.failure_reason)
    && not (r.should_halt && r.terminal_failure)
    && implies (is_failed r.status) (not (is_some r.detection_report))

abbrev pub IsCoherent : DirectiveResult → Type 0
IsCoherent r = is_coherent r ≡ true

-- The result of one handler, if the step is its own.
abbrev pub Answered : Option DirectiveResult → Type 0
Answered o = Returns IsCoherent o

abbrev pub AnsweredFirst : Settled → Type 0
AnsweredFirst s = Answered s.0

abbrev pub CoherentFirst : DirectiveResult × List Fields → Type 0
CoherentFirst s = IsCoherent s.0

settle-Answered :
    (b : Bool) (r : DirectiveResult) → is_coherent r ≡ true → Returns Answered (settle b r).1
settle-Answered true r h = h
settle-Answered false r h = h

when-Answered :
    (b : Bool) (m : Act (Option DirectiveResult))
    → Returns Answered m.1
    → Returns Answered (when b m).1
when-Answered true m h = h
when-Answered false m h = tt

settled-first :
    (b : Bool) (r : DirectiveResult) (backlog : List Fields) (a : ActionAnswer)
    → is_coherent r ≡ true
    → Returns AnsweredFirst
        (settle b r >>= λ (o : Option DirectiveResult). pure (o, backlog ++ a.queued)).1
settled-first true r backlog a h = h
settled-first false r backlog a h = h

minedojo_answered-Answered : (b h : Bool) → Returns Answered (minedojo_answered b h).1
unfolding minedojo_answered
minedojo_answered-Answered b true = settle-Answered b _ refl
minedojo_answered-Answered b false = tt

pub minedojo-Answered :
    (answers : Answers) (d : Option Directive) (index : ℕ) (b : Bool)
    → Returns Answered (handle_minedojo_directive answers d index b).1
unfolding handle_minedojo_directive
minedojo-Answered answers none index b = tt
minedojo-Answered answers (some d) index b = when-Answered _ _ (
    Returns-bind Answered (ask _ answers.minedojo) (minedojo_answered b)
      (λ h. minedojo_answered-Answered b h))

pub chat-Answered :
    (rules : Rules) (answers : Answers) (d : Option Directive) (normalized : String)
    (meta : Option Fields) (b : Bool)
    → Returns Answered (handle_chat_directive rules answers d normalized meta b).1
unfolding handle_chat_directive
chat-Answered rules answers none normalized meta b = tt
chat-Answered rules answers (some d) normalized meta b = when-Answered _ _ (
    Returns-bind Answered (directive_scope meta (ask _ (done answers.chat_said))) _
      (λ u. settle-Answered b _ refl))

hybrid_handled-Answered :
    (answers : Answers) (b h : Bool) → Returns Answered (hybrid_handled answers b h).1
unfolding hybrid_handled
hybrid_handled-Answered answers b true = refl
hybrid_handled-Answered answers b false = tt

hybrid_parsed-Answered :
    (answers : Answers) (d : Directive) (meta : Option Fields) (b : Bool) (p : Parsed)
    → Returns Answered (hybrid_parsed answers d meta b p).1
unfolding hybrid_parsed
hybrid_parsed-Answered answers d meta b (value_error exc) =
    Returns-bind Answered (ask _ (done answers.hybrid_told)) _ (λ u. refl)
hybrid_parsed-Answered answers d meta b (payload fs) =
    Returns-bind Answered (execute_hybrid answers d meta fs) (hybrid_handled answers b)
      (λ h. hybrid_handled-Answered answers b h)

pub hybrid-Answered :
    (answers : Answers) (d : Option Directive) (meta : Option Fields) (b : Bool)
    → Returns Answered (handle_hybrid_directive answers d meta b).1
unfolding handle_hybrid_directive
hybrid-Answered answers none meta b = tt
hybrid-Answered answers (some d) meta b =
    when-Answered _ _ (hybrid_parsed-Answered answers d meta b answers.hybrid_parsed)

detection_reported-Answered :
    (rules : Rules) (b : Bool) (r : Option Fields)
    → Returns Answered (detection_reported rules b r).1
unfolding detection_reported
detection_reported-Answered rules b none = settle-Answered b _ refl
detection_reported-Answered rules b (some end) = settle-Answered b _ refl
detection_reported-Answered rules b (some (field k v fs)) = settle-Answered b _ refl

pub detect-Answered :
    (rules : Rules) (answers : Answers) (meta : Option Fields) (b : Bool) (c : Option String)
    → Returns Answered (detect rules answers meta b c).1
unfolding detect
detect-Answered rules answers meta b none = tt
detect-Answered rules answers meta b (some c) =
    Returns-bind Answered (directive_scope meta (ask _ answers.detection)) _
      (λ r. detection_reported-Answered rules b r)

coordinates_result-IsCoherent :
    (c : Coords) (a : ActionAnswer) → is_coherent (coordinates_result c a) ≡ true
unfolding coordinates_result
coordinates_result-IsCoherent c a = elim (Bool-cases a.handled) [
  | inl h ↦ rw h refl
  | inr h ↦ rw h refl
]

pub move_there-Answered :
    (answers : Answers) (d : Option Directive) (meta : Option Fields) (normalized : String)
    (c : Option Coords) (b : Bool) (backlog : List Fields)
    → Returns AnsweredFirst (move_there answers d meta normalized c b backlog).1
unfolding move_there
move_there-Answered answers d meta normalized none b backlog = tt
move_there-Answered answers d meta normalized (some c) b backlog =
    Returns-bind AnsweredFirst (directive_scope meta (ask _ answers.action)) _
      (λ a. settled-first b _ backlog a (coordinates_result-IsCoherent c a))

pub status_check-Answered :
    (normalized : String) (b : Bool) → Returns Answered (handle_status_check normalized b).1
unfolding handle_status_check
status_check-Answered normalized b = when-Answered _ _ (settle-Answered b _ refl)

pub proactive-Answered :
    (rules : Rules) (answers : Answers) (normalized : String) (c : Option Coords) (b : Bool)
    → Returns Answered (handle_proactive_move rules answers normalized c b).1
unfolding handle_proactive_move
proactive-Answered rules answers normalized c b =
    Returns-bind Answered (attempt_proactive_progress rules answers normalized c) _
      (λ on. when-Answered on _ (settle-Answered b _ refl))

action_result-IsCoherent :
    (rules : Rules) (category : String) (a : ActionAnswer)
    → is_coherent (of_action_step (action_result rules category a)) ≡ true
unfolding action_result of_action_step
action_result-IsCoherent rules category a = elim (Bool-cases a.handled) [
  | inl h ↦ rw h refl
  | inr h ↦ rw h (elim (Bool-cases (str_eq category "move_to_player")) [
    | inl same ↦ rw same refl
    | inr other ↦ rw other refl
  ])
]

-- The results of the action steps.
abbrev pub AnsweredStep : Option ActionStepResult × List Fields → Type 0
AnsweredStep s = Returns (λ (r : ActionStepResult). is_coherent (of_action_step r) ≡ true) s.0

report-Answered :
    (answers : Answers) (step : String) (meta : Option Fields) (backlog : List Fields)
    → Returns AnsweredStep (report_or_none answers step meta backlog).1
unfolding report_or_none report_status status_report_result of_action_step
report-Answered answers step meta backlog =
    elim (Bool-cases (is_in "報告" step || is_in "伝える" step)) [
      | inl h ↦ rw h (
          Returns-bind AnsweredStep (directive_scope meta (ask _ (done answers.report_said))) _
            (λ u. refl))
      | inr h ↦ rw h tt
    ]

perform_action-Answered :
    (rules : Rules) (answers : Answers) (step category : String) (meta : Option Fields)
    (c l : Option Coords) (backlog : List Fields)
    → Returns AnsweredStep (perform_action_task rules answers step category meta c l backlog).1
unfolding perform_action_task
perform_action-Answered rules answers step category meta c l backlog =
    Returns-bind AnsweredStep (directive_scope meta (ask _ answers.action)) _
      (λ a. action_result-IsCoherent rules category a)

pub categorised-Answered :
    (rules : Rules) (answers : Answers) (step : String) (category : Option String)
    (meta : Option Fields) (c l : Option Coords) (backlog : List Fields)
    → Returns AnsweredStep (handle_categorised rules answers step category meta c l backlog).1
unfolding handle_categorised
categorised-Answered rules answers step none meta c l backlog =
    report-Answered answers step meta backlog
categorised-Answered rules answers step (some category) meta c l backlog =
    elim (Bool-cases (str_eq category "")) [
      | inl h ↦ rw h (report-Answered answers step meta backlog)
      | inr h ↦ rw h (perform_action-Answered rules answers step category meta c l backlog)
    ]
