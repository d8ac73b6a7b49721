-- ===== src/ChatPipeline/Examples.antt =====
-- A chat whose plan asks back: tests and instances of the theorems.
use mc_bot_egent_practice.Prelude.{◌≡◌, refl, true, false, Option, none, some, []}
use mc_bot_egent_practice.Python.{strip, Fields, null}
use mc_bot_egent_practice.ChatQueue.{ChatTask}
use mc_bot_egent_practice.Planning.Directive.{Directive}
use mc_bot_egent_practice.Planning.{
  Rules as PlanRules, PlanOut, World, Answers as StepAnswers, payload, waits,
}
use mc_bot_egent_practice.ChatPipeline.Task.{Answers, Rules, run_chat_task}
use mc_bot_egent_practice.ChatPipeline.Message.{is_attended, run_chat_task-is_attended}
use mc_bot_egent_practice.ChatPipeline.Speech.{sayings}

abbrev rules : Rules
rules = record {
  is_move_to_player_command = λ t. false;
  is_source_excluded = λ t. false;
  extract_coordinates = λ t. none;
  goal_category = λ p. "";
}

abbrev asking : PlanOut
asking = record {
  plan = [];
  resp = "どこですか？";
  intent = "move";
  coordinates = null;
  blocking = true;
  react_trace = [];
  clarification_needed = "confirmation";
  backlog = [];
  next_action = "chat";
  goal_summary = "";
  directives = [];
}

-- The run of the plan raises.
abbrev answers : Answers
answers = record {
  failures = some [];
  said = true;
  barrier_told = true;
  evaluated = true;
  planned = some asking;
  dialogue_ran = true;
  recovery_said = true;
  executed = false;
}

abbrev chat_task : ChatTask
chat_task = record { username = "Alex"; message = "来て"; retry_count = 0 }

test_silent : sayings (run_chat_task rules answers chat_task).0 ≡ []
unfolding run_chat_task waits strip
test_silent = refl

run_chat_task-is_attended_example :
    is_attended "来て" false (run_chat_task rules answers chat_task).0 ≡ true
run_chat_task-is_attended_example = run_chat_task-is_attended rules answers chat_task

abbrev plan_rules : PlanRules
plan_rules = record {
  classify_action_task = λ t. none;
  classify_detection_task = λ t. none;
  extract_coordinates = λ t. none;
  is_action_category = λ c. false;
  is_detection_category = λ c. false;
  should_continue_move = λ t. false;
  default_move_target = none;
  str = λ v. "";
}

abbrev no_answers : StepAnswers
no_answers = record {
  minedojo = none;
  chat_said = false;
  hybrid_parsed = payload Fields.end;
  hybrid_told = false;
  hybrid_done = none;
  hybrid_observation = "";
  detection = none;
  action = none;
  move_response = none;
  move_told = false;
  report_said = false;
  fallback_told = false;
}

abbrev world : World
world = record {
  steps = λ n. no_answers;
  follow_up_said = true;
  barrier_told = true;
  reports_said = true;
  backlog_said = true;
  recovery = record {
    barrier_told = true;
    bridge_reports = [];
    augment = λ reason reports. reason;
    previous_reflections = [];
    new_plan = none;
    resp_said = true;
  };
}

abbrev no_directive : Fields → Option Directive
no_directive fs = none
