-- ===== src/Planning/Examples.antt =====
-- A plan of two steps whose second step is refused: tests of the run and instances of the theorems.
use mc_bot_egent_practice.Prelude.{
  if◌then◌else◌, ◌≡◌, refl, true, false, Option, none, some, [], ◌∷◌, arith, str_eq,
}
use mc_bot_egent_practice.Python.{Value, Fields, null, text, truth, get, end, field, is_in, strip}
use mc_bot_egent_practice.Planning.Directive.{Directive}
use mc_bot_egent_practice.Planning.{
  executed, directive, chat, PlanOut, payload, Answers, Rules, StepInput, handle_step, World,
  Progress, steps_from, run_plan,
}
use mc_bot_egent_practice.Planning.Scopes.{AreScopesClosed, run_plan-AreScopesClosed}
use mc_bot_egent_practice.Planning.Replans.{replans, IsBounded, run_plan-IsBounded}
use mc_bot_egent_practice.Prelude.Traced.{Returns}
use mc_bot_egent_practice.Planning.Results.{CoherentFirst}
use mc_bot_egent_practice.Planning.Coherence.{handle_step-IsCoherent}
use mc_bot_egent_practice.Planning.Ends.{EndFacts}
use mc_bot_egent_practice.Planning.Halting.{begun, steps_from-EndFacts}
use mc_bot_egent_practice.Planning.Chat.{spoken, chat_without_message}

abbrev rules : Rules
rules = record {
  classify_action_task = λ t. if is_in "掘" t then some "mine" else none;
  classify_detection_task = λ t. none;
  extract_coordinates = λ t. none;
  is_action_category = λ c. str_eq c "mine";
  is_detection_category = λ c. false;
  should_continue_move = λ t. false;
  default_move_target = none;
  str = λ v. "";
}

-- Digging is refused, everything else returns.
abbrev refusing : Answers
refusing = record {
  minedojo = some false;
  chat_said = true;
  hybrid_parsed = payload end;
  hybrid_told = true;
  hybrid_done = some executed;
  hybrid_observation = "";
  detection = some none;
  action = some (record {
    handled = false;
    updated_target = none;
    failure_detail = some "refused";
    queued = [];
  });
  move_response = some end;
  move_told = true;
  report_said = true;
  fallback_told = true;
}

abbrev greeting : Directive
greeting = record {
  directive_id = "d1";
  step = "あいさつ";
  label = "こんにちは";
  category = "";
  executor = chat;
  args = end;
}

abbrev greet_and_dig : PlanOut
greet_and_dig = record {
  plan = "あいさつ" ∷ "石を掘る" ∷ "帰る" ∷ [];
  resp = "";
  intent = "mine";
  coordinates = null;
  blocking = false;
  react_trace = [];
  clarification_needed = "none";
  backlog = [];
  next_action = "execute";
  goal_summary = "stone";
  directives = directive greeting ∷ [];
}

abbrev world : World
world = record {
  steps = λ n. refusing;
  follow_up_said = true;
  barrier_told = true;
  reports_said = true;
  backlog_said = true;
  recovery = record {
    barrier_told = true;
    bridge_reports = [];
    augment = λ reason reports. reason;
    previous_reflections = [];
    new_plan = some greet_and_dig;
    resp_said = true;
  };
}

abbrev start : Progress
start = record {
  last_target_coords = none;
  execution_failure_reason = none;
  detection_reports = [];
  action_backlog = [];
}

abbrev no_directive : Fields → Option Directive
no_directive fs = none

-- The plan is planned again once, and then fails for good.
test_one_replan : replans (run_plan no_directive rules 1 (λ d. world) 2 0 greet_and_dig none).0 ≡ 1
unfolding run_plan strip get mc_bot_egent_practice.Python.any_in
test_one_replan = refl

-- The greeting of both runs, and nothing else, is said.
test_spoken :
    spoken (run_plan no_directive rules 1 (λ d. world) 2 0 greet_and_dig none).0
    ≡ "None" ∷ "None" ∷ []
unfolding run_plan strip get mc_bot_egent_practice.Python.any_in
test_spoken = refl

-- The third step is not begun.
test_begun :
    begun (steps_from no_directive rules world greet_and_dig 3 greet_and_dig.plan 1 start).0 ≡ 2
unfolding steps_from strip get mc_bot_egent_practice.Python.any_in
test_begun = refl

run_plan-AreScopesClosed_example :
    AreScopesClosed (run_plan no_directive rules 1 (λ d. world) 2 0 greet_and_dig none).0
run_plan-AreScopesClosed_example =
    run_plan-AreScopesClosed no_directive rules 1 (λ d. world) 2 0 greet_and_dig none

run_plan-IsBounded_example :
    IsBounded 1 (run_plan no_directive rules 1 (λ d. world) 2 0 greet_and_dig none).0
run_plan-IsBounded_example =
    run_plan-IsBounded no_directive rules 1 (λ d. world) 2 0 greet_and_dig none (omega arith)

abbrev dig : StepInput
dig = record {
  directive = none;
  meta = none;
  directive_coords = none;
  argument_coords = none;
  normalized = "石を掘る";
  intent = "mine";
  index = 2;
  has_react = false;
  last_target_coords = none;
}

handle_step-IsCoherent_example : Returns CoherentFirst (handle_step rules refusing dig []).1
handle_step-IsCoherent_example = handle_step-IsCoherent rules refusing dig []

steps_from-EndFacts_example :
    Returns
      (EndFacts no_directive rules world greet_and_dig 3 1 greet_and_dig.plan
        (begun (steps_from no_directive rules world greet_and_dig 3 greet_and_dig.plan 1 start).0))
      (steps_from no_directive rules world greet_and_dig 3 greet_and_dig.plan 1 start).1
steps_from-EndFacts_example =
    steps_from-EndFacts no_directive rules world greet_and_dig 3 greet_and_dig.plan 1 start

chat_without_message_example :
    spoken
      (handle_step rules refusing
        (record dig { directive = some (record greeting { executor = chat }) })
        []).0
    ≡ "None" ∷ []
unfolding get
chat_without_message_example = chat_without_message rules refusing dig greeting [] refl refl
