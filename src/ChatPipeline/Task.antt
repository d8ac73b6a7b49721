-- ===== src/ChatPipeline/Task.antt =====
-- `run_chat_task` of python/chat_pipeline.py. The check of the surroundings, the language model,
-- the summary of the plan, the self-dialogue of MineDojo and the run of a plan are effects with
-- answers; `maybe_trigger_autorecovery` is from python/runtime/minedojo_handler.py.
use mc_bot_egent_practice.Prelude.{
  is_some, ◌==◌, length, some, Dict, ◌||◌, lookup, String, Bool, true, false, not, ◌&&◌, Option,
  none, some, List, [], ◌∷◌, ◌++◌, str_eq, if◌then◌else◌,
}
use mc_bot_egent_practice.Prelude.Traced.{Traced, pure, ask, done, ◌>>=◌}
use mc_bot_egent_practice.Python.{strip, Value, null, text, dict, end, field, append}
use mc_bot_egent_practice.ChatQueue.{ChatTask}
use mc_bot_egent_practice.Planning.{Coords, PlanOut, coerce_coordinate_tuple, or_coords, join}

pub data Effect : Type 0 where
  -- agent.memory.set(key, value)
  kept : String → Value → Effect
  said : String → Effect
  barrier_reported : String → String → Effect
  evaluations_collected : Effect
  plan_requested : String → Effect
  summary_recorded : PlanOut → Effect
  -- run_self_dialogue for a mission
  dialogue_run : String → Effect
  plan_executed : PlanOut → Option Coords → Effect

abbrev pub Act {ℓ} : Type ℓ → Type ℓ
Act A = Traced Effect A

-- What the calls of one task come to; none or false is an exception.
pub record Answers : Type 0 where
  pub failures : Option (List String)
  pub said : Bool
  pub barrier_told : Bool
  pub evaluated : Bool
  pub planned : Option PlanOut
  -- an exception of the self-dialogue is caught
  pub dialogue_ran : Bool
  pub recovery_said : Bool
  pub executed : Bool

-- The classification of a message (action_analyzer.py).
pub record Rules : Type 0 where
  pub is_move_to_player_command : String → Bool
  pub is_source_excluded : String → Bool
  pub extract_coordinates : String → Option Coords
  -- goal_profile.category of a plan, or "" without one
  pub goal_category : PlanOut → String

abbrev pub last_chat : ChatTask → Effect
last_chat t =
    kept "last_chat"
      (dict (field "username" (text t.username) (field "message" (text t.message) end)))

-- if condition: do the effect
abbrev pub only_if : Bool → Act (Unit {0}) → Act (Unit {0})
only_if true m = m
only_if false m = pure tt

-- try: … finally: memory.set(…)
abbrev pub finally {ℓ} : {A : Type ℓ} → Act A → Effect → Act A
finally m e = (m.0 ++ e ∷ [], m.1)

-- The plan of a clear call to come.
abbrev pub direct_plan : PlanOut
direct_plan = record {
  plan = "話者に合流する" ∷ [];
  resp = "";
  intent = "move_to_player";
  coordinates = null;
  blocking = false;
  react_trace = [];
  clarification_needed = "none";
  backlog = [];
  next_action = "execute";
  goal_summary = "発話したプレイヤーのもとへ移動";
  directives = [];
}

-- A plan to come to the player is kept apart from a message that excludes that.
abbrev pub is_kept_apart : Rules → ChatTask → PlanOut → Bool
is_kept_apart rules t p = rules.is_source_excluded t.message && str_eq p.intent "move_to_player"

abbrev pub guarded : Rules → ChatTask → PlanOut → PlanOut
guarded rules t p =
    if is_kept_apart rules t p then record p { plan = "話者に合流する" ∷ []; resp = "" } else p

-- The player is asked something first.
abbrev pub asks_player : PlanOut → Bool
asks_player p =
    p.blocking || not (str_eq p.clarification_needed "none") || str_eq p.next_action "chat"

abbrev pub should_relay : Rules → ChatTask → PlanOut → Bool
should_relay rules t p =
    not (str_eq p.resp "") && not (asks_player p) && not (is_kept_apart rules t p)

-- `_MISSION_BINDINGS`
abbrev pub mission_bindings : Dict String
mission_bindings =
    ("mine", "obtain_diamond") ∷ ("farm", "harvest_wheat") ∷ ("build", "build_simple_house") ∷ []

abbrev or_mission : Option String → Option String → Option String
or_mission by_goal none = by_goal
or_mission by_goal (some mission) = some mission

-- `_resolve_mission_id_from_plan`
unfoldable pub resolve_mission_id : Rules → PlanOut → Option String
unfolding lookup
resolve_mission_id rules p =
    or_mission (lookup (rules.goal_category p) mission_bindings)
      (lookup (strip p.intent) mission_bindings)

-- A plan has no steps, or its intent is a mission and it has a trace.
unfoldable pub is_recovery_triggered : PlanOut → Bool
unfolding lookup
is_recovery_triggered p =
    (length p.plan == 0)
    || (is_some (lookup (strip p.intent) mission_bindings) && not (length p.react_trace == 0))

abbrev pub recovery_text : String
recovery_text = "十分な手順を生成できなかったため、記録済みの自己対話ログを参照して計画を立て直します。"

unfoldable pub after_dialogue : Answers → Bool → Act Bool
after_dialogue answers true = do
  _ ← ask (said recovery_text) (done answers.recovery_said)
  pure true
after_dialogue answers false = pure false

unfoldable pub recover : Answers → Option String → Act Bool
unfolding after_dialogue
recover answers none = pure false
recover answers (some mission) = do
  ran ← ask (dialogue_run mission) (some answers.dialogue_ran)
  after_dialogue answers ran

unfoldable pub maybe_trigger_autorecovery : Rules → Answers → PlanOut → Act Bool
unfolding recover resolve_mission_id is_recovery_triggered
maybe_trigger_autorecovery rules answers p =
    if is_recovery_triggered p then recover answers (resolve_mission_id rules p) else pure false

-- The plan is carried out with the message at hand.
unfoldable pub execute_plan : Rules → Answers → ChatTask → PlanOut → Act (Unit {0})
execute_plan rules answers t p = do
  _ ← ask (kept "_active_chat_message" (text t.message)) (done true)
  finally
      (ask
        (plan_executed p
          (or_coords (coerce_coordinate_tuple p.coordinates) (rules.extract_coordinates t.message)))
        (done answers.executed))
      (kept "_active_chat_message" null)

unfoldable pub relay_and_execute : Rules → Answers → ChatTask → PlanOut → Act (Unit {0})
unfolding execute_plan
relay_and_execute rules answers t p = do
  _ ← only_if (should_relay rules t p) (ask (said p.resp) (done answers.said))
  _ ← execute_plan rules answers t p
  ask (last_chat t) (done true)

-- After the plan is there.
unfoldable pub with_plan : Rules → Answers → ChatTask → PlanOut → Act (Unit {0})
unfolding relay_and_execute maybe_trigger_autorecovery
with_plan rules answers t p = do
  _ ← ask (summary_recorded p) (done true)
  recovered ← maybe_trigger_autorecovery rules answers p
  if recovered then ask (last_chat t) (done true) else relay_and_execute rules answers t p

unfoldable pub find_plan : Rules → Answers → ChatTask → Act PlanOut
find_plan rules answers t =
    if rules.is_move_to_player_command t.message
    then pure direct_plan
    else ask (plan_requested t.message) answers.planned

abbrev pub acknowledgement : String
acknowledgement = "呼びかけを受けました。合流できるか確認します。"

unfoldable pub go_on : Rules → Answers → ChatTask → Act (Unit {0})
unfolding with_plan find_plan
go_on rules answers t = do
  _ ←
      only_if (rules.is_move_to_player_command t.message)
        (ask (said acknowledgement) (done answers.said))
  _ ← ask evaluations_collected (done answers.evaluated)
  p ← find_plan rules answers t
  with_plan rules answers t (guarded rules t p)

unfoldable pub primed : Rules → Answers → ChatTask → List String → Act (Unit {0})
unfolding go_on
primed rules answers t [] = go_on rules answers t
primed rules answers t (failure ∷ failures) =
    if rules.is_move_to_player_command t.message
    then (do
      _ ← ask (said "周囲の状態を確認できないため、安全に合流できません。接続状況を確認してから、もう一度呼びかけてください。") (done answers.said)
      ask (last_chat t) (done true))
    else (do
      _ ←
          ask
            (barrier_reported "状態取得"
              (append (join ", " (failure ∷ failures)) " の取得に失敗しました。Mineflayer への接続状況を確認してください。"))
            (done answers.barrier_told)
      go_on rules answers t)

unfoldable pub run_chat_task : Rules → Answers → ChatTask → Act (Unit {0})
unfolding primed
run_chat_task rules answers t = do
  _ ← ask (kept "last_requester" (text t.username)) (done true)
  failures ← ([], answers.failures)
  primed rules answers t failures
