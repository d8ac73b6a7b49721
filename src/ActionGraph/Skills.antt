-- ===== src/ActionGraph/Skills.antt =====
-- The nodes `initialize`, `seek_skill` and `trigger_exploration` of
-- python/runtime/action_graph_builder.py with the calls of python/orchestrator/skill_detection.py,
-- and `apply_role_policy` and `route_module`.
use mc_bot_egent_practice.Prelude.{
  String, Bool, true, false, ◌||◌, Option, none, some, str_eq, if◌then◌else◌,
}
use mc_bot_egent_practice.Prelude.Traced.{pure, ask, done, ◌>>=◌}
use mc_bot_egent_practice.Python.{Value, Fields, text, end, field, truth, get, append, is_in}
use mc_bot_egent_practice.ActionGraph.State.{
  SkillMatch, ActionState, kept, skill_sought, skill_invoked, usage_recorded, exploration_begun,
  role_applied, Act, Answers, Rules, show,
}

abbrev pub initialize : ActionState → ActionState
initialize s = record s {
  handled = false;
  updated_target = s.last_target_coords;
  failure_detail = none;
  module_name = "generic";
  role_transitioned = false;
  role_transition_reason = none;
  skill_status = "none";
}

abbrev pub usage_fields : SkillMatch → String → Value
usage_fields found step = Value.dict (
    field "skill_id" (text found.identifier)
      (field "title" (text found.title) (field "step" (text step) end)))

-- isinstance(error_detail, str) and "is not registered" in error_detail
abbrev pub is_unregistered : Value → Bool
is_unregistered (text t) = is_in "is not registered" t
is_unregistered _ = false

abbrev pub failure_text : Rules → SkillMatch → Value → Value
failure_text rules found detail = text (
    append "スキル『" (
      append found.title (
        append "』の再生に失敗しました: "
          (if truth detail then show rules detail else "Mineflayer 側でスキル再生が拒否されました"))))

unfoldable pub invocation_answered :
    Rules → Answers → SkillMatch → String → Fields → Act (Bool × Option Value)
invocation_answered rules answers found step resp =
    if truth (get "ok" resp)
    then (do
      _ ← ask (usage_recorded found.identifier true) (done answers.usage_recorded)
      _ ← ask (kept "last_skill_usage" (usage_fields found step)) (done true)
      pure (true, none))
    else (do
      _ ← ask (usage_recorded found.identifier false) (done answers.usage_recorded)
      pure (
        false,
        if is_unregistered (get "error" resp)
            then none
            else some (failure_text rules found (get "error" resp)),
      ))

unfoldable pub execute_skill_match :
    Rules → Answers → SkillMatch → String → Act (Bool × Option Value)
unfolding invocation_answered
execute_skill_match rules answers found step = do
  resp ← ask (skill_invoked found.identifier step) answers.skill_response
  invocation_answered rules answers found step resp

unfoldable pub exploration_answered : SkillMatch → String → Fields → Act (Bool × Option Value)
exploration_answered found step resp =
    if truth (get "ok" resp)
    then (do
      _ ← ask (kept "last_skill_exploration" (usage_fields found step)) (done true)
      pure (true, none))
    else pure (
      false,
      some (
          if truth (get "error" resp)
          then get "error" resp
          else text "探索モードへの切り替えが Mineflayer 側で拒否されました"),
    )

unfoldable pub begin_skill_exploration : Answers → SkillMatch → String → Act (Bool × Option Value)
unfolding exploration_answered
begin_skill_exploration answers found step = do
  resp ←
      ask (exploration_begun found.identifier found.description step) answers.exploration_response
  exploration_answered found step resp

abbrev pub invoked_status : Bool → Option Value → String
invoked_status true detail = "handled"
invoked_status false none = "none"
invoked_status false (some detail) = "failed"

-- The state after a skill, with its outcome and the status for it.
abbrev pub skilled : ActionState → Bool × Option Value → String → ActionState
skilled s outcome status = record s {
  handled = outcome.0;
  failure_detail = outcome.1;
  updated_target = s.last_target_coords;
  skill_status = status;
}

abbrev pub without_skill : ActionState → ActionState
without_skill s = record s { skill_status = "none" }

unfoldable pub skill_found : Rules → Answers → ActionState → Option SkillMatch → Act ActionState
unfolding execute_skill_match
skill_found rules answers s none = pure (without_skill s)
skill_found rules answers s (some found) =
    if found.unlocked
    then (do
      outcome ← execute_skill_match rules answers found s.step
      pure (
          skilled (record s { skill_candidate = some found }) outcome
            (invoked_status outcome.0 outcome.1)))
    else pure (record s {
      skill_candidate = some found;
      skill_status = "locked";
      updated_target = s.last_target_coords;
    })

-- The object `Actions` always has the two methods that the source looks for with `hasattr`.
unfoldable pub seek_skill : Rules → Answers → ActionState → Act ActionState
unfolding skill_found
seek_skill rules answers s =
    if str_eq s.category "move_to_player" || str_eq s.category ""
    then pure (without_skill s)
    else (do
      found ← ask (skill_sought s.category s.step) answers.skill
      skill_found rules answers s found)

abbrev pub explored_status : Bool → String
explored_status true = "exploration"
explored_status false = "failed"

unfoldable pub explore : Answers → ActionState → Option SkillMatch → Act ActionState
unfolding begin_skill_exploration
explore answers s none = pure (skilled s (false, some (text "探索対象のスキル候補が見つかりませんでした。")) "failed")
explore answers s (some found) = do
  outcome ← begin_skill_exploration answers found s.step
  pure (skilled s outcome (explored_status outcome.0))

unfoldable pub trigger_exploration : Answers → ActionState → Act ActionState
unfolding explore
trigger_exploration answers s = explore answers s s.skill_candidate

abbrev pub with_role : ActionState → String → Bool → Option String → ActionState
with_role s role transitioned reason = record s {
  active_role = role;
  role_transitioned = transitioned;
  role_transition_reason = reason;
}

unfoldable pub switch_role :
    Answers → ActionState → Option (String × Option String) → Act ActionState
switch_role answers s none = pure (with_role s s.active_role false none)
switch_role answers s (some (desired, reason)) =
    if str_eq desired "" || str_eq desired s.active_role
    then pure (with_role s s.active_role false reason)
    else (do
      transitioned ← ask (role_applied desired reason) answers.role_switched
      pure (
          with_role s (if transitioned then answers.role_after else s.active_role) transitioned
            reason))

unfoldable pub apply_role_policy : Answers → ActionState → Act ActionState
unfolding switch_role
apply_role_policy answers s = switch_role answers s answers.pending_role

abbrev pub module_of : String → String
module_of category =
    if str_eq category "mine"
    then "mining"
    else if str_eq category "build"
    then "building"
    else if str_eq category "fight"
    then "defense"
    else if str_eq category "move" || str_eq category "move_to_player"
    then "move"
    else if str_eq category "equip"
    then "equip"
    else "generic"

abbrev pub route_module : ActionState → ActionState
route_module s = record s { module_name = module_of s.category }
