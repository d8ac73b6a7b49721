-- ===== src/ActionGraph/Outcome.antt =====
-- What a step that was carried out comes to.
use mc_bot_egent_practice.Prelude.{
  ◌≡◌, refl, String, Bool, true, false, ◌||◌, Option, none, some, str_eq,
}
use mc_bot_egent_practice.Prelude.Traced.{
  raised, ask, done, ◌>>=◌, Returns, Returns-bind, Returns-then, Returns-same,
}
use mc_bot_egent_practice.Python.{Value, truth, get}
use mc_bot_egent_practice.Building.{Coords}
use mc_bot_egent_practice.Planning.{or_coords}
use mc_bot_egent_practice.ActionGraph.State.{
  SkillMatch, ActionState, Act, Answers, Rules, NodeResult,
}
use mc_bot_egent_practice.ActionGraph.Skills.{
  initialize, invocation_answered, execute_skill_match, exploration_answered,
  begin_skill_exploration, skill_found, seek_skill, explore, trigger_exploration, apply_role_policy,
  route_module,
}
use mc_bot_egent_practice.ActionGraph.Graph.{
  Walked, finished, initial_state, walk, run_graph, result_of, Task, rule_for, ruled_task,
  handle_task, action_task_rules, equip_task, perform_task, initialize_node,
}
use mc_bot_egent_practice.ActionGraph.Clear.{is_clear, IsClear, if-Clear, handler-IsClear}
use mc_bot_egent_practice.ActionGraph.Routing.{by_status}
use mc_bot_egent_practice.ActionGraph.Course.{closing, handler, act, carry_out, walk-carry_out}

-- A target that is known is not lost.
abbrev pub keeps_target : Option Coords → Option Coords → Bool
keeps_target (some before) none = false
keeps_target _ _ = true

abbrev pub IsSound : Task → NodeResult → Type 0
IsSound task r =
    (is_clear r.handled r.failure_detail ≡ true)
    × (keeps_target task.last_target_coords r.updated_target ≡ true)

-- The states in which what is handled has no failure.
abbrev IsClearState : ActionState → Type 0
IsClearState s = is_clear s.handled s.failure_detail ≡ true

abbrev IsClearPair : Bool × Option Value → Type 0
IsClearPair o = is_clear o.0 o.1 ≡ true

abbrev IsClearEnd : Walked → Type 0
IsClearEnd (finished s) = IsClearState s
IsClearEnd _ = Unit

module _ (rules : Rules) (answers : Answers) where
  invocation-IsClear :
      (found : SkillMatch) (step : String)
      → Returns IsClearPair (execute_skill_match rules answers found step).1
  unfolding execute_skill_match invocation_answered
  invocation-IsClear found step = Returns-bind IsClearPair (ask _ answers.skill_response) _ (λ resp.
      if-Clear IsClearPair (truth (get "ok" resp)) _ _
        (Returns-bind IsClearPair (ask _ (done answers.usage_recorded)) _ (λ u. refl))
        (Returns-bind IsClearPair (ask _ (done answers.usage_recorded)) _ (λ u. refl)))

  exploration-IsClear :
      (found : SkillMatch) (step : String)
      → Returns IsClearPair (begin_skill_exploration answers found step).1
  unfolding begin_skill_exploration exploration_answered
  exploration-IsClear found step =
      Returns-bind IsClearPair (ask _ answers.exploration_response) _
        (λ resp. if-Clear IsClearPair (truth (get "ok" resp)) _ _ refl refl)

  skill_found-IsClear :
      (s : ActionState) (found : Option SkillMatch)
      → IsClearState s
      → Returns IsClearState (skill_found rules answers s found).1
  unfolding skill_found
  skill_found-IsClear s none h = h
  skill_found-IsClear s (some found) h =
      if-Clear IsClearState found.unlocked _ _
        (Returns-then IsClearPair IsClearState (execute_skill_match rules answers found s.step) _
          (invocation-IsClear found s.step) (λ outcome k. k))
        h

  seek_skill-IsClear :
      (s : ActionState) → IsClearState s → Returns IsClearState (seek_skill rules answers s).1
  unfolding seek_skill
  seek_skill-IsClear s h =
      if-Clear IsClearState (str_eq s.category "move_to_player" || str_eq s.category "") _ _ h
        (Returns-bind IsClearState (ask _ answers.skill) _ (λ found. skill_found-IsClear s found h))

  explore-IsClear :
      (s : ActionState) (found : Option SkillMatch)
      → Returns IsClearState (explore answers s found).1
  unfolding explore
  explore-IsClear s none = refl
  explore-IsClear s (some found) =
      Returns-then IsClearPair IsClearState (begin_skill_exploration answers found s.step) _
        (exploration-IsClear found s.step) (λ outcome k. k)

  act-IsClear :
      (nested : String → Act NodeResult) (s : ActionState)
      → Returns IsClearState (act rules answers nested s).1
  unfolding act
  act-IsClear nested s = Returns-bind IsClearState (apply_role_policy answers s) _ (λ s'.
      Returns-then IsClear IsClearState (handler rules answers nested s'.category (route_module s'))
        _ (handler-IsClear rules answers (route_module s') nested s'.category) (λ r k. k))

  by_status-IsClear :
      (status : String) (x y : Act ActionState) (s : ActionState)
      → Returns IsClearState x.1
      → Returns IsClearState y.1
      → IsClearState s
      → Returns IsClearEnd (by_status status (x >>= closing) (y >>= closing) (closing s)).1
  by_status-IsClear status x y s h k m =
      if-Clear IsClearEnd (str_eq status "none") _ _
        (Returns-then IsClearState IsClearEnd x closing h (λ s' c. c))
        (if-Clear IsClearEnd (str_eq status "locked") _ _
          (Returns-then IsClearState IsClearEnd y closing k (λ s' c. c)) m)

  carry_out-IsClear :
      (nested : String → Act NodeResult) (s : ActionState)
      → Returns IsClearEnd (carry_out rules answers nested s).1
  unfolding carry_out trigger_exploration
  carry_out-IsClear nested s =
      Returns-then IsClearState IsClearEnd (seek_skill rules answers (initialize s)) _
        (seek_skill-IsClear (initialize s) refl)
        (λ s' h.
          by_status-IsClear s'.skill_status (act rules answers nested s')
            (trigger_exploration answers s') s' (act-IsClear nested s')
            (explore-IsClear s' s'.skill_candidate) h)

  keeps_target-or_coords : (u l : Option Coords) → keeps_target l (or_coords u l) ≡ true
  keeps_target-or_coords none none = refl
  keeps_target-or_coords none (some l) = refl
  keeps_target-or_coords (some u) none = refl
  keeps_target-or_coords (some u) (some l) = refl

  result_of-IsSound :
      (task : Task) (w : Walked) → IsClearEnd w → Returns (IsSound task) (result_of task w).1
  result_of-IsSound task (finished s) h =
      (h, keeps_target-or_coords s.updated_target task.last_target_coords)
  result_of-IsSound task _ h = tt

  run_graph-IsSound :
      (nested : String → Act NodeResult) (label : String) (implemented : Bool) (task : Task)
      → Returns (IsSound task) (run_graph rules answers nested label implemented task).1
  unfolding run_graph
  run_graph-IsSound nested label implemented task =
      let s = initial_state answers label implemented task in
      Returns-then IsClearEnd (IsSound task) (walk rules answers nested 6 initialize_node s) _
        (Returns-same IsClearEnd _ _ (walk-carry_out rules answers nested s).0
          (carry_out-IsClear nested s))
        (result_of-IsSound task)

  ruled_task-IsSound :
      (nested : String → Act NodeResult) (task : Task) (rule : Option (String × Bool))
      → Returns (IsSound task) (ruled_task rules answers nested task rule).1
  unfolding ruled_task
  ruled_task-IsSound nested task none = (refl, keeps_target-or_coords none task.last_target_coords)
  ruled_task-IsSound nested task (some (label, implemented)) =
      run_graph-IsSound nested label implemented task

-- Of every task, whatever the answers to its calls and to those of a task to equip inside it: if it
-- returns, what is handled has no failure, and a target that was known before is not lost.
pub perform_task-IsSound :
    (rules : Rules) (answers inner : Answers) (task : Task)
    → Returns (IsSound task) (perform_task rules answers inner task).1
unfolding perform_task handle_task
perform_task-IsSound rules answers inner task =
    ruled_task-IsSound rules answers
      (λ step. handle_task rules inner (λ other. raised) (equip_task task step)) task
      (rule_for task.category action_task_rules)
