-- ===== src/ActionGraph/Graph.antt =====
-- The graph of python/runtime/action_graph_builder.py, `ActionGraph.run` of
-- python/runtime/action_graph.py and `handle_action_task` of python/chat_pipeline.py.
use mc_bot_egent_practice.Prelude.{
  ℕ, zero, suc, String, Bool, true, false, Option, none, some, List, [], ◌∷◌, str_eq, if◌then◌else◌,
}
use mc_bot_egent_practice.Prelude.Traced.{pure, raised, ask, done, ◌>>=◌}
use mc_bot_egent_practice.Python.{Value, Fields, text, end, field, get}
use mc_bot_egent_practice.Building.{Coords}
use mc_bot_egent_practice.Planning.{or_coords, or_text}
use mc_bot_egent_practice.ActionGraph.State.{
  ActionState, queued, Act, Answers, Rules, NodeResult, succeeded, merge,
}
use mc_bot_egent_practice.ActionGraph.Skills.{
  initialize, seek_skill, trigger_exploration, apply_role_policy, route_module,
}
use mc_bot_egent_practice.ActionGraph.Move.{handle_move}
use mc_bot_egent_practice.ActionGraph.Equip.{handle_equip}
use mc_bot_egent_practice.ActionGraph.Mining.{handle_mining}
use mc_bot_egent_practice.ActionGraph.Build.{handle_building}

unfoldable pub handle_defense : ActionState → Act NodeResult
handle_defense s = do
  _ ←
      ask
        (queued (
          field "category" (text "fight") (
            field "step" (text s.step) (
              field "label" (text (or_text s.rule_label "戦闘行動"))
                (field "module" (text "defense") (field "role" (text s.active_role) end))))))
        (done true)
  pure (succeeded s.last_target_coords)

abbrev pub generic_item : ActionState → Fields
generic_item s = field "category" (text s.category) (
    field "step" (text s.step) (
      field "label" (text (or_text s.rule_label s.category))
        (field "role" (text s.active_role) end)))

unfoldable pub handle_generic : ActionState → Act NodeResult
handle_generic s =
    if s.rule_implemented
    then pure
        (record { handled = false; updated_target = s.last_target_coords; failure_detail = none })
    else (do _ ← ask (queued (generic_item s)) (done true); pure (succeeded s.last_target_coords))

abbrev pub finalize : ActionState → ActionState
finalize s = record s { updated_target = or_coords s.updated_target s.last_target_coords }

pub data Node : Type 0 where
  initialize_node seek_skill_node trigger_exploration_node role_node route_node : Node
  move_node equip_node mining_node building_node defense_node generic_node finalize_node : Node

-- The state after a handler.
abbrev pub merged : ActionState → Act NodeResult → Act ActionState
merged s m = do r ← m; pure (merge s r)

pub data Edge : Type 0 where
  to : Node → Edge
  ended : Edge
  -- a key that the table of a conditional edge does not have
  missing : Edge

unfoldable pub edge_in : String → List (String × Node) → Edge
edge_in key [] = missing
edge_in key ((k, n) ∷ rest) = if str_eq k key then to n else edge_in key rest

abbrev pub skill_edges : List (String × Node)
skill_edges =
    ("handled", finalize_node)
    ∷ ("failed", finalize_node)
    ∷ ("locked", trigger_exploration_node)
    ∷ ("exploration", finalize_node)
    ∷ ("none", role_node)
    ∷ []

abbrev pub module_edges : List (String × Node)
module_edges =
    ("move", move_node)
    ∷ ("equip", equip_node)
    ∷ ("mining", mining_node)
    ∷ ("building", building_node)
    ∷ ("defense", defense_node)
    ∷ ("generic", generic_node)
    ∷ []

unfoldable pub edge : Node → ActionState → Edge
unfolding edge_in
edge initialize_node s = to seek_skill_node
edge seek_skill_node s = edge_in s.skill_status skill_edges
edge role_node s = to route_node
edge route_node s = edge_in s.module_name module_edges
edge finalize_node s = ended
edge _ s = to finalize_node

-- How a walk over the graph ends.
pub data Walked : Type 0 where
  finished : ActionState → Walked
  key_error : Walked
  out_of_fuel : Walked

abbrev pub follow_edge : (Node → Act Walked) → ActionState → Edge → Act Walked
follow_edge go s (to n) = go n
follow_edge go s ended = pure (finished s)
follow_edge go s missing = pure key_error

module _ (rules : Rules) (answers : Answers) (nested : String → Act NodeResult) where
  unfoldable pub node : Node → ActionState → Act ActionState
  unfolding seek_skill trigger_exploration apply_role_policy handle_move handle_equip handle_mining
      handle_building handle_defense handle_generic
  node initialize_node s = pure (initialize s)
  node seek_skill_node s = seek_skill rules answers s
  node trigger_exploration_node s = trigger_exploration answers s
  node role_node s = apply_role_policy answers s
  node route_node s = pure (route_module s)
  node move_node s = merged s (handle_move rules answers s)
  node equip_node s = merged s (handle_equip rules answers s)
  node mining_node s = merged s (handle_mining rules answers nested s)
  node building_node s = merged s (handle_building answers s)
  node defense_node s = merged s (handle_defense s)
  node generic_node s = merged s (handle_generic s)
  node finalize_node s = pure (finalize s)

  -- The nodes from one on, until the end.
  unfoldable pub walk : ℕ → Node → ActionState → Act Walked
  unfolding node edge
  walk zero n s = pure out_of_fuel
  walk (suc fuel) n s = do s' ← node n s; follow_edge (λ next. walk fuel next s') s' (edge n s')

-- A step of a plan that the graph is asked to carry out.
pub record Task : Type 0 where
  pub category : String
  pub step : String
  pub last_target_coords : Option Coords
  pub explicit_coords : Option Coords

-- target_player if isinstance(target_player, str) else None
abbrev pub player_of : Value → Option String
player_of (text player) = some player
player_of _ = none

-- The state that `ActionGraph.run` begins with. The fields that `initialize` sets are not there
-- yet.
unfoldable pub initial_state : Answers → String → Bool → Task → ActionState
initial_state answers label implemented task = record {
  category = task.category;
  step = task.step;
  last_target_coords = task.last_target_coords;
  explicit_coords = task.explicit_coords;
  target_player = player_of (get "last_requester" answers.memory);
  rule_label = or_text label task.category;
  rule_implemented = implemented;
  recent_perception = answers.recent_perception;
  active_role = answers.current_role;
  role_transitioned = false;
  role_transition_reason = none;
  handled = false;
  updated_target = none;
  failure_detail = none;
  module_name = "generic";
  skill_candidate = none;
  skill_status = "none";
}

abbrev pub result_of : Task → Walked → Act NodeResult
result_of task (finished s) = pure (record {
  handled = s.handled;
  updated_target = or_coords s.updated_target task.last_target_coords;
  failure_detail = s.failure_detail;
})
result_of task _ = raised

-- `ActionGraph.run`. A walk is at most six nodes long.
unfoldable pub run_graph :
    Rules → Answers → (String → Act NodeResult) → String → Bool → Task → Act NodeResult
unfolding walk initial_state
run_graph rules answers nested label implemented task = do
  walked ←
      walk rules answers nested 6 initialize_node (initial_state answers label implemented task)
  result_of task walked

-- The label and the flag of the rules of python/runtime/rules.py, by the category.
abbrev pub action_task_rules : List (String × (String × Bool))
action_task_rules =
    ("move", ("指定地点への移動", true))
    ∷ ("move_to_player", ("プレイヤー座標への移動", true))
    ∷ ("mine", ("採掘作業", false))
    ∷ ("farm", ("農作業", false))
    ∷ ("craft", ("クラフト処理", false))
    ∷ ("follow", ("追従行動", false))
    ∷ ("build", ("建築作業", false))
    ∷ ("fight", ("戦闘行動", false))
    ∷ ("equip", ("装備持ち替え", true))
    ∷ ("deliver", ("アイテム受け渡し", false))
    ∷ ("storage", ("保管操作", false))
    ∷ ("gather", ("素材収集", false))
    ∷ []

unfoldable pub rule_for : String → List (String × (String × Bool)) → Option (String × Bool)
rule_for category [] = none
rule_for category ((key, rule) ∷ rest) =
    if str_eq key category then some rule else rule_for category rest

unfoldable pub ruled_task :
    Rules → Answers → (String → Act NodeResult) → Task → Option (String × Bool) → Act NodeResult
unfolding run_graph
ruled_task rules answers nested task none = do
  _ ←
      ask
        (queued (
          field "category" (text task.category)
            (field "step" (text task.step) (field "label" (text task.category) end))))
        (done true)
  pure (record { handled = false; updated_target = task.last_target_coords; failure_detail = none })
ruled_task rules answers nested task (some (label, implemented)) =
    run_graph rules answers nested label implemented task

-- `handle_action_task`
unfoldable pub handle_task : Rules → Answers → (String → Act NodeResult) → Task → Act NodeResult
unfolding ruled_task rule_for
handle_task rules answers nested task =
    ruled_task rules answers nested task (rule_for task.category action_task_rules)

abbrev pub equip_task : Task → String → Task
equip_task task step = record {
  category = "equip";
  step = step;
  last_target_coords = task.last_target_coords;
  explicit_coords = none;
}

-- A task whose mining step may carry out a task to equip, with answers of its own. A task to equip
-- carries out no other one.
unfoldable pub perform_task : Rules → Answers → Answers → Task → Act NodeResult
unfolding handle_task
perform_task rules answers inner task =
    handle_task rules answers
      (λ step. handle_task rules inner (λ other. raised) (equip_task task step)) task
