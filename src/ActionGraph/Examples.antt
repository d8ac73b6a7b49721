-- ===== src/ActionGraph/Examples.antt =====
-- Steps of a plan in the graph: tests of the definitions and instances of the theorems.
use mc_bot_egent_practice.Prelude.{
  ◌++◌, ◌<◌, ℕ, ◌≡◌, refl, String, true, false, none, some, List, [], ◌∷◌, ◌⊎◌,
}
use mc_bot_egent_practice.Prelude.Int.{pos}
use mc_bot_egent_practice.Prelude.Traced.{Returns, raised}
use mc_bot_egent_practice.Python.{
  Value, Fields, PlacementTask, integer, text, boolean, list, dict, nil, cons, field, end, get,
  truth,
}
use mc_bot_egent_practice.Building.{BuildingCheckpoint, placement}
use mc_bot_egent_practice.ActionGraph.{
  ActionState, Effect, equipped, mined, Answers, Rules, requester, dicts_in, select_pickaxe,
  handle_move, Task, initialize_node, initial_state, walk, perform_task,
}
use mc_bot_egent_practice.ActionGraph.Routing.{is_finished}
use mc_bot_egent_practice.ActionGraph.Course.{carry_out, walk-carry_out}
use mc_bot_egent_practice.ActionGraph.Outcome.{IsSound, perform_task-IsSound}
use mc_bot_egent_practice.ActionGraph.Rendezvous.{are_all, is_proper, sayings, handle_move-IsProper}
use mc_bot_egent_practice.ActionGraph.Pickaxes.{suitability, best_tier, select_pickaxe_lem}

abbrev rules : Rules
rules = record {
  extract_coordinates = λ t. none;
  default_move_target = none;
  is_source_excluded = λ t. false;
  is_low_food = λ v. false;
  infer_equip_arguments =
      λ t. some (record { tool_type = some "pickaxe"; item_name = none; destination = "hand" });
  infer_mining_request =
      λ t. record { targets = "diamond_ore" ∷ []; scan_radius = 12; max_targets = 3 };
  is_durable = λ item. true;
  str = λ v. "";
  lower = λ t. t;
}

abbrev pickaxe : String → Value
pickaxe name = dict (field "name" (text name) end)

-- A stone pickaxe and two better ones.
abbrev inventory : Fields
inventory =
    field "pickaxes"
      (list (
        cons (pickaxe "stone_pickaxe")
          (cons (pickaxe "iron_pickaxe") (cons (pickaxe "diamond_pickaxe") nil))))
      end

abbrev block : Value
block = dict (
    field "block" (text "stone") (
      field "coords"
        (list (cons (integer (pos 1)) (cons (integer (pos 64)) (cons (integer (pos 2)) nil)))) end))

abbrev memory : Fields
memory =
    field "inventory_detail" (dict inventory)
      (field "last_requester" (text "Alex") (field "building_layout" (list (cons block nil)) end))

abbrev ok_response : Fields
ok_response = field "ok" (boolean true) end

abbrev answers : Answers
answers = record {
  memory = memory;
  recent_perception = end;
  current_role = "generalist";
  skill = some none;
  skill_response = some ok_response;
  usage_recorded = true;
  exploration_response = some ok_response;
  pending_role = none;
  role_switched = some false;
  role_after = "generalist";
  said = true;
  follow_response = some (dict (field "error" (text "rendezvous_no_path") end));
  move_response = some ok_response;
  barrier_told = true;
  first_inventory = some (dict (field "ok" (boolean true) (field "data" (dict inventory) end)));
  second_inventory = none;
  equip_response = some ok_response;
  mine_response = some ok_response;
}

abbrev task_of : String → Task
task_of category = record {
  category = category;
  step = "step";
  last_target_coords = some (pos 1, pos 64, pos 2);
  explicit_coords = none;
}

abbrev tools : List Effect → ℕ × ℕ
tools [] = (0, 0)
tools (equipped tool item destination ∷ es) = let r = tools es in (ℕ.suc r.0, r.1)
tools (mined targets radius count ∷ es) = let r = tools es in (r.0, ℕ.suc r.1)
tools (e ∷ es) = tools es

-- A mining step with a pickaxe that is good enough equips it and does not mine.
test_equipped : (tools (perform_task rules answers answers (task_of "mine")).0).0 ≡ 1
unfolding perform_task get truth
test_equipped = refl

test_not_mined : (tools (perform_task rules answers answers (task_of "mine")).0).1 ≡ 0
unfolding perform_task get truth
test_not_mined = refl

abbrev to_player : ActionState
to_player = initial_state answers "" true (task_of "move_to_player")

walk-carry_out_example :
    (walk rules answers (λ step. raised) 6 initialize_node to_player
      ≡ carry_out rules answers (λ step. raised) to_player)
    × Returns
        (λ w. is_finished w ≡ true)
        (walk rules answers (λ step. raised) 6 initialize_node to_player).1
walk-carry_out_example = walk-carry_out rules answers (λ step. raised) to_player

perform_task-IsSound_example :
    Returns (IsSound (task_of "mine")) (perform_task rules answers answers (task_of "mine")).1
perform_task-IsSound_example = perform_task-IsSound rules answers answers (task_of "mine")

handle_move-IsProper_example :
    (are_all
        (is_proper rules answers (requester answers to_player))
        (handle_move rules answers to_player).0
      ≡ true)
    × Returns
        (λ r. sayings (handle_move rules answers to_player).0 ≡ 1)
        (handle_move rules answers to_player).1
unfolding initial_state
handle_move-IsProper_example = handle_move-IsProper rules answers to_player refl

select_pickaxe_lem_example :
    ((select_pickaxe rules ("diamond_ore" ∷ []) (dict inventory) ≡ none)
      × (best_tier rules ("diamond_ore" ∷ []) (dicts_in (get "pickaxes" inventory)) ≡ 0))
    ⊎ ((item : Fields) × (select_pickaxe rules ("diamond_ore" ∷ []) (dict inventory) ≡ some item)
        × (0 < suitability rules ("diamond_ore" ∷ []) item)
        × (suitability rules ("diamond_ore" ∷ []) item
            ≡ best_tier rules ("diamond_ore" ∷ []) (dicts_in (get "pickaxes" inventory)))
        × ((before : List Fields) × (after : List Fields) × (dicts_in (get "pickaxes" inventory)
              ≡ before ++ item ∷ after)))
select_pickaxe_lem_example = select_pickaxe_lem rules ("diamond_ore" ∷ []) inventory

abbrev after_one : BuildingCheckpoint
after_one = record { phase = placement; reserved_materials = []; placed_blocks = pos 1 }

abbrev one_stone : List PlacementTask
one_stone = record { block = "stone"; x = pos 1; y = pos 64; z = pos 2 } ∷ []
