-- ===== src/ActionGraph/Mining.antt =====
-- The node `handle_mining` of python/runtime/action_graph_builder.py, with
-- `select_pickaxe_for_targets` of python/chat_pipeline.py.
use mc_bot_egent_practice.Prelude.{
  Dict, lookup, ℕ, max, ltb, String, not, ◌||◌, Option, none, some, List, [], ◌∷◌, if◌then◌else◌,
}
use mc_bot_egent_practice.Prelude.Traced.{pure, ask, ◌>>=◌}
use mc_bot_egent_practice.Python.{Value, Fields, text, dict, truth, get, append}
use mc_bot_egent_practice.ActionGraph.Equip.{dicts_in, show_or}
use mc_bot_egent_practice.ActionGraph.State.{
  ActionState, mined, Act, Answers, MiningRequest, Rules, NodeResult, succeeded, refused,
}

-- `PICKAXE_TIER_BY_NAME` and `ORE_PICKAXE_REQUIREMENTS` of python/runtime/rules.py
abbrev pub pickaxe_tiers : Dict ℕ
pickaxe_tiers =
    ("wooden_pickaxe", 1)
    ∷ ("golden_pickaxe", 1)
    ∷ ("stone_pickaxe", 2)
    ∷ ("iron_pickaxe", 3)
    ∷ ("diamond_pickaxe", 4)
    ∷ ("netherite_pickaxe", 5)
    ∷ []

abbrev pub ore_requirements : Dict ℕ
ore_requirements =
    ("diamond_ore", 3)
    ∷ ("deepslate_diamond_ore", 3)
    ∷ ("redstone_ore", 3)
    ∷ ("deepslate_redstone_ore", 3)
    ∷ ("gold_ore", 3)
    ∷ ("deepslate_gold_ore", 3)
    ∷ ("lapis_ore", 2)
    ∷ ("deepslate_lapis_ore", 2)
    ∷ ("iron_ore", 2)
    ∷ ("deepslate_iron_ore", 2)
    ∷ ("coal_ore", 1)
    ∷ ("deepslate_coal_ore", 1)
    ∷ []

abbrev pub or_one : Option ℕ → ℕ
or_one none = 1
or_one (some tier) = tier

unfoldable pub required_tier : ℕ → List String → ℕ
unfolding lookup
required_tier tier [] = tier
required_tier tier (ore ∷ ores) =
    required_tier (max tier (or_one (lookup ore ore_requirements))) ores

abbrev pub tier_of_value : Value → Option ℕ
tier_of_value (text name) = lookup name pickaxe_tiers
tier_of_value _ = none

-- The tier of a pickaxe that is good enough and lasts.
abbrev pub usable : Rules → ℕ → Fields → Option ℕ → Option ℕ
usable rules required item none = none
usable rules required item (some tier) =
    if ltb tier required || not (rules.is_durable item) then none else some tier

unfoldable pub usable_tier : Rules → ℕ → Fields → Option ℕ
usable_tier rules required item = usable rules required item (tier_of_value (get "name" item))

abbrev pub better : Fields → Option ℕ → Option Fields × ℕ → Option Fields × ℕ
better item none best = best
better item (some tier) best = if ltb best.1 tier then (some item, tier) else best

unfoldable pub best_of : Rules → ℕ → List Fields → Option Fields × ℕ → Option Fields × ℕ
unfolding usable_tier
best_of rules required [] best = best
best_of rules required (item ∷ items) best =
    best_of rules required items (better item (usable_tier rules required item) best)

unfoldable pub select_pickaxe : Rules → List String → Value → Option Fields
unfolding required_tier best_of
select_pickaxe rules ores (dict inventory_detail) =
    (best_of rules (required_tier 1 ores) (dicts_in (get "pickaxes" inventory_detail)) (none, 0)).0
select_pickaxe rules ores _ = none

abbrev pub equip_step_for : Rules → Fields → String
equip_step_for rules pickaxe = append "所持ツルハシ（" (
    append (show_or rules (show_or rules "ツルハシ" (get "name" pickaxe)) (get "displayName" pickaxe))
      "）を装備する")

abbrev pub equip_outcome : ActionState → NodeResult → NodeResult
equip_outcome s r = record {
  handled = r.handled;
  updated_target = s.last_target_coords;
  failure_detail = if r.handled then none else r.failure_detail;
}

abbrev pub mine_outcome : Rules → ActionState → Fields → NodeResult
mine_outcome rules s resp =
    if truth (get "ok" resp)
    then succeeded s.last_target_coords
    else refused s.last_target_coords
        (text (append "採掘コマンドが失敗しました: " (show_or rules "鉱石採掘コマンドが拒否されました" (get "error" resp))))

-- `nested` carries out a step to equip, by a run of the graph of its own.
unfoldable pub mine_or_equip :
    Rules
    → Answers
    → (String → Act NodeResult)
    → ActionState
    → MiningRequest
    → Option Fields
    → Act NodeResult
mine_or_equip rules answers nested s request (some (Fields.field k v fs)) = do
  r ← nested (equip_step_for rules (Fields.field k v fs))
  pure (equip_outcome s r)
mine_or_equip rules answers nested s request _ = do
  resp ← ask (mined request.targets request.scan_radius request.max_targets) answers.mine_response
  pure (mine_outcome rules s resp)

unfoldable pub handle_mining :
    Rules → Answers → (String → Act NodeResult) → ActionState → Act NodeResult
unfolding mine_or_equip select_pickaxe
handle_mining rules answers nested s =
    let request = rules.infer_mining_request s.step in
    mine_or_equip rules answers nested s request
      (select_pickaxe rules request.targets (get "inventory_detail" answers.memory))
