-- ===== src/ActionGraph/Equip.antt =====
-- The node `handle_equip` of python/runtime/action_graph_builder.py, with
-- python/runtime/inventory_sync.py.
use mc_bot_egent_practice.Prelude.{
  ℕ, suc, String, Bool, true, false, not, ◌||◌, ◌&&◌, Option, none, some, List, [], ◌∷◌, str_eq,
  if◌then◌else◌,
}
use mc_bot_egent_practice.Prelude.Traced.{pure, ask, done, ◌>>=◌}
use mc_bot_egent_practice.Python.{
  Value, Items, Fields, nil, cons, text, list, dict, end, truth, get, strip, append, is_in, show_ℕ,
}
use mc_bot_egent_practice.Planning.{or_text}
use mc_bot_egent_practice.ActionGraph.State.{
  ActionState, kept, barrier_reported, inventory_gathered, equipped, Act, Answers, EquipArguments,
  Rules, show, NodeResult, succeeded, refused,
}

abbrev pub count : Items → ℕ
count nil = 0
count (cons v vs) = suc (count vs)

-- [item for item in value if isinstance(item, dict)], where value is a list
abbrev pub dicts_of : Items → List Fields
dicts_of nil = []
dicts_of (cons (dict item) items) = item ∷ dicts_of items
dicts_of (cons v items) = dicts_of items

abbrev pub dicts_in : Value → List Fields
dicts_in (list items) = dicts_of items
dicts_in _ = []

abbrev pub count_in : Value → ℕ
count_in (list items) = count items
count_in _ = 0

-- str(value or default)
abbrev pub show_or : Rules → String → Value → String
show_or rules default v = if truth v then show rules v else default

abbrev pub items_text : Value → Value → String
items_text (list items) pickaxes = append "所持品は " (
    append (show_ℕ (count items))
      (append " 種類を確認しました（ツルハシ " (append (show_ℕ (count_in pickaxes)) " 本）。")))
items_text _ pickaxes = "所持品一覧を取得しました。"

unfoldable pub summarize_inventory_status : Rules → Fields → String
summarize_inventory_status rules fs =
    or_text (strip (show_or rules "" (get "formatted" fs)))
      (items_text (get "items" fs) (get "pickaxes" fs))

-- The triple of `InventorySynchronizer.refresh`.
pub record Refreshed : Type 0 where
  pub ok : Bool
  pub detail : Fields
  pub error : Option String

abbrev pub not_refreshed : String → Refreshed
not_refreshed error = record { ok = false; detail = end; error = some error }

abbrev pub dict_or_empty : Value → Fields
dict_or_empty (dict fs) = fs
dict_or_empty _ = end

unfoldable pub refreshed_from : Rules → Option Value → Act Refreshed
unfolding summarize_inventory_status
refreshed_from rules (some (dict resp)) =
    if truth (get "ok" resp)
    then (do
      _ ←
          ask
            (kept "inventory"
              (text (summarize_inventory_status rules (dict_or_empty (get "data" resp)))))
            (done true)
      _ ← ask (kept "inventory_detail" (dict (dict_or_empty (get "data" resp)))) (done true)
      pure (record { ok = true; detail = dict_or_empty (get "data" resp); error = none }))
    else pure (not_refreshed (show_or rules "Mineflayer が所持品を返しませんでした。" (get "error" resp)))
refreshed_from rules (some v) = pure (not_refreshed "Mineflayer が所持品を返しませんでした。")
refreshed_from rules none = pure (not_refreshed "所持品の再取得中に予期しない例外が発生しました。")

-- An exception of the call is caught.
unfoldable pub refresh : Rules → Option Value → Act Refreshed
unfolding refreshed_from
refresh rules gathered = do _ ← ask inventory_gathered (done true); refreshed_from rules gathered

abbrev pub name_of : Rules → Fields → String
name_of rules item = rules.lower (show_or rules "" (get "name" item))

abbrev pub display_of : Rules → Fields → String
display_of rules item = rules.lower (show_or rules "" (get "displayName" item))

abbrev pub any_item : (Fields → Bool) → List Fields → Bool
any_item test [] = false
any_item test (item ∷ items) = test item || any_item test items

-- A name that is missing or empty is none.
abbrev pub given : Option String → Option String
given none = none
given (some t) = if str_eq t "" then none else some t

unfoldable pub has_named : Rules → Fields → Option String → Bool
has_named rules detail none = false
has_named rules detail (some item_name) =
    any_item
      (λ item.
        str_eq (rules.lower item_name) (name_of rules item)
        || str_eq (rules.lower item_name) (display_of rules item))
      (dicts_in (get "items" detail))

unfoldable pub has_tool : Rules → Fields → Option String → Bool
has_tool rules detail none = false
has_tool rules detail (some tool_type) =
    (str_eq (rules.lower tool_type) "pickaxe"
      && any_item (λ item. true) (dicts_in (get "pickaxes" detail)))
    || any_item
        (λ item.
          is_in (rules.lower tool_type) (name_of rules item)
          || is_in (rules.lower tool_type) (display_of rules item))
        (dicts_in (get "items" detail))

unfoldable pub item_found : Rules → Fields → EquipArguments → Bool
unfolding has_named has_tool
item_found rules detail e =
    has_named rules detail (given e.item_name) || has_tool rules detail (given e.tool_type)

abbrev pub text_of : Option String → String
text_of none = ""
text_of (some t) = t

abbrev pub equip_label : EquipArguments → String
equip_label e = or_text (text_of e.item_name) (or_text (text_of e.tool_type) "指定装備")

-- A barrier is reported, and its reason is the failure.
abbrev pub stop_at : Answers → ActionState → String → Act NodeResult
stop_at answers s reason = do
  _ ← ask (barrier_reported s.step reason) (done answers.barrier_told)
  pure (refused s.last_target_coords (text reason))

-- isinstance(pickaxes, list) and not pickaxes
abbrev pub is_empty_list : Value → Bool
is_empty_list (list nil) = true
is_empty_list _ = false

abbrev pub missing_reason : String → Refreshed → String
missing_reason label again =
    if again.ok
    then append "装備対象『" (
        append label (
          append "』がインベントリから見つからず、計画を続行できません。補充してから再度指示してください。"
            (if is_empty_list (get "pickaxes" again.detail) then "（ツルハシが不足しています）" else "")))
    else append "装備対象『" (
        append label (
          append "』がインベントリで欠品しており、所持品の再取得にも失敗しました（"
            (append (or_text (text_of again.error) "所持品の状態を確認できませんでした") "）。")))

unfoldable pub forget_inventory : Bool → Act (Unit {0})
forget_inventory true = pure tt
forget_inventory false = do
  _ ← ask (kept "inventory" (text "所持品の再取得に失敗しました。")) (done true)
  ask (kept "inventory_detail" (dict end)) (done true)

unfoldable pub equip_refused :
    Rules → Answers → ActionState → EquipArguments → String → Act NodeResult
unfolding refresh forget_inventory
equip_refused rules answers s e detail =
    if is_in "requested item is not available in inventory" (rules.lower detail)
    then (do
      again ← refresh rules answers.second_inventory
      _ ← forget_inventory again.ok
      stop_at answers s (missing_reason (equip_label e) again))
    else pure (refused s.last_target_coords (text (append "装備コマンドが失敗しました: " detail)))

unfoldable pub equip_answered :
    Rules → Answers → ActionState → EquipArguments → Fields → Act NodeResult
unfolding equip_refused
equip_answered rules answers s e resp =
    if truth (get "ok" resp)
    then pure (succeeded s.last_target_coords)
    else equip_refused rules answers s e (show_or rules "Mineflayer 側の理由不明な拒否" (get "error" resp))

unfoldable pub equip_from :
    Rules → Answers → ActionState → EquipArguments → Refreshed → Act NodeResult
unfolding item_found equip_answered
equip_from rules answers s e refreshed =
    if not refreshed.ok
    then stop_at answers s
        (append "装備前に所持品を確認できず装備手順を中断しました（" (append (text_of refreshed.error) "）。"))
    else if not (item_found rules refreshed.detail e)
    then stop_at answers s (append "インベントリに " (append (equip_label e) " が見つからず装備できませんでした。"))
    else (do
      resp ← ask (equipped e.tool_type e.item_name e.destination) answers.equip_response
      equip_answered rules answers s e resp)

unfoldable pub equip_inferred :
    Rules → Answers → ActionState → Option EquipArguments → Act NodeResult
unfolding refresh equip_from
equip_inferred rules answers s none = do
  _ ←
      ask (barrier_reported s.step "装備するアイテムを推測できませんでした。ツール名や用途をもう少し具体的に指示してください。")
        (done answers.barrier_told)
  pure (succeeded s.last_target_coords)
equip_inferred rules answers s (some e) = do
  refreshed ← refresh rules answers.first_inventory
  equip_from rules answers s e refreshed

unfoldable pub handle_equip : Rules → Answers → ActionState → Act NodeResult
unfolding equip_inferred
handle_equip rules answers s = equip_inferred rules answers s (rules.infer_equip_arguments s.step)
