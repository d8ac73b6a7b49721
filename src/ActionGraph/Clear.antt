-- ===== src/ActionGraph/Clear.antt =====
-- What the handlers of the graph return: no failure with what is handled.
use mc_bot_egent_practice.Prelude.{
  ◌≡◌, refl, String, Bool, true, false, not, ◌||◌, Option, none, some, str_eq, Bool-cases, inl, inr,
  if◌then◌else◌,
}
use mc_bot_egent_practice.Prelude.Traced.{ask, done, Returns, Returns-bind}
use mc_bot_egent_practice.Python.{Value, Fields, text, end, field, truth, get, is_in, append}
use mc_bot_egent_practice.Building.{Coords, BuildingCheckpoint}
use mc_bot_egent_practice.Planning.{MovementResult}
use mc_bot_egent_practice.ActionGraph.State.{
  ActionState, Act, Answers, EquipArguments, MiningRequest, Rules, NodeResult, queued, kept,
}
use mc_bot_egent_practice.ActionGraph.Move.{
  is_ok, only_if, followed_up, meet, travel, arrived, move_to, handle_move, requester, is_excluded,
  hunger_item, role_item,
}
use mc_bot_egent_practice.ActionGraph.Equip.{
  Refreshed, refresh, stop_at, item_found, equip_refused, equip_answered, equip_from,
  equip_inferred, handle_equip, forget_inventory,
}
use mc_bot_egent_practice.ActionGraph.Mining.{
  equip_outcome, mine_outcome, mine_or_equip, handle_mining,
}
use mc_bot_egent_practice.ActionGraph.Build.{
  is_no_id, building_advanced, building_saved, handle_building,
}
use mc_bot_egent_practice.ActionGraph.Graph.{handle_defense, handle_generic}
use mc_bot_egent_practice.ActionGraph.Course.{handler}

-- What is handled has no failure.
abbrev pub is_clear : Bool → Option Value → Bool
is_clear true (some detail) = false
is_clear _ _ = true

abbrev pub IsClear : NodeResult → Type 0
IsClear r = is_clear r.handled r.failure_detail ≡ true

pub if-Clear :
    {A : Type 0} (P : A → Type 0) (b : Bool) (x y : Act A)
    → Returns P x.1
    → Returns P y.1
    → Returns P (if b then x else y).1
if-Clear P true x y h k = h
if-Clear P false x y h k = k

module _ (rules : Rules) (answers : Answers) (s : ActionState) where
  followed_up-IsClear :
      (player : String) (resp : Value) → Returns IsClear (followed_up answers s player resp).1
  unfolding followed_up
  followed_up-IsClear player resp =
      if-Clear IsClear (is_ok resp) _ _
        (Returns-bind IsClear (ask _ (done answers.said)) _ (λ u. refl))
        (Returns-bind IsClear (ask _ (done answers.said)) _ (λ u. refl))

  meet-IsClear : (player : String) → Returns IsClear (meet rules answers s player).1
  unfolding meet
  meet-IsClear player =
      if-Clear IsClear (str_eq player "") _ _
        (Returns-bind IsClear (ask _ (done answers.said)) _ (λ u. refl))
        (if-Clear IsClear (is_excluded rules (get "_active_chat_message" answers.memory)) _ _
          (Returns-bind IsClear (ask _ (done answers.said)) _ (λ u. refl))
          (Returns-bind IsClear (ask _ answers.follow_response) _ (followed_up-IsClear player)))

  arrived-IsClear :
      (target : Coords) (result : MovementResult)
      → Returns IsClear (arrived rules s target result).1
  unfolding arrived
  arrived-IsClear target result = if-Clear IsClear (not result.ok) _ _ refl (
      Returns-bind IsClear
        (only_if (rules.is_low_food (get "food_level" s.recent_perception))
          (ask (queued (hunger_item s)) (done true)))
        _
        (λ u.
          Returns-bind IsClear
            (only_if s.role_transitioned (ask (queued (role_item s)) (done true))) _ (λ v. refl)))

  move_to-IsClear :
      (b : Bool) (target : Option Coords) → Returns IsClear (move_to rules answers s b target).1
  unfolding move_to
  move_to-IsClear b none = Returns-bind IsClear (ask _ (done answers.barrier_told)) _ (λ u. refl)
  move_to-IsClear b (some target) =
      Returns-bind IsClear (travel answers target) _
        (λ result. Returns-bind IsClear (only_if b _) _ (λ u. arrived-IsClear target result))

  move-IsClear : Returns IsClear (handle_move rules answers s).1
  unfolding handle_move
  move-IsClear =
      if-Clear IsClear (str_eq s.category "move_to_player") _ _ (meet-IsClear (requester answers s))
        (move_to-IsClear _ _)

  stop_at-IsClear : (reason : String) → Returns IsClear (stop_at answers s reason).1
  stop_at-IsClear reason = Returns-bind IsClear (ask _ (done answers.barrier_told)) _ (λ u. refl)

  equip_refused-IsClear :
      (e : EquipArguments) (detail : String)
      → Returns IsClear (equip_refused rules answers s e detail).1
  unfolding equip_refused
  equip_refused-IsClear e detail =
      if-Clear IsClear (is_in "requested item is not available in inventory" (rules.lower detail)) _
        _
        (Returns-bind IsClear (refresh rules answers.second_inventory) _
          (λ again. Returns-bind IsClear (forget_inventory again.ok) _ (λ u. stop_at-IsClear _)))
        refl

  equip_from-IsClear :
      (e : EquipArguments) (refreshed : Refreshed)
      → Returns IsClear (equip_from rules answers s e refreshed).1
  unfolding equip_from equip_answered
  equip_from-IsClear e refreshed = if-Clear IsClear (not refreshed.ok) _ _ (stop_at-IsClear _) (
      if-Clear IsClear (not (item_found rules refreshed.detail e)) _ _ (stop_at-IsClear _) (
        Returns-bind IsClear (ask _ answers.equip_response) _
          (λ resp. if-Clear IsClear (truth (get "ok" resp)) _ _ refl (equip_refused-IsClear e _))))

  equip_inferred-IsClear :
      (e : Option EquipArguments) → Returns IsClear (equip_inferred rules answers s e).1
  unfolding equip_inferred
  equip_inferred-IsClear none =
      Returns-bind IsClear (ask _ (done answers.barrier_told)) _ (λ u. refl)
  equip_inferred-IsClear (some e) =
      Returns-bind IsClear (refresh rules answers.first_inventory) _ (equip_from-IsClear e)

  equip_outcome-IsClear : (r : NodeResult) → IsClear (equip_outcome s r)
  equip_outcome-IsClear r = elim (Bool-cases r.handled) [ inl e ↦ rw e refl | inr e ↦ rw e refl ]

  mine_outcome-IsClear : (resp : Fields) → IsClear (mine_outcome rules s resp)
  mine_outcome-IsClear resp = elim (Bool-cases (truth (get "ok" resp))) [
    | inl e ↦ rw e refl
    | inr e ↦ rw e refl
  ]

  mine_or_equip-IsClear :
      (nested : String → Act NodeResult) (request : MiningRequest) (o : Option Fields)
      → Returns IsClear (mine_or_equip rules answers nested s request o).1
  unfolding mine_or_equip
  mine_or_equip-IsClear nested request none =
      Returns-bind IsClear (ask _ answers.mine_response) _ mine_outcome-IsClear
  mine_or_equip-IsClear nested request (some end) =
      Returns-bind IsClear (ask _ answers.mine_response) _ mine_outcome-IsClear
  mine_or_equip-IsClear nested request (some (field k v fs)) =
      Returns-bind IsClear (nested _) _ equip_outcome-IsClear

  building_saved-IsClear :
      (o : Option (BuildingCheckpoint × _ × _)) → Returns IsClear (building_saved s o).1
  unfolding building_saved
  building_saved-IsClear none = tt
  building_saved-IsClear (some (updated, plan, placing)) = refl

  building-IsClear : Returns IsClear (handle_building answers s).1
  unfolding handle_building
  building-IsClear =
      Returns-bind IsClear
        (only_if (is_no_id (get "building_checkpoint_base_id" answers.memory))
          (ask (kept "building_checkpoint_base_id" (text (append "building:" s.step))) (done true)))
        _ (λ u. building_saved-IsClear (building_advanced answers.memory))

  generic-IsClear : Returns IsClear (handle_generic s).1
  unfolding handle_generic
  generic-IsClear = if-Clear IsClear s.rule_implemented _ _ refl refl

  pub handler-IsClear :
      (nested : String → Act NodeResult) (category : String)
      → Returns IsClear (handler rules answers nested category s).1
  unfolding handler handle_mining handle_equip handle_defense
  handler-IsClear nested category =
      if-Clear IsClear (str_eq category "mine") _ _ (mine_or_equip-IsClear nested _ _) (
        if-Clear IsClear (str_eq category "build") _ _ building-IsClear (
          if-Clear IsClear (str_eq category "fight") _ _ refl (
            if-Clear IsClear (str_eq category "move" || str_eq category "move_to_player") _ _
              move-IsClear
              (if-Clear IsClear (str_eq category "equip") _ _ (equip_inferred-IsClear _)
                generic-IsClear))))
