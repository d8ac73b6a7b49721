-- ===== src/ActionGraph/Course.antt =====
-- What the graph does for a step, without its tables.
use mc_bot_egent_practice.Prelude.{
  ◌≡◌, refl, sym, ap, ◌∙◌, String, Bool, true, false, ◌||◌, str_eq, if◌then◌else◌, Bool-cases, inl,
  inr,
}
use mc_bot_egent_practice.Prelude.Traced.{
  pure, ◌>>=◌, Returns, Returns-bind, bind-same, Returns-tt, Returns-same, bind_assoc,
}
use mc_bot_egent_practice.ActionGraph.State.{ActionState, Act, Answers, Rules, NodeResult}
use mc_bot_egent_practice.ActionGraph.Skills.{
  initialize, seek_skill, trigger_exploration, apply_role_policy, route_module,
}
use mc_bot_egent_practice.ActionGraph.Move.{handle_move}
use mc_bot_egent_practice.ActionGraph.Equip.{handle_equip}
use mc_bot_egent_practice.ActionGraph.Mining.{handle_mining}
use mc_bot_egent_practice.ActionGraph.Build.{handle_building}
use mc_bot_egent_practice.ActionGraph.Graph.{
  handle_defense, handle_generic, finalize, Node, role_node, route_node, trigger_exploration_node,
  initialize_node, finalize_node, mining_node, building_node, defense_node, move_node, equip_node,
  generic_node, merged, follow_edge, Walked, finished, walk,
}
use mc_bot_egent_practice.ActionGraph.Routing.{
  is_finished, module_edge, by_status, by_status-same, status_edge, IsSought, seek_skill-IsSought,
}

abbrev pub closing : ActionState → Act Walked
closing s = pure (finished (finalize s))

module _ (rules : Rules) (answers : Answers) (nested : String → Act NodeResult) where
  -- The handler of a category.
  unfoldable pub handler : String → ActionState → Act NodeResult
  handler category s =
      if str_eq category "mine"
      then handle_mining rules answers nested s
      else if str_eq category "build"
      then handle_building answers s
      else if str_eq category "fight"
      then handle_defense s
      else if str_eq category "move" || str_eq category "move_to_player"
      then handle_move rules answers s
      else if str_eq category "equip"
      then handle_equip rules answers s
      else handle_generic s

  -- A role that waits is taken, and then the category's handler acts.
  unfoldable pub act : ActionState → Act ActionState
  unfolding handler
  act s = do
    s' ← apply_role_policy answers s
    merged (route_module s') (handler s'.category (route_module s'))

  -- A skill comes first; the category's handler acts only when there is none, or none registered.
  unfoldable pub carry_out : ActionState → Act Walked
  unfolding act
  carry_out s = do
    s' ← seek_skill rules answers (initialize s)
    by_status s'.skill_status (act s' >>= closing) (trigger_exploration answers s' >>= closing)
        (closing s')

  handled_walk :
      (a b c d e : Bool) (s : ActionState)
      → walk rules answers nested 2
          (if a
            then mining_node
            else if b
            then building_node
            else if c
            then defense_node
            else if d
            then move_node
            else if e
            then equip_node
            else generic_node)
          s
        ≡ (merged s (
              if a
              then handle_mining rules answers nested s
              else if b
              then handle_building answers s
              else if c
              then handle_defense s
              else if d
              then handle_move rules answers s
              else if e
              then handle_equip rules answers s
              else handle_generic s)
            >>= closing)
  unfolding walk
  handled_walk true b c d e s = refl
  handled_walk false true c d e s = refl
  handled_walk false false true d e s = refl
  handled_walk false false false true e s = refl
  handled_walk false false false false true s = refl
  handled_walk false false false false false s = refl

  routed_walk :
      (s : ActionState)
      → walk rules answers nested 3 route_node s
        ≡ (merged (route_module s) (handler s.category (route_module s)) >>= closing)
  unfolding walk handler
  routed_walk s =
      let c = s.category in
      let go = λ (n : Node). walk rules answers nested 2 n (route_module s) in
      ap (follow_edge go (route_module s)) (
        module_edge (str_eq c "mine") (str_eq c "build") (str_eq c "fight")
          (str_eq c "move" || str_eq c "move_to_player") (str_eq c "equip"))
      ∙ handled_walk (str_eq c "mine") (str_eq c "build") (str_eq c "fight")
          (str_eq c "move" || str_eq c "move_to_player") (str_eq c "equip") (route_module s)

  act-walk : (s : ActionState) → walk rules answers nested 4 role_node s ≡ (act s >>= closing)
  unfolding walk act
  act-walk s =
      bind-same (λ s'. Unit) (apply_role_policy answers s) _ _ (Returns-tt _)
        (λ s' u. routed_walk s')
      ∙ sym (bind_assoc (apply_role_policy answers s) _ closing)

  by_status-Finished :
      (status : String) (x y : Act ActionState) (s : ActionState)
      → Returns
          (λ w. is_finished w ≡ true)
          (by_status status (x >>= closing) (y >>= closing) (closing s)).1
  by_status-Finished status x y s = elim (Bool-cases (str_eq status "none")) [
    | inl e ↦ rw e (Returns-bind _ x closing (λ s'. refl))
    | inr e ↦ rw e (elim (Bool-cases (str_eq status "locked")) [
      | inl f ↦ rw f (Returns-bind _ y closing (λ s'. refl))
      | inr f ↦ rw f refl
    ])
  ]

  carry_out-Finished : (s : ActionState) → Returns (λ w. is_finished w ≡ true) (carry_out s).1
  unfolding carry_out
  carry_out-Finished s =
      Returns-bind (λ w. is_finished w ≡ true) (seek_skill rules answers (initialize s)) _
        (λ s'. by_status-Finished s'.skill_status (act s') (trigger_exploration answers s') s')

  followed_walk : (s : ActionState) → walk rules answers nested 6 initialize_node s ≡ carry_out s
  unfolding walk carry_out
  followed_walk s =
      bind-same IsSought (seek_skill rules answers (initialize s)) _ _
        (seek_skill-IsSought rules answers (initialize s))
        (λ s' q.
          let go = λ (n : Node). walk rules answers nested 4 n s' in
          ap (follow_edge go s') (status_edge s'.skill_status q)
          ∙ by_status-same go s'.skill_status role_node trigger_exploration_node finalize_node _ _ _
              (act-walk s') refl refl)

  -- Of the walk over the graph from its start, whatever the answers: it comes to the end without a
  -- missing key and without an end of its fuel, and it does and leaves what `carry_out` does, which
  -- looks for a skill, explores a locked one, and else takes the category's handler.
  pub walk-carry_out :
      (s : ActionState)
      → (walk rules answers nested 6 initialize_node s ≡ carry_out s)
        × Returns (λ w. is_finished w ≡ true) (walk rules answers nested 6 initialize_node s).1
  walk-carry_out s = (followed_walk s, Returns-same _ _ _ (followed_walk s) (carry_out-Finished s))
