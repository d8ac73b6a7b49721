-- ===== src/ActionGraph/Routing.antt =====
-- The way of a step through the graph.
use mc_bot_egent_practice.Prelude.{
  arith, eq_iff, ◌⊎◌, ◌≡◌, refl, String, Bool, true, false, ◌||◌, Option, none, some, str_eq,
  Bool-cases, inl, inr, if◌then◌else◌,
}
use mc_bot_egent_practice.Prelude.Traced.{pure, ask, ◌>>=◌, Returns, Returns-bind}
use mc_bot_egent_practice.Python.{Value}
use mc_bot_egent_practice.ActionGraph.State.{SkillMatch, ActionState, Answers, Rules}
use mc_bot_egent_practice.ActionGraph.Skills.{
  invoked_status, execute_skill_match, skill_found, seek_skill, skilled,
}
use mc_bot_egent_practice.ActionGraph.Graph.{
  Node, role_node, trigger_exploration_node, move_node, equip_node, mining_node, building_node,
  defense_node, generic_node, finalize_node, to, edge_in, skill_edges, module_edges, Walked,
  finished,
}

abbrev pub is_finished : Walked → Bool
is_finished (finished s) = true
is_finished _ = false

abbrev pub node_for : String → Node
node_for category =
    if str_eq category "mine"
    then mining_node
    else if str_eq category "build"
    then building_node
    else if str_eq category "fight"
    then defense_node
    else if str_eq category "move" || str_eq category "move_to_player"
    then move_node
    else if str_eq category "equip"
    then equip_node
    else generic_node

-- The module that the Boolean answers lead to has an edge.
pub module_edge :
    (a b c d e : Bool)
    → edge_in
        (if a
          then "mining"
          else if b
          then "building"
          else if c
          then "defense"
          else if d
          then "move"
          else if e
          then "equip"
          else "generic")
        module_edges
      ≡ to (
          if a
          then mining_node
          else if b
          then building_node
          else if c
          then defense_node
          else if d
          then move_node
          else if e
          then equip_node
          else generic_node)
unfolding edge_in
module_edge true b c d e = refl
module_edge false true c d e = refl
module_edge false false true d e = refl
module_edge false false false true e = refl
module_edge false false false false true = refl
module_edge false false false false false = refl

-- The statuses that `seek_skill` leaves.
abbrev pub is_sought : String → Bool
is_sought status =
    str_eq status "none"
    || str_eq status "locked"
    || str_eq status "handled"
    || str_eq status "failed"

invoked_status-is_sought :
    (handled : Bool) (detail : Option Value) → is_sought (invoked_status handled detail) ≡ true
invoked_status-is_sought true detail = refl
invoked_status-is_sought false none = refl
invoked_status-is_sought false (some detail) = refl

abbrev pub IsSought : ActionState → Type 0
IsSought s = is_sought s.skill_status ≡ true

found-IsSought :
    (rules : Rules) (answers : Answers) (s : ActionState) (found : SkillMatch) (unlocked : Bool)
    → Returns IsSought
        (if unlocked
          then (execute_skill_match rules answers found s.step >>= λ outcome. pure (
              skilled
                (record s { skill_candidate = some found })
                outcome
                (invoked_status outcome.0 outcome.1)))
          else pure (record s {
            skill_candidate = some found;
            skill_status = "locked";
            updated_target = s.last_target_coords;
          })).1
found-IsSought rules answers s found true =
    Returns-bind IsSought (execute_skill_match rules answers found s.step) _
      (λ outcome. invoked_status-is_sought outcome.0 outcome.1)
found-IsSought rules answers s found false = refl

skill_found-IsSought :
    (rules : Rules) (answers : Answers) (s : ActionState) (found : Option SkillMatch)
    → Returns IsSought (skill_found rules answers s found).1
unfolding skill_found
skill_found-IsSought rules answers s none = refl
skill_found-IsSought rules answers s (some found) =
    found-IsSought rules answers s found found.unlocked

pub seek_skill-IsSought :
    (rules : Rules) (answers : Answers) (s : ActionState)
    → Returns IsSought (seek_skill rules answers s).1
unfolding seek_skill
seek_skill-IsSought rules answers s =
    elim (Bool-cases (str_eq s.category "move_to_player" || str_eq s.category "")) [
      | inl e ↦ rw e refl
      | inr e ↦ rw e (
          Returns-bind IsSought (ask _ answers.skill) _
            (λ found. skill_found-IsSought rules answers s found))
    ]

sought-cases :
    (status : String)
    → is_sought status ≡ true
    → (status ≡ "none") ⊎ ((status ≡ "locked") ⊎ ((status ≡ "handled") ⊎ (status ≡ "failed")))
sought-cases status h = elim (Bool-cases (str_eq status "none")) [
  | inl e ↦ inl ((eq_iff status "none").0 e)
  | inr e ↦ elim (Bool-cases (str_eq status "locked")) [
    | inl e' ↦ inr (inl ((eq_iff status "locked").0 e'))
    | inr e' ↦ elim (Bool-cases (str_eq status "handled")) [
      | inl f ↦ inr (inr (inl ((eq_iff status "handled").0 f)))
      | inr f ↦ inr (inr (inr ((eq_iff status "failed").0 (ground (arith, h, e, e', f)))))
    ]
  ]
]

-- Where a status leads.
abbrev pub by_status : {A : Type 0} → String → A → A → A → A
by_status status none_case locked_case rest =
    if str_eq status "none" then none_case else if str_eq status "locked" then locked_case else rest

pub status_edge :
    (status : String)
    → is_sought status ≡ true
    → edge_in status skill_edges
      ≡ to (by_status status role_node trigger_exploration_node finalize_node)
unfolding edge_in
status_edge status h = elim (sought-cases status h) [
  | inl e ↦ rw e refl
  | inr (inl e) ↦ rw e refl
  | inr (inr (inl e)) ↦ rw e refl
  | inr (inr (inr e)) ↦ rw e refl
]

three_ways :
    {A B : Type 0} (go : A → B) (a b : Bool) (n l r : A) (x y z : B)
    → go n ≡ x
    → go l ≡ y
    → go r ≡ z
    → go (if a then n else if b then l else r) ≡ (if a then x else if b then y else z)
three_ways go true b n l r x y z h k m = h
three_ways go false true n l r x y z h k m = k
three_ways go false false n l r x y z h k m = m

pub by_status-same :
    {A B : Type 0} (go : A → B) (status : String) (n l r : A) (x y z : B)
    → go n ≡ x
    → go l ≡ y
    → go r ≡ z
    → go (by_status status n l r) ≡ by_status status x y z
by_status-same go status n l r x y z h k m =
    three_ways go (str_eq status "none") (str_eq status "locked") n l r x y z h k m
