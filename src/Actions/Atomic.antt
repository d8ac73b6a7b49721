-- ===== src/Actions/Atomic.antt =====
-- The facade of python/actions/ as one type of calls, and what one call can do to the dispatcher.
use mc_bot_egent_practice.Prelude.{
  true, false, ◌++◌, ◌⊎◌, ℕ, ◌+◌, ◌≡◌, refl, String, Bool, Option, none, some, List, [], ◌∷◌, inl,
  inr,
}
use mc_bot_egent_practice.Prelude.Int.{ℤ}
use mc_bot_egent_practice.Python.{Items, Value, Fields}
use mc_bot_egent_practice.Actions.Dispatch.{
  Sent, Answer, answered, threw, Outcome, invalid, Dispatcher, dispatch,
}
use mc_bot_egent_practice.Actions.Hybrid.{
  HybridOutcome, hybrid_invalid, play_vpt_actions, execute_hybrid_action,
}
use mc_bot_egent_practice.Actions.Scope.{outcome_of, dispatch_lem}
use mc_bot_egent_practice.Actions.Commands.{
  submit, say, set_role, gather_status, mine_blocks, mine_ores, move_to, follow_player,
  attack_entity, place_torch, equip_item, place_block, craft_item, register_skill, invoke_skill,
  begin_skill_exploration,
}

-- The calls of the facade `Actions` of python/actions/__init__.py with all their arguments.
pub data Call : Type 0 where
  say_call : String → Call
  set_role_call : String → Option String → Call
  gather_status_call : String → Call
  mine_blocks_call : List Fields → Call
  mine_ores_call : List String → ℤ → ℤ → Call
  move_to_call : Value → Value → Value → Call
  follow_player_call : String → ℤ → Bool → Call
  attack_entity_call : String → String → ℤ → Call
  place_torch_call : Fields → Call
  equip_item_call : Option String → Option String → String → Call
  place_block_call : String → Fields → Option String → Bool → Call
  craft_item_call : String → ℤ → Bool → Call
  register_skill_call : String → String → String → List String → Option (List String) → Call
  invoke_skill_call : String → Option String → Call
  begin_skill_exploration_call : String → String → String → Call
  play_vpt_actions_call : Items → Value → Call
  execute_hybrid_action_call : Value → Value → Value → Call

-- How a call ends: as one command does, or as a hybrid action does, which may dispatch two.
pub data Ending : Type 0 where
  single : Outcome → Ending
  mixed : HybridOutcome → Ending

abbrev once : Dispatcher × Outcome → Dispatcher × Ending
once (d, o) = (d, single o)

abbrev hybrid : Dispatcher × HybridOutcome → Dispatcher × Ending
hybrid (d, o) = (d, mixed o)

module _ (answers : ℕ → Answer) where
  unfoldable pub perform : Call → Dispatcher → Dispatcher × Ending
  perform (say_call m) d = once (say answers m d)
  perform (set_role_call r why) d = once (set_role answers r why d)
  perform (gather_status_call k) d = once (gather_status answers k d)
  perform (mine_blocks_call ps) d = once (mine_blocks answers ps d)
  perform (mine_ores_call ns r n) d = once (mine_ores answers ns r n d)
  perform (move_to_call x y z) d = once (move_to answers x y z d)
  perform (follow_player_call t s l) d = once (follow_player answers t s l d)
  perform (attack_entity_call e m c) d = once (attack_entity answers e m c d)
  perform (place_torch_call p) d = once (place_torch answers p d)
  perform (equip_item_call t i e) d = once (equip_item answers t i e d)
  perform (place_block_call b p f s) d = once (place_block answers b p f s d)
  perform (craft_item_call i n t) d = once (craft_item answers i n t d)
  perform (register_skill_call i t e ss ts) d = once (register_skill answers i t e ss ts d)
  perform (invoke_skill_call i c) d = once (invoke_skill answers i c d)
  perform (begin_skill_exploration_call i e c) d = once (begin_skill_exploration answers i e c d)
  perform (play_vpt_actions_call actions metadata) d =
      once (play_vpt_actions answers actions metadata d)
  perform (execute_hybrid_action_call actions fallback metadata) d =
      hybrid (execute_hybrid_action answers actions fallback metadata d)

-- The call may dispatch more than one command.
abbrev pub is_hybrid : Call → Bool
is_hybrid (execute_hybrid_action_call actions fallback metadata) = true
is_hybrid _ = false

-- Validation refused the call, or refused the fallback of a hybrid action.
abbrev pub is_refused : Ending → Bool
is_refused (single invalid) = true
is_refused (mixed hybrid_invalid) = true
is_refused _ = false

-- A refusal that leaves the dispatcher as it was, or a command that took one number, kept the
-- directive's scope and was sent once or not at all.
abbrev pub IsAtomic : Dispatcher → Dispatcher × Ending → Type 0
IsAtomic d r =
    ((is_refused r.1 ≡ true) × (r.0 ≡ d))
    ⊎ ((is_refused r.1 ≡ false)
        × (r.0.next_id ≡ d.next_id + 1)
        × (r.0.meta ≡ d.meta)
        × ((r.0.sent ≡ d.sent) ⊎ ((s : Sent) × (r.0.sent ≡ d.sent ++ s ∷ []))))

outcome_of-accepted : (a : Answer) → is_refused (single (outcome_of a)) ≡ false
outcome_of-accepted threw = refl
outcome_of-accepted (answered r) = refl

dispatch-IsAtomic :
    (answers : ℕ → Answer) (command : String) (payload : Fields) (d : Dispatcher)
    → IsAtomic d (once (dispatch answers command payload d))
dispatch-IsAtomic answers command payload d =
    let all = dispatch_lem answers command payload d "" in
    elim all.3 [
      | inl short ↦ inr (rw short.1 refl, all.0, all.1, inl short.2)
      | inr long ↦
          inr (rw long.1 (outcome_of-accepted (answers d.next_id)), all.0, all.1, inr (_, long.2))
    ]

submit-IsAtomic :
    (answers : ℕ → Answer) (command : String) (args : Option Fields) (d : Dispatcher)
    → IsAtomic d (once (submit answers command args d))
unfolding submit
submit-IsAtomic answers command none d = inl (refl, refl)
submit-IsAtomic answers command (some args) d = dispatch-IsAtomic answers command _ d

-- Every call of the facade but a hybrid action is all or nothing: either validation refuses it and
-- the dispatcher is as before, with no number taken, nothing sent and nothing logged, or it is not
-- refused, takes one number, keeps the directive's scope and sends at most one payload.
pub perform-IsAtomic :
    (answers : ℕ → Answer) (c : Call) (d : Dispatcher)
    → is_hybrid c ≡ false
    → IsAtomic d (perform answers c d)
unfolding perform say set_role gather_status mine_blocks mine_ores move_to follow_player
    attack_entity place_torch equip_item place_block craft_item register_skill invoke_skill
    begin_skill_exploration play_vpt_actions
perform-IsAtomic answers (say_call m) d h = submit-IsAtomic answers _ _ d
perform-IsAtomic answers (set_role_call r w) d h = dispatch-IsAtomic answers _ _ d
perform-IsAtomic answers (gather_status_call k) d h = dispatch-IsAtomic answers _ _ d
perform-IsAtomic answers (mine_blocks_call ps) d h = submit-IsAtomic answers _ _ d
perform-IsAtomic answers (mine_ores_call ns r n) d h = submit-IsAtomic answers _ _ d
perform-IsAtomic answers (move_to_call x y z) d h = submit-IsAtomic answers _ _ d
perform-IsAtomic answers (follow_player_call t s l) d h = submit-IsAtomic answers _ _ d
perform-IsAtomic answers (attack_entity_call e m c) d h = submit-IsAtomic answers _ _ d
perform-IsAtomic answers (place_torch_call p) d h = submit-IsAtomic answers _ _ d
perform-IsAtomic answers (equip_item_call t i e) d h = dispatch-IsAtomic answers _ _ d
perform-IsAtomic answers (place_block_call b p f s) d h = submit-IsAtomic answers _ _ d
perform-IsAtomic answers (craft_item_call i n t) d h = submit-IsAtomic answers _ _ d
perform-IsAtomic answers (register_skill_call i t e ss ts) d h = dispatch-IsAtomic answers _ _ d
perform-IsAtomic answers (invoke_skill_call i c) d h = dispatch-IsAtomic answers _ _ d
perform-IsAtomic answers (begin_skill_exploration_call i e c) d h = dispatch-IsAtomic answers _ _ d
perform-IsAtomic answers (play_vpt_actions_call actions metadata) d h =
    dispatch-IsAtomic answers _ _ d
perform-IsAtomic answers (execute_hybrid_action_call actions fallback metadata) d h = cc
