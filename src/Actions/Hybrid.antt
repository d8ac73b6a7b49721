-- ===== src/Actions/Hybrid.antt =====
-- `HybridActions` of python/actions/hybrid.py.
use mc_bot_egent_practice.Prelude.{ℕ, false, Option, none, some, if◌then◌else◌}
use mc_bot_egent_practice.Python.{
  Value, Items, Fields, null, boolean, text, list, dict, nil, cons, end, field, truth, get, get_or,
  put,
}
use mc_bot_egent_practice.Actions.Dispatch.{
  Answer, Outcome, response, bridge_raised, invalid, Dispatcher, dispatch,
}
use mc_bot_egent_practice.Actions.Validate.{
  Command, normalize_command_payload, normalize_vpt_actions,
}

-- `last_error`: none, what the bot reported (None if it reported nothing), or the exception.
pub data Reason : Type 0 where
  not_tried : Reason
  reported : Value → Reason
  exception : Reason

pub data HybridOutcome : Type 0 where
  by_vpt : Fields → HybridOutcome
  by_command : Value → Fields → Reason → HybridOutcome
  hybrid_invalid : HybridOutcome
  hybrid_raised : HybridOutcome

module _ (answers : ℕ → Answer) where
  unfoldable pub play_vpt_actions : Items → Value → Dispatcher → Dispatcher × Outcome
  play_vpt_actions actions metadata d =
      let args = field "actions" (list actions) end in
      dispatch answers "playVptActions"
        (field "type" (text "playVptActions")
          (field "args" (dict (if truth metadata then put "metadata" metadata args else args)) end))
        d

  -- `fallback_response.get("ok", False)`
  unfoldable pub command_outcome : Reason → Outcome → HybridOutcome
  command_outcome reason (response resp) = by_command (get_or (boolean false) "ok" resp) resp reason
  command_outcome reason bridge_raised = hybrid_raised
  command_outcome reason invalid = hybrid_invalid

  unfoldable pub fall_back : Reason → Option Command → Dispatcher → Dispatcher × HybridOutcome
  unfolding command_outcome
  fall_back reason none d = (d, hybrid_invalid)
  fall_back reason (some (command, args)) d =
      let done =
        dispatch answers command (field "type" (text command) (field "args" (dict args) end)) d in
      (done.0, command_outcome reason done.1)

  unfoldable pub after_vpt : Option Command → Dispatcher × Outcome → Dispatcher × HybridOutcome
  unfolding fall_back
  after_vpt fallback (d, response resp) =
      if truth (get "ok" resp)
      then (d, by_vpt resp)
      else fall_back (reported (get "error" resp)) fallback d
  after_vpt fallback (d, bridge_raised) = fall_back exception fallback d
  after_vpt fallback (d, invalid) = fall_back exception fallback d

  unfoldable pub run_hybrid :
      Items → Option Command → Value → Dispatcher → Dispatcher × HybridOutcome
  unfolding fall_back after_vpt play_vpt_actions
  run_hybrid nil fallback metadata d = fall_back not_tried fallback d
  run_hybrid (cons action actions) fallback metadata d =
      after_vpt fallback (play_vpt_actions (cons action actions) metadata d)

  -- `_normalize_command_payload(...) if fallback_command is not None else None`
  unfoldable pub normalized_fallback : Value → Option (Option Command)
  normalized_fallback null = some none
  normalized_fallback value = elim (normalize_command_payload value) [
    | none ↦ none
    | some command ↦ some (some command)
  ]

  -- With no action and no fallback `run_hybrid` is invalid too, before anything is sent.
  unfoldable pub execute_hybrid_action :
      Value → Value → Value → Dispatcher → Dispatcher × HybridOutcome
  unfolding run_hybrid normalized_fallback
  execute_hybrid_action vpt_actions fallback_command metadata d =
      elim (normalize_vpt_actions vpt_actions) [
        | none ↦ (d, hybrid_invalid)
        | some actions ↦ elim (normalized_fallback fallback_command) [
          | none ↦ (d, hybrid_invalid)
          | some fallback ↦ run_hybrid actions fallback metadata d
        ]
      ]
