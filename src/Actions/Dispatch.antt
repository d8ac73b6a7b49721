-- ===== src/Actions/Dispatch.antt =====
-- `ActionDispatcher` of python/actions/base.py. What `BotBridge.send` gives for a command is a
-- parameter, by the command's number, which no two commands share.
use mc_bot_egent_practice.Prelude.{
  ℕ, ◌+◌, String, Bool, false, ◌&&◌, ◌||◌, not, Option, none, some, List, [], ◌∷◌, ◌++◌, ltb,
  str_eq, if◌then◌else◌,
}
use mc_bot_egent_practice.Python.{Fields, text, boolean, dict, end, field, truth, get, put}

-- Milliseconds.
abbrev pub follow_player_recv_timeout : ℕ
follow_player_recv_timeout = 210000

abbrev pub follow_player_min_worker_timeout : ℕ
follow_player_min_worker_timeout = follow_player_recv_timeout + 30000

-- One call of `bridge.send`: the payload, whether the retry callbacks are passed, and the timeout.
pub record Sent : Type 0 where
  pub payload : Fields
  pub with_callbacks : Bool
  pub recv_timeout : Option ℕ

-- The parts of a log line that come from the command. `skipped` is the warning about a followPlayer
-- for which the worker's timeout is too short.
pub data Log : Type 0 where
  skipped : ℕ → Log
  prepared : String → ℕ → Fields → Log
  failed : String → ℕ → Fields → Log
  completed : String → ℕ → Fields → Fields → Log

pub data Answer : Type 0 where
  answered : Fields → Answer
  threw : Answer

-- How a command ends: with the response, with the exception of the bridge, or with an
-- `ActionValidationError` before anything is sent.
pub data Outcome : Type 0 where
  response : Fields → Outcome
  bridge_raised : Outcome
  invalid : Outcome

pub record Dispatcher : Type 0 where
  pub next_id : ℕ
  -- `_current_directive_meta`; None is the empty dict, which is as false
  pub meta : Fields
  pub worker_task_timeout : ℕ
  pub sent : List Sent
  pub logs : List Log

unfoldable pub begin_directive_scope : Fields → Dispatcher → Dispatcher
begin_directive_scope meta d = record d { meta = meta }

unfoldable pub end_directive_scope : Dispatcher → Dispatcher
end_directive_scope d = record d { meta = end }

abbrev pub is_follow_player : String → Bool
is_follow_player command = str_eq command "followPlayer"

abbrev pub is_sensitive_command : String → Bool
is_sensitive_command command = is_follow_player command || str_eq command "say"

abbrev pub type_only : String → Fields
type_only command = field "type" (text command) end

abbrev pub wire_payload : Dispatcher → Fields → Fields
wire_payload d payload = if truth (dict d.meta) then put "meta" (dict d.meta) payload else payload

abbrev pub rejected_follow : Fields
rejected_follow =
    field "ok" (boolean false) (field "error" (text "rendezvous_worker_timeout_mismatch") end)

-- What the logs show of a payload and of a response.
abbrev pub safe_payload : String → Fields → Fields
safe_payload command payload = if is_sensitive_command command then type_only command else payload

abbrev pub safe_response : String → Fields → Fields
safe_response command resp =
    if is_sensitive_command command then field "ok" (boolean (truth (get "ok" resp))) end else resp

-- After the send.
unfoldable pub receive : String → ℕ → Fields → Answer → Dispatcher → Dispatcher × Outcome
receive command command_id wire threw d = (
  record d { logs = d.logs ++ failed command command_id (safe_payload command wire) ∷ [] },
  bridge_raised,
)
receive command command_id wire (answered resp) d = (
  record d {
    logs =
        d.logs
        ++ completed command command_id (safe_payload command wire) (safe_response command resp)
          ∷ [];
  },
  response resp,
)

abbrev pub send_of : String → Fields → Sent
send_of command wire = record {
  payload = wire;
  with_callbacks = not (is_follow_player command);
  recv_timeout = if is_follow_player command then some follow_player_recv_timeout else none;
}

-- The number is taken.
abbrev pub numbered : Dispatcher → Dispatcher
numbered d = record d { next_id = d.next_id + 1 }

-- The command is logged and sent.
abbrev pub sending : String → Fields → Dispatcher → Dispatcher
sending command payload d = record d {
  next_id = d.next_id + 1;
  sent = d.sent ++ send_of command (wire_payload d payload) ∷ [];
  logs = d.logs ++ prepared command d.next_id (safe_payload command (wire_payload d payload)) ∷ [];
}

-- A number is taken, and the warning is logged.
abbrev pub skipping : Dispatcher → Dispatcher
skipping d = record d { next_id = d.next_id + 1; logs = d.logs ++ skipped d.next_id ∷ [] }

-- followPlayer is not sent where the worker's timeout is too short for it.
abbrev pub timeout_mismatch : String → Dispatcher → Bool
timeout_mismatch command d =
    is_follow_player command && ltb d.worker_task_timeout follow_player_min_worker_timeout

unfoldable pub dispatch : (ℕ → Answer) → String → Fields → Dispatcher → Dispatcher × Outcome
dispatch answers command payload d =
    if timeout_mismatch command d
    then (skipping d, response rejected_follow)
    else receive command d.next_id (wire_payload d payload) (answers d.next_id)
        (sending command payload d)
