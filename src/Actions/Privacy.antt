-- ===== src/Actions/Privacy.antt =====
-- What the dispatcher's logs show of a command.
use mc_bot_egent_practice.Prelude.{
  ℕ, ◌≡◌, refl, String, true, some, List, [], ◌∷◌, ◌++◌, arith, Bool-cases, inl, inr,
}
use mc_bot_egent_practice.Python.{Fields, text, dict, end, field, truth, get}
use mc_bot_egent_practice.Actions.Dispatch.{
  Answer, answered, threw, Log, prepared, Dispatcher, is_sensitive_command, wire_payload, receive,
  dispatch, sending, timeout_mismatch,
}
use mc_bot_egent_practice.Actions.Validate.{require_non_empty_text}
use mc_bot_egent_practice.Actions.Commands.{say}

-- Two answers that are alike up to what they hold: both are exceptions, or both are responses that
-- are ok or not.
abbrev pub SameFate : Answer → Answer → Type 0
SameFate threw threw = Unit
SameFate (answered r) (answered s) = truth (get "ok" r) ≡ truth (get "ok" s)
SameFate _ _ = ⊥

receive-private :
    (command : String) (id : ℕ) (p p' : Fields) (a b : Answer) (d d' : Dispatcher)
    → is_sensitive_command command ≡ true
    → SameFate a b
    → d.logs ≡ d'.logs
    → (receive command id p a d).0.logs ≡ (receive command id p' b d').0.logs
unfolding receive
receive-private command id p p' threw threw d d' s f e = ground (arith, s, e)
receive-private command id p p' (answered r) (answered q) d d' s f e = ground (arith, s, e, f)
receive-private command id p p' threw (answered q) d d' s f e = absurd f
receive-private command id p p' (answered r) threw d d' s f e = absurd f

-- The logs of a sensitive command tell neither its payload nor the answer apart: from one
-- dispatcher, any two payloads and any two answers of the same fate leave the same logs.
pub dispatch-private :
    (answers answers' : ℕ → Answer) (command : String) (payload payload' : Fields) (d : Dispatcher)
    → is_sensitive_command command ≡ true
    → SameFate (answers d.next_id) (answers' d.next_id)
    → (dispatch answers command payload d).0.logs ≡ (dispatch answers' command payload' d).0.logs
unfolding dispatch
dispatch-private answers answers' command payload payload' d s f =
    elim (Bool-cases (timeout_mismatch command d)) [
      | inl short ↦ rw short refl
      | inr long ↦ rw long (
          receive-private command d.next_id (wire_payload d payload) (wire_payload d payload')
            (answers d.next_id) (answers' d.next_id) (sending command payload d)
            (sending command payload' d) s f (rw s refl))
    ]

logs-receive :
    (command : String) (id : ℕ) (wire : Fields) (a : Answer) (d : Dispatcher)
    → (rest : List Log) × ((receive command id wire a d).0.logs ≡ d.logs ++ rest)
unfolding receive
logs-receive command id wire threw d = (_, refl)
logs-receive command id wire (answered r) d = (_, refl)

-- What `say` sends.
abbrev pub chat_payload : String → Fields
chat_payload stripped =
    field "type" (text "chat") (field "args" (dict (field "text" (text stripped) end)) end)

-- A chat message is logged in full: its command is not among the sensitive ones.
pub say_is_logged :
    (answers : ℕ → Answer) (message stripped : String) (d : Dispatcher)
    → require_non_empty_text message ≡ some stripped
    → (rest : List Log) × ((say answers message d).0.logs
        ≡ (d.logs ++ prepared "chat" d.next_id (wire_payload d (chat_payload stripped)) ∷ [])
          ++ rest)
unfolding say dispatch
say_is_logged answers message stripped d h =
    rw h (
      logs-receive "chat" d.next_id _ (answers d.next_id)
        (sending "chat" (chat_payload stripped) d))
