-- ===== src/Actions/Scope.antt =====
-- What one dispatch does, on every branch.
use mc_bot_egent_practice.Prelude.{
  none, some, ltb, ◌∙◌, ◌&&◌, ◌⊎◌, ℕ, ◌+◌, ◌≡◌, refl, String, true, false, [], ◌∷◌, ◌++◌, arith,
  Bool-cases, inl, inr, str_eq, if◌then◌else◌,
}
use mc_bot_egent_practice.Python.{end, text, boolean, field, Fields, dict, get, get-put, truth}
use mc_bot_egent_practice.Actions.Dispatch.{
  skipped, Sent, Answer, answered, threw, Outcome, response, bridge_raised, Dispatcher,
  wire_payload, send_of, receive, dispatch, sending, timeout_mismatch, rejected_follow,
}

abbrev pub outcome_of : Answer → Outcome
outcome_of threw = bridge_raised
outcome_of (answered r) = response r

receive_lem :
    (command : String) (id : ℕ) (wire : Fields) (a : Answer) (d : Dispatcher)
    → ((receive command id wire a d).0.next_id ≡ d.next_id)
      × ((receive command id wire a d).0.meta ≡ d.meta)
      × ((receive command id wire a d).0.sent ≡ d.sent)
      × ((receive command id wire a d).0.worker_task_timeout ≡ d.worker_task_timeout)
      × ((receive command id wire a d).1 ≡ outcome_of a)
unfolding receive
receive_lem command id wire threw d = (refl, refl, refl, refl, refl)
receive_lem command id wire (answered r) d = (refl, refl, refl, refl, refl)

-- The call of the bridge for a command, with the timeout of 210 s and without callbacks for
-- followPlayer.
abbrev pub expected_call : String → Fields → Sent
expected_call command wire =
    if str_eq command "followPlayer"
    then record { payload = wire; with_callbacks = false; recv_timeout = some 210000 }
    else record { payload = wire; with_callbacks = true; recv_timeout = none }

-- The answer to a followPlayer that is skipped.
abbrev pub mismatch : Fields
mismatch =
    field "ok" (boolean false) (field "error" (text "rendezvous_worker_timeout_mismatch") end)

send_of-expected_call :
    (command : String) (wire : Fields) → send_of command wire ≡ expected_call command wire
send_of-expected_call command wire = elim (Bool-cases (str_eq command "followPlayer")) [
  | inl follows ↦ rw follows refl
  | inr other ↦ rw other refl
]

-- Every dispatch takes one number and keeps the directive's scope and the worker's timeout. Either
-- the command is followPlayer under a worker timeout of less than 240 s: then it is answered with
-- the mismatch, nothing is sent, and one warning with its number is logged. Or it is not: then one
-- call of the bridge is made, for followPlayer without the retry callbacks and with a timeout of
-- 210 s, for any other with them and with none, and the command ends as the bridge's answer for its
-- number does. The payload that is sent holds the directive's meta data where a scope is open that
-- is not empty, and is the command's payload in every other key.
pub dispatch_lem :
    (answers : ℕ → Answer) (command : String) (payload : Fields) (d : Dispatcher) (key : String)
    → ((dispatch answers command payload d).0.next_id ≡ d.next_id + 1)
      × ((dispatch answers command payload d).0.meta ≡ d.meta)
      × ((dispatch answers command payload d).0.worker_task_timeout ≡ d.worker_task_timeout)
      × (((str_eq command "followPlayer" && ltb d.worker_task_timeout 240000 ≡ true)
            × ((dispatch answers command payload d).1 ≡ response mismatch)
            × ((dispatch answers command payload d).0.sent ≡ d.sent)
            × ((dispatch answers command payload d).0.logs ≡ d.logs ++ skipped d.next_id ∷ []))
          ⊎ ((str_eq command "followPlayer" && ltb d.worker_task_timeout 240000 ≡ false)
              × ((dispatch answers command payload d).1 ≡ outcome_of (answers d.next_id))
              × ((dispatch answers command payload d).0.sent
                  ≡ d.sent ++ expected_call command (wire_payload d payload) ∷ [])))
      × (get key (wire_payload d payload) ≡ (
          if str_eq "meta" key
          then (if truth (dict d.meta) then dict d.meta else get key payload)
          else get key payload))
unfolding dispatch
dispatch_lem answers command payload d key =
    let after =
      receive_lem command d.next_id (wire_payload d payload) (answers d.next_id)
        (sending command payload d) in
    (
      ground (arith, after.0),
      ground (arith, after.1),
      ground (arith, after.3),
      elim (Bool-cases (timeout_mismatch command d)) [
        | inl short ↦ inl (rw short (refl, refl, refl, refl))
        | inr long ↦ inr (
            rw long (
              refl,
              after.4,
              after.2 ∙ rw (send_of-expected_call command (wire_payload d payload)) refl,
            ))
      ],
      ground (arith, get-put "meta" key (dict d.meta) payload),
    )

-- How a command ends.
abbrev pub reply : (ℕ → Answer) → String → Dispatcher → Outcome
reply answers command d =
    if timeout_mismatch command d then response rejected_follow else outcome_of (answers d.next_id)

pub dispatch-reply :
    (answers : ℕ → Answer) (command : String) (payload : Fields) (d : Dispatcher)
    → (dispatch answers command payload d).1 ≡ reply answers command d
dispatch-reply answers command payload d = elim (dispatch_lem answers command payload d "").3 [
  | inl short ↦ short.1 ∙ rw short.0 refl
  | inr long ↦ long.1 ∙ rw long.0 refl
]
