-- ===== src/Actions/Examples.antt =====
-- The commands of the actions: tests of the definitions and instances of the theorems.
use mc_bot_egent_practice.Prelude.{
  ltb, ◌&&◌, str_eq, ◌⊎◌, ℕ, ◌≡◌, refl, true, false, List, [], ◌∷◌, ◌++◌, ◌==◌, if◌then◌else◌,
}
use mc_bot_egent_practice.Prelude.Int.{pos}
use mc_bot_egent_practice.Python.{
  put, Value, Fields, null, boolean, integer, text, dict, end, field, truth, get, strip,
}
use mc_bot_egent_practice.Actions.{
  skipped, wire_payload, numbered, Answer, answered, response, invalid, Log, prepared, Dispatcher,
  numbered, require_position, require_int, require_non_empty_text, dispatch, receive,
  begin_directive_scope, move_to, say, submit,
}
use mc_bot_egent_practice.Actions.Atomic.{move_to_call, perform, IsAtomic, perform-IsAtomic}
use mc_bot_egent_practice.Actions.Privacy.{dispatch-private, say_is_logged}
use mc_bot_egent_practice.Actions.Scope.{mismatch, expected_call, dispatch_lem}

abbrev fresh : Dispatcher
fresh = record { next_id = 7; meta = end; worker_task_timeout = 300000; sent = []; logs = [] }

abbrev scoped : Dispatcher
scoped = begin_directive_scope (field "directiveId" (text "d-1") end) fresh

abbrev accepted : Fields
accepted = field "ok" (boolean true) end

abbrev refused : Fields
refused = field "ok" (boolean false) (field "error" (text "no path") end)

-- The bridge refuses command 7 and accepts any other.
abbrev first_refused : ℕ → Answer
first_refused n = if n == 7 then answered refused else answered accepted

move_accepted :
    (move_to first_refused (integer (pos 1)) (integer (pos 2)) (boolean true) (numbered fresh)).1
    ≡ response accepted
unfolding move_to submit dispatch receive require_position require_int get
move_accepted = refl

move_invalid : move_to first_refused (integer (pos 1)) (text "2") null fresh ≡ (fresh, invalid)
unfolding move_to require_position require_int get
move_invalid = refl

perform-IsAtomic_example :
    IsAtomic scoped (
      perform first_refused
        (move_to_call (integer (pos 1)) (integer (pos 2)) (boolean true))
        scoped)
perform-IsAtomic_example =
    perform-IsAtomic first_refused (move_to_call (integer (pos 1)) (integer (pos 2)) (boolean true))
      scoped refl

dispatch-private_example :
    (dispatch (λ n. answered accepted) "say" (field "text" (text "hello") end) fresh).0.logs
    ≡ (dispatch (λ n. answered (field "ok" (boolean true) refused)) "say" end fresh).0.logs
unfolding get
dispatch-private_example =
    dispatch-private (λ n. answered accepted) (λ n. answered (field "ok" (boolean true) refused))
      "say" (field "text" (text "hello") end) end fresh refl refl

say_is_logged_example :
    (rest : List Log) × ((say first_refused " my secret " fresh).0.logs
      ≡ ([]
          ++ prepared "chat" 7 (
              field "type"
                (text "chat")
                (field "args" (dict (field "text" (text "my secret") end)) end))
            ∷ [])
        ++ rest)
unfolding require_non_empty_text strip truth
say_is_logged_example = say_is_logged first_refused " my secret " "my secret" fresh refl

abbrev jump : Value
jump = dict (field "kind" (text "jump") end)

abbrev stop_command : Value
stop_command = dict (field "type" (text " stop ") end)

dispatch_lem_example :
    ((dispatch first_refused "moveTo" accepted scoped).0.next_id ≡ 8)
    × ((dispatch first_refused "moveTo" accepted scoped).0.meta ≡ scoped.meta)
    × ((dispatch first_refused "moveTo" accepted scoped).0.worker_task_timeout ≡ 300000)
    × (((str_eq "moveTo" "followPlayer" && ltb 300000 240000 ≡ true)
          × ((dispatch first_refused "moveTo" accepted scoped).1 ≡ response mismatch)
          × ((dispatch first_refused "moveTo" accepted scoped).0.sent ≡ [])
          × ((dispatch first_refused "moveTo" accepted scoped).0.logs ≡ [] ++ skipped 7 ∷ []))
        ⊎ ((str_eq "moveTo" "followPlayer" && ltb 300000 240000 ≡ false)
            × ((dispatch first_refused "moveTo" accepted scoped).1 ≡ response refused)
            × ((dispatch first_refused "moveTo" accepted scoped).0.sent
                ≡ [] ++ expected_call "moveTo" (wire_payload scoped accepted) ∷ [])))
    × (get "ok" (wire_payload scoped accepted) ≡ boolean true)
unfolding get begin_directive_scope put
dispatch_lem_example = dispatch_lem first_refused "moveTo" accepted scoped "ok"
