-- ===== src/Transport/Examples.antt =====
-- A bridge that is refused twice: tests of the definitions and instances of the theorems.
use mc_bot_egent_practice.Prelude.{ℕ, ◌≡◌, refl, true, false, none, [], ◌∷◌, ltb, if◌then◌else◌}
use mc_bot_egent_practice.Prelude.Int.{pos}
use mc_bot_egent_practice.Python.{boolean, dict, field, end}
use mc_bot_egent_practice.Transport.{
  Attempt, decoded, broken, connect, connection_refused, Bridge, new_bridge, send, attempts_from,
  attempt_once, retry, give_up, classify_error, compute_backoff, answered, tried, connected, slept,
}
use mc_bot_egent_practice.Transport.Once.{IsFrugal, send-IsFrugal}
use mc_bot_egent_practice.Transport.Conclusion.{Concludes, send-Concludes}

abbrev bridge : Bridge
bridge = new_bridge (pos 4) 1000 none none false

abbrev refused_twice : ℕ → Attempt
refused_twice k =
    if ltb k 3
    then broken connect connection_refused "refused"
    else decoded (dict (field "ok" (boolean true) end))

send_waits : send bridge refused_twice ≡ (
  tried 1 ∷ slept 1000 ∷ tried 2 ∷ slept 2000 ∷ tried 3 ∷ connected 3 ∷ [],
  answered (dict (field "ok" (boolean true) end)),
)
unfolding send attempts_from attempt_once retry give_up classify_error compute_backoff new_bridge
send_waits = refl

send-IsFrugal_example : IsFrugal 4 (send bridge refused_twice).0
unfolding new_bridge
send-IsFrugal_example = send-IsFrugal bridge refused_twice

send-Concludes_example : Concludes 4 none none false refused_twice (send bridge refused_twice).1
unfolding new_bridge
send-Concludes_example = send-Concludes (pos 4) 1000 none none false refused_twice
