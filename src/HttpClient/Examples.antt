-- ===== src/HttpClient/Examples.antt =====
-- A server that answers at the second request: a test of the definitions and an instance of the
-- theorem.
use mc_bot_egent_practice.Prelude.{ℕ, ◌≡◌, refl, String, true, none, some, ◌==◌, if◌then◌else◌}
use mc_bot_egent_practice.Prelude.Int.{pos}
use mc_bot_egent_practice.Python.{Value, boolean}
use mc_bot_egent_practice.HttpClient.{
  HttpAnswer, responded, decoded, request, request_loop, pass, handle,
}
use mc_bot_egent_practice.HttpClient.Ends.{Ends}

abbrev shown : Value → String
shown v = "?"

abbrev second_time : ℕ → HttpAnswer
second_time n =
    if n == 0
    then responded 200 true "<html>" none
    else responded 200 true "true" (some (boolean true))

request_waits : request shown (pos 3) second_time ≡ (some (decoded (boolean true)), 200)
unfolding request request_loop pass handle
request_waits = refl
