-- ===== src/ChatQueue/Examples.antt =====
-- Concrete runs of the chat queue: tests of the definitions and instances of the theorems.
use mc_bot_egent_practice.Prelude.{◌+◌, ◌*◌, ◌≤◌, ◌≡◌, refl, List, [], ◌∷◌, ◌++◌, arith, drop}
use mc_bot_egent_practice.ChatQueue.{
  Config, State, Event, arrive, said_well, work, finish, timed_out, worker_said_well, init, step,
  run, skipped,
}
use mc_bot_egent_practice.ChatQueue.Invariant.{Inv, run-Inv}
use mc_bot_egent_practice.ChatQueue.Runs.{
  attempts_in, arrivals_in, attempts_bounded, newest_replaces_oldest,
}

abbrev small : Config
small = record { queue_max_size = 1; timeout_retry_limit = 1 }

-- A chat that times out twice is tried again once and then given up.
abbrev slow : List Event
slow =
    arrive "ann" "dig" ∷ work ∷ finish timed_out ∷ work ∷ finish timed_out ∷ worker_said_well ∷ []

slow_given_up : ((run small init slow).queue ≡ []) × ((run small init slow).said ≡ skipped ∷ [])
unfolding run step init
slow_given_up = (refl, refl)

run-Inv_example : Inv small (run small init slow)
run-Inv_example = run-Inv small slow

attempts_bounded_example : attempts_in small init slow ≤ (1 + 1) * arrivals_in small slow
attempts_bounded_example = attempts_bounded small slow

abbrev full : State
full = run small init (arrive "ann" "dig" ∷ [])

newest_replaces_oldest_example :
    (run small full (arrive "bob" "stop" ∷ said_well 0 ∷ [])).queue
    ≡ drop 1 full.queue ++ record { username = "bob"; message = "stop"; retry_count = 0 } ∷ []
unfolding run step init
newest_replaces_oldest_example =
    newest_replaces_oldest small full "bob" "stop" (omega arith) refl refl
