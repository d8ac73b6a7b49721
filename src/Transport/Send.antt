-- ===== src/Transport/Send.antt =====
-- `BotBridge` of python/bridge_ws.py. What an attempt to connect, send, receive and decode comes
-- to, and whether a callback returns or raises, are parameters. Times are milliseconds and not
-- negative. The loop over `range(1, max_retries + 1)` recurs on the attempts that are left.
use mc_bot_egent_practice.Prelude.{
  ℕ, zero, suc, ◌+◌, ◌-◌, ◌*◌, String, Bool, true, false, ◌&&◌, Option, none, some, List, [], ◌∷◌,
  ◌++◌, ltb, max, min, if◌then◌else◌,
}
use mc_bot_egent_practice.Prelude.Int.{ℤ, pos, pos_part}
use mc_bot_egent_practice.Python.{Value, Fields, boolean, integer, text, field, end}

pub data Stage : Type 0 where
  connect send_stage recv : Stage

-- The classes of exception in the order in which `_classify_error` tests for them.
pub data Failure : Type 0 where
  timed_out connection_refused os_error other : Failure

-- What one attempt comes to: the decoded answer, or an exception at a stage with its text.
pub data Attempt : Type 0 where
  decoded : Value → Attempt
  broken : Stage → Failure → String → Attempt

-- What is seen from outside: an attempt begins, a connection stands, `on_retry` and `on_give_up`
-- are called, and the pause between two attempts.
pub data Effect : Type 0 where
  tried : ℕ → Effect
  connected : ℕ → Effect
  reported_retry : ℕ → String → Effect
  slept : ℕ → Effect
  reported_give_up : ℕ → String → Effect

-- `fell_through` is the None of a loop that ends without a return.
pub data SendResult : Type 0 where
  answered : Value → SendResult
  failure : Fields → SendResult
  callback_raised : SendResult
  fell_through : SendResult

-- A callback is given by whether it returns when it is called about an attempt.
abbrev pub Callback : Type 0
Callback = Option (ℕ → Bool)

pub record Bridge : Type 0 where
  pub max_retries : ℕ
  pub backoff_base : ℕ
  pub on_retry : Callback
  pub on_give_up : Callback
  pub is_sensitive : Bool

unfoldable pub new_bridge : ℤ → ℕ → Callback → Callback → Bool → Bridge
new_bridge max_retries backoff_base on_retry on_give_up is_sensitive = record {
  max_retries = max 1 (pos_part max_retries);
  backoff_base = backoff_base;
  on_retry = on_retry;
  on_give_up = on_give_up;
  is_sensitive = is_sensitive;
}

unfoldable pub classify_error : Stage → Failure → String
classify_error connect timed_out = "connect_timeout"
classify_error send_stage timed_out = "send_timeout"
classify_error recv timed_out = "recv_timeout"
classify_error _ connection_refused = "connect_refused"
classify_error connect os_error = "connect_os_error"
classify_error send_stage os_error = "send_os_error"
classify_error recv os_error = "recv_os_error"
classify_error connect other = "connect_error"
classify_error send_stage other = "send_error"
classify_error recv other = "recv_error"

abbrev pub power_of_two : ℕ → ℕ
power_of_two zero = 1
power_of_two (suc n) = 2 * power_of_two n

unfoldable pub compute_backoff : Bridge → ℕ → ℕ
compute_backoff b attempt = min (b.backoff_base * power_of_two (attempt - 1)) 8000

abbrev pub returns : Callback → ℕ → Bool
returns none k = true
returns (some f) k = f k

abbrev pub report : Callback → Effect → List Effect
report none e = []
report (some f) e = e ∷ []

abbrev pub is_connect : Stage → Bool
is_connect connect = true
is_connect _ = false

abbrev pub reached : Stage → ℕ → List Effect
reached connect k = []
reached _ k = connected k ∷ []

abbrev pub failure_result : Bridge → ℕ → String → String → Fields
failure_result b k error_type message =
    let told = if b.is_sensitive then end else field "message" (text message) end in
    field "ok" (boolean false)
      (field "error" (text error_type) (field "retries" (integer (pos (k - 1))) told))

unfoldable pub give_up : Bridge → ℕ → String → String → List Effect × SendResult
give_up b k error_type message = (
  report b.on_give_up (reported_give_up (k - 1) error_type),
  if returns b.on_give_up (k - 1)
      then failure (failure_result b k error_type message)
      else callback_raised,
)

-- The retry, with what the rest of the loop comes to.
unfoldable pub retry : Bridge → ℕ → String → List Effect × SendResult → List Effect × SendResult
unfolding compute_backoff
retry b k error_type rest =
    if returns b.on_retry k
    then (
      report b.on_retry (reported_retry k error_type) ++ slept (compute_backoff b k) ∷ rest.0,
      rest.1,
    )
    else (report b.on_retry (reported_retry k error_type), callback_raised)

-- Only a failure to connect is tried again, and not after the last attempt.
abbrev pub should_retry : Bridge → Stage → ℕ → Bool
should_retry b stage k = is_connect stage && ltb k b.max_retries

-- The body of the loop for attempt `k`.
unfoldable pub attempt_once :
    Bridge → ℕ → Attempt → List Effect × SendResult → List Effect × SendResult
unfolding classify_error give_up retry
attempt_once b k (decoded v) rest = (tried k ∷ connected k ∷ [], answered v)
attempt_once b k (broken stage f message) rest =
    let error_type = classify_error stage f in
    let ending =
      if should_retry b stage k
      then retry b k error_type rest
      else give_up b k error_type message in
    (tried k ∷ reached stage k ++ ending.0, ending.1)

module _ (b : Bridge) (outcomes : ℕ → Attempt) where
  unfoldable pub attempts_from : ℕ → ℕ → List Effect × SendResult
  unfolding attempt_once
  attempts_from zero k = ([], fell_through)
  attempts_from (suc n) k = attempt_once b k (outcomes k) (attempts_from n (k + 1))

  unfoldable pub send : List Effect × SendResult
  unfolding attempts_from
  send = attempts_from b.max_retries 1
