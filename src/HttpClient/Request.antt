-- ===== src/HttpClient/Request.antt =====
-- `BridgeClient._request` of python/bridge_client.py. What the n-th request comes to is a
-- parameter. The loop recurs on fuel. Times are milliseconds; a body that is no UTF-8 is left out.
use mc_bot_egent_practice.Prelude.{
  ℕ, zero, suc, ◌+◌, ◌*◌, String, Bool, Option, none, some, leb, ltb, if◌then◌else◌,
}
use mc_bot_egent_practice.Prelude.Int.{ℤ, pos_part}
use mc_bot_egent_practice.Python.{Value, null, text, dict, truth, get}

-- A response with its status, whether it has content, its text and what the text decodes to, or an
-- `httpx.HTTPError`.
pub data HttpAnswer : Type 0 where
  responded : ℕ → Bool → String → Option Value → HttpAnswer
  http_error : String → HttpAnswer

pub data Ending : Type 0 where
  decoded : Value → Ending
  -- a `BridgeError` with the status, the payload (None if it is no JSON) and the detail
  rejected : ℕ → Value → String → Ending
  -- a `BridgeError` without a status
  gave_up : Ending

-- One pass of the `try`: it returns or raises, or the `except` clause handles it.
pub data Pass : Type 0 where
  settled : Ending → Pass
  failing : Pass

module _ (str : Value → String) where
  abbrev pub str_of : Value → String
  str_of (text s) = s
  str_of v = str v

  -- `payload["error"]` where the payload is a dict with one that is true, else the text
  unfoldable pub detail_of : String → Value → String
  detail_of body (dict fs) = if truth (get "error" fs) then str_of (get "error" fs) else body
  detail_of body _ = body

  unfoldable pub error_payload : Option Value → Value
  error_payload none = null
  error_payload (some payload) = payload

  abbrev pub body_of : Option Value → Pass
  body_of none = failing
  body_of (some v) = settled (decoded v)

  unfoldable pub pass : HttpAnswer → Pass
  unfolding detail_of error_payload
  pass (http_error message) = failing
  pass (responded status has_content body payload) =
      if leb 400 status
      then settled
          (rejected status (error_payload payload) (detail_of body (error_payload payload)))
      else if has_content
      then body_of payload
      else settled (decoded null)

  -- The `except` clause, with what the loop comes to after the pause; `none` is out of fuel.
  unfoldable pub handle : ℕ → ℕ → ℕ → Pass → Option Ending × ℕ → Option Ending × ℕ
  handle max_attempts attempt backoff (settled ending) later = (some ending, 0)
  handle max_attempts attempt backoff failing later =
      if ltb max_attempts (attempt + 1) then (some gave_up, 0) else (later.0, backoff + later.1)

  module _ (max_attempts : ℕ) (answers : ℕ → HttpAnswer) where
    -- How the loop ends, and how long it slept.
    unfoldable pub request_loop : ℕ → ℕ → ℕ → Option Ending × ℕ
    unfolding pass handle
    request_loop zero attempt backoff = (none, 0)
    request_loop (suc fuel) attempt backoff =
        handle max_attempts attempt backoff (pass (answers attempt))
          (request_loop fuel (attempt + 1) (backoff * 2))

  -- The fuel is one more than the retries. A negative number of retries is as 0.
  unfoldable pub request : ℤ → (ℕ → HttpAnswer) → Option Ending × ℕ
  unfolding request_loop
  request bridge_retry answers =
      request_loop (pos_part bridge_retry) answers (suc (pos_part bridge_retry)) 0 200
