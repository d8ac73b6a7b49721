-- ===== src/Transport/Conclusion.antt =====
-- What a `send` comes to.
use native.Mathlib.Numerals.{add-one}
use mc_bot_egent_practice.Prelude.{
  max, sym, not, ◌||◌, ltb, String, ◌∙◌, List, ℕ, zero, suc, ◌+◌, ◌-◌, ◌≤◌, ◌<◌, ◌≡◌, refl, Bool,
  true, false, ◌&&◌, arith, Bool-cases, inl, inr, if◌then◌else◌,
}
use mc_bot_egent_practice.Prelude.Int.{pos_part, ℤ, pos}
use mc_bot_egent_practice.Python.{Fields, boolean, integer, text, field, end, append}
use mc_bot_egent_practice.Transport.Send.{
  Failure, Stage, timed_out, connection_refused, os_error, other, Failure, Stage, Effect, connect,
  send_stage, recv, Attempt, decoded, broken, SendResult, answered, failure, callback_raised,
  Callback, Bridge, new_bridge, classify_error, returns, give_up, retry, should_retry, attempt_once,
  attempts_from, send,
}

failed_to_connect : Attempt → Bool
failed_to_connect (broken connect f message) = true
failed_to_connect (broken send_stage f message) = false
failed_to_connect (broken recv f message) = false
failed_to_connect (decoded v) = false

abbrev word_of_stage : Stage → String
word_of_stage connect = "connect"
word_of_stage send_stage = "send"
word_of_stage recv = "recv"

-- The name of an error: its stage and its kind, but one name for a refused connection.
abbrev error_name : Stage → Failure → String
error_name stage connection_refused = "connect_refused"
error_name stage timed_out = append (word_of_stage stage) "_timeout"
error_name stage os_error = append (word_of_stage stage) "_os_error"
error_name stage other = append (word_of_stage stage) "_error"

-- The text of an exception, which a sensitive bridge withholds.
abbrev message_of : Bool → String → Fields
message_of true message = end
message_of false message = field "message" (text message) end

module _ (limit : ℕ) (on_retry on_give_up : Callback) (sensitive : Bool) where
  -- Attempt `k` of at most `limit` is followed by another: it failed to connect, it was not the
  -- last, and the callback about it returned.
  abbrev pub goes_on : ℕ → Attempt → Bool
  unfolding failed_to_connect
  goes_on k a = failed_to_connect a && ltb k limit && returns on_retry k

  -- What comes of the attempt `a`, the first that no other follows, after `retries` others.
  abbrev pub conclusion : ℕ → Attempt → SendResult
  unfolding failed_to_connect
  conclusion retries (decoded v) = answered v
  conclusion retries (broken stage f message) =
      if (failed_to_connect (broken stage f message) && ltb (suc retries) limit)
        || not (returns on_give_up retries)
      then callback_raised
      else failure (
          field "ok" (boolean false) (
            field "error" (text (error_name stage f))
              (field "retries" (integer (pos retries)) (message_of sensitive message))))

  -- The attempts from `k` on, `j` of them, were each followed by another.
  abbrev pub AllGoOn : (ℕ → Attempt) → ℕ → ℕ → Type 0
  AllGoOn outcomes k zero = Unit
  AllGoOn outcomes k (suc j) = (goes_on k (outcomes k) ≡ true) × AllGoOn outcomes (suc k) j

  -- After `j` attempts that others follow comes one that none follows, within the limit, and it
  -- decides.
  abbrev pub Concludes : (ℕ → Attempt) → SendResult → Type 0
  Concludes outcomes r =
      (j : ℕ) × ((j < limit)
        × AllGoOn outcomes 1 j
        × (goes_on (suc j) (outcomes (suc j)) ≡ false)
        × (r ≡ conclusion j (outcomes (suc j))))

  -- The same of `n` attempts after the first `i`; `p` of all are followed by another.
  abbrev ConcludesFrom : (ℕ → Attempt) → ℕ → ℕ → SendResult → Type 0
  ConcludesFrom outcomes n i r =
      (j : ℕ) × ((p : ℕ) × ((p ≡ i + j)
          × (j < n)
          × AllGoOn outcomes (suc i) j
          × (goes_on (suc p) (outcomes (suc p)) ≡ false)
          × (r ≡ conclusion p (outcomes (suc p)))))

classify_error-error_name :
    (stage : Stage) (f : Failure) → classify_error stage f ≡ error_name stage f
unfolding classify_error
classify_error-error_name connect timed_out = refl
classify_error-error_name connect connection_refused = refl
classify_error-error_name connect os_error = refl
classify_error-error_name connect other = refl
classify_error-error_name send_stage timed_out = refl
classify_error-error_name send_stage connection_refused = refl
classify_error-error_name send_stage os_error = refl
classify_error-error_name send_stage other = refl
classify_error-error_name recv timed_out = refl
classify_error-error_name recv connection_refused = refl
classify_error-error_name recv os_error = refl
classify_error-error_name recv other = refl

should_retry-failed_to_connect :
    (b : Bridge) (stage : Stage) (f : Failure) (message : String) (k : ℕ)
    → should_retry b stage k ≡ failed_to_connect (broken stage f message) && ltb k b.max_retries
unfolding failed_to_connect
should_retry-failed_to_connect b connect f message k = refl
should_retry-failed_to_connect b send_stage f message k = refl
should_retry-failed_to_connect b recv f message k = refl

-- What the callback about giving up leaves of the failure.
gave_up :
    (on_give_up : Callback) (sensitive : Bool) (i : ℕ) (name : String) (message : String)
    → (if returns on_give_up i
        then failure (
            field "ok" (boolean false) (
              field "error" (text name) (
                field "retries"
                  (integer (pos i))
                  (if sensitive then end else field "message" (text message) end))))
        else callback_raised)
      ≡ (if not (returns on_give_up i)
          then callback_raised
          else failure (
              field "ok" (boolean false) (
                field "error"
                  (text name)
                  (field "retries" (integer (pos i)) (message_of sensitive message)))))
gave_up on_give_up true i name message = ground arith
gave_up on_give_up false i name message = ground arith

not_more : (k limit : ℕ) (returned : Bool) → limit ≤ k → (ltb k limit && returned) ≡ false
not_more k limit returned h = ground (arith, h)

pred_suc : (i : ℕ) → suc i - 1 ≡ i
pred_suc i = omega arith

module _ (b : Bridge) where
  abbrev again : ℕ → Attempt → Bool
  again k a = goes_on b.max_retries b.on_retry b.on_give_up b.is_sensitive k a

  abbrev ending : ℕ → Attempt → SendResult
  ending i a = conclusion b.max_retries b.on_retry b.on_give_up b.is_sensitive i a

  attempt_once-again :
      (i : ℕ) (a : Attempt) (rest : List Effect × SendResult)
      → (attempt_once b (suc i) a rest).1 ≡ (if again (suc i) a then rest.1 else ending i a)
  unfolding attempt_once retry give_up failed_to_connect
  attempt_once-again i (decoded v) rest = refl
  attempt_once-again i (broken connect f message) rest =
      rw (classify_error-error_name connect f, pred_suc i)
        (elim (Bool-cases (ltb (suc i) b.max_retries)) [
          | inl more ↦ elim (Bool-cases (returns b.on_retry (suc i))) [
            | inl comes_back ↦ rw (more, comes_back) refl
            | inr raises ↦ rw (more, raises) refl
          ]
          | inr last ↦
              rw last (gave_up b.on_give_up b.is_sensitive i (error_name connect f) message)
        ])
  attempt_once-again i (broken send_stage f message) rest =
      rw (classify_error-error_name send_stage f, pred_suc i)
        (gave_up b.on_give_up b.is_sensitive i (error_name send_stage f) message)
  attempt_once-again i (broken recv f message) rest =
      rw (classify_error-error_name recv f, pred_suc i)
        (gave_up b.on_give_up b.is_sensitive i (error_name recv f) message)

  -- The last attempt is never followed by another.
  again-last : (k : ℕ) (a : Attempt) → b.max_retries ≤ k → again k a ≡ false
  unfolding failed_to_connect
  again-last k (decoded v) h = refl
  again-last k (broken connect f message) h = not_more k b.max_retries (returns b.on_retry k) h
  again-last k (broken send_stage f message) h = refl
  again-last k (broken recv f message) h = refl

  module _ (outcomes : ℕ → Attempt) where
    abbrev Ends : ℕ → ℕ → SendResult → Type 0
    Ends n i r = ConcludesFrom b.max_retries b.on_retry b.on_give_up b.is_sensitive outcomes n i r

    leave-Ends :
        (n i : ℕ)
        → again (suc i) (outcomes (suc i)) ≡ false
        → Ends (suc n) i (attempts_from b outcomes (suc n) (suc i)).1
    unfolding attempts_from
    leave-Ends n i h =
        let left =
          attempt_once-again i (outcomes (suc i)) (attempts_from b outcomes n (suc i + 1)) in
        (0, (i, (omega arith, omega arith, tt, h, left ∙ rw h refl)))

    attempts_from-Ends :
        (n i : ℕ)
        → b.max_retries ≡ n + suc i
        → Ends (suc n) i (attempts_from b outcomes (suc n) (suc i)).1
    unfolding attempts_from
    attempts_from-Ends zero i h =
        leave-Ends zero i (again-last (suc i) (outcomes (suc i)) (omega (arith, h)))
    attempts_from-Ends (suc n) i h = elim (Bool-cases (again (suc i) (outcomes (suc i)))) [
      | inr leaves ↦ leave-Ends (suc n) i leaves
      | inl on ↦ rw (add-one (suc i)) (
          let rest = attempts_from-Ends n (suc i) (omega (arith, h)) in
          let eq =
            attempt_once-again i (outcomes (suc i))
              (attempts_from b outcomes (suc n) (suc (suc i))) in
          let (j, (p, (count, bound, all, ends, result))) = rest in
          (
            suc j,
            (p, (omega (arith, count), omega (arith, bound), (on, all), ends, eq ∙ rw on result)),
          ))
    ]

    from_first :
        (m n : ℕ) → m ≡ suc n → b.max_retries ≡ m → Ends m 0 (attempts_from b outcomes m 1).1
    from_first m n e h = rw e (attempts_from-Ends n 0 (omega (arith, e, h)))

    first-Concludes :
        (m : ℕ) (r : SendResult)
        → b.max_retries ≡ m
        → Ends m 0 r
        → Concludes b.max_retries b.on_retry b.on_give_up b.is_sensitive outcomes r
    first-Concludes m r h (j, (p, (count, bound, all, ends, result))) =
        let same : p ≡ j = omega (arith, count) in
        (j, (omega (arith, bound, h), all, rw (sym same) ends, rw (sym same) result))

-- For any setting of the retries, where the limit is the setting, but at least 1, a send always
-- returns or ends with an exception of a callback: attempts are made in turn, each followed by
-- another if it failed to connect, was not the last within the limit, and the callback about it
-- returned. The first that no other follows decides: a decoded answer is returned; else, if it
-- failed to connect before the last, or the callback about giving up raises, an exception of the
-- callback leaves; else the failure is returned, with the name of its stage and kind, the number of
-- attempts before it, and its message unless the bridge is sensitive.
pub send-Concludes :
    (max_retries : ℤ) (backoff_base : ℕ) (on_retry on_give_up : Callback) (sensitive : Bool)
    (outcomes : ℕ → Attempt)
    → Concludes
        (max 1 (pos_part max_retries))
        on_retry
        on_give_up
        sensitive
        outcomes
        (send (new_bridge max_retries backoff_base on_retry on_give_up sensitive) outcomes).1
unfolding send new_bridge
send-Concludes r base on_retry on_give_up sensitive outcomes =
    let b = new_bridge r base on_retry on_give_up sensitive in
    first-Concludes b outcomes b.max_retries _ refl
      (from_first b outcomes b.max_retries (b.max_retries - 1) (omega arith) refl)
