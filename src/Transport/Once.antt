-- ===== src/Transport/Once.antt =====
-- What one `send` can do at most.
use mc_bot_egent_practice.Prelude.{
  ℕ, zero, suc, ◌+◌, ◌-◌, ◌*◌, ◌≤◌, ◌≡◌, refl, String, List, [], ◌∷◌, ◌++◌, arith, Bool-cases, inl,
  inr, none, some, min,
}
use mc_bot_egent_practice.Transport.Send.{
  power_of_two, connect, send_stage, recv, Attempt, decoded, broken, Effect, tried, connected,
  reported_retry, slept, reported_give_up, SendResult, Callback, Bridge, classify_error,
  compute_backoff, returns, report, give_up, retry, should_retry, attempt_once, attempts_from, send,
}

-- The attempts, the connections and the pauses of a run.
abbrev pub tries : List Effect → ℕ
tries [] = 0
tries (tried k ∷ es) = suc (tries es)
tries (e ∷ es) = tries es

abbrev pub connections : List Effect → ℕ
connections [] = 0
connections (connected k ∷ es) = suc (connections es)
connections (e ∷ es) = connections es

abbrev pub time_slept : List Effect → ℕ
time_slept [] = 0
time_slept (slept t ∷ es) = t + time_slept es
time_slept (e ∷ es) = time_slept es

-- At most one connection, n attempts and eight seconds for each attempt.
abbrev pub IsFrugal : ℕ → List Effect → Type 0
IsFrugal n es = (connections es ≤ 1) × (tries es ≤ n) × (time_slept es ≤ 8000 * n)

-- Callbacks are none of the three.
quiet :
    (c : Callback) (k : ℕ) (e : String) (es : List Effect)
    → (connections (report c (reported_retry k e) ++ es) ≡ connections es)
      × (tries (report c (reported_retry k e) ++ es) ≡ tries es)
      × (time_slept (report c (reported_retry k e) ++ es) ≡ time_slept es)
quiet none k e es = (refl, refl, refl)
quiet (some f) k e es = (refl, refl, refl)

quiet_alone :
    (c : Callback) (k : ℕ) (e : String)
    → (connections (report c (reported_retry k e)) ≡ 0)
      × (tries (report c (reported_retry k e)) ≡ 0)
      × (time_slept (report c (reported_retry k e)) ≡ 0)
quiet_alone none k e = (refl, refl, refl)
quiet_alone (some f) k e = (refl, refl, refl)

quiet_end :
    (c : Callback) (k : ℕ) (e : String)
    → (connections (report c (reported_give_up k e)) ≡ 0)
      × (tries (report c (reported_give_up k e)) ≡ 0)
      × (time_slept (report c (reported_give_up k e)) ≡ 0)
quiet_end none k e = (refl, refl, refl)
quiet_end (some f) k e = (refl, refl, refl)

-- The effects after an attempt `k` has failed, before the last one or at it.
IsFrugalAfter : ℕ → List Effect → Type 0
IsFrugalAfter n es = (connections es ≤ 1) × (tries es ≤ n) × (time_slept es ≤ 8000 + 8000 * n)

retry-IsFrugalAfter :
    (b : Bridge) (k n : ℕ) (e : String) (rest : List Effect × SendResult)
    → IsFrugal n rest.0
    → IsFrugalAfter n (retry b k e rest).0
unfolding retry compute_backoff IsFrugalAfter
retry-IsFrugalAfter b k n e rest (c, t, s) =
    let q =
      quiet b.on_retry k e (slept (min (b.backoff_base * power_of_two (k - 1)) 8000) ∷ rest.0) in
    elim (Bool-cases (returns b.on_retry k)) [
      | inl comes_back ↦ rw comes_back (rw q.0 c, rw q.1 t, rw q.2 (omega (arith, s)))
      | inr raises ↦
          let q' = quiet_alone b.on_retry k e in
          rw raises (omega (arith, q'.0), omega (arith, q'.1), omega (arith, q'.2))
    ]

give_up-silent :
    (b : Bridge) (k : ℕ) (e message : String)
    → (connections (give_up b k e message).0 ≡ 0)
      × (tries (give_up b k e message).0 ≡ 0)
      × (time_slept (give_up b k e message).0 ≡ 0)
unfolding give_up
give_up-silent b k e message = quiet_end b.on_give_up (k - 1) e

attempt_once-IsFrugal :
    (b : Bridge) (k n : ℕ) (a : Attempt) (rest : List Effect × SendResult)
    → IsFrugal n rest.0
    → IsFrugal (suc n) (attempt_once b k a rest).0
unfolding attempt_once IsFrugalAfter
attempt_once-IsFrugal b k n (decoded v) rest f = (omega arith, omega arith, omega arith)
attempt_once-IsFrugal b k n (broken connect f message) rest h =
    elim (Bool-cases (should_retry b connect k)) [
      | inl again ↦
          let r = retry-IsFrugalAfter b k n (classify_error connect f) rest h in
          rw again (r.0, omega (arith, r.1), omega (arith, r.2))
      | inr last ↦
          let g = give_up-silent b k (classify_error connect f) message in
          rw last (omega (arith, g.0), omega (arith, g.1), omega (arith, g.2))
    ]
attempt_once-IsFrugal b k n (broken send_stage f message) rest h =
    let g = give_up-silent b k (classify_error send_stage f) message in
    (omega (arith, g.0), omega (arith, g.1), omega (arith, g.2))
attempt_once-IsFrugal b k n (broken recv f message) rest h =
    let g = give_up-silent b k (classify_error recv f) message in
    (omega (arith, g.0), omega (arith, g.1), omega (arith, g.2))

attempts_from-IsFrugal :
    (b : Bridge) (outcomes : ℕ → Attempt) (n k : ℕ) → IsFrugal n (attempts_from b outcomes n k).0
unfolding attempts_from
attempts_from-IsFrugal b outcomes zero k = (omega arith, omega arith, omega arith)
attempts_from-IsFrugal b outcomes (suc n) k =
    attempt_once-IsFrugal b k n (outcomes k) (attempts_from b outcomes n (k + 1))
      (attempts_from-IsFrugal b outcomes n (k + 1))

-- However the attempts and the callbacks go, a send makes at most one connection and at most
-- `max_retries` attempts, and sleeps at most eight seconds for each.
pub send-IsFrugal :
    (b : Bridge) (outcomes : ℕ → Attempt) → IsFrugal b.max_retries (send b outcomes).0
unfolding send
send-IsFrugal b outcomes = attempts_from-IsFrugal b outcomes b.max_retries 1
