-- ===== src/ChatQueue/Runs.antt =====
-- What whole runs of the queue do: how often tasks are processed, and which task is given up.
use mc_bot_egent_practice.Prelude.{
  ℕ, zero, suc, ◌+◌, ◌-◌, ◌*◌, ◌≤◌, ◌<◌, ◌≡◌, refl, String, Option, none, some, List, [], ◌∷◌, ◌++◌,
  arith, length, drop,
}
use mc_bot_egent_practice.ChatQueue.Defs.{
  ChatTask, Config, Worker, busy, saying_overflow, putting_back, State, Outcome, Event, arrive,
  said_well, said_badly, put, finish, init, pick, enqueue_chat, resume, give_up, retry_put,
  worker_step, on_timeout, step, run, worker_queue_put,
}
use mc_bot_egent_practice.ChatQueue.Invariant.{Inv, step-Inv, run-Inv}

-- The attempts that are left to a task, and to those of a list and of the worker.
abbrev left : ℕ → ChatTask → ℕ
left limit t = limit + 1 - t.retry_count

abbrev left_in : ℕ → List ChatTask → ℕ
left_in limit [] = 0
left_in limit (t ∷ ts) = left limit t + left_in limit ts

abbrev left_with : ℕ → Worker → ℕ
left_with limit (busy t) = left limit t
left_with limit (saying_overflow t) = left limit t
left_with limit (putting_back t) = left limit t
left_with limit _ = 0

abbrev attempts_left : ℕ → State → ℕ
attempts_left limit s =
    left_in limit s.queue
    + left_in limit s.saying
    + left_in limit s.putting
    + left_with limit s.worker

abbrev is_busy : Worker → ℕ
is_busy (busy t) = 1
is_busy _ = 0

-- An attempt ends with this step.
abbrev pub attempts : State → Event → ℕ
attempts s (finish o) = is_busy s.worker
attempts s _ = 0

abbrev pub arrivals : Event → ℕ
arrivals (arrive username message) = 1
arrivals _ = 0

module _ (c : Config) where
  abbrev limit : ℕ
  limit = c.timeout_retry_limit

  left_in-append :
      (ts : List ChatTask) (t : ChatTask)
      → left_in limit (ts ++ t ∷ []) ≡ left_in limit ts + left limit t
  left_in-append [] t = omega arith
  left_in-append (u ∷ us) t = omega (arith, left_in-append us t)

  abbrev LeftPicked : Option (ChatTask × List ChatTask) → ℕ → Type 0
  LeftPicked none n = Unit
  LeftPicked (some (t, ts)) n = left limit t + left_in limit ts ≡ n

  pick-left : (n : ℕ) (ts : List ChatTask) → LeftPicked (pick n ts) (left_in limit ts)
  unfolding pick
  pick-left n [] = tt
  pick-left zero (t ∷ ts) = refl
  pick-left (suc n) (t ∷ ts) = ground (arith, pick-left n ts)

  abbrev Spends : State → Event → State → Type 0
  Spends s e s' =
      attempts s e + attempts_left limit s' ≤ attempts_left limit s + (limit + 1) * arrivals e

  enqueue-left :
      (t : ChatTask) (s : State)
      → attempts_left limit (enqueue_chat c t s) ≤ attempts_left limit s + left limit t
  unfolding enqueue_chat
  enqueue-left t s =
      ground
        (arith, left_in-append s.queue t, left_in-append s.saying t, left_in-append s.putting t)

  resume-left :
      (o : Option (ChatTask × List ChatTask)) (s : State)
      → LeftPicked o (left_in limit s.saying)
      → attempts_left limit (resume c o s) ≤ attempts_left limit s
  unfolding resume
  resume-left none s h = omega arith
  resume-left (some (t, ts)) s h =
      ground (arith, left_in-append s.queue t, left_in-append s.putting t)

  give_up-left :
      (o : Option (ChatTask × List ChatTask)) (s : State)
      → LeftPicked o (left_in limit s.saying)
      → attempts_left limit (give_up o s) ≤ attempts_left limit s
  unfolding give_up
  give_up-left none s h = omega arith
  give_up-left (some (t, ts)) s h = omega arith

  retry_put-left :
      (o : Option (ChatTask × List ChatTask)) (s : State)
      → LeftPicked o (left_in limit s.putting)
      → attempts_left limit (retry_put c o s) ≤ attempts_left limit s
  unfolding retry_put
  retry_put-left none s h = omega arith
  retry_put-left (some (t, ts)) s h = ground (arith, left_in-append s.queue t)

  worker_queue_put-left :
      (t : ChatTask) (s : State)
      → left_with limit s.worker ≡ left limit t
      → attempts_left limit (worker_queue_put c t s) ≤ attempts_left limit s
  worker_queue_put-left t s h = ground (arith, left_in-append s.queue t)

  on_timeout-left :
      (t : ChatTask) (s : State)
      → s.worker ≡ busy t
      → t.retry_count ≤ limit
      → 1 + attempts_left limit (on_timeout c t s) ≤ attempts_left limit s
  unfolding on_timeout
  on_timeout-left t s p h =
      ground (arith, left_in-append s.queue (record t { retry_count = t.retry_count + 1 }))

  worker_step-left :
      (w : Worker) (e : Event) (s : State)
      → s.worker ≡ w
      → Inv c s
      → Spends s e (worker_step c w e s)
  unfolding worker_step
  worker_step-left (busy t) (finish Outcome.timed_out) s p h =
      ground (arith, on_timeout-left t s p, h.worker_within)
  worker_step-left (saying_overflow t) Event.worker_said_well s p h =
      omega (arith, worker_queue_put-left t s (ground arith))
  worker_step-left (putting_back t) Event.worker_put s p h =
      omega (arith, worker_queue_put-left t s (ground arith))
  worker_step-left _ _ s p h = ground (arith, h.worker_within)

  step-left : (s : State) (e : Event) → Inv c s → Spends s e (step c s e)
  unfolding step
  step-left s (arrive username message) h =
      omega
        (arith, enqueue-left (record { username = username; message = message; retry_count = 0 }) s)
  step-left s (said_well n) h =
      omega (arith, resume-left (pick n s.saying) s (pick-left n s.saying))
  step-left s (said_badly n) h =
      omega (arith, give_up-left (pick n s.saying) s (pick-left n s.saying))
  step-left s (put n) h = omega (arith, retry_put-left (pick n s.putting) s (pick-left n s.putting))
  step-left s e h = worker_step-left s.worker e s refl h

  -- The attempts that end in a run, and the chats that arrive.
  abbrev pub attempts_in : State → List Event → ℕ
  attempts_in s [] = 0
  attempts_in s (e ∷ es) = attempts s e + attempts_in (step c s e) es

  abbrev pub arrivals_in : List Event → ℕ
  arrivals_in [] = 0
  arrivals_in (e ∷ es) = arrivals e + arrivals_in es

  attempts-left :
      (s : State) (es : List Event)
      → Inv c s
      → attempts_in s es ≤ attempts_left limit s + (limit + 1) * arrivals_in es
  attempts-left s [] h = omega arith
  attempts-left s (e ∷ es) h =
      grind (arith, step-left s e h, attempts-left (step c s e) es (step-Inv c s e h))

  -- In every run from the empty queue, the chats are attempted at most the retry limit plus one
  -- times each, over all.
  pub attempts_bounded :
      (es : List Event) → attempts_in init es ≤ (c.timeout_retry_limit + 1) * arrivals_in es
  unfolding init run
  attempts_bounded es = omega (arith, attempts-left init es (run-Inv c []))

  -- A chat that arrives at a full queue while no other producer is at the notice, and whose notice
  -- is said at once, with no other event in between, then stands last in the queue, in place of the
  -- oldest task.
  pub newest_replaces_oldest :
      (s : State) (username message : String)
      → 0 < c.queue_max_size
      → length s.queue ≡ c.queue_max_size
      → s.saying ≡ []
      → (run c s (arrive username message ∷ said_well 0 ∷ [])).queue
        ≡ drop 1 s.queue ++ record { username = username; message = message; retry_count = 0 } ∷ []
  unfolding run step pick
  newest_replaces_oldest s username message room full nobody = ground arith
