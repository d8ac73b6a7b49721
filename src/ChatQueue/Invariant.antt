-- ===== src/ChatQueue/Invariant.antt =====
-- What holds of the queue after every step, in every order of steps.
use mc_bot_egent_practice.Prelude.{
  ℕ, suc, ◌+◌, ◌≤◌, ◌<◌, ◌≡◌, refl, false, Option, none, some, List, [], ◌∷◌, ◌++◌, arith, length,
  length-append,
}
use mc_bot_egent_practice.ChatQueue.Defs.{
  ChatTask, Config, Worker, idle, busy, saying_overflow, putting_back, dead, State, Outcome, Event,
  arrive, said_well, said_badly, put, init, pick, enqueue_chat, resume, give_up, retry_put,
  worker_step, on_timeout, step, run, handle_queue_overflow, queue_put, worker_queue_put,
}

-- Every task of a list was tried again at most so often.
abbrev pub Within : ℕ → List ChatTask → Type 0
Within limit [] = Unit
Within limit (t ∷ ts) = (t.retry_count ≤ limit) × Within limit ts

-- The tasks that the worker has taken and not reported done.
abbrev pub taken : Worker → ℕ
taken idle = 0
taken dead = 0
taken _ = 1

abbrev pub WorkerWithin : ℕ → Worker → Type 0
WorkerWithin limit (busy t) = t.retry_count ≤ limit
WorkerWithin limit (saying_overflow t) = t.retry_count ≤ limit
WorkerWithin limit (putting_back t) = t.retry_count ≤ limit
WorkerWithin limit _ = Unit

pub record Inv (c : Config) (s : State) : Type 0 where
  pub bounded : 0 < c.queue_max_size → length s.queue ≤ c.queue_max_size
  pub counted : s.unfinished ≡ length s.queue + taken s.worker
  pub sound : s.faulted ≡ false
  pub queue_within : Within c.timeout_retry_limit s.queue
  pub saying_within : Within c.timeout_retry_limit s.saying
  pub putting_within : Within c.timeout_retry_limit s.putting
  pub worker_within : WorkerWithin c.timeout_retry_limit s.worker

Within-append :
    (limit : ℕ) (ts : List ChatTask) (t : ChatTask)
    → Within limit ts
    → t.retry_count ≤ limit
    → Within limit (ts ++ t ∷ [])
Within-append limit [] t h k = (k, tt)
Within-append limit (u ∷ us) t h k = (h.0, Within-append limit us t h.1 k)

abbrev PickedWithin : ℕ → Option (ChatTask × List ChatTask) → Type 0
PickedWithin limit none = Unit
PickedWithin limit (some (t, ts)) = (t.retry_count ≤ limit) × Within limit ts

skip-PickedWithin :
    (limit : ℕ) (t : ChatTask) (o : Option (ChatTask × List ChatTask))
    → t.retry_count ≤ limit
    → PickedWithin limit o
    → PickedWithin limit (elim o [ none ↦ none | some (u, us) ↦ some (u, t ∷ us) ])
skip-PickedWithin limit t none k h = tt
skip-PickedWithin limit t (some (u, us)) k h = (h.0, (k, h.1))

pick-Within : (limit n : ℕ) (ts : List ChatTask) → Within limit ts → PickedWithin limit (pick n ts)
unfolding pick
pick-Within limit n [] h = tt
pick-Within limit ℕ.zero (t ∷ ts) h = h
pick-Within limit (suc n) (t ∷ ts) h =
    skip-PickedWithin limit t (pick n ts) h.0 (pick-Within limit n ts h.1)

module _ (c : Config) where
  overflow-Inv : (s : State) → Inv c s → Inv c (handle_queue_overflow s)
  unfolding handle_queue_overflow
  overflow-Inv s h = ground arith

  enqueue-Inv :
      (t : ChatTask) (s : State)
      → t.retry_count ≤ c.timeout_retry_limit
      → Inv c s
      → Inv c (enqueue_chat c t s)
  unfolding enqueue_chat
  enqueue-Inv t s k h = ground (
    arith,
    length-append s.queue (t ∷ []),
    Within-append c.timeout_retry_limit s.queue t,
    Within-append c.timeout_retry_limit s.saying t,
    Within-append c.timeout_retry_limit s.putting t,
  )

  queue_put-Inv :
      (t : ChatTask) (s : State)
      → t.retry_count ≤ c.timeout_retry_limit
      → Inv c s
      → Inv c (queue_put c t s)
  queue_put-Inv t s k h = ground (
    arith,
    length-append s.queue (t ∷ []),
    Within-append c.timeout_retry_limit s.queue t,
    Within-append c.timeout_retry_limit s.putting t,
  )

  resume-Inv :
      (o : Option (ChatTask × List ChatTask)) (s : State)
      → PickedWithin c.timeout_retry_limit o
      → Inv c s
      → Inv c (resume c o s)
  unfolding resume
  resume-Inv none s k h = h
  resume-Inv (some (t, ts)) s k h =
      queue_put-Inv t (record s { saying = ts }) k.0
        (record {
          bounded = h.bounded;
          counted = h.counted;
          sound = h.sound;
          queue_within = h.queue_within;
          saying_within = k.1;
          putting_within = h.putting_within;
          worker_within = h.worker_within;
        })

  give_up-Inv :
      (o : Option (ChatTask × List ChatTask)) (s : State)
      → PickedWithin c.timeout_retry_limit o
      → Inv c s
      → Inv c (give_up o s)
  unfolding give_up
  give_up-Inv none s k h = h
  give_up-Inv (some (t, ts)) s k h = record {
    bounded = h.bounded;
    counted = h.counted;
    sound = h.sound;
    queue_within = h.queue_within;
    saying_within = k.1;
    putting_within = h.putting_within;
    worker_within = h.worker_within;
  }

  retry_put-Inv :
      (o : Option (ChatTask × List ChatTask)) (s : State)
      → PickedWithin c.timeout_retry_limit o
      → Inv c s
      → Inv c (retry_put c o s)
  unfolding retry_put
  retry_put-Inv none s k h = h
  retry_put-Inv (some (t, ts)) s k h =
      ground (arith, length-append s.queue (t ∷ []), Within-append c.timeout_retry_limit s.queue t)

  worker_queue_put-Inv :
      (t : ChatTask) (s : State)
      → t.retry_count ≤ c.timeout_retry_limit
      → taken s.worker ≡ 1
      → Inv c s
      → Inv c (worker_queue_put c t s)
  worker_queue_put-Inv t s k w h =
      ground (arith, length-append s.queue (t ∷ []), Within-append c.timeout_retry_limit s.queue t)

  on_timeout-Inv :
      (t : ChatTask) (s : State) → s.worker ≡ busy t → Inv c s → Inv c (on_timeout c t s)
  unfolding on_timeout
  on_timeout-Inv t s w h = ground (
    arith,
    overflow-Inv s h,
    worker_queue_put-Inv (record t { retry_count = t.retry_count + 1 }) s,
  )

  worker_step-Inv :
      (w : Worker) (e : Event) (s : State) → s.worker ≡ w → Inv c s → Inv c (worker_step c w e s)
  unfolding worker_step
  worker_step-Inv (busy t) (Event.finish Outcome.timed_out) s p h = on_timeout-Inv t s p h
  worker_step-Inv (saying_overflow t) Event.worker_said_well s p h =
      worker_queue_put-Inv t s (ground (arith, h.worker_within)) (ground arith) h
  worker_step-Inv (putting_back t) Event.worker_put s p h =
      worker_queue_put-Inv t s (ground (arith, h.worker_within)) (ground arith) h
  worker_step-Inv _ _ s p h = ground arith

  -- Every step keeps the invariant.
  pub step-Inv : (s : State) (e : Event) → Inv c s → Inv c (step c s e)
  unfolding step
  step-Inv s (arrive username message) h =
      enqueue-Inv (record { username = username; message = message; retry_count = 0 }) s
        (omega arith) h
  step-Inv s (said_well n) h =
      resume-Inv (pick n s.saying) s (pick-Within c.timeout_retry_limit n s.saying h.saying_within)
        h
  step-Inv s (said_badly n) h =
      give_up-Inv (pick n s.saying) s (pick-Within c.timeout_retry_limit n s.saying h.saying_within)
        h
  step-Inv s (put n) h =
      retry_put-Inv (pick n s.putting) s
        (pick-Within c.timeout_retry_limit n s.putting h.putting_within) h
  step-Inv s e h = worker_step-Inv s.worker e s refl h

  run_from-Inv : (s : State) (es : List Event) → Inv c s → Inv c (run c s es)
  unfolding run
  run_from-Inv s [] h = h
  run_from-Inv s (e ∷ es) h = run_from-Inv (step c s e) es (step-Inv s e h)

  -- From the empty queue, in whatever order the steps come: the queue never passes its size (where
  -- one is set), the count of unfinished tasks is what is queued plus what the worker holds,
  -- `task_done` is never called too often, and no task's retry count passes the limit.
  pub run-Inv : (es : List Event) → Inv c (run c init es)
  unfolding init
  run-Inv es = run_from-Inv init es (ground arith)
