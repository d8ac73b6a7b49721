-- ===== src/ChatQueue/Defs.antt =====
-- The state of `ChatQueue` and its steps.
use mc_bot_egent_practice.Prelude.{
  ℕ, zero, suc, ◌+◌, ◌-◌, String, Bool, true, false, ◌&&◌, Option, none, some, List, [], ◌∷◌, ◌++◌,
  leb, ltb, ◌==◌, if◌then◌else◌, length,
}

-- `ChatTask` of runtime/action_graph.py
pub record ChatTask : Type 0 where
  pub username : String
  pub message : String
  pub retry_count : ℕ

pub record Config : Type 0 where
  pub queue_max_size : ℕ
  pub timeout_retry_limit : ℕ

-- The two texts that `_say` is called with.
pub data Notice : Type 0 where
  overflowed skipped : Notice

-- Where the worker stands: at `queue.get`, in `_process_task`, in `_say` of the overflow handler
-- before it puts a task again, at that `queue.put`, in `_say` about a task that it gives up, or
-- dead after an exception that left the loop.
pub data Worker : Type 0 where
  idle : Worker
  busy : ChatTask → Worker
  saying_overflow : ChatTask → Worker
  putting_back : ChatTask → Worker
  saying_skip : Worker
  dead : Worker

pub record State : Type 0 where
  pub queue : List ChatTask
  -- `asyncio.Queue`'s count of tasks that were put and not yet reported done
  pub unfinished : ℕ
  -- `task_done` was called more often than `put`: asyncio raises ValueError
  pub faulted : Bool
  -- producers in `_say` of the overflow handler, and producers at `queue.put`
  pub saying : List ChatTask
  pub putting : List ChatTask
  pub worker : Worker
  pub said : List Notice

-- How `_process_task` ends under `asyncio.wait_for`.
pub data Outcome : Type 0 where
  processed timed_out failed : Outcome

-- A numbered producer of a list goes on; `said_badly` is a `_say` that raises.
pub data Event : Type 0 where
  arrive : String → String → Event
  said_well said_badly : ℕ → Event
  put : ℕ → Event
  work : Event
  finish : Outcome → Event
  worker_said_well worker_said_badly worker_put : Event

unfoldable pub init : State
init = record {
  queue = [];
  unfinished = 0;
  faulted = false;
  saying = [];
  putting = [];
  worker = idle;
  said = [];
}

-- self.queue.maxsize > 0 and self.queue.qsize() >= self.queue.maxsize
abbrev pub is_full : Config → State → Bool
is_full c s = ltb 0 c.queue_max_size && leb c.queue_max_size (length s.queue)

-- queue.put_nowait
abbrev pub put_nowait : ChatTask → State → State
put_nowait t s = record s { queue = s.queue ++ t ∷ []; unfinished = s.unfinished + 1 }

-- queue.task_done()
abbrev pub task_done : State → State
task_done s =
    if s.unfinished == 0
    then record s { faulted = true }
    else record s { unfinished = s.unfinished - 1 }

abbrev without_oldest : List ChatTask → State → State
without_oldest [] s = s
without_oldest (t ∷ ts) s = task_done (record s { queue = ts })

-- `_handle_queue_overflow` up to its `await self._say`
unfoldable pub handle_queue_overflow : State → State
handle_queue_overflow s =
    let s' = without_oldest s.queue s in record s' { said = s'.said ++ overflowed ∷ [] }

-- await self.queue.put(task): a producer waits while the queue is full
abbrev pub queue_put : Config → ChatTask → State → State
queue_put c t s = if is_full c s then record s { putting = s.putting ++ t ∷ [] } else put_nowait t s

unfoldable pub enqueue_chat : Config → ChatTask → State → State
unfolding handle_queue_overflow
enqueue_chat c t s =
    if is_full c s
    then (let s' = handle_queue_overflow s in record s' { saying = s'.saying ++ t ∷ [] })
    else queue_put c t s

-- The numbered element and the list without it.
unfoldable pub pick : ℕ → List ChatTask → Option (ChatTask × List ChatTask)
pick n [] = none
pick zero (t ∷ ts) = some (t, ts)
pick (suc n) (t ∷ ts) = elim (pick n ts) [ none ↦ none | some (u, us) ↦ some (u, t ∷ us) ]

-- The worker's `queue.put` of a task that it tries again, and the `finally` clause after it.
abbrev pub worker_queue_put : Config → ChatTask → State → State
worker_queue_put c t s =
    if is_full c s
    then record s { worker = putting_back t }
    else task_done (put_nowait t (record s { worker = idle }))

-- The handler of `asyncio.TimeoutError`, up to its next await.
unfoldable pub on_timeout : Config → ChatTask → State → State
unfolding handle_queue_overflow
on_timeout c t s =
    if ltb t.retry_count c.timeout_retry_limit
    then (let t' = record t { retry_count = t.retry_count + 1 } in
        if is_full c s
        then (let s' = handle_queue_overflow s in record s' { worker = saying_overflow t' })
        else worker_queue_put c t' s)
    else record s { worker = saying_skip; said = s.said ++ skipped ∷ [] }

unfoldable pub take_task : List ChatTask → State → State
take_task [] s = s
take_task (t ∷ ts) s = record s { queue = ts; worker = busy t }

-- What the worker does when what it waits for has come.
unfoldable pub worker_step : Config → Worker → Event → State → State
unfolding on_timeout take_task
worker_step c idle work s = take_task s.queue s
worker_step c (busy t) (finish processed) s = task_done (record s { worker = idle })
worker_step c (busy t) (finish failed) s = task_done (record s { worker = idle })
worker_step c (busy t) (finish timed_out) s = on_timeout c t s
worker_step c (saying_overflow t) worker_said_well s = worker_queue_put c t s
worker_step c (saying_overflow t) worker_said_badly s = task_done (record s { worker = dead })
worker_step c (putting_back t) worker_put s = worker_queue_put c t s
worker_step c saying_skip worker_said_well s = task_done (record s { worker = idle })
worker_step c saying_skip worker_said_badly s = task_done (record s { worker = dead })
worker_step c _ _ s = s

-- A producer comes back from `_say`, or is woken at `queue.put`.
unfoldable pub resume : Config → Option (ChatTask × List ChatTask) → State → State
resume c none s = s
resume c (some (t, ts)) s = queue_put c t (record s { saying = ts })

unfoldable pub give_up : Option (ChatTask × List ChatTask) → State → State
give_up none s = s
give_up (some (t, ts)) s = record s { saying = ts }

unfoldable pub retry_put : Config → Option (ChatTask × List ChatTask) → State → State
retry_put c none s = s
retry_put c (some (t, ts)) s = if is_full c s then s else put_nowait t (record s { putting = ts })

-- One step; an event that nothing waits for changes nothing.
unfoldable pub step : Config → State → Event → State
unfolding enqueue_chat resume give_up retry_put worker_step
step c s (arrive username message) =
    enqueue_chat c (record { username = username; message = message; retry_count = 0 }) s
step c s (said_well n) = resume c (pick n s.saying) s
step c s (said_badly n) = give_up (pick n s.saying) s
step c s (put n) = retry_put c (pick n s.putting) s
step c s e = worker_step c s.worker e s

unfoldable pub run : Config → State → List Event → State
run c s [] = s
run c s (e ∷ es) = run c (step c s e) es
