-- ===== src/WorkerPool.antt =====
-- concurrent/worker_pool_executor.go: WorkerPoolExecutor and its workers, as steps of
-- goroutines. The state word is its two parts, as StateWord has them: the run state, by its
-- place in the order of the constants, and the worker count. A step is one access to what the
-- goroutines share: a load or a compare-and-swap of the word, a call of the queue, which is the
-- list of TaskQueue, or one of the mutex. Poll of that queue returns no error, so `isIdle` stays
-- false and a worker leaves only after Shutdown.
pub mod Effects
pub mod Invariant
pub mod Covered
pub mod Moves
pub mod Kept
pub mod Stable
pub mod Runs
use artemis.Prelude.{
  ℕ, zero, suc, ◌+◌, ◌-◌, ◌%◌, ◌≤◌, ◌<◌, ◌≡◌, ◌≢◌, ◌⊎◌, Bool, true, false, ◌==◌, leb, if◌then◌else◌,
  Option, some, none, List, [], ◌∷◌, ◌++◌,
}
use artemis.TaskQueue.{QueueError}
use artemis.TaskQueue.Calls.{
  Reply, result, got, waits, Fifo, new_fifo, fifo_push, fifo_poll, fifo_resume, fifo_remove,
  fifo_close,
}

-- RUNNING, SHUTDOWN and TERMINATED in their order
abbrev pub running : ℕ
running = 0

abbrev pub shutdown : ℕ
shutdown = 1

abbrev pub terminated : ℕ
terminated = 2

-- WorkerPoolExecutorConfig, without the queue and the unused KeepAliveTime
pub record Config : Type 0 where
  pub max_pool_size : ℕ
  pub min_pool_size : ℕ

-- `Validate` gives no error.
unfoldable pub is_valid : Config → Bool
is_valid config =
    if config.max_pool_size == 0 then false else leb config.min_pool_size config.max_pool_size

-- What the goroutines share. `terminations` counts the channels that wait for the end, `signalled`
-- those that have got it; `ran` has the tasks that were run.
pub record Pool : Type 0 where
  pub run : ℕ
  pub count : ℕ
  pub queue : Fifo
  pub locked : Bool
  pub terminations : ℕ
  pub signalled : ℕ
  pub ran : List ℕ

unfoldable pub new_worker_pool_executor : Pool
new_worker_pool_executor = record {
  run = running;
  count = 0;
  queue = new_fifo;
  locked = false;
  terminations = 0;
  signalled = 0;
  ran = [];
}

-- The calls of `addWorker`: at the start and at the end of Submit, by addTask, by terminateWorker.
pub data Caller : Type 0 where
  first last helper : (task : ℕ) → Caller
  replacement : (limit : ℕ) → Caller

-- Where a goroutine stands; `r` and `n` are the run state and the count that it loaded.
pub data Pc : Type 0 where
  submit reload pushing pushed removing : (task : ℕ) → Pc
  add : Caller → Pc
  add_cas : (r n : ℕ) → Caller → Pc
  runs : (task : ℕ) → Pc
  poll_top polling in_wait leaving term_load : Pc
  poll_empty term_queue try_empty : (r n : ℕ) → Pc
  try_top try_lock try_set unlock : Pc
  shut_lock shut_set shut_close shut_unlock : Pc
  cancelling : (task : ℕ) → Pc
  returned : (without_error : Bool) → Pc

-- Where the caller goes on after an error of addWorker, and after a success.
abbrev pub rejected : Caller → Pc
rejected (first t) = reload t
rejected (last t) = returned false
rejected (helper t) = pushed t
rejected (replacement n) = returned true

-- The new worker's first place: with the task, or in pollTask.
abbrev pub started : Caller → Pc
started (first t) = runs t
started (last t) = runs t
started _ = poll_top

abbrev pub uint32 : ℕ → ℕ
uint32 n = n % 0x100000000

module _ (config : Config) where
  open config use {min_pool_size, max_pool_size}

  abbrev pub limit : Caller → ℕ
  limit (first t) = min_pool_size
  limit (last t) = max_pool_size
  limit (helper t) = 1
  limit (replacement n) = n

  -- `minPoolSize` of terminateWorker
  abbrev pub replacement_limit : Fifo → ℕ
  replacement_limit q = elim q.tasks [
    | [] ↦ min_pool_size
    | t ∷ ts ↦ if min_pool_size == 0 then 1 else min_pool_size
  ]

  -- One step of one goroutine, with the goroutines that it starts.
  pub data Move (p : Pool) : Pc → Pool → Pc → List Pc → Type 0 where
    submit_few : {t : ℕ} → p.count < min_pool_size → Move p (submit t) p (add (first t)) []
    submit_queued :
        {t : ℕ} → min_pool_size ≤ p.count → p.run ≡ running → Move p (submit t) p (pushing t) []
    submit_last :
        {t : ℕ} → min_pool_size ≤ p.count → shutdown ≤ p.run → Move p (submit t) p (add (last t)) []
    reload_queued : {t : ℕ} → p.run ≡ running → Move p (reload t) p (pushing t) []
    reload_last : {t : ℕ} → shutdown ≤ p.run → Move p (reload t) p (add (last t)) []
    add_shut : {c : Caller} → shutdown ≤ p.run → Move p (add c) p (rejected c) []
    add_full :
        {c : Caller}
        → p.run ≡ running
        → limit c < uint32 (p.count + 1)
        → Move p (add c) p (rejected c) []
    add_room :
        {c : Caller}
        → p.run ≡ running
        → uint32 (p.count + 1) ≤ limit c
        → Move p (add c) p (add_cas p.run p.count c) []
    cas_done :
        {r n : ℕ} {c : Caller}
        → p.run ≡ r
        → p.count ≡ n
        → Move p (add_cas r n c) (record p { count = suc p.count }) (returned true) (started c ∷ [])
    cas_failed :
        {r n : ℕ} {c : Caller} → (p.run ≢ r) ⊎ (p.count ≢ n) → Move p (add_cas r n c) p (add c) []
    push_failed :
        {t : ℕ} {e : QueueError} {q : Fifo}
        → fifo_push t p.queue ≡ (result (some e), q)
        → Move p (pushing t) p (returned false) []
    push_done :
        {t : ℕ} {q : Fifo}
        → fifo_push t p.queue ≡ (result none, q)
        → Move p (pushing t) (record p { queue = q }) (pushed t) []
    pushed_shut : {t : ℕ} → shutdown ≤ p.run → Move p (pushed t) p (removing t) []
    pushed_none : {t : ℕ} → p.run ≡ running → p.count ≡ 0 → Move p (pushed t) p (add (helper t)) []
    pushed_some : {t : ℕ} → p.run ≡ running → 0 < p.count → Move p (pushed t) p (returned true) []
    remove_done :
        {t : ℕ} {q : Fifo}
        → fifo_remove t p.queue ≡ (result none, q)
        → Move p (removing t) (record p { queue = q }) (returned false) []
    remove_failed :
        {t : ℕ} {e : QueueError} {q : Fifo}
        → fifo_remove t p.queue ≡ (result (some e), q)
        → Move p (removing t) p (returned true) []
    run_task : {t : ℕ} → Move p (runs t) (record p { ran = t ∷ p.ran }) poll_top []
    poll_load : Move p poll_top p (poll_empty p.run p.count) []
    quit : {r n : ℕ} → shutdown ≤ r → p.queue.tasks ≡ [] → Move p (poll_empty r n) p leaving []
    stay_running : {r n : ℕ} → r ≡ running → Move p (poll_empty r n) p polling []
    stay_tasks : {r n : ℕ} → p.queue.tasks ≢ [] → Move p (poll_empty r n) p polling []
    poll_task :
        {t : ℕ} {q : Fifo}
        → fifo_poll p.queue ≡ (got (some t), q)
        → Move p polling (record p { queue = q }) (runs t) []
    poll_nil :
        {q : Fifo}
        → fifo_poll p.queue ≡ (got none, q)
        → Move p polling (record p { queue = q }) poll_top []
    poll_waits :
        {q : Fifo}
        → fifo_poll p.queue ≡ (waits, q)
        → Move p polling (record p { queue = q }) in_wait []
    resume_task :
        {t : ℕ} {q : Fifo}
        → 0 < p.queue.woken
        → fifo_resume p.queue ≡ (got (some t), q)
        → Move p in_wait (record p { queue = q }) (runs t) []
    resume_nil :
        {q : Fifo}
        → 0 < p.queue.woken
        → fifo_resume p.queue ≡ (got none, q)
        → Move p in_wait (record p { queue = q }) poll_top []
    leave : Move p leaving (record p { count = p.count - 1 }) term_load []
    term_shut : shutdown ≤ p.run → Move p term_load p try_top []
    term_running : p.run ≡ running → Move p term_load p (term_queue p.run p.count) []
    term_replace :
        {r n : ℕ}
        → replacement_limit p.queue < n
        → Move p (term_queue r n) p (add (replacement (replacement_limit p.queue))) []
    term_enough :
        {r n : ℕ} → n ≤ replacement_limit p.queue → Move p (term_queue r n) p (returned true) []
    try_running : p.run ≡ running → Move p try_top p (returned true) []
    try_terminated : terminated ≤ p.run → Move p try_top p (returned true) []
    try_shut : p.run ≡ shutdown → Move p try_top p (try_empty p.run p.count) []
    try_tasks : {r n : ℕ} → p.queue.tasks ≢ [] → Move p (try_empty r n) p (returned true) []
    try_workers :
        {r n : ℕ} → p.queue.tasks ≡ [] → 0 < n → Move p (try_empty r n) p (returned true) []
    try_none : {r n : ℕ} → p.queue.tasks ≡ [] → n ≡ 0 → Move p (try_empty r n) p try_lock []
    try_locks : p.locked ≡ false → Move p try_lock (record p { locked = true }) try_set []
    terminate :
        Move p try_set
          (record p {
            run = terminated;
            terminations = 0;
            signalled = p.signalled + p.terminations;
          })
          unlock
          []
    unlocks : Move p unlock (record p { locked = false }) (returned true) []
    shut_locks : p.locked ≡ false → Move p shut_lock (record p { locked = true }) shut_set []
    shut_running :
        p.run ≡ running
        → Move p shut_set
            (record p { run = shutdown; terminations = suc p.terminations })
            shut_close
            []
    shut_again :
        p.run ≡ shutdown
        → Move p shut_set (record p { terminations = suc p.terminations }) shut_unlock []
    shut_terminated :
        terminated ≤ p.run
        → Move p shut_set (record p { signalled = suc p.signalled }) shut_unlock []
    shut_closes : Move p shut_close (record p { queue = (fifo_close p.queue).1 }) shut_unlock []
    shut_unlocks : Move p shut_unlock (record p { locked = false }) try_top []
    cancel_done :
        {t : ℕ} {q : Fifo}
        → fifo_remove t p.queue ≡ (result none, q)
        → Move p (cancelling t) (record p { queue = q }) try_top []
    cancel_failed :
        {t : ℕ} {e : QueueError} {q : Fifo}
        → fifo_remove t p.queue ≡ (result (some e), q)
        → Move p (cancelling t) p (returned false) []

  -- The calls from outside: Submit, Shutdown, and Cancel of a task.
  pub data Starts : Pc → Type 0 where
    submits : (t : ℕ) → Starts (submit t)
    shuts_down : Starts shut_lock
    cancels : (t : ℕ) → Starts (cancelling t)

  -- The goroutines take turns in any order, and calls come at any time.
  pub data Reached : Pool → List Pc → Type 0 where
    created : Reached new_worker_pool_executor []
    called : {p : Pool} {pcs : List Pc} {pc : Pc} → Starts pc → Reached p pcs → Reached p (pc ∷ pcs)
    moved :
        {p p' : Pool} {pc pc' : Pc} {new : List Pc} (xs ys : List Pc)
        → Reached p (xs ++ (pc ∷ ys))
        → Move p pc p' pc' new
        → Reached p' (xs ++ (pc' ∷ (new ++ ys)))
