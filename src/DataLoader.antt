-- ===== src/DataLoader.antt =====
-- dataloader: the tasks of a loader, its queue, its cache and the jobs that load batches. A task is a
-- number, and the tasks are a store. `K`, `V`, `E` and `W` stand for keys, values, errors and wakers.
-- The CAS loops succeed in their first round, where no other goroutine is between the steps of a
-- call; Config.Runner is nil, so that Dispatch runs the jobs itself.
pub mod Batches
pub mod Wakes
use artemis.Prelude.{
  ℕ, zero, suc, ◌==◌, Bool, true, false, if◌then◌else◌, Option, some, none, List, [], ◌∷◌, ◌++◌,
  length,
}
use artemis.DataLoader.Batches.{batches}

module _ (V E W : Type 0) where
  -- A task that is not completed has the wakers of its futures.
  pub data TaskResult : Type 0 where
    not_completed : List W → TaskResult
    result_err : E → TaskResult
    result_value : V → TaskResult

  -- What Load returns: the future of a task with its waker slot, or one that is done.
  pub data Future : Type 0 where
    result_future : ℕ → ℕ → Future
    ready_err : E → Future
    ready_value : V → Future

  pub data PollResult : Type 0 where
    pending : PollResult
    poll_err : E → PollResult
    poll_value : V → PollResult

pub record Task (K V E W : Type 0) : Type 0 where
  pub key : K
  pub result : TaskResult V E W

-- The tasks below `fresh` are allocated. `cache` is none for NoCacheMap. `woken` are the wakers of
-- which Wake was called.
pub record DataLoader (K V E W : Type 0) : Type 0 where
  pub fresh : ℕ
  pub task : ℕ → Task K V E W
  pub queue : List ℕ
  pub cache : Option (List (K × ℕ))
  pub woken : List W

-- What a BatchLoader does with the tasks that it is given: Complete, SetError and Load of other keys.
pub data LoadAction (K V E : Type 0) : Type 0 where
  complete_task : ℕ → V → LoadAction K V E
  set_task_error : ℕ → E → LoadAction K V E
  load_key : K → LoadAction K V E

-- The parts of the configuration and of other packages: equality of keys and of wakers,
-- future.NopWaker, the batch loader, the error of a task that it leaves, and MaxBatchSize.
pub record Config (K V E W : Type 0) : Type 0 where
  pub same_key : K → K → Bool
  pub same_waker : W → W → Bool
  pub nop_waker : W
  pub batch_load : List (ℕ × K) → List (LoadAction K V E)
  pub not_completed_err : K → E
  pub max_batch_size : ℕ

module _ {W : Type 0} where
  -- `wakers[slot] = waker`; out of range is not reached, since slots are not freed.
  abbrev pub put_waker : ℕ → W → List W → List W
  put_waker slot w [] = []
  put_waker zero w (v ∷ wakers) = w ∷ wakers
  put_waker (suc slot) w (v ∷ wakers) = v ∷ put_waker slot w wakers

  abbrev pub holds_waker : (W → W → Bool) → ℕ → W → List W → Bool
  holds_waker same slot w [] = false
  holds_waker same zero w (v ∷ wakers) = same v w
  holds_waker same (suc slot) w (v ∷ wakers) = holds_waker same slot w wakers

module _ {K V E W : Type 0} (config : Config K V E W) where
  abbrev pub set_result : ℕ → TaskResult V E W → DataLoader K V E W → DataLoader K V E W
  set_result t r l = record l {
    task = λ q. if q == t then record (l.task q) { result = r } else l.task q;
  }

  -- `complete`; the flag is false for the error of a task that was completed before.
  unfoldable pub complete : ℕ → TaskResult V E W → DataLoader K V E W → DataLoader K V E W × Bool
  complete t r l = elim (l.task t).result [
    | not_completed wakers ↦ (set_result t r (record l { woken = l.woken ++ wakers }), true)
    | _ ↦ (l, false)
  ]

  unfoldable pub new_future : ℕ → DataLoader K V E W → DataLoader K V E W × Future V E W
  new_future t l = elim (l.task t).result [
    | not_completed wakers ↦ (
      set_result t (not_completed (wakers ++ (config.nop_waker ∷ []))) l,
      result_future t (length wakers),
    )
    | result_err e ↦ (l, ready_err e)
    | result_value v ↦ (l, ready_value v)
  ]

  -- `Poll` of a result future.
  unfoldable pub poll : ℕ → ℕ → W → DataLoader K V E W → DataLoader K V E W × PollResult V E W
  poll t slot w l = elim (l.task t).result [
    | not_completed wakers ↦ (
      if holds_waker config.same_waker slot w wakers
          then l
          else set_result t (not_completed (put_waker slot w wakers)) l,
      pending,
    )
    | result_err e ↦ (l, poll_err e)
    | result_value v ↦ (l, poll_value v)
  ]

  -- `Get` of the cache
  abbrev pub cached : K → List (K × ℕ) → Option ℕ
  cached k [] = none
  cached k ((j, t) ∷ entries) =
      let rest = cached k entries in if config.same_key k j then some t else rest

  -- `Delete` of the cache
  abbrev pub delete_entry : K → List (K × ℕ) → List (K × ℕ)
  delete_entry k [] = []
  delete_entry k ((j, t) ∷ entries) =
      let rest = delete_entry k entries in if config.same_key k j then rest else (j, t) ∷ rest

  -- `newTask`, at the number `fresh`
  abbrev pub new_task : K → TaskResult V E W → DataLoader K V E W → DataLoader K V E W
  new_task k r l = record l {
    fresh = suc l.fresh;
    task = λ q. if q == l.fresh then record { key = k; result = r } else l.task q;
  }

  -- `Enqueue` of the queue, and the task that it returns. `Set` of the cache keeps a task that it has.
  unfoldable pub enqueue : K → DataLoader K V E W → DataLoader K V E W × ℕ
  enqueue k l = elim l.cache [
    | none ↦
        (record (new_task k (not_completed []) l) { queue = l.queue ++ (l.fresh ∷ []) }, l.fresh)
    | some entries ↦ elim (cached k entries) [
      | some t ↦ (new_task k (not_completed []) l, t)
      | none ↦ (
        record (new_task k (not_completed []) l) {
          queue = l.queue ++ (l.fresh ∷ []);
          cache = some (entries ++ ((k, l.fresh) ∷ []));
        },
        l.fresh,
      )
    ]
  ]

  abbrev pub cached_task : K → DataLoader K V E W → Option ℕ
  cached_task k l = elim l.cache [ none ↦ none | some entries ↦ cached k entries ]

  -- `Load`; a nil key is an error.
  unfoldable pub load : Option K → DataLoader K V E W → Option (DataLoader K V E W × Future V E W)
  unfolding new_future enqueue
  load none l = none
  load (some k) l = elim (cached_task k l) [
    | some t ↦ some (new_future t l)
    | none ↦ some (new_future (enqueue k l).1 (enqueue k l).0)
  ]

  -- A step of the batch loader, which ignores the errors and the futures.
  unfoldable pub act : LoadAction K V E → DataLoader K V E W → DataLoader K V E W
  unfolding complete load
  act (complete_task t v) l = (complete t (result_value v) l).0
  act (set_task_error t e) l = (complete t (result_err e) l).0
  act (load_key k) l = elim (load (some k) l) [ none ↦ l | some y ↦ y.0 ]

  unfoldable pub act_all : List (LoadAction K V E) → DataLoader K V E W → DataLoader K V E W
  unfolding act
  act_all [] l = l
  act_all (a ∷ actions) l = act_all actions (act a l)

  -- A task of a batch that is not completed gets an error.
  unfoldable pub finish_task : ℕ → DataLoader K V E W → DataLoader K V E W
  unfolding complete
  finish_task t l = elim (l.task t).result [
    | not_completed wakers ↦ (complete t (result_err (config.not_completed_err (l.task t).key)) l).0
    | _ ↦ l
  ]

  -- The loop of `Run`
  unfoldable pub finish : List ℕ → DataLoader K V E W → DataLoader K V E W
  unfolding finish_task
  finish [] l = l
  finish (t ∷ tasks) l = finish tasks (finish_task t l)

  abbrev pub with_keys : List ℕ → DataLoader K V E W → List (ℕ × K)
  with_keys [] l = []
  with_keys (t ∷ tasks) l = (t, (l.task t).key) ∷ with_keys tasks l

  -- `Run` of a job
  unfoldable pub run_job : List ℕ → DataLoader K V E W → DataLoader K V E W
  unfolding act_all finish
  run_job tasks l = finish tasks (act_all (config.batch_load (with_keys tasks l)) l)

  unfoldable pub run_jobs : List (List ℕ) → DataLoader K V E W → DataLoader K V E W
  unfolding run_job
  run_jobs [] l = l
  run_jobs (tasks ∷ jobs) l = run_jobs jobs (run_job tasks l)

  -- `Dispatch` of the loader's queue
  unfoldable pub dispatch : DataLoader K V E W → DataLoader K V E W
  unfolding run_jobs batches
  dispatch l = elim l.queue [
    | [] ↦ l
    | t ∷ tasks ↦ run_jobs (batches config.max_batch_size (t ∷ tasks)) (record l { queue = [] })
  ]

  -- `Clear` and `ClearAll`
  unfoldable pub clear : K → DataLoader K V E W → DataLoader K V E W
  clear k l = elim l.cache [
    | none ↦ l
    | some entries ↦ record l { cache = some (delete_entry k entries) }
  ]

  unfoldable pub clear_all : DataLoader K V E W → DataLoader K V E W
  clear_all l = elim l.cache [ none ↦ l | some entries ↦ record l { cache = some [] } ]

  -- `Prime` and `PrimeError`, with the result that the new task is completed with
  unfoldable pub prime_with : K → TaskResult V E W → DataLoader K V E W → DataLoader K V E W
  unfolding complete
  prime_with k r l = elim l.cache [
    | none ↦ l
    | some entries ↦
        let x : DataLoader K V E W = (complete l.fresh r (new_task k (not_completed []) l)).0 in
        elim (cached k entries) [
          | some t ↦ x
          | none ↦ record x { cache = some (entries ++ ((k, l.fresh) ∷ [])) }
        ]
  ]

  unfoldable pub prime : K → V → DataLoader K V E W → DataLoader K V E W
  unfolding prime_with
  prime k v l = prime_with k (result_value v) l

  unfoldable pub prime_error : K → E → DataLoader K V E W → DataLoader K V E W
  unfolding prime_with
  prime_error k e l = prime_with k (result_err e) l
