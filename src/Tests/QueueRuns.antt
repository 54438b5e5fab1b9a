-- ===== src/Tests/QueueRuns.antt =====
-- Tests of the task queue and the worker pool on concrete runs.
use artemis.Prelude.{
  ℕ, zero, suc, ◌<◌, ◌≤◌, ◌+◌, ◌≡◌, ◌⊎◌, refl, true, false, none, List, [], ◌∷◌, arith,
}
use artemis.TaskQueue.{TaskQueue, new_task_queue, is_empty}
use artemis.TaskQueue.Calls.{
  Call, pushes, polls, resumes, removes, closes, run_calls, fifo_calls, new_fifo, Agrees,
}
use artemis.TaskQueue.Members.{erase}
use artemis.TaskQueue.Calls.Refines.{run_calls-Agrees}
use artemis.TaskQueue.Wakes.{push_all, push_all-waiters}
use artemis.StateWord.{
  run_state, worker_count, is_running, is_shutdown, is_terminated, inc_worker_count,
  dec_worker_count, set_run_state,
}
use artemis.StateWord.Parts.{word, word_lem, set_run_state-word}
use artemis.WorkerPool.{
  Config, Pool, Reached, created, called, moved, submits, shuts_down, new_worker_pool_executor,
  submit_queued, push_done, shut_locks, shut_running, shut_closes, shut_unlocks, try_shut, try_none,
  try_locks, terminate, terminated, pushed, unlock,
}
use artemis.WorkerPool.Effects.{copies}
use artemis.WorkerPool.Invariant.{busy, total, in_submit, pool_size}
use artemis.WorkerPool.Runs.{Reached-covered, Reached-sized, Reached-terminated, workers}

-- Three pushes, a poll, two removes (one of the last task, one of a task that is gone), and a close.
abbrev some_calls : List Call
some_calls =
    polls
    ∷ pushes 1
    ∷ pushes 2
    ∷ pushes 3
    ∷ resumes
    ∷ removes 3
    ∷ removes 1
    ∷ closes
    ∷ pushes 4
    ∷ polls
    ∷ polls
    ∷ []

abbrev twenty : ℕ
twenty = 20

run_calls-Agrees_example :
    Agrees (run_calls twenty some_calls new_task_queue) (fifo_calls some_calls new_fifo)
unfolding erase
run_calls-Agrees_example =
    run_calls-Agrees twenty some_calls
      (tt, (refl, (refl, (refl, (tt, (tt, (tt, (tt, (refl, (tt, (tt, tt))))))))))) (omega arith)

abbrev three_waiters : TaskQueue
three_waiters = record { next = λ _. none; tail = none; closed = false; waiters = 3; woken = 0 }

abbrev two : ℕ
two = 2

abbrev five : ℕ
five = 5

push_all-waiters_example :
    ((push_all (7 ∷ 8 ∷ []) three_waiters).waiters ≡ two)
    × ((push_all (7 ∷ 8 ∷ []) three_waiters).woken ≡ suc zero)
    × (is_empty (push_all (7 ∷ 8 ∷ []) three_waiters) ≡ false)
push_all-waiters_example = push_all-waiters 7 (8 ∷ []) 2 three_waiters

abbrev no_minimum : Config
no_minimum = record { max_pool_size = 4; min_pool_size = 0 }

abbrev empty_pool : Pool
empty_pool = record {
  run = 0;
  count = 0;
  queue = new_fifo;
  locked = false;
  terminations = 0;
  signalled = 0;
  ran = [];
}

-- A Submit that has pushed its task.
abbrev pool_pushed : Pool
pool_pushed = record empty_pool { queue = record new_fifo { tasks = 7 ∷ [] } }

pushed-Reached : Reached no_minimum pool_pushed (pushed 7 ∷ [])
unfolding new_worker_pool_executor
pushed-Reached =
    moved [] [] (moved [] [] (called (submits 7) created) (submit_queued (omega arith) refl))
      (push_done refl)

Reached-covered_example :
    (0 < total busy (pushed 7 ∷ []) + pool_pushed.queue.woken)
    ⊎ (0 < total (in_submit 7) (pushed 7 ∷ []))
Reached-covered_example = Reached-covered 7 (omega arith) pushed-Reached (omega arith)

Reached-sized_example :
    (pool_pushed.count ≡ workers (pushed 7 ∷ [])) × (workers (pushed 7 ∷ []) ≤ pool_size no_minimum)
Reached-sized_example = Reached-sized (omega arith) pushed-Reached

-- A Shutdown of an executor that has done nothing.
abbrev pool_terminated : Pool
pool_terminated = record empty_pool {
  run = 2;
  queue = record new_fifo { closed = true };
  locked = true;
  signalled = 1;
}

terminated-Reached : Reached no_minimum pool_terminated (unlock ∷ [])
unfolding new_worker_pool_executor
terminated-Reached =
    moved [] []
      (moved [] []
        (moved [] []
          (moved [] []
            (moved [] []
              (moved [] []
                (moved [] [] (moved [] [] (called shuts_down created) (shut_locks refl))
                  (shut_running refl))
                shut_closes)
              shut_unlocks)
            (try_shut refl))
          (try_none refl refl))
        (try_locks refl))
      terminate

Reached-terminated_example :
    (pool_terminated.run ≡ terminated)
    × (workers (unlock ∷ []) ≡ 0)
    × (pool_terminated.terminations ≡ 0)
    × (copies 7 pool_terminated.queue.tasks ≤ total (in_submit 7) (unlock ∷ []))
Reached-terminated_example = Reached-terminated 7 (omega arith) terminated-Reached (omega arith)

-- SHUTDOWN of a running executor with five workers.
set_run_state-word_example : set_run_state (word 1 0) (word 0 5) ≡ word 1 5
set_run_state-word_example = set_run_state-word 1 0 5 (omega arith) (omega arith) (omega arith)

word_lem_example :
    (run_state (word 0 5) ≡ word 0 0)
    × (worker_count (word 0 5) ≡ five)
    × (is_running (word 0 5) ≡ true)
    × (is_shutdown (word 0 5) ≡ false)
    × (is_terminated (word 0 5) ≡ false)
    × (inc_worker_count (word 0 5) ≡ word 0 6)
    × (dec_worker_count (word 0 6) ≡ word 0 5)
word_lem_example = word_lem 0 5 (omega arith) (omega arith)
