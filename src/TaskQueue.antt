-- ===== src/TaskQueue.antt =====
-- concurrent/worker_pool_executor.go: workerPoolTaskQueue, a circular linked list of the tasks
-- themselves. A task is the number of its address, `next` holds the links of all tasks, and what the
-- calls to the condition variable do to its goroutines is counted: `waiters` block in `Wait`,
-- `woken` have been signalled and go on once they get the mutex. A call under the mutex is one step;
-- Poll that blocks is two, as `Wait` gives the mutex up.
pub mod Ring
pub mod Members
pub mod Calls
pub mod Wakes
use artemis.Prelude.{
  ℕ, zero, suc, ◌+◌, ◌-◌, Bool, true, false, ◌==◌, if◌then◌else◌, Option, some, none,
}

-- Go panics at a nil pointer.
pub data Run (A : Type 0) : Type 0 where
  returns : A → Run A
  panics out_of_fuel : Run A

pub data QueueError : Type 0 where
  queue_closed element_not_found : QueueError

-- How the first part of Poll ends: with a task or nil, or blocked in `Wait`.
pub data Polled : Type 0 where
  polled : Option ℕ → Polled
  blocked : Polled

pub record TaskQueue : Type 0 where
  pub next : ℕ → Option ℕ
  pub tail : Option ℕ
  pub closed : Bool  -- `pollCond` is nil
  pub waiters : ℕ
  pub woken : ℕ

unfoldable pub new_task_queue : TaskQueue
new_task_queue = record { next = λ _. none; tail = none; closed = false; waiters = 0; woken = 0 }

-- `task.next = n`
abbrev pub link : (ℕ → Option ℕ) → ℕ → Option ℕ → ℕ → Option ℕ
link next task n q = if task == q then n else next q

-- `cond.Signal()`
abbrev pub signal : TaskQueue → TaskQueue
signal q = elim q.waiters [ zero ↦ q | suc w ↦ record q { waiters = w; woken = suc q.woken } ]

-- `Empty`
unfoldable pub is_empty : TaskQueue → Bool
is_empty q = elim q.tail [ none ↦ true | some t ↦ false ]

unfoldable pub push : ℕ → TaskQueue → Option QueueError × TaskQueue
push task q = if q.closed then (some queue_closed, q) else elim q.tail [
  | none ↦ (none, signal (record q { next = link q.next task (some task); tail = some task }))
  | some tail ↦ (
    none,
    record q { next = link (link q.next task (q.next tail)) tail (some task); tail = some task },
  )
]

-- Poll from the load of the tail on.
unfoldable pub take_head : TaskQueue → Run (Option ℕ × TaskQueue)
take_head q = elim q.tail [
  | none ↦ returns (none, q)
  | some tail ↦ elim (q.next tail) [
    | none ↦ panics
    | some head ↦ returns (
      some head,
      if tail == head
          then record q { tail = none }
          else record q { next = link q.next tail (q.next head) },
    )
  ]
]

-- Poll up to its return or `Wait`.
unfoldable pub poll : TaskQueue → Run (Polled × TaskQueue)
unfolding take_head
poll q = elim q.tail [
  | none ↦
      returns
        (if q.closed then (polled none, q) else (blocked, record q { waiters = suc q.waiters }))
  | some tail ↦ elim (take_head q) [
    | returns (t, q') ↦ returns (polled t, q')
    | panics ↦ panics
    | out_of_fuel ↦ out_of_fuel
  ]
]

-- Poll of a goroutine that has been signalled, behind `Wait`.
unfoldable pub poll_woken : TaskQueue → Run (Option ℕ × TaskQueue)
unfolding take_head
poll_woken q = take_head (record q { woken = q.woken - 1 })

-- The task in front of `task`, searched from `prev_task` on up to the head.
unfoldable pub find_prev : ℕ → (ℕ → Option ℕ) → ℕ → ℕ → ℕ → Run (Option ℕ)
find_prev zero next task head prev_task = out_of_fuel
find_prev (suc fuel) next task head prev_task = elim (next prev_task) [
  | none ↦ panics
  | some next_task ↦
      let rest = find_prev fuel next task head next_task in
      if next_task == task
      then returns (some prev_task)
      else if next_task == head
      then returns none
      else rest
]

-- The tail after `task` has been taken out behind `prev_task`.
abbrev pub tail_without : ℕ → ℕ → ℕ → ℕ → Option ℕ
tail_without task prev_task tail head =
    if task == tail then (if tail == head then none else some prev_task) else some tail

unfoldable pub remove : ℕ → ℕ → TaskQueue → Run (Option QueueError × TaskQueue)
unfolding find_prev
remove fuel task q = elim q.tail [
  | none ↦ returns (some element_not_found, q)
  | some tail ↦ elim (q.next tail) [
    | none ↦ panics
    | some head ↦ elim (find_prev fuel q.next task head head) [
      | returns none ↦ returns (some element_not_found, q)
      | returns (some prev_task) ↦ returns (
        none,
        record q {
          next = link (link q.next prev_task (q.next task)) task none;
          tail = tail_without task prev_task tail head;
        },
      )
      | panics ↦ panics
      | out_of_fuel ↦ out_of_fuel
    ]
  ]
]

unfoldable pub close : TaskQueue → TaskQueue
close q =
    if q.closed then q else record q { closed = true; waiters = 0; woken = q.woken + q.waiters }
