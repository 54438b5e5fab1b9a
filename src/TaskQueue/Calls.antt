-- ===== src/TaskQueue/Calls.antt =====
-- The calls of a task queue one behind the other, and the queue they amount to: a list that is
-- closed or not.
pub mod Polls
pub mod Removes
pub mod Refines
use artemis.Prelude.{
  ℕ, zero, suc, ◌+◌, ◌-◌, ◌≡◌, Bool, true, false, if◌then◌else◌, Option, some, none, List, [], ◌∷◌,
  ◌++◌, among,
}
use artemis.TaskQueue.{
  Run, returns, panics, out_of_fuel, QueueError, queue_closed, element_not_found, Polled, polled,
  blocked, TaskQueue, push, poll, poll_woken, remove, close,
}
use artemis.TaskQueue.Ring.{Way, last, Apart}
use artemis.TaskQueue.Members.{erase}

pub data Call : Type 0 where
  pushes : ℕ → Call
  polls : Call
  resumes : Call  -- a goroutine behind `Wait`
  removes : ℕ → Call
  closes : Call

pub data Reply : Type 0 where
  result : Option QueueError → Reply
  got : Option ℕ → Reply
  waits : Reply
  done : Reply

abbrev polled_reply : Polled → Reply
polled_reply (polled t) = got t
polled_reply blocked = waits

infixl 5 ◌>>=◌
abbrev pub ◌>>=◌ : {A B : Type 0} → Run A → (A → Run B) → Run B
returns a >>= f = f a
panics >>= f = panics
out_of_fuel >>= f = out_of_fuel

abbrev pub call : ℕ → Call → TaskQueue → Run (Reply × TaskQueue)
call fuel (pushes t) q = let r = push t q in returns (result r.0, r.1)
call fuel polls q = poll q >>= λ r. returns (polled_reply r.0, r.1)
call fuel resumes q = poll_woken q >>= λ r. returns (got r.0, r.1)
call fuel (removes t) q = remove fuel t q >>= λ r. returns (result r.0, r.1)
call fuel closes q = returns (done, close q)

unfoldable pub run_calls : ℕ → List Call → TaskQueue → Run (List Reply × TaskQueue)
unfolding push poll poll_woken remove close
run_calls fuel [] q = returns ([], q)
run_calls fuel (c ∷ cs) q =
    call fuel c q >>= λ r. run_calls fuel cs r.1 >>= λ s. returns (r.0 ∷ s.0, s.1)

-- The queue as a list; the goroutines are counted as in TaskQueue.
pub record Fifo : Type 0 where
  pub tasks : List ℕ
  pub closed : Bool
  pub waiters : ℕ
  pub woken : ℕ

abbrev pub new_fifo : Fifo
new_fifo = record { tasks = []; closed = false; waiters = 0; woken = 0 }

-- A push to an empty queue wakes one goroutine, one to a queue with tasks none.
abbrev pub fifo_signal : Fifo → Fifo
fifo_signal s = elim s.tasks [
  | [] ↦ elim s.waiters [ zero ↦ s | suc w ↦ record s { waiters = w; woken = suc s.woken } ]
  | h ∷ ts ↦ s
]

abbrev pub fifo_push : ℕ → Fifo → Reply × Fifo
fifo_push t s =
    if s.closed
    then (result (some queue_closed), s)
    else (result none, record (fifo_signal s) { tasks = s.tasks ++ (t ∷ []) })

abbrev pub fifo_poll : Fifo → Reply × Fifo
fifo_poll s = elim s.tasks [
  | [] ↦ if s.closed then (got none, s) else (waits, record s { waiters = suc s.waiters })
  | h ∷ ts ↦ (got (some h), record s { tasks = ts })
]

abbrev pub fifo_resume : Fifo → Reply × Fifo
fifo_resume s = elim s.tasks [
  | [] ↦ (got none, record s { woken = s.woken - 1 })
  | h ∷ ts ↦ (got (some h), record s { tasks = ts; woken = s.woken - 1 })
]

abbrev pub fifo_remove : ℕ → Fifo → Reply × Fifo
fifo_remove t s =
    if among t s.tasks
    then (result none, record s { tasks = erase t s.tasks })
    else (result (some element_not_found), s)

abbrev pub fifo_close : Fifo → Reply × Fifo
fifo_close s =
    if s.closed
    then (done, s)
    else (done, record s { closed = true; waiters = 0; woken = s.woken + s.waiters })

abbrev pub fifo_call : Call → Fifo → Reply × Fifo
fifo_call (pushes t) s = fifo_push t s
fifo_call polls s = fifo_poll s
fifo_call resumes s = fifo_resume s
fifo_call (removes t) s = fifo_remove t s
fifo_call closes s = fifo_close s

abbrev pub fifo_calls : List Call → Fifo → List Reply × Fifo
fifo_calls [] s = ([], s)
fifo_calls (c ∷ cs) s =
    let r = fifo_call c s in let rest = fifo_calls cs r.1 in (r.0 ∷ rest.0, rest.1)

-- A task is pushed at most once at a time: Submit makes a new one for each push.
abbrev EntersOnce : Call → Fifo → Type 0
EntersOnce (pushes t) s = among t s.tasks ≡ false
EntersOnce _ s = Unit

abbrev pub Fresh : List Call → Fifo → Type 0
Fresh [] s = Unit
Fresh (c ∷ cs) s = EntersOnce c s × Fresh cs (fifo_call c s).1

-- The links hold the list: the way around from its head leads through all tasks.
abbrev pub Linked : (ℕ → Option ℕ) → List ℕ → Type 0
Linked next [] = Unit
Linked next (h ∷ ts) = Way next h ts h × Apart (h ∷ ts)

abbrev pub tail_of : List ℕ → Option ℕ
tail_of [] = none
tail_of (h ∷ ts) = some (last h ts)

-- The linked queue with the last task of the list for its tail.
abbrev pub queue_at : (ℕ → Option ℕ) → Fifo → TaskQueue
queue_at next s = record {
  next = next;
  tail = tail_of s.tasks;
  closed = s.closed;
  waiters = s.waiters;
  woken = s.woken;
}

-- A run of the linked queue ends as the one of the list: with the same answers, and its links hold
-- the list.
pub record Agrees {R : Type 0} (r : Run (R × TaskQueue)) (s : R × Fifo) : Type 0 where
  pub next : ℕ → Option ℕ
  pub ends : r ≡ returns (s.0, queue_at next s.1)
  pub links : Linked next s.1.tasks
