-- ===== src/TaskQueue/Calls/Refines.antt =====
-- The linked queue against the list, over calls in any order.
use artemis.Prelude.{
  ℕ, suc, ◌+◌, ◌<◌, ◌≤◌, refl, Bool, true, false, Option, none, List, [], ◌∷◌, length,
  length-append, arith,
}
use artemis.TaskQueue.{new_task_queue}
use artemis.TaskQueue.Members.{erase}
use artemis.TaskQueue.Calls.{
  Call, pushes, polls, resumes, removes, closes, call, run_calls, Fifo, new_fifo, fifo_call,
  fifo_calls, fifo_push, fifo_poll, fifo_resume, fifo_remove, fifo_close, Fresh, EntersOnce,
  queue_at, Linked, Agrees,
}
use artemis.TaskQueue.Calls.Polls.{push-Agrees, poll-Agrees, resume-Agrees, close-Agrees}
use artemis.TaskQueue.Calls.Removes.{remove-Agrees}

call-Agrees :
    (fuel : ℕ) (c : Call) (next : ℕ → Option ℕ) (s : Fifo)
    → Linked next s.tasks
    → EntersOnce c s
    → length s.tasks < suc fuel
    → Agrees (call fuel c (queue_at next s)) (fifo_call c s)
call-Agrees fuel (pushes t) next s l m n = push-Agrees fuel next t s.tasks s.closed s.waiters s l m
call-Agrees fuel polls next s l m n = poll-Agrees fuel next s.tasks s.closed s l
call-Agrees fuel resumes next s l m n = resume-Agrees fuel next s.tasks s l
call-Agrees fuel (removes t) next s l m n = remove-Agrees fuel next t s.tasks s l n
call-Agrees fuel closes next s l m n = close-Agrees fuel next s.closed s l

length-erase : (t : ℕ) (xs : List ℕ) → length (erase t xs) ≤ length xs
unfolding erase
length-erase t [] = omega arith
length-erase t (x ∷ xs) = let ih = length-erase t xs in ground arith

-- A call adds one task at most.
length-push :
    (t : ℕ) (c : Bool) (s : Fifo)
    → let s₀ = record s { closed = c } in length (fifo_push t s₀).1.tasks ≤ suc (length s.tasks)
length-push t true s = omega arith
length-push t false s = omega (arith, length-append s.tasks (t ∷ []))

length-poll :
    (xs : List ℕ) (c : Bool) (s : Fifo)
    → let s₀ = record s { tasks = xs; closed = c } in length (fifo_poll s₀).1.tasks ≤ length xs
length-poll [] true s = omega arith
length-poll [] false s = omega arith
length-poll (h ∷ ts) c s = omega arith

length-resume :
    (xs : List ℕ) (s : Fifo) → length (fifo_resume (record s { tasks = xs })).1.tasks ≤ length xs
length-resume [] s = omega arith
length-resume (h ∷ ts) s = omega arith

length-remove : (t : ℕ) (s : Fifo) → length (fifo_remove t s).1.tasks ≤ length s.tasks
length-remove t s = let k = length-erase t s.tasks in ground arith

length-close :
    (c : Bool) (s : Fifo) → length (fifo_close (record s { closed = c })).1.tasks ≤ length s.tasks
length-close true s = omega arith
length-close false s = omega arith

length-call : (c : Call) (s : Fifo) → length (fifo_call c s).1.tasks ≤ suc (length s.tasks)
length-call (pushes t) s = length-push t s.closed s
length-call polls s = omega (arith, length-poll s.tasks s.closed s)
length-call resumes s = omega (arith, length-resume s.tasks s)
length-call (removes t) s = omega (arith, length-remove t s)
length-call closes s = omega (arith, length-close s.closed s)

calls-Agrees :
    (fuel : ℕ) (cs : List Call) (next : ℕ → Option ℕ) (s : Fifo)
    → Linked next s.tasks
    → Fresh cs s
    → length s.tasks + length cs < suc fuel
    → Agrees (run_calls fuel cs (queue_at next s)) (fifo_calls cs s)
unfolding run_calls
calls-Agrees fuel [] next s l f n = record { next = next; ends = refl; links = l }
calls-Agrees fuel (c ∷ cs) next s l (e, f) n =
    let one : Agrees (call fuel c (queue_at next s)) (fifo_call c s) =
      call-Agrees fuel c next s l e (omega arith) in
    let more : length (fifo_call c s).1.tasks + length cs < suc fuel =
      omega (arith, length-call c s) in
    let rest = calls-Agrees fuel cs one.next (fifo_call c s).1 one.links f more in
    record { next = rest.next; ends = rw (one.ends, rest.ends) refl; links = rest.links }

-- From a new queue, any sequence of Push, Poll, Remove and Close, and of goroutines that go on
-- behind `Wait`, in which a task is pushed only while it is not in the queue, returns without a
-- panic (the search of Remove ends within as many rounds as there are calls); its answers and the
-- goroutines woken are those of a list with a flag, where Push appends, Poll takes the head or waits
-- while the queue is open and empty, and Remove takes out the task wherever it stands; in the end
-- the circular links hold that list.
pub run_calls-Agrees :
    (fuel : ℕ) (cs : List Call)
    → Fresh cs new_fifo
    → length cs < suc fuel
    → Agrees (run_calls fuel cs new_task_queue) (fifo_calls cs new_fifo)
unfolding new_task_queue
run_calls-Agrees fuel cs f n = calls-Agrees fuel cs (λ _. none) new_fifo tt f (omega arith)
