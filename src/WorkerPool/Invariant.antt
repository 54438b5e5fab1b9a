-- ===== src/WorkerPool/Invariant.antt =====
-- The invariant of the executor: what holds of the shared state with the goroutines' places counted,
-- and what each goroutine's place says of the shared state.
use artemis.Prelude.{
  ℕ, suc, ◌+◌, ◌≤◌, ◌<◌, ◌≡◌, ◌⊎◌, ◌==◌, if◌then◌else◌, List, [], ◌∷◌, ◌++◌, arith,
}
use artemis.TaskQueue.Calls.{Fifo}
use artemis.WorkerPool.{
  Config, Pool, Caller, last, helper, Pc, pushed, removing, add, add_cas, runs, poll_top, polling,
  in_wait, leaving, term_load, poll_empty, term_queue, try_empty, try_lock, try_set, limit,
}
use artemis.WorkerPool.Effects.{one_if, copies}

-- A worker that will look at the queue again by itself.
abbrev pub busy : Pc → ℕ
busy (runs t) = 1
busy poll_top = 1
busy (poll_empty r n) = 1
busy polling = 1
busy _ = 0

-- A worker behind `Wait`.
abbrev pub asleep : Pc → ℕ
asleep in_wait = 1
asleep _ = 0

-- A worker that has found the queue empty after Shutdown, and is still counted.
abbrev pub quitting : Pc → ℕ
quitting leaving = 1
quitting _ = 0

-- A Submit that has pushed the task and not settled whether there is a worker for it.
abbrev pub in_submit : ℕ → Pc → ℕ
in_submit u (pushed t) = one_if (t == u)
in_submit u (removing t) = one_if (t == u)
in_submit u (add (helper t)) = one_if (t == u)
in_submit u (add_cas r n (helper t)) = one_if (t == u)
in_submit u _ = 0

abbrev pub total : (Pc → ℕ) → List Pc → ℕ
total f [] = 0
total f (pc ∷ pcs) = f pc + total f pcs

pub total-append : (f : Pc → ℕ) (xs ys : List Pc) → total f (xs ++ ys) ≡ total f xs + total f ys
total-append f [] ys = omega arith
total-append f (x ∷ xs) ys = omega (arith, total-append f xs ys)

-- The bound of addWorker that a running executor meets.
abbrev pub pool_size : Config → ℕ
pool_size config = if config.min_pool_size == 0 then 1 else config.min_pool_size

-- A task waits in vain for no one: the queue is empty, or a worker is awake, or no worker sleeps and
-- the Submit of each task is still at it.
abbrev pub Covered : Fifo → ℕ → (ℕ → ℕ) → Type 0
Covered q b c =
    (q.tasks ≡ []) ⊎ ((0 < b + q.woken) ⊎ ((q.waiters ≡ 0) × ((u : ℕ) → copies u q.tasks ≤ c u)))

-- `b`, `i` and `l` workers are busy, asleep and quitting; `c u` Submits are at `u`.
pub record Holds (config : Config) (p : Pool) (b i l : ℕ) (c : ℕ → ℕ) : Type 0 where
  pub states : p.run ≤ 2
  pub workers : p.count ≡ b + i + l
  pub waits : i ≡ p.queue.waiters + p.queue.woken
  pub leaves : 0 < l → 1 ≤ p.run
  pub size : p.count ≤ pool_size config
  pub ended : 2 ≤ p.run → p.count ≡ 0
  pub signals : 0 < p.signalled → 2 ≤ p.run
  pub channels : 2 ≤ p.run → p.terminations ≡ 0
  pub covered : Covered p.queue b c

-- A state that was loaded: the run state has not gone back since, nor has the count grown once it
-- was SHUTDOWN.
pub record Seen (r n : ℕ) (p : Pool) : Type 0 where
  pub run : r ≤ p.run
  pub count : 1 ≤ r → p.count ≤ n

abbrev pub Asks : Config → Pool → Caller → Type 0
Asks config p (last t) = 1 ≤ p.run
Asks config p c = limit config c ≤ pool_size config

-- What the place of a goroutine says of the shared state.
abbrev pub Fact : Config → Pool → Pc → Type 0
Fact config p (add c) = Asks config p c
Fact config p (add_cas r n c) = (r ≡ 0) × (suc n ≤ limit config c) × Asks config p c
Fact config p (poll_empty r n) = Seen r n p
Fact config p leaving = 1 ≤ p.run
Fact config p term_load = 1 ≤ p.run
Fact config p (term_queue r n) = ⊥
Fact config p (try_empty r n) = (1 ≤ r) × Seen r n p
Fact config p try_lock = (1 ≤ p.run) × (p.count ≡ 0)
Fact config p try_set = (1 ≤ p.run) × (p.count ≡ 0)
Fact config p _ = Unit

abbrev pub Facts : Config → Pool → List Pc → Type 0
Facts config p [] = Unit
Facts config p (pc ∷ pcs) = Fact config p pc × Facts config p pcs

-- What the other goroutines rely on.
pub record Later (p p' : Pool) : Type 0 where
  pub run : p.run ≤ p'.run
  pub count : 1 ≤ p.run → p'.count ≤ p.count
