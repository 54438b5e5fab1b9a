-- ===== src/WorkerPool/Moves.antt =====
-- Proofs that a step of one goroutine keeps the counted invariant. The counts before and behind a
-- step are those of the goroutine itself and of the others, `b`, `i`, `l` and `c`.
use artemis.Prelude.{
  ℕ, zero, suc, ◌+◌, ◌-◌, ◌≤◌, ◌<◌, ◌≡◌, ◌⊎◌, inl, inr, refl, Bool, List, [], arith,
}
use artemis.TaskQueue.Calls.{Fifo}
use artemis.WorkerPool.{Config, Pool}
use artemis.WorkerPool.Invariant.{pool_size, Covered, Holds}
use artemis.WorkerPool.Covered.{Covered-mono}

Zero-cases : (n : ℕ) → (n ≡ 0) ⊎ (0 < n)
Zero-cases zero = inl refl
Zero-cases (suc n) = inr (omega arith)

module _ (config : Config) (p : Pool) (b i l : ℕ) (c : ℕ → ℕ) (h : Holds config p b i l c) where
  -- A Submit gives its task up when a worker is awake, or when its task is not in the queue.
  pub uncover :
      (b' i' l' : ℕ) (c' : ℕ → ℕ)
      → b ≡ b'
      → i ≡ i'
      → l ≡ l'
      → Covered p.queue b' c'
      → Holds config p b' i' l' c'
  uncover b' i' l' c' d e f k = record {
    states = h.states;
    workers = let x = h.workers in omega arith;
    waits = let x = h.waits in omega arith;
    leaves = λ y. h.leaves (omega arith);
    size = h.size;
    ended = h.ended;
    signals = h.signals;
    channels = h.channels;
    covered = k;
  }

  -- Nothing changes but the counts of tasks that are covered.
  pub quiet :
      (b' i' l' : ℕ) (c' : ℕ → ℕ)
      → b ≡ b'
      → i ≡ i'
      → l ≡ l'
      → ((u : ℕ) → c u ≤ c' u)
      → Holds config p b' i' l' c'
  quiet b' i' l' c' d e f k =
      uncover b' i' l' c' d e f (Covered-mono p.queue b b' c c' h.covered (omega arith) k)

  -- A call of the queue: what changes of the counts is what it does to its goroutines.
  pub queue_call :
      (q : Fifo) (b' i' l' : ℕ) (c' : ℕ → ℕ)
      → b + i + l ≡ b' + i' + l'
      → i' + (p.queue.waiters + p.queue.woken) ≡ i + (q.waiters + q.woken)
      → l ≡ l'
      → Covered q b' c'
      → Holds config (record p { queue = q }) b' i' l' c'
  queue_call q b' i' l' c' d e f k = record {
    states = h.states;
    workers = let x = h.workers in omega arith;
    waits = let x = h.waits in omega arith;
    leaves = λ y. h.leaves (omega arith);
    size = h.size;
    ended = h.ended;
    signals = h.signals;
    channels = h.channels;
    covered = k;
  }

  -- Only the channels and the mutex change.
  pub channel_call :
      (t s : ℕ) (m : Bool) (b' i' l' : ℕ) (c' : ℕ → ℕ)
      → (2 ≤ p.run → t ≡ 0)
      → (0 < s → 2 ≤ p.run)
      → b ≡ b'
      → i ≡ i'
      → l ≡ l'
      → ((u : ℕ) → c u ≤ c' u)
      → Holds config (record p { terminations = t; signalled = s; locked = m }) b' i' l' c'
  channel_call t s m b' i' l' c' x y d e f k =
      let q = quiet b' i' l' c' d e f k in
      record {
        states = q.states;
        workers = q.workers;
        waits = q.waits;
        leaves = q.leaves;
        size = q.size;
        ended = q.ended;
        signals = y;
        channels = x;
        covered = q.covered;
      }

  -- The run state goes forward; the count is 0 where it becomes TERMINATED.
  pub state_call :
      (r t s : ℕ) (b' i' l' : ℕ) (c' : ℕ → ℕ)
      → p.run ≤ r
      → r ≤ 2
      → (2 ≤ r → (p.count ≡ 0) × (t ≡ 0))
      → (0 < s → 2 ≤ r)
      → b ≡ b'
      → i ≡ i'
      → l ≡ l'
      → ((u : ℕ) → c u ≤ c' u)
      → Holds config (record p { run = r; terminations = t; signalled = s }) b' i' l' c'
  state_call r t s b' i' l' c' w v x y d e f k =
      let q = quiet b' i' l' c' d e f k in
      record {
        states = v;
        workers = q.workers;
        waits = q.waits;
        leaves = λ z. let a = q.leaves z in omega arith;
        size = q.size;
        ended = λ z. (x z).0;
        signals = y;
        channels = λ z. (x z).1;
        covered = q.covered;
      }

  pub runs_task :
      (ts : List ℕ) (b' i' l' : ℕ) (c' : ℕ → ℕ)
      → b ≡ b'
      → i ≡ i'
      → l ≡ l'
      → ((u : ℕ) → c u ≤ c' u)
      → Holds config (record p { ran = ts }) b' i' l' c'
  runs_task ts b' i' l' c' d e f k =
      let q = quiet b' i' l' c' d e f k in
      record {
        states = q.states;
        workers = q.workers;
        waits = q.waits;
        leaves = q.leaves;
        size = q.size;
        ended = q.ended;
        signals = q.signals;
        channels = q.channels;
        covered = q.covered;
      }

  pub starts_worker :
      (b' i' l' : ℕ) (c' : ℕ → ℕ)
      → p.run ≡ 0
      → suc p.count ≤ pool_size config
      → suc b ≡ b'
      → i ≡ i'
      → l ≡ l'
      → Holds config (record p { count = suc p.count }) b' i' l' c'
  starts_worker b' i' l' c' x y d e f = record {
    states = h.states;
    workers = let w = h.workers in omega arith;
    waits = let w = h.waits in omega arith;
    leaves = λ z. h.leaves (omega arith);
    size = y;
    ended = λ z. absurd (omega arith);
    signals = h.signals;
    channels = h.channels;
    covered = inr (inl (omega arith));
  }

  pub leaves_pool :
      (b' i' l' : ℕ) (c' : ℕ → ℕ)
      → b ≡ b'
      → i ≡ i'
      → l ≡ suc l'
      → ((u : ℕ) → c u ≤ c' u)
      → Holds config (record p { count = p.count - 1 }) b' i' l' c'
  leaves_pool b' i' l' c' d e f k = record {
    states = h.states;
    workers = let w = h.workers in omega arith;
    waits = let w = h.waits in omega arith;
    leaves = λ z. h.leaves (omega arith);
    size = let w = h.size in omega arith;
    ended = λ z. let w = h.ended z in omega arith;
    signals = h.signals;
    channels = h.channels;
    covered = Covered-mono p.queue b b' c c' h.covered (omega arith) k;
  }

  pub quits :
      (b' i' l' : ℕ) (c' : ℕ → ℕ)
      → 1 ≤ p.run
      → p.queue.tasks ≡ []
      → b ≡ suc b'
      → i ≡ i'
      → suc l ≡ l'
      → Holds config p b' i' l' c'
  quits b' i' l' c' x y d e f = record {
    states = h.states;
    workers = let w = h.workers in omega arith;
    waits = let w = h.waits in omega arith;
    leaves = λ z. x;
    size = h.size;
    ended = h.ended;
    signals = h.signals;
    channels = h.channels;
    covered = inl y;
  }

  nobody_leaves : p.run ≡ 0 → l ≡ 0
  nobody_leaves x = elim (Zero-cases l) [
    | inl e ↦ e
    | inr e ↦ let y = h.leaves e in absurd (omega arith)
  ]

  -- A running executor with a worker has one that is awake, when none sleeps in vain.
  pub settled : (b' : ℕ) (c' : ℕ → ℕ) → p.run ≡ 0 → 0 < p.count → b ≡ b' → Covered p.queue b' c'
  settled b' c' x y d = elim (h.covered) [
    | inl e ↦ inl e
    | inr o ↦ elim o [
      | inl a ↦ inr (inl (omega arith))
      | inr k ↦
          let w = k.0 in
          let v = h.waits in
          let u = h.workers in let no_leaver : l ≡ 0 = nobody_leaves x in inr (inl (omega arith))
    ]
  ]
