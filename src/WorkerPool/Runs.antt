-- ===== src/WorkerPool/Runs.antt =====
-- What holds whenever the goroutines of an executor have got somewhere.
use artemis.Prelude.{
  ℕ, suc, ◌+◌, ◌≤◌, ◌<◌, ◌≡◌, ◌⊎◌, inl, inr, refl, sym, ap, List, [], ◌∷◌, ◌++◌, arith,
}
use artemis.TaskQueue.Calls.{Fifo}
use artemis.WorkerPool.{
  Config, Pool, Pc, Move, Starts, submits, shuts_down, cancels, Reached, created, called, moved,
  new_worker_pool_executor, terminated,
}
use artemis.WorkerPool.Effects.{copies}
use artemis.WorkerPool.Invariant.{
  busy, asleep, quitting, in_submit, total, total-append, pool_size, Covered, Holds, Facts, Later,
}
use artemis.WorkerPool.Moves.{quiet}
use artemis.WorkerPool.Kept.{HoldsBehind, Move-Holds}
use artemis.WorkerPool.Stable.{Facts-Later, Facts-append, Facts-split, Move-Later, Move-Facts}

record Good (config : Config) (p : Pool) (pcs : List Pc) : Type 0 where
  facts : Facts config p pcs
  holds :
      Holds config p
        (total busy pcs)
        (total asleep pcs)
        (total quitting pcs)
        (λ u. total (in_submit u) pcs)

created-Good : (config : Config) → Good config new_worker_pool_executor []
unfolding new_worker_pool_executor
created-Good config = record {
  facts = tt;
  holds = record {
    states = omega arith;
    workers = omega arith;
    waits = omega arith;
    leaves = λ z. absurd (omega arith);
    size = omega arith;
    ended = λ z. refl;
    signals = λ z. absurd (omega arith);
    channels = λ z. refl;
    covered = inl refl;
  };
}

called-Good :
    (config : Config) (p : Pool) (pcs : List Pc) (pc : Pc)
    → Starts config pc
    → Good config p pcs
    → Good config p (pc ∷ pcs)
called-Good config p pcs pc (submits t) g = record {
  facts = (tt, g.facts);
  holds =
      quiet config p _ _ _ _ g.holds _ _ _ _ (omega arith) (omega arith) (omega arith)
        (λ u. omega arith);
}
called-Good config p pcs pc shuts_down g = record {
  facts = (tt, g.facts);
  holds =
      quiet config p _ _ _ _ g.holds _ _ _ _ (omega arith) (omega arith) (omega arith)
        (λ u. omega arith);
}
called-Good config p pcs pc (cancels t) g = record {
  facts = (tt, g.facts);
  holds =
      quiet config p _ _ _ _ g.holds _ _ _ _ (omega arith) (omega arith) (omega arith)
        (λ u. omega arith);
}

total-around :
    (f : Pc → ℕ) (xs ys zs : List Pc)
    → total f (xs ++ (ys ++ zs)) ≡ total f ys + (total f xs + total f zs)
total-around f xs ys zs = omega (arith, total-append f xs (ys ++ zs), total-append f ys zs)

moved-Good :
    (config : Config) (p p' : Pool) (pc pc' : Pc) (new xs ys : List Pc)
    → suc (pool_size config) < 0x100000000
    → Move config p pc p' pc' new
    → Good config p (xs ++ (pc ∷ ys))
    → Good config p' (xs ++ (pc' ∷ (new ++ ys)))
moved-Good config p p' pc pc' new xs ys n m g =
    let b = total busy xs + total busy ys in
    let i = total asleep xs + total asleep ys in
    let l = total quitting xs + total quitting ys in
    let c : ℕ → ℕ = λ u. total (in_submit u) xs + total (in_submit u) ys in
    let parts = Facts-split config p xs (pc ∷ ys) g.facts in
    let h : Holds config p (busy pc + b) (asleep pc + i) (quitting pc + l)
        (λ u. in_submit u pc + c u) =
      quiet config p _ _ _ _ g.holds _ _ _ _ (omega (arith, total-append busy xs (pc ∷ ys)))
        (omega (arith, total-append asleep xs (pc ∷ ys)))
        (omega (arith, total-append quitting xs (pc ∷ ys)))
        (λ u. omega (arith, total-append (in_submit u) xs (pc ∷ ys))) in
    let size = h.size in
    let later : Later p p' = Move-Later m parts.1.0 h.states in
    let k : HoldsBehind config p' (pc' ∷ new) b i l c = Move-Holds b i l c m parts.1.0 h in
    record {
      facts =
          Facts-append config p' xs (pc' ∷ (new ++ ys)) (Facts-Later config p p' xs later parts.0) (
            Facts-append config p' (pc' ∷ new) ys (Move-Facts m parts.1.0 (omega arith))
              (Facts-Later config p p' ys later parts.1.1));
      holds =
          quiet config p' _ _ _ _ k _ _ _ _ (sym (total-around busy xs (pc' ∷ new) ys))
            (sym (total-around asleep xs (pc' ∷ new) ys))
            (sym (total-around quitting xs (pc' ∷ new) ys))
            (λ u. omega (arith, total-around (in_submit u) xs (pc' ∷ new) ys));
    }

Reached-Good :
    {config : Config} {p : Pool} {pcs : List Pc}
    → suc (pool_size config) < 0x100000000
    → Reached config p pcs
    → Good config p pcs
Reached-Good {config = config} n created = created-Good config
Reached-Good {config = config} n (called {p = p} {pcs = pcs} {pc = pc} s r) =
    called-Good config p pcs pc s (Reached-Good n r)
Reached-Good {config = config} n
      (moved {p = p} {p' = p'} {pc = pc} {pc' = pc'} {new = new} xs ys r m) =
    moved-Good config p p' pc pc' new xs ys n m (Reached-Good n r)

Covered-by :
    (q : Fifo) (b : ℕ) (c : ℕ → ℕ) (t : ℕ)
    → Covered q b c
    → 0 < copies t q.tasks
    → (0 < b + q.woken) ⊎ (0 < c t)
Covered-by q b c t (inl e) k =
    let z : copies t q.tasks ≡ 0 = ap (copies t) e in absurd (omega arith)
Covered-by q b c t (inr (inl a)) k = inl a
Covered-by q b c t (inr (inr (w, f))) k = inr (omega (arith, f t))

-- In an executor whose MinPoolSize is below 2³² - 1, however its goroutines have taken turns:
-- while a task is in the queue, there is a worker that runs a task or looks at the queue, or has
-- been woken to do so, or else the Submit of that task has not returned.
pub Reached-covered :
    {config : Config} {p : Pool} {pcs : List Pc} (t : ℕ)
    → suc (pool_size config) < 0x100000000
    → Reached config p pcs
    → 0 < copies t p.queue.tasks
    → (0 < total busy pcs + p.queue.woken) ⊎ (0 < total (in_submit t) pcs)
Reached-covered {p = p} {pcs = pcs} t n r k =
    let g = Reached-Good n r in
    Covered-by p.queue (total busy pcs) (λ u. total (in_submit u) pcs) t g.holds.covered k

-- The number of goroutines that are workers.
abbrev pub workers : List Pc → ℕ
workers pcs = total busy pcs + total asleep pcs + total quitting pcs

-- In an executor whose MinPoolSize is below 2³² - 1, however its goroutines have taken turns, the
-- count in the state word is the number of workers, from the compare-and-swap of addWorker up to
-- the decrement of pollTask, and it is never above MinPoolSize, or 1 where that is 0.
pub Reached-sized :
    {config : Config} {p : Pool} {pcs : List Pc}
    → suc (pool_size config) < 0x100000000
    → Reached config p pcs
    → (p.count ≡ workers pcs) × (workers pcs ≤ pool_size config)
Reached-sized n r =
    let g = Reached-Good n r in
    let w = g.holds.workers in let s = g.holds.size in (omega arith, omega arith)

uncovered :
    (q : Fifo) (b : ℕ) (c : ℕ → ℕ) (t : ℕ)
    → Covered q b c
    → b ≡ 0
    → q.woken ≡ 0
    → copies t q.tasks ≤ c t
uncovered q b c t (inl e) h k = let z : copies t q.tasks ≡ 0 = ap (copies t) e in omega arith
uncovered q b c t (inr (inl a)) h k = absurd (omega arith)
uncovered q b c t (inr (inr (w, f))) h k = f t

-- In an executor whose MinPoolSize is below 2³² - 1, however its goroutines have taken turns, once
-- a channel that Shutdown returned has got its signal, the run state is TERMINATED, no worker is
-- left, no channel waits for its signal, and a task that is still in the queue is of a Submit that
-- has not returned.
pub Reached-terminated :
    {config : Config} {p : Pool} {pcs : List Pc} (t : ℕ)
    → suc (pool_size config) < 0x100000000
    → Reached config p pcs
    → 0 < p.signalled
    → (p.run ≡ terminated)
      × (workers pcs ≡ 0)
      × (p.terminations ≡ 0)
      × (copies t p.queue.tasks ≤ total (in_submit t) pcs)
Reached-terminated {p = p} {pcs = pcs} t n r k =
    let h = (Reached-Good n r).holds in
    let z = h.signals k in
    let s = h.states in
    let w = h.workers in
    let v = h.waits in
    let e = h.ended z in
    (
      omega arith,
      omega arith,
      h.channels z,
      uncovered p.queue (total busy pcs) (λ u. total (in_submit u) pcs) t h.covered (omega arith)
          (omega arith),
    )
