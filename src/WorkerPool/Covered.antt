-- ===== src/WorkerPool/Covered.antt =====
-- Proofs on the cover of the tasks in the queue, under what a call does to it.
use artemis.Prelude.{ℕ, ◌+◌, ◌≤◌, ◌≡◌, inl, inr, ap, ◌∙◌, subst, ◌==◌, arith, Bool-cases}
use artemis.TaskQueue.Members.{eq-of}
use artemis.TaskQueue.Calls.{Fifo}
use artemis.WorkerPool.Effects.{one_if, copies, Pushes, Removes, Closes}
use artemis.WorkerPool.Invariant.{Covered}

pub Covered-mono :
    (q : Fifo) (b b' : ℕ) (c c' : ℕ → ℕ)
    → Covered q b c
    → b ≤ b'
    → ((u : ℕ) → c u ≤ c' u)
    → Covered q b' c'
Covered-mono q b b' c c' (inl e) h k = inl e
Covered-mono q b b' c c' (inr (inl a)) h k = inr (inl (omega arith))
Covered-mono q b b' c c' (inr (inr (w, f))) h k = inr (inr (w, λ u. omega (arith, f u, k u)))

-- Worker counts that a call of the queue does not touch.
pub Covered-push :
    (t : ℕ) (q q' : Fifo) (b b' : ℕ) (c c' : ℕ → ℕ)
    → Pushes t q q'
    → Covered q b c
    → b ≡ b'
    → ((u : ℕ) → c u + one_if (t == u) ≡ c' u)
    → Covered q' b' c'
Covered-push t q q' b b' c c' e (inl n) h k = elim (e.first n) [
  | inl w ↦ inr (
      inr
        (w, λ u. let z : copies u q.tasks ≡ 0 = ap (copies u) n in omega (arith, z, e.adds u, k u)))
  | inr w ↦ inr (inl (omega arith))
]
Covered-push t q q' b b' c c' e (inr (inl a)) h k = let w = e.wakes in inr (inl (omega arith))
Covered-push t q q' b b' c c' e (inr (inr (w, f))) h k =
    let x = e.wakes in
    let y = e.keeps in inr (inr (omega arith, λ u. omega (arith, f u, e.adds u, k u)))

pub Covered-remove :
    (t : ℕ) (q q' : Fifo) (b b' : ℕ) (c c' : ℕ → ℕ)
    → Removes t q q'
    → Covered q b c
    → b ≡ b'
    → ((u : ℕ) → c u ≤ c' u + one_if (t == u))
    → Covered q' b' c'
Covered-remove t q q' b b' c c' e (inl n) h k = inl (e.empties n)
Covered-remove t q q' b b' c c' e (inr (inl a)) h k = let w = e.woken in inr (inl (omega arith))
Covered-remove t q q' b b' c c' e (inr (inr (w, f))) h k =
    let x = e.waiters in inr (inr (omega arith, λ u. omega (arith, f u, e.takes u, k u)))

-- A task that is not in the queue needs no cover.
pub Covered-missing :
    (t : ℕ) (q : Fifo) (b b' : ℕ) (c c' : ℕ → ℕ)
    → copies t q.tasks ≡ 0
    → Covered q b c
    → b ≡ b'
    → ((u : ℕ) → c u ≤ c' u + one_if (t == u))
    → Covered q b' c'
Covered-missing t q b b' c c' e (inl n) h k = inl n
Covered-missing t q b b' c c' e (inr (inl a)) h k = inr (inl (omega arith))
Covered-missing t q b b' c c' e (inr (inr (w, f))) h k = inr (
    inr (
      w,
      λ u. elim (Bool-cases (t == u)) [
        | inl m ↦
            let v : copies u q.tasks ≡ 0 = subst (λ z. copies z q.tasks ≡ 0) (eq-of t u m) e in
            omega arith
        | inr m ↦
            let v = f u in
            let x : c u ≤ c' u + one_if (t == u) = k u in
            let y : one_if (t == u) ≡ 0 = ap one_if m in omega arith
      ],
    ))

pub Covered-close :
    (q q' : Fifo) (b b' : ℕ) (c c' : ℕ → ℕ)
    → Closes q q'
    → Covered q b c
    → b ≡ b'
    → ((u : ℕ) → c u ≤ c' u)
    → Covered q' b' c'
Covered-close q q' b b' c c' e (inl n) h k = inl (e.tasks ∙ n)
Covered-close q q' b b' c c' e (inr (inl a)) h k = let w = e.wakes in inr (inl (omega arith))
Covered-close q q' b b' c c' e (inr (inr (w, f))) h k =
    let x = e.keeps in
    let y = e.wakes in
    inr (
      inr (
        omega arith,
        λ u.
            let z : copies u q'.tasks ≡ copies u q.tasks = ap (copies u) e.tasks in
            omega (arith, f u, k u),
      ))
