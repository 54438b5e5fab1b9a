-- ===== src/TaskQueue/Wakes.antt =====
-- Which goroutines a row of pushes wakes.
use artemis.Prelude.{ℕ, suc, ◌≡◌, refl, false, some, none, List, [], ◌∷◌}
use artemis.TaskQueue.{TaskQueue, push, is_empty}

-- Pushes one behind the other, with no other call between them.
abbrev pub push_all : List ℕ → TaskQueue → TaskQueue
push_all [] q = q
push_all (t ∷ ts) q = push_all ts (push t q).1

push_all-nonempty :
    (ts : List ℕ) (last : ℕ) (q : TaskQueue)
    → let q₀ = record q { tail = some last; closed = false } in
      ((push_all ts q₀).waiters ≡ q.waiters)
      × ((push_all ts q₀).woken ≡ q.woken)
      × (is_empty (push_all ts q₀) ≡ false)
unfolding push is_empty
push_all-nonempty [] last q = (refl, refl, refl)
push_all-nonempty (t ∷ ts) last q =
    push_all-nonempty ts t
      (record q { next = λ x. (push t (record q { tail = some last; closed = false })).1.next x })

-- When workers wait at an open and empty queue, any number of pushes before the first of them goes
-- on wakes one of them only: the others keep waiting while the queue has tasks.
pub push_all-waiters :
    (t : ℕ) (ts : List ℕ) (w : ℕ) (q : TaskQueue)
    → let q₀ = record q { tail = none; closed = false; waiters = suc w } in
      ((push_all (t ∷ ts) q₀).waiters ≡ w)
      × ((push_all (t ∷ ts) q₀).woken ≡ suc q.woken)
      × (is_empty (push_all (t ∷ ts) q₀) ≡ false)
unfolding push
push_all-waiters t ts w q = push_all-nonempty ts t (record q {
  next = λ x. (push t (record q { tail = none; closed = false; waiters = suc w })).1.next x;
  waiters = w;
  woken = suc q.woken;
})
