-- ===== src/DataLoader/Wakes/Steps.antt =====
-- The steps of a loader, seen from one of its tasks.
use artemis.Prelude.{
  ℕ, suc, ◌<◌, ◌≡◌, refl, sym, ap, subst, ◌∙◌, true, false, ◌&&◌, ◌==◌, List, [], ◌∷◌, ◌++◌, ◌⊎◌,
  among, Bool-cases, Option-cases, inl, inr, arith,
}
use artemis.DataLoader.{
  TaskResult, not_completed, result_err, result_value, DataLoader, Config, put_waker, holds_waker,
  set_result, complete, new_future, poll, cached, new_task, enqueue,
}
use artemis.DataLoader.Wakes.{
  IsIn, IsIn-left, IsIn-right, IsIn-get_elem?, get_elem?-append, get_elem?-put_waker, IsDone,
  Evolves, Evolves-same, Later, Later-same,
}

module _ {K V E W : Type 0} (config : Config K V E W) where
  set_result-other :
      (s t : ℕ) (r : TaskResult V E W) (l : DataLoader K V E W)
      → (t == s) ≡ false
      → ((set_result config s r l).task t).result ≡ (l.task t).result
  set_result-other s t r l e = rw e refl

  pub set_result-at :
      (s : ℕ) (r : TaskResult V E W) (l : DataLoader K V E W)
      → ((set_result config s r l).task s).result ≡ r
  set_result-at s r l = let e : (s == s) ≡ true = ground arith in rw e refl

  pub TaskResult-cases :
      (r : TaskResult V E W) → ((wakers : List W) × (r ≡ not_completed wakers)) ⊎ IsDone r
  TaskResult-cases (not_completed wakers) = inl (wakers, refl)
  TaskResult-cases (result_err e) = inr tt
  TaskResult-cases (result_value v) = inr tt

  pub complete-done :
      (s : ℕ) (r q : TaskResult V E W) (l : DataLoader K V E W)
      → (l.task s).result ≡ q
      → IsDone q
      → complete config s r l ≡ (l, false)
  unfolding complete
  complete-done s r (not_completed wakers) l e d = absurd d
  complete-done s r (result_err x) l e d = rw (e, complete) refl
  complete-done s r (result_value v) l e d = rw (e, complete) refl

  pub new_future-done :
      (s : ℕ) (q : TaskResult V E W) (l : DataLoader K V E W)
      → (l.task s).result ≡ q
      → IsDone q
      → (new_future config s l).0 ≡ l
  unfolding new_future
  new_future-done s (not_completed wakers) l e d = absurd d
  new_future-done s (result_err x) l e d = rw (e, new_future) refl
  new_future-done s (result_value v) l e d = rw (e, new_future) refl

  pub poll-done :
      (s i : ℕ) (w : W) (q : TaskResult V E W) (l : DataLoader K V E W)
      → (l.task s).result ≡ q
      → IsDone q
      → (poll config s i w l).0 ≡ l
  unfolding poll
  poll-done s i w (not_completed wakers) l e d = absurd d
  poll-done s i w (result_err x) l e d = rw (e, poll) refl
  poll-done s i w (result_value v) l e d = rw (e, poll) refl

  among-append : (q : ℕ) (xs ys : List ℕ) → among q xs ≡ true → among q (xs ++ ys) ≡ true
  among-append q [] ys h = cc
  among-append q (x ∷ xs) ys h = elim (Bool-cases (x == q)) [
    | inl e ↦ rw e refl
    | inr e ↦ rw e (among-append q xs ys (sym (rw e refl) ∙ h))
  ]

  -- Enqueue makes a task, and takes none from the queue.
  pub enqueue-adds :
      (k : K) (l : DataLoader K V E W)
      → ((enqueue config k l).0.fresh ≡ suc l.fresh)
        × ((enqueue config k l).0.woken ≡ l.woken)
        × ((q : ℕ)
            → (enqueue config k l).0.task q ≡ (new_task config k (not_completed []) l).task q)
        × ((q : ℕ) → among q l.queue ≡ true → among q (enqueue config k l).0.queue ≡ true)
  unfolding enqueue
  enqueue-adds k l = elim (Option-cases l.cache) [
    | inl e ↦
        rw (e, enqueue) (refl, refl, λ q. refl, λ q h. among-append q l.queue (l.fresh ∷ []) h)
    | inr (entries, e) ↦ elim (Option-cases (cached config k entries)) [
      | inl f ↦
          rw (e, f, enqueue) (refl, refl, λ q. refl, λ q h. among-append q l.queue (l.fresh ∷ []) h)
      | inr (s, f) ↦ rw (e, f, enqueue) (refl, refl, λ q. refl, λ q h. h)
    ]
  ]

  module _ (t slot : ℕ) where
    pub same-Later : (l : DataLoader K V E W) → Later config t slot l l
    same-Later l = Later-same config t slot l l (omega arith) refl refl

    -- The result of the task itself is set, or of another one.
    set-Later :
        (s : ℕ) (r : TaskResult V E W) (woken : List W) (wakers : List W) (l : DataLoader K V E W)
        → (l.task s).result ≡ not_completed wakers
        → ((w : W) → IsIn w l.woken → IsIn w woken)
        → (s ≡ t → Evolves config t slot (not_completed wakers) r woken)
        → Later config t slot l (set_result config s r (record l { woken = woken }))
    set-Later s r woken wakers l e k h = elim (Bool-cases (t == s)) [
      | inl f ↦
          let g : t ≡ s = ground arith in
          record {
            allocated = omega arith;
            still_woken = k;
            evolves =
                subst
                  (λ q.
                    Evolves config t slot q
                      ((set_result config s r (record l { woken = woken })).task t).result woken)
                  (sym (ap (λ q. (l.task q).result) g ∙ e))
                  (subst (λ q. Evolves config t slot (not_completed wakers) q woken)
                    (sym (rw f refl)) (h (sym g)));
          }
      | inr f ↦ record {
        allocated = omega arith;
        still_woken = k;
        evolves = rw f (Evolves-same config t slot (l.task t).result woken);
      }
    ]

    wakes :
        (wakers : List W) (r : TaskResult V E W) (woken : List W)
        → IsDone r
        → Evolves config t slot (not_completed wakers) r (woken ++ wakers)
    wakes wakers (not_completed later) woken d = absurd d
    wakes wakers (result_err e) woken d =
        λ w h. IsIn-right w woken wakers (IsIn-get_elem? w wakers slot h)
    wakes wakers (result_value v) woken d =
        λ w h. IsIn-right w woken wakers (IsIn-get_elem? w wakers slot h)

    pub complete-Later :
        (s : ℕ) (r : TaskResult V E W) (l : DataLoader K V E W)
        → IsDone r
        → Later config t slot l (complete config s r l).0
    unfolding complete
    complete-Later s r l d = elim (TaskResult-cases (l.task s).result) [
      | inl (wakers, e) ↦
          rw (e, complete)
            (set-Later s r (l.woken ++ wakers) wakers l e (λ w h. IsIn-left w l.woken wakers h)
              (λ g. wakes wakers r l.woken d))
      | inr q ↦
          subst (λ x. Later config t slot l x.0)
            (sym (complete-done s r (l.task s).result l refl q)) (same-Later l)
    ]

    pub new_future-Later :
        (s : ℕ) (l : DataLoader K V E W) → Later config t slot l (new_future config s l).0
    unfolding new_future
    new_future-Later s l = elim (TaskResult-cases (l.task s).result) [
      | inl (wakers, e) ↦
          rw (e, new_future)
            (set-Later s (not_completed (wakers ++ (config.nop_waker ∷ []))) l.woken wakers l e
              (λ w h. h) (λ g w h. get_elem?-append w wakers (config.nop_waker ∷ []) slot h))
      | inr q ↦
          subst (λ x. Later config t slot l x) (sym (new_future-done s (l.task s).result l refl q))
            (same-Later l)
    ]

    pub poll-Later :
        (s i : ℕ) (w : W) (l : DataLoader K V E W)
        → (t == s && slot == i) ≡ false
        → Later config t slot l (poll config s i w l).0
    unfolding poll
    poll-Later s i w l n = elim (TaskResult-cases (l.task s).result) [
      | inl (wakers, e) ↦ elim (Bool-cases (holds_waker config.same_waker i w wakers)) [
        | inl f ↦ rw (e, f, poll) (same-Later l)
        | inr f ↦
            rw (e, f, poll)
              (set-Later s (not_completed (put_waker i w wakers)) l.woken wakers l e (λ v h. h)
                (λ g v h. get_elem?-put_waker w wakers slot i (ground arith) ∙ h))
      ]
      | inr q ↦
          subst (λ x. Later config t slot l x) (sym (poll-done s i w (l.task s).result l refl q))
            (same-Later l)
    ]

    pub new_task-Later :
        (k : K) (r : TaskResult V E W) (l : DataLoader K V E W)
        → t < l.fresh
        → Later config t slot l (new_task config k r l)
    new_task-Later k r l h =
        let e : (t == l.fresh) ≡ false = ground arith in
        Later-same config t slot l (new_task config k r l) (omega arith) (rw e refl) refl

    pub enqueue-Later :
        (k : K) (l : DataLoader K V E W)
        → t < l.fresh
        → Later config t slot l (enqueue config k l).0
    enqueue-Later k l h =
        let (fresh, woken, task, queue) = enqueue-adds k l in
        let e : (t == l.fresh) ≡ false = ground arith in
        Later-same config t slot l (enqueue config k l).0 (omega (arith, fresh))
          (ap (λ x. x.result) (task t) ∙ (rw e refl)) woken
