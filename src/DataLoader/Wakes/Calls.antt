-- ===== src/DataLoader/Wakes/Calls.antt =====
-- Calls on a loader, and the wakers that wait for a task.
use artemis.Prelude.{
  ℕ, ◌<◌, ◌≡◌, refl, sym, ap, subst, ◌∙◌, true, Option, some, none, List, [], ◌∷◌, ◌++◌, ◌⊎◌, among,
  Bool-cases, inl, inr, arith,
}
use artemis.DataLoader.{
  TaskResult, not_completed, DataLoader, Config, holds_waker, complete, new_future, poll, cached,
  delete_entry, new_task, enqueue, load, dispatch, clear, clear_all, prime, prime_error, prime_with,
  run_jobs,
}
use artemis.DataLoader.Batches.{batches, concat, batches-AreSized}
use artemis.DataLoader.Wakes.{IsDone, Later, Later-then, Later-same}
use artemis.DataLoader.Wakes.Steps.{
  TaskResult-cases, same-Later, complete-Later, new_future-done, poll-done, new_task-Later,
  enqueue-adds,
}
use artemis.DataLoader.Wakes.Jobs.{loaded, loaded-cases, run_jobs-Later, run_jobs-IsDone}

pub data Call (K V E W : Type 0) : Type 0 where
  load_call : Option K → Call K V E W
  poll_call : ℕ → ℕ → W → Call K V E W
  clear_call : K → Call K V E W
  clear_all_call : Call K V E W
  prime_call : K → V → Call K V E W
  prime_error_call : K → E → Call K V E W
  dispatch_call : Call K V E W

module _ {K V E W : Type 0} (config : Config K V E W) where
  unfoldable pub run_call : Call K V E W → DataLoader K V E W → DataLoader K V E W
  unfolding loaded load
  run_call (load_call none) l = l
  run_call (load_call (some k)) l = loaded config k l
  run_call (poll_call t slot w) l = (poll config t slot w l).0
  run_call (clear_call k) l = clear config k l
  run_call clear_all_call l = clear_all config l
  run_call (prime_call k v) l = prime config k v l
  run_call (prime_error_call k e) l = prime_error config k e l
  run_call dispatch_call l = dispatch config l

  unfoldable pub run_calls : List (Call K V E W) → DataLoader K V E W → DataLoader K V E W
  unfolding run_call
  run_calls [] l = l
  run_calls (c ∷ calls) l = run_calls calls (run_call c l)

  new_future-queue : (s : ℕ) (l : DataLoader K V E W) → (new_future config s l).0.queue ≡ l.queue
  unfolding new_future
  new_future-queue s l = elim (TaskResult-cases config (l.task s).result) [
    | inl (wakers, e) ↦ rw (e, new_future) refl
    | inr q ↦ ap (λ x. x.queue) (new_future-done config s (l.task s).result l refl q)
  ]

  pub loaded-queue :
      (k : K) (l : DataLoader K V E W) (t : ℕ)
      → among t l.queue ≡ true
      → among t (loaded config k l).queue ≡ true
  loaded-queue k l t h = elim (loaded-cases config k l) [
    | inl (s, e) ↦
        subst (λ q. among t q ≡ true) (sym (ap (λ x. x.queue) e ∙ new_future-queue s l)) h
    | inr e ↦
        let (fresh, woken, task, queue) = enqueue-adds config k l in
        subst (λ q. among t q ≡ true)
          (sym
            (ap (λ x. x.queue) e ∙ new_future-queue (enqueue config k l).1 (enqueue config k l).0))
          (queue t h)
  ]

  pub poll-queue :
      (s i : ℕ) (w : W) (l : DataLoader K V E W) → (poll config s i w l).0.queue ≡ l.queue
  unfolding poll
  poll-queue s i w l = elim (TaskResult-cases config (l.task s).result) [
    | inl (wakers, e) ↦ elim (Bool-cases (holds_waker config.same_waker i w wakers)) [
      | inl f ↦ rw (e, f, poll) refl
      | inr f ↦ rw (e, f, poll) refl
    ]
    | inr q ↦ ap (λ x. x.queue) (poll-done config s i w (l.task s).result l refl q)
  ]

  -- Clear and Prime change the cache, and Prime makes a task.
  pub clear-cases :
      (k : K) (c : Option (List (K × ℕ))) (l : DataLoader K V E W)
      → (d : Option (List (K × ℕ))) × (clear config k (record l { cache = c })
          ≡ record l { cache = d })
  unfolding clear
  clear-cases k none l = (none, refl)
  clear-cases k (some entries) l = (some (delete_entry config k entries), refl)

  pub clear_all-cases :
      (c : Option (List (K × ℕ))) (l : DataLoader K V E W)
      → (d : Option (List (K × ℕ))) × (clear_all config (record l { cache = c })
          ≡ record l { cache = d })
  unfolding clear_all
  clear_all-cases none l = (none, refl)
  clear_all-cases (some entries) l = (some [], refl)

  abbrev pub primed : K → TaskResult V E W → DataLoader K V E W → DataLoader K V E W
  primed k r l = (complete config l.fresh r (new_task config k (not_completed []) l)).0

  prime_with-some :
      (k : K) (r : TaskResult V E W) (entries : List (K × ℕ)) (o : Option ℕ)
      → cached config k entries ≡ o
      → (l : DataLoader K V E W)
      → (d : Option (List (K × ℕ))) × (prime_with config k r (record l { cache = some entries })
          ≡ record (primed k r (record l { cache = some entries })) { cache = d })
  unfolding prime_with
  prime_with-some k r entries none f l =
      (some (entries ++ ((k, l.fresh) ∷ [])), rw (f, prime_with) refl)
  prime_with-some k r entries (some t) f l =
      ((primed k r (record l { cache = some entries })).cache, rw (f, prime_with) refl)

  pub prime_with-cases :
      (k : K) (r : TaskResult V E W) (c : Option (List (K × ℕ))) (l : DataLoader K V E W)
      → (prime_with config k r (record l { cache = c }) ≡ record l { cache = c })
        ⊎ ((d : Option (List (K × ℕ))) × (prime_with config k r (record l { cache = c })
              ≡ record (primed k r (record l { cache = c })) { cache = d }))
  unfolding prime_with
  prime_with-cases k r none l = inl refl
  prime_with-cases k r (some entries) l =
      inr (prime_with-some k r entries (cached config k entries) refl l)

  dispatch-cases :
      (queue : List ℕ) (l : DataLoader K V E W)
      → ((queue ≡ []) × (dispatch config (record l { queue = queue }) ≡ record l { queue = queue }))
        ⊎ ((concat (batches config.max_batch_size queue) ≡ queue)
            × (dispatch config (record l { queue = queue })
                ≡ run_jobs config (batches config.max_batch_size queue) (record l { queue = [] })))
  unfolding dispatch
  dispatch-cases [] l = inl (refl, refl)
  dispatch-cases (t ∷ queue) l =
      inr ((batches-AreSized config.max_batch_size (t ∷ queue) (omega arith)).0, refl)

  module _ (t slot : ℕ) where
    pub cache-Later :
        (d : Option (List (K × ℕ))) (l : DataLoader K V E W)
        → Later config t slot l (record l { cache = d })
    cache-Later d l = Later-same config t slot l (record l { cache = d }) (omega arith) refl refl

    pub prime_with-Later :
        (k : K) (r : TaskResult V E W) (l : DataLoader K V E W)
        → IsDone r
        → t < l.fresh
        → Later config t slot l (prime_with config k r l)
    prime_with-Later k r l d h = elim (prime_with-cases k r l.cache l) [
      | inl e ↦ subst (Later config t slot l) (sym e) (same-Later config t slot l)
      | inr (c, e) ↦
          let x : DataLoader K V E W = new_task config k (not_completed []) l in
          subst (Later config t slot l) (sym e) (
            Later-then config t slot l x (record (primed k r l) { cache = c })
              (new_task-Later config t slot k (not_completed []) l h)
              (Later-then config t slot x (primed k r l) (record (primed k r l) { cache = c })
                (complete-Later config t slot l.fresh r x d) (cache-Later c (primed k r l))))
    ]

    pub dispatch-Later :
        (l : DataLoader K V E W) → t < l.fresh → Later config t slot l (dispatch config l)
    dispatch-Later l h = elim (dispatch-cases l.queue l) [
      | inl (_, e) ↦ subst (Later config t slot l) (sym e) (same-Later config t slot l)
      | inr (_, e) ↦
          let x : DataLoader K V E W = record l { queue = [] } in
          subst (Later config t slot l) (sym e) (
            Later-then config t slot l x (run_jobs config (batches config.max_batch_size l.queue) x)
              (Later-same config t slot l x (omega arith) refl refl)
              (run_jobs-Later config t slot (batches config.max_batch_size l.queue) x h))
    ]

    pub dispatch-IsDone :
        (l : DataLoader K V E W)
        → t < l.fresh
        → among t l.queue ≡ true
        → IsDone ((dispatch config l).task t).result
    dispatch-IsDone l h m = elim (dispatch-cases l.queue l) [
      | inl (e, _) ↦ let n : among t [] ≡ true = subst (λ q. among t q ≡ true) e m in cc
      | inr (c, e) ↦
          subst (λ x. IsDone (x.task t).result) (sym e)
            (run_jobs-IsDone config t slot (batches config.max_batch_size l.queue)
              (record l { queue = [] }) h (subst (λ q. among t q ≡ true) (sym c) m))
    ]
