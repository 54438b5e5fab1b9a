-- ===== src/DataLoader/Wakes/Jobs.antt =====
-- Proofs on the jobs of a loader.
use artemis.Prelude.{
  ℕ, ◌<◌, ◌≡◌, refl, sym, subst, ◌∙◌, true, ◌==◌, some, none, List, [], ◌∷◌, ◌++◌, ◌⊎◌, among,
  Bool-cases, Option-cases, inl, inr, arith,
}
use artemis.DataLoader.{
  TaskResult, not_completed, result_err, result_value, DataLoader, Config, LoadAction,
  complete_task, set_task_error, load_key, complete, new_future, cached_task, enqueue, load, act,
  act_all, finish, finish_task, with_keys, run_job, run_jobs,
}
use artemis.DataLoader.Batches.{concat}
use artemis.DataLoader.Wakes.{IsDone, Evolves, Later, Later-then}
use artemis.DataLoader.Wakes.Steps.{
  TaskResult-cases, same-Later, complete-done, set_result-at, complete-Later, new_future-Later,
  enqueue-Later,
}

module _ {K V E W : Type 0} (config : Config K V E W) where
  load-hits :
      (k : K) (s : ℕ) (l : DataLoader K V E W)
      → cached_task config k l ≡ some s
      → load config (some k) l ≡ some (new_future config s l)
  unfolding load
  load-hits k s l e = rw (e, load) refl

  load-misses :
      (k : K) (l : DataLoader K V E W)
      → cached_task config k l ≡ none
      → load config (some k) l
        ≡ some (new_future config (enqueue config k l).1 (enqueue config k l).0)
  unfolding load
  load-misses k l e = rw (e, load) refl

  pub load-cases :
      (k : K) (l : DataLoader K V E W)
      → ((s : ℕ) × (load config (some k) l ≡ some (new_future config s l)))
        ⊎ (load config (some k) l
            ≡ some (new_future config (enqueue config k l).1 (enqueue config k l).0))
  load-cases k l = elim (Option-cases (cached_task config k l)) [
    | inl e ↦ inr (load-misses k l e)
    | inr (s, e) ↦ inl (s, load-hits k s l e)
  ]

  unfoldable pub loaded : K → DataLoader K V E W → DataLoader K V E W
  loaded k l = elim (load config (some k) l) [ none ↦ l | some y ↦ y.0 ]

  pub loaded-cases :
      (k : K) (l : DataLoader K V E W)
      → ((s : ℕ) × (loaded k l ≡ (new_future config s l).0))
        ⊎ (loaded k l ≡ (new_future config (enqueue config k l).1 (enqueue config k l).0).0)
  unfolding loaded
  loaded-cases k l = elim (load-cases k l) [
    | inl (s, e) ↦ inl (s, rw (e, loaded) refl)
    | inr e ↦ inr (rw (e, loaded) refl)
  ]

  complete-IsDone :
      (s : ℕ) (r : TaskResult V E W) (l : DataLoader K V E W)
      → IsDone r
      → IsDone ((complete config s r l).0.task s).result
  unfolding complete
  complete-IsDone s r l d = elim (TaskResult-cases config (l.task s).result) [
    | inl (wakers, e) ↦
        rw (e, complete)
          (subst IsDone (sym (set_result-at config s r (record l { woken = l.woken ++ wakers }))) d)
    | inr q ↦
        subst (λ x. IsDone (x.0.task s).result)
          (sym (complete-done config s r (l.task s).result l refl q)) q
  ]

  finish_task-done :
      (s : ℕ) (q : TaskResult V E W) (l : DataLoader K V E W)
      → (l.task s).result ≡ q
      → IsDone q
      → finish_task config s l ≡ l
  unfolding finish_task
  finish_task-done s (not_completed wakers) l e d = absurd d
  finish_task-done s (result_err x) l e d = rw (e, finish_task) refl
  finish_task-done s (result_value v) l e d = rw (e, finish_task) refl

  finish_task-completes :
      (s : ℕ) (wakers : List W) (l : DataLoader K V E W)
      → (l.task s).result ≡ not_completed wakers
      → finish_task config s l
        ≡ (complete config s (result_err (config.not_completed_err (l.task s).key)) l).0
  unfolding finish_task
  finish_task-completes s wakers l e = rw (e, finish_task) refl

  finish_task-IsDone :
      (s : ℕ) (l : DataLoader K V E W) → IsDone ((finish_task config s l).task s).result
  finish_task-IsDone s l = elim (TaskResult-cases config (l.task s).result) [
    | inl (wakers, e) ↦
        subst (λ x. IsDone (x.task s).result) (sym (finish_task-completes s wakers l e))
          (complete-IsDone s (result_err (config.not_completed_err (l.task s).key)) l tt)
    | inr q ↦
        subst (λ x. IsDone (x.task s).result) (sym (finish_task-done s (l.task s).result l refl q))
          q
  ]

  among-split :
      (t : ℕ) (xs ys : List ℕ)
      → among t (xs ++ ys) ≡ true
      → (among t xs ≡ true) ⊎ (among t ys ≡ true)
  among-split t [] ys h = inr h
  among-split t (x ∷ xs) ys h = elim (Bool-cases (x == t)) [
    | inl e ↦ inl (rw e refl)
    | inr e ↦ elim (among-split t xs ys (sym (rw e refl) ∙ h)) [
      | inl f ↦ inl (rw e f)
      | inr f ↦ inr f
    ]
  ]

  module _ (t slot : ℕ) where
    Evolves-IsDone :
        (q r : TaskResult V E W) (woken : List W)
        → Evolves config t slot q r woken
        → IsDone q
        → IsDone r
    Evolves-IsDone (not_completed wakers) r woken e d = absurd d
    Evolves-IsDone (result_err x) r woken e d = subst IsDone (sym e) d
    Evolves-IsDone (result_value v) r woken e d = subst IsDone (sym e) d

    pub Later-IsDone :
        (l x : DataLoader K V E W)
        → Later config t slot l x
        → IsDone (l.task t).result
        → IsDone (x.task t).result
    Later-IsDone l x h d = Evolves-IsDone (l.task t).result (x.task t).result x.woken h.evolves d

    pub loaded-Later :
        (k : K) (l : DataLoader K V E W) → t < l.fresh → Later config t slot l (loaded k l)
    loaded-Later k l h = elim (loaded-cases k l) [
      | inl (s, e) ↦ subst (Later config t slot l) (sym e) (new_future-Later config t slot s l)
      | inr e ↦ subst (Later config t slot l) (sym e) (
          Later-then config t slot l (enqueue config k l).0
            (new_future config (enqueue config k l).1 (enqueue config k l).0).0
            (enqueue-Later config t slot k l h)
            (new_future-Later config t slot (enqueue config k l).1 (enqueue config k l).0))
    ]

    act-Later :
        (a : LoadAction K V E) (l : DataLoader K V E W)
        → t < l.fresh
        → Later config t slot l (act config a l)
    unfolding act loaded
    act-Later (complete_task s v) l h = complete-Later config t slot s (result_value v) l tt
    act-Later (set_task_error s e) l h = complete-Later config t slot s (result_err e) l tt
    act-Later (load_key k) l h = loaded-Later k l h

    act_all-Later :
        (actions : List (LoadAction K V E)) (l : DataLoader K V E W)
        → t < l.fresh
        → Later config t slot l (act_all config actions l)
    unfolding act_all
    act_all-Later [] l h = same-Later config t slot l
    act_all-Later (a ∷ actions) l h =
        let g = act-Later a l h in
        Later-then config t slot l (act config a l) (act_all config actions (act config a l)) g
          (act_all-Later actions (act config a l) (omega (arith, g.allocated)))

    finish_task-Later :
        (s : ℕ) (l : DataLoader K V E W) → Later config t slot l (finish_task config s l)
    finish_task-Later s l = elim (TaskResult-cases config (l.task s).result) [
      | inl (wakers, e) ↦ subst (Later config t slot l) (sym (finish_task-completes s wakers l e)) (
          complete-Later config t slot s (result_err (config.not_completed_err (l.task s).key)) l
            tt)
      | inr q ↦
          subst (Later config t slot l) (sym (finish_task-done s (l.task s).result l refl q))
            (same-Later config t slot l)
    ]

    finish-Later :
        (tasks : List ℕ) (l : DataLoader K V E W) → Later config t slot l (finish config tasks l)
    unfolding finish
    finish-Later [] l = same-Later config t slot l
    finish-Later (s ∷ tasks) l =
        Later-then config t slot l (finish_task config s l)
          (finish config tasks (finish_task config s l)) (finish_task-Later s l)
          (finish-Later tasks (finish_task config s l))

    finish-IsDone :
        (tasks : List ℕ) (l : DataLoader K V E W)
        → among t tasks ≡ true
        → IsDone ((finish config tasks l).task t).result
    unfolding finish
    finish-IsDone [] l h = cc
    finish-IsDone (s ∷ tasks) l h = elim (Bool-cases (s == t)) [
      | inl e ↦
          let f : s ≡ t = ground arith in
          Later-IsDone (finish_task config s l) (finish config tasks (finish_task config s l))
            (finish-Later tasks (finish_task config s l))
            (subst (λ q. IsDone ((finish_task config s l).task q).result) f
              (finish_task-IsDone s l))
      | inr e ↦ finish-IsDone tasks (finish_task config s l) (sym (rw e refl) ∙ h)
    ]

    run_job-Later :
        (tasks : List ℕ) (l : DataLoader K V E W)
        → t < l.fresh
        → Later config t slot l (run_job config tasks l)
    unfolding run_job
    run_job-Later tasks l h =
        let x : DataLoader K V E W =
          act_all config (config.batch_load (with_keys config tasks l)) l in
        Later-then config t slot l x (finish config tasks x)
          (act_all-Later (config.batch_load (with_keys config tasks l)) l h) (finish-Later tasks x)

    pub run_jobs-Later :
        (jobs : List (List ℕ)) (l : DataLoader K V E W)
        → t < l.fresh
        → Later config t slot l (run_jobs config jobs l)
    unfolding run_jobs
    run_jobs-Later [] l h = same-Later config t slot l
    run_jobs-Later (tasks ∷ jobs) l h =
        let g = run_job-Later tasks l h in
        Later-then config t slot l (run_job config tasks l)
          (run_jobs config jobs (run_job config tasks l)) g
          (run_jobs-Later jobs (run_job config tasks l) (omega (arith, g.allocated)))

    pub run_jobs-IsDone :
        (jobs : List (List ℕ)) (l : DataLoader K V E W)
        → t < l.fresh
        → among t (concat jobs) ≡ true
        → IsDone ((run_jobs config jobs l).task t).result
    unfolding run_jobs run_job
    run_jobs-IsDone [] l h m = cc
    run_jobs-IsDone (tasks ∷ jobs) l h m =
        let x : DataLoader K V E W =
          act_all config (config.batch_load (with_keys config tasks l)) l in
        let g = run_job-Later tasks l h in
        let later : t < (run_job config tasks l).fresh = omega (arith, g.allocated) in
        elim (among-split t tasks (concat jobs) m) [
          | inl n ↦
              Later-IsDone (run_job config tasks l) (run_jobs config jobs (run_job config tasks l))
                (run_jobs-Later jobs (run_job config tasks l) later) (finish-IsDone tasks x n)
          | inr n ↦ run_jobs-IsDone jobs (run_job config tasks l) later n
        ]
