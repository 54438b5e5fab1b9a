-- ===== src/DataLoader/Wakes/Woken.antt =====
-- Proofs on the wakers of futures that wait.
use artemis.Prelude.{
  ℕ, ◌<◌, ◌≡◌, refl, sym, ap, subst, ◌∙◌, true, false, ◌&&◌, ◌==◌, some, none, List, [], ◌∷◌, ◌⊎◌,
  length, get_elem?, among, inl, inr, arith,
}
use artemis.DataLoader.{
  TaskResult, not_completed, result_err, result_value, DataLoader, Config, complete, poll, new_task,
  dispatch, clear, clear_all, prime, prime_error, prime_with,
}
use artemis.DataLoader.Wakes.{IsIn, IsDone, Evolves, Later, Later-then}
use artemis.DataLoader.Wakes.Steps.{TaskResult-cases, same-Later, complete-done, poll-Later}
use artemis.DataLoader.Wakes.Waits.{poll-waits}
use artemis.DataLoader.Wakes.Jobs.{loaded-Later, Later-IsDone}
use artemis.DataLoader.Wakes.Calls.{
  Call, load_call, poll_call, clear_call, clear_all_call, prime_call, prime_error_call,
  dispatch_call, run_call, run_calls, loaded-queue, poll-queue, clear-cases, clear_all-cases,
  prime_with-cases, prime_with-Later, cache-Later, dispatch-Later, dispatch-IsDone,
}

-- The calls do not poll the future of a slot of a task.
abbrev pub Avoid : {K V E W : Type 0} → ℕ → ℕ → List (Call K V E W) → Type 0
Avoid t slot [] = Unit
Avoid t slot (poll_call s i w ∷ calls) = ((t == s && slot == i) ≡ false) × Avoid t slot calls
Avoid t slot (c ∷ calls) = Avoid t slot calls

module _ {K V E W : Type 0} (config : Config K V E W) where
  complete-queue :
      (s : ℕ) (r : TaskResult V E W) (l : DataLoader K V E W)
      → (complete config s r l).0.queue ≡ l.queue
  unfolding complete
  complete-queue s r l = elim (TaskResult-cases config (l.task s).result) [
    | inl (wakers, e) ↦ rw (e, complete) refl
    | inr q ↦ ap (λ x. x.0.queue) (complete-done config s r (l.task s).result l refl q)
  ]

  prime_with-queue :
      (k : K) (r : TaskResult V E W) (l : DataLoader K V E W)
      → (prime_with config k r l).queue ≡ l.queue
  prime_with-queue k r l = elim (prime_with-cases config k r l.cache l) [
    | inl e ↦ ap (λ x. x.queue) e
    | inr (c, e) ↦
        ap (λ x. x.queue) e ∙ complete-queue l.fresh r (new_task config k (not_completed []) l)
  ]

  module _ (t slot : ℕ) where
    abbrev Tracked : DataLoader K V E W → Type 0
    Tracked l = (among t l.queue ≡ true) ⊎ IsDone (l.task t).result

    -- One call other than the poll of the future.
    step :
        (l x : DataLoader K V E W)
        → Later config t slot l x
        → (among t l.queue ≡ true → Tracked x)
        → Tracked l
        → Tracked x
    step l x h f (inl m) = f m
    step l x h f (inr d) = inr (Later-IsDone config t slot l x h d)

    keeps : (l x : DataLoader K V E W) → x.queue ≡ l.queue → among t l.queue ≡ true → Tracked x
    keeps l x e m = inl (subst (λ q. among t q ≡ true) (sym e) m)

    abbrev Follows : DataLoader K V E W → DataLoader K V E W → Type 0
    Follows l x = Later config t slot l x × (among t l.queue ≡ true → Tracked x)

    run_call-Follows :
        (c : Call K V E W) (l : DataLoader K V E W)
        → Avoid t slot (c ∷ [])
        → t < l.fresh
        → Follows l (run_call config c l)
    unfolding run_call prime prime_error
    run_call-Follows (load_call none) l a h = (same-Later config t slot l, keeps l l refl)
    run_call-Follows (load_call (some k)) l a h =
        (loaded-Later config t slot k l h, λ m. inl (loaded-queue config k l t m))
    run_call-Follows (poll_call s i w) l a h = (
      poll-Later config t slot s i w l a.0,
      keeps l (poll config s i w l).0 (poll-queue config s i w l),
    )
    run_call-Follows (clear_call k) l a h =
        let (d, e) = clear-cases config k l.cache l in
        (
          subst (Later config t slot l) (sym e) (cache-Later config t slot d l),
          keeps l (clear config k l) (ap (λ x. x.queue) e),
        )
    run_call-Follows clear_all_call l a h =
        let (d, e) = clear_all-cases config l.cache l in
        (
          subst (Later config t slot l) (sym e) (cache-Later config t slot d l),
          keeps l (clear_all config l) (ap (λ x. x.queue) e),
        )
    run_call-Follows (prime_call k v) l a h = (
      prime_with-Later config t slot k (result_value v) l tt h,
      keeps l (prime config k v l) (prime_with-queue k (result_value v) l),
    )
    run_call-Follows (prime_error_call k e) l a h = (
      prime_with-Later config t slot k (result_err e) l tt h,
      keeps l (prime_error config k e l) (prime_with-queue k (result_err e) l),
    )
    run_call-Follows dispatch_call l a h =
        (dispatch-Later config t slot l h, λ m. inr (dispatch-IsDone config t slot l h m))

    Avoid-cons :
        (c : Call K V E W) (calls : List (Call K V E W))
        → Avoid t slot (c ∷ calls)
        → Avoid t slot (c ∷ []) × Avoid t slot calls
    Avoid-cons (load_call k) calls a = (tt, a)
    Avoid-cons (poll_call s i w) calls a = ((a.0, tt), a.1)
    Avoid-cons (clear_call k) calls a = (tt, a)
    Avoid-cons clear_all_call calls a = (tt, a)
    Avoid-cons (prime_call k v) calls a = (tt, a)
    Avoid-cons (prime_error_call k e) calls a = (tt, a)
    Avoid-cons dispatch_call calls a = (tt, a)

    run_calls-Tracked :
        (calls : List (Call K V E W)) (l : DataLoader K V E W)
        → Avoid t slot calls
        → t < l.fresh
        → Tracked l
        → Later config t slot l (run_calls config calls l) × Tracked (run_calls config calls l)
    unfolding run_calls
    run_calls-Tracked [] l a h d = (same-Later config t slot l, d)
    run_calls-Tracked (c ∷ calls) l a h d =
        let (one, others) = Avoid-cons c calls a in
        let x : DataLoader K V E W = run_call config c l in
        let (later, tracked) = run_call-Follows c l one h in
        let (g, e) =
          run_calls-Tracked calls x others (omega (arith, later.allocated))
            (step l x later tracked d) in
        (Later-then config t slot l x (run_calls config calls x) later g, e)

    woken-at :
        (wakers : List W) (q : TaskResult V E W) (woken : List W) (w : W)
        → get_elem? wakers slot ≡ some w
        → Evolves config t slot (not_completed wakers) q woken
        → IsDone q
        → IsIn w woken
    woken-at wakers (not_completed later) woken w h e d = absurd d
    woken-at wakers (result_err x) woken w h e d = e w h
    woken-at wakers (result_value v) woken w h e d = e w h

    -- A task is in the queue and not completed, and a future of it is polled with a waker. After any
    -- calls but polls of this future, followed by Dispatch, the task is completed, and the waker is
    -- among the wakers that were woken, whatever the batch loader does with its tasks. Wakers that
    -- the code takes for the same are the same.
    pub dispatch-IsDone-IsIn :
        (calls : List (Call K V E W)) (l : DataLoader K V E W) (w : W) (wakers : List W)
        → ((v : W) → config.same_waker v w ≡ true → v ≡ w)
        → t < l.fresh
        → among t l.queue ≡ true
        → (l.task t).result ≡ not_completed wakers
        → slot < length wakers
        → Avoid t slot calls
        → IsDone
            ((run_call config dispatch_call
                (run_calls config calls (run_call config (poll_call t slot w) l))).task
              t).result
          × IsIn w
              (run_call config dispatch_call
                (run_calls config calls (run_call config (poll_call t slot w) l))).woken
    unfolding run_call
    dispatch-IsDone-IsIn calls l w wakers f a m e h avoid =
        let p : DataLoader K V E W = (poll config t slot w l).0 in
        let (later, e', g, fresh) = poll-waits config t slot l w wakers f e h in
        let b : t < p.fresh = omega (arith, fresh) in
        let (done, tracked) =
          run_calls-Tracked calls p avoid b (keeps l p (poll-queue config t slot w l) m) in
        let x : DataLoader K V E W = run_calls config calls p in
        let c : t < x.fresh = omega (arith, b, done.allocated) in
        let (last, z) = run_call-Follows dispatch_call x tt c in
        let d : IsDone ((dispatch config x).task t).result = elim tracked [
          | inl n ↦ dispatch-IsDone config t slot x c n
          | inr n ↦ Later-IsDone config t slot x (dispatch config x) last n
        ] in
        (
          d,
          woken-at later ((dispatch config x).task t).result (dispatch config x).woken w g
              (subst
                (λ q.
                  Evolves config t slot q ((dispatch config x).task t).result
                    (dispatch config x).woken)
                e' (Later-then config t slot p x (dispatch config x) done last).evolves)
              d,
        )
