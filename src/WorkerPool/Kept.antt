-- ===== src/WorkerPool/Kept.antt =====
-- Proofs that each step keeps the counted invariant.
use artemis.Prelude.{
  ℕ, suc, ◌+◌, ◌≤◌, ◌≡◌, inl, inr, refl, true, false, some, none, List, [], ◌∷◌, arith,
}
use artemis.TaskQueue.Calls.{fifo_close}
use artemis.WorkerPool.{
  Config, Pool, Caller, first, last, helper, replacement, Pc, add, add_cas, Move, limit, rejected,
  started, submit_few, submit_queued, submit_last, reload_queued, reload_last, add_shut, add_full,
  add_room, cas_done, cas_failed, push_failed, push_done, pushed_shut, pushed_none, pushed_some,
  remove_done, remove_failed, run_task, poll_load, quit, stay_running, stay_tasks, poll_task,
  poll_nil, poll_waits, resume_task, resume_nil, leave, term_shut, term_running, term_replace,
  term_enough, try_running, try_terminated, try_shut, try_tasks, try_workers, try_none, try_locks,
  terminate, unlocks, shut_locks, shut_running, shut_again, shut_terminated, shut_closes,
  shut_unlocks, cancel_done, cancel_failed,
}
use artemis.WorkerPool.Effects.{
  push_lem, remove-Removes, remove-missing, poll_lem, poll_waits_lem, resume_lem, close_lem,
}
use artemis.WorkerPool.Invariant.{
  busy, asleep, quitting, in_submit, total, pool_size, Holds, Fact, Asks,
}
use artemis.WorkerPool.Covered.{Covered-push, Covered-remove, Covered-missing, Covered-close}
use artemis.WorkerPool.Moves.{
  uncover, quiet, queue_call, channel_call, state_call, starts_worker, leaves_pool, quits, settled,
  runs_task,
}

-- The counts behind a step.
abbrev pub HoldsBehind : (config : Config) → Pool → List Pc → (b i l : ℕ) → (ℕ → ℕ) → Type 0
HoldsBehind config p pcs b i l c =
    Holds config p (total busy pcs + b) (total asleep pcs + i) (total quitting pcs + l)
      (λ u. total (in_submit u) pcs + c u)

-- A caller of addWorker counts the same before and after an error.
in_submit-rejected : (u : ℕ) (c : Caller) → in_submit u (rejected c) ≡ in_submit u (add c)
in_submit-rejected u (first t) = refl
in_submit-rejected u (last t) = refl
in_submit-rejected u (helper t) = refl
in_submit-rejected u (replacement n) = refl

in_submit-cas : (u r n : ℕ) (c : Caller) → in_submit u (add_cas r n c) ≡ in_submit u (add c)
in_submit-cas u r n (first t) = refl
in_submit-cas u r n (last t) = refl
in_submit-cas u r n (helper t) = refl
in_submit-cas u r n (replacement m) = refl

rejected-idle :
    (c : Caller) → (busy (rejected c) ≡ 0) × (asleep (rejected c) ≡ 0) × (quitting (rejected c) ≡ 0)
rejected-idle (first t) = (refl, refl, refl)
rejected-idle (last t) = (refl, refl, refl)
rejected-idle (helper t) = (refl, refl, refl)
rejected-idle (replacement n) = (refl, refl, refl)

started-busy :
    (c : Caller) → (busy (started c) ≡ 1) × (asleep (started c) ≡ 0) × (quitting (started c) ≡ 0)
started-busy (first t) = (refl, refl, refl)
started-busy (last t) = (refl, refl, refl)
started-busy (helper t) = (refl, refl, refl)
started-busy (replacement n) = (refl, refl, refl)

-- What a caller asks for is within the pool's size when the executor is running.
within_size :
    (config : Config) (p : Pool) (c : Caller) (n : ℕ)
    → Asks config p c
    → p.run ≡ 0
    → suc n ≤ limit config c
    → suc n ≤ pool_size config
within_size config p (first t) n a r h = omega arith
within_size config p (last t) n a r h = absurd (omega arith)
within_size config p (helper t) n a r h = omega arith
within_size config p (replacement m) n a r h = omega arith

rejects :
    (config : Config) (p : Pool) (k : Caller) (b i l : ℕ) (c : ℕ → ℕ)
    → Holds config p (0 + b) (0 + i) (0 + l) (λ u. in_submit u (add k) + c u)
    → HoldsBehind config p (rejected k ∷ []) b i l c
rejects config p k b i l c h =
    let z = rejected-idle k in
    let z₀ = z.0 in
    let z₁ = z.1 in
    let z₂ = z.2 in
    quiet config p _ _ _ _ h _ _ _ _ (omega arith) (omega arith) (omega arith)
      (λ u. omega (arith, in_submit-rejected u k))

pub Move-Holds :
    {config : Config} {p p' : Pool} {pc pc' : Pc} {new : List Pc} (b i l : ℕ) (c : ℕ → ℕ)
    → Move config p pc p' pc' new
    → Fact config p pc
    → Holds config p (busy pc + b) (asleep pc + i) (quitting pc + l) (λ u. in_submit u pc + c u)
    → HoldsBehind config p' (pc' ∷ new) b i l c
Move-Holds b i l c (submit_few x) f h =
    quiet _ _ _ _ _ _ h _ _ _ _ (omega arith) (omega arith) (omega arith) (λ u. omega arith)
Move-Holds b i l c (submit_queued x y) f h =
    quiet _ _ _ _ _ _ h _ _ _ _ (omega arith) (omega arith) (omega arith) (λ u. omega arith)
Move-Holds b i l c (submit_last x y) f h =
    quiet _ _ _ _ _ _ h _ _ _ _ (omega arith) (omega arith) (omega arith) (λ u. omega arith)
Move-Holds b i l c (reload_queued x) f h =
    quiet _ _ _ _ _ _ h _ _ _ _ (omega arith) (omega arith) (omega arith) (λ u. omega arith)
Move-Holds b i l c (reload_last x) f h =
    quiet _ _ _ _ _ _ h _ _ _ _ (omega arith) (omega arith) (omega arith) (λ u. omega arith)
Move-Holds b i l c (push_failed x) f h =
    quiet _ _ _ _ _ _ h _ _ _ _ (omega arith) (omega arith) (omega arith) (λ u. omega arith)
Move-Holds b i l c (pushed_shut x) f h =
    quiet _ _ _ _ _ _ h _ _ _ _ (omega arith) (omega arith) (omega arith) (λ u. omega arith)
Move-Holds b i l c (pushed_none x y) f h =
    quiet _ _ _ _ _ _ h _ _ _ _ (omega arith) (omega arith) (omega arith) (λ u. omega arith)
Move-Holds b i l c poll_load f h =
    quiet _ _ _ _ _ _ h _ _ _ _ (omega arith) (omega arith) (omega arith) (λ u. omega arith)
Move-Holds b i l c (stay_running x) f h =
    quiet _ _ _ _ _ _ h _ _ _ _ (omega arith) (omega arith) (omega arith) (λ u. omega arith)
Move-Holds b i l c (stay_tasks x) f h =
    quiet _ _ _ _ _ _ h _ _ _ _ (omega arith) (omega arith) (omega arith) (λ u. omega arith)
Move-Holds b i l c (term_shut x) f h =
    quiet _ _ _ _ _ _ h _ _ _ _ (omega arith) (omega arith) (omega arith) (λ u. omega arith)
Move-Holds b i l c (term_running x) f h =
    quiet _ _ _ _ _ _ h _ _ _ _ (omega arith) (omega arith) (omega arith) (λ u. omega arith)
Move-Holds b i l c (term_replace x) f h =
    quiet _ _ _ _ _ _ h _ _ _ _ (omega arith) (omega arith) (omega arith) (λ u. omega arith)
Move-Holds b i l c (term_enough x) f h =
    quiet _ _ _ _ _ _ h _ _ _ _ (omega arith) (omega arith) (omega arith) (λ u. omega arith)
Move-Holds b i l c (try_running x) f h =
    quiet _ _ _ _ _ _ h _ _ _ _ (omega arith) (omega arith) (omega arith) (λ u. omega arith)
Move-Holds b i l c (try_terminated x) f h =
    quiet _ _ _ _ _ _ h _ _ _ _ (omega arith) (omega arith) (omega arith) (λ u. omega arith)
Move-Holds b i l c (try_shut x) f h =
    quiet _ _ _ _ _ _ h _ _ _ _ (omega arith) (omega arith) (omega arith) (λ u. omega arith)
Move-Holds b i l c (try_tasks x) f h =
    quiet _ _ _ _ _ _ h _ _ _ _ (omega arith) (omega arith) (omega arith) (λ u. omega arith)
Move-Holds b i l c (try_workers x y) f h =
    quiet _ _ _ _ _ _ h _ _ _ _ (omega arith) (omega arith) (omega arith) (λ u. omega arith)
Move-Holds b i l c (try_none x y) f h =
    quiet _ _ _ _ _ _ h _ _ _ _ (omega arith) (omega arith) (omega arith) (λ u. omega arith)
Move-Holds b i l c (cancel_failed x) f h =
    quiet _ _ _ _ _ _ h _ _ _ _ (omega arith) (omega arith) (omega arith) (λ u. omega arith)
Move-Holds b i l c (add_shut {c = k} x) f h = rejects _ _ k b i l c h
Move-Holds b i l c (add_full {c = k} x y) f h = rejects _ _ k b i l c h
Move-Holds b i l c (add_room {c = k} x y) f h =
    quiet _ _ _ _ _ _ h _ _ _ _ (omega arith) (omega arith) (omega arith)
      (λ u. omega (arith, in_submit-cas u 0 0 k))
Move-Holds b i l c (cas_failed {r = r} {n = n} {c = k} x) f h =
    quiet _ _ _ _ _ _ h _ _ _ _ (omega arith) (omega arith) (omega arith)
      (λ u. omega (arith, in_submit-cas u r n k))
Move-Holds {config = config} {p = p} b i l c (cas_done {r = r} {n = n} {c = k} x y) f h =
    let z = started-busy k in
    let z₀ = z.0 in
    let z₁ = z.1 in
    let z₂ = z.2 in
    let x₁ = f.0 in
    let s : suc p.count ≤ pool_size config =
      within_size config p k p.count f.2 (omega arith) (let w = f.1 in omega arith) in
    starts_worker _ _ _ _ _ _ h _ _ _ _ (omega arith) s (omega arith) (omega arith) (omega arith)
Move-Holds {p = p} b i l c (push_done {t = t} {q = q} e) f h =
    let x = push_lem t p.queue q e in
    let y = x.keeps in
    queue_call _ _ _ _ _ _ h q _ _ _ _ (omega arith) (omega arith) (omega arith)
      (Covered-push t p.queue q _ _ _ _ x h.covered (omega arith) (λ u. omega arith))
Move-Holds b i l c (pushed_some x y) f h =
    uncover _ _ _ _ _ _ h _ _ _ _ (omega arith) (omega arith) (omega arith)
      (settled _ _ _ _ _ _ h _ _ x y (omega arith))
Move-Holds {p = p} b i l c (remove_done {t = t} {q = q} e) f h =
    let x = remove-Removes t p.queue q e in
    let y = x.waiters in
    let z = x.woken in
    queue_call _ _ _ _ _ _ h q _ _ _ _ (omega arith) (omega arith) (omega arith)
      (Covered-remove t p.queue q _ _ _ _ x h.covered (omega arith) (λ u. omega arith))
Move-Holds {p = p} b i l c (remove_failed {t = t} {e = e} {q = q} x) f h =
    uncover _ _ _ _ _ _ h _ _ _ _ (omega arith) (omega arith) (omega arith) (
      Covered-missing t p.queue _ _ _ _ (remove-missing t e p.queue q x) h.covered (omega arith)
        (λ u. omega arith))
Move-Holds b i l c (run_task {t = t}) f h =
    runs_task _ _ _ _ _ _ h _ _ _ _ _ (omega arith) (omega arith) (omega arith) (λ u. omega arith)
Move-Holds {p = p} b i l c (quit {r = r} {n = n} x e) f h =
    let y = f.run in
    quits _ _ _ _ _ _ h _ _ _ _ (omega arith) e (omega arith) (omega arith) (omega arith)
Move-Holds {p = p} b i l c (poll_task {t = t} {q = q} e) f h =
    let x = poll_lem (some t) p.queue q e in
    let y = x.waiters in
    let z = x.woken in
    queue_call _ _ _ _ _ _ h q _ _ _ _ (omega arith) (omega arith) (omega arith)
      (inr (inl (omega arith)))
Move-Holds {p = p} b i l c (poll_nil {q = q} e) f h =
    let x = poll_lem none p.queue q e in
    let y = x.waiters in
    let z = x.woken in
    queue_call _ _ _ _ _ _ h q _ _ _ _ (omega arith) (omega arith) (omega arith)
      (inr (inl (omega arith)))
Move-Holds {p = p} b i l c (poll_waits {q = q} e) f h =
    let x = poll_waits_lem p.queue q e in
    let y = x.waiters in
    let z = x.woken in
    queue_call _ _ _ _ _ _ h q _ _ _ _ (omega arith) (omega arith) (omega arith) (inl x.empty)
Move-Holds {p = p} b i l c (resume_task {t = t} {q = q} w e) f h =
    let x = resume_lem (some t) p.queue q e in
    let y = x.waiters in
    let z = x.woken in
    queue_call _ _ _ _ _ _ h q _ _ _ _ (omega arith) (omega arith) (omega arith)
      (inr (inl (omega arith)))
Move-Holds {p = p} b i l c (resume_nil {q = q} w e) f h =
    let x = resume_lem none p.queue q e in
    let y = x.waiters in
    let z = x.woken in
    queue_call _ _ _ _ _ _ h q _ _ _ _ (omega arith) (omega arith) (omega arith)
      (inr (inl (omega arith)))
Move-Holds b i l c leave f h =
    leaves_pool _ _ _ _ _ _ h _ _ _ _ (omega arith) (omega arith) (omega arith) (λ u. omega arith)
Move-Holds {p = p} b i l c (try_locks x) f h =
    channel_call _ _ _ _ _ _ h p.terminations p.signalled true _ _ _ _ h.channels h.signals
      (omega arith) (omega arith) (omega arith) (λ u. omega arith)
Move-Holds {p = p} b i l c unlocks f h =
    channel_call _ _ _ _ _ _ h p.terminations p.signalled false _ _ _ _ h.channels h.signals
      (omega arith) (omega arith) (omega arith) (λ u. omega arith)
Move-Holds {p = p} b i l c (shut_locks x) f h =
    channel_call _ _ _ _ _ _ h p.terminations p.signalled true _ _ _ _ h.channels h.signals
      (omega arith) (omega arith) (omega arith) (λ u. omega arith)
Move-Holds {p = p} b i l c shut_unlocks f h =
    channel_call _ _ _ _ _ _ h p.terminations p.signalled false _ _ _ _ h.channels h.signals
      (omega arith) (omega arith) (omega arith) (λ u. omega arith)
Move-Holds {p = p} b i l c (shut_again x) f h =
    channel_call _ _ _ _ _ _ h (suc p.terminations) p.signalled p.locked _ _ _ _
      (λ z. absurd (omega arith)) h.signals (omega arith) (omega arith) (omega arith)
      (λ u. omega arith)
Move-Holds {p = p} b i l c (shut_terminated x) f h =
    channel_call _ _ _ _ _ _ h p.terminations (suc p.signalled) p.locked _ _ _ _ h.channels (λ z. x)
      (omega arith) (omega arith) (omega arith) (λ u. omega arith)
Move-Holds {p = p} b i l c (shut_running x) f h =
    state_call _ _ _ _ _ _ h 1 (suc p.terminations) p.signalled _ _ _ _ (omega arith) (omega arith)
      (λ z. absurd (omega arith)) (λ z. let w = h.signals z in absurd (omega arith)) (omega arith)
      (omega arith) (omega arith) (λ u. omega arith)
Move-Holds {p = p} b i l c terminate f h =
    state_call _ _ _ _ _ _ h 2 0 (p.signalled + p.terminations) _ _ _ _ h.states (omega arith)
      (λ z. (f.1, refl)) (λ z. omega arith) (omega arith) (omega arith) (omega arith)
      (λ u. omega arith)
Move-Holds {p = p} b i l c shut_closes f h =
    let x = close_lem p.queue in
    let y = x.keeps in
    queue_call _ _ _ _ _ _ h (fifo_close p.queue).1 _ _ _ _ (omega arith) (omega arith)
      (omega arith)
      (Covered-close p.queue (fifo_close p.queue).1 _ _ _ _ x h.covered (omega arith)
        (λ u. omega arith))
Move-Holds {p = p} b i l c (cancel_done {t = t} {q = q} e) f h =
    let x = remove-Removes t p.queue q e in
    let y = x.waiters in
    let z = x.woken in
    queue_call _ _ _ _ _ _ h q _ _ _ _ (omega arith) (omega arith) (omega arith)
      (Covered-remove t p.queue q _ _ _ _ x h.covered (omega arith) (λ u. omega arith))
