-- ===== src/DataLoader/Wakes.antt =====
-- What becomes of a task that waits: its results and the wakers of its futures.
pub mod Steps
pub mod Jobs
pub mod Calls
pub mod Waits
pub mod Woken
use artemis.Prelude.{
  ℕ, zero, suc, ◌+◌, ◌≤◌, ◌<◌, ◌≡◌, refl, sym, ap, subst, ◌∙◌, Bool, true, false, ◌&&◌, ◌||◌, ◌==◌,
  if◌then◌else◌, Option, some, none, List, [], ◌∷◌, ◌++◌, ◌⊎◌, length, get_elem?, among, Bool-cases,
  Option-cases, inl, inr, arith,
}
use artemis.DataLoader.{
  TaskResult, not_completed, result_err, result_value, Task, DataLoader, Config, LoadAction,
  complete_task, set_task_error, load_key, put_waker, holds_waker, set_result, complete, new_future,
  poll, cached, cached_task, new_task, enqueue, load, act, act_all, finish, with_keys, run_job,
  run_jobs,
}

module _ {W : Type 0} where
  abbrev pub IsIn : W → List W → Type 0
  IsIn w [] = ⊥
  IsIn w (v ∷ wakers) = (v ≡ w) ⊎ IsIn w wakers

  IsIn-left : (w : W) (xs ys : List W) → IsIn w xs → IsIn w (xs ++ ys)
  IsIn-left w (x ∷ xs) ys (inl e) = inl e
  IsIn-left w (x ∷ xs) ys (inr h) = inr (IsIn-left w xs ys h)
  IsIn-left w [] ys h = absurd h

  IsIn-right : (w : W) (xs ys : List W) → IsIn w ys → IsIn w (xs ++ ys)
  IsIn-right w [] ys h = h
  IsIn-right w (x ∷ xs) ys h = inr (IsIn-right w xs ys h)

  IsIn-get_elem? : (w : W) (xs : List W) (i : ℕ) → get_elem? xs i ≡ some w → IsIn w xs
  IsIn-get_elem? w [] i h = cc
  IsIn-get_elem? w (x ∷ xs) zero h = inl cc
  IsIn-get_elem? w (x ∷ xs) (suc i) h = inr (IsIn-get_elem? w xs i h)

  get_elem?-append :
      (w : W) (xs ys : List W) (i : ℕ) → get_elem? xs i ≡ some w → get_elem? (xs ++ ys) i ≡ some w
  get_elem?-append w [] ys i h = cc
  get_elem?-append w (x ∷ xs) ys zero h = h
  get_elem?-append w (x ∷ xs) ys (suc i) h = get_elem?-append w xs ys i h

  get_elem?-put_waker :
      (v : W) (xs : List W) (i j : ℕ)
      → (j == i) ≡ false
      → get_elem? (put_waker j v xs) i ≡ get_elem? xs i
  get_elem?-put_waker v [] i j h = refl
  get_elem?-put_waker v (x ∷ xs) zero zero h = ground arith
  get_elem?-put_waker v (x ∷ xs) (suc i) zero h = refl
  get_elem?-put_waker v (x ∷ xs) zero (suc j) h = refl
  get_elem?-put_waker v (x ∷ xs) (suc i) (suc j) h = get_elem?-put_waker v xs i j (ground arith)

abbrev pub IsDone : {V E W : Type 0} → TaskResult V E W → Type 0
IsDone (not_completed wakers) = ⊥
IsDone (result_err e) = Unit
IsDone (result_value v) = Unit

module _ {K V E W : Type 0} (config : Config K V E W) (t slot : ℕ) where
  -- A result that is completed stays, and the waker at the slot stays until it is woken.
  abbrev Evolves : TaskResult V E W → TaskResult V E W → List W → Type 0
  Evolves (not_completed wakers) (not_completed later) woken =
      (w : W) → get_elem? wakers slot ≡ some w → get_elem? later slot ≡ some w
  Evolves (not_completed wakers) (result_err e) woken =
      (w : W) → get_elem? wakers slot ≡ some w → IsIn w woken
  Evolves (not_completed wakers) (result_value v) woken =
      (w : W) → get_elem? wakers slot ≡ some w → IsIn w woken
  Evolves (result_err e) r woken = r ≡ result_err e
  Evolves (result_value v) r woken = r ≡ result_value v

  pub record Later (l x : DataLoader K V E W) : Type 0 where
    pub allocated : l.fresh ≤ x.fresh
    pub still_woken : (w : W) → IsIn w l.woken → IsIn w x.woken
    pub evolves : Evolves (l.task t).result (x.task t).result x.woken

  pub Evolves-same : (r : TaskResult V E W) (woken : List W) → Evolves r r woken
  Evolves-same (not_completed wakers) woken = λ w h. h
  Evolves-same (result_err e) woken = refl
  Evolves-same (result_value v) woken = refl

  Evolves-then :
      (q r s : TaskResult V E W) (woken later : List W)
      → ((w : W) → IsIn w woken → IsIn w later)
      → Evolves q r woken
      → Evolves r s later
      → Evolves q s later
  Evolves-then (not_completed a) (not_completed b) (not_completed c) woken later k g h =
      λ w e. h w (g w e)
  Evolves-then (not_completed a) (not_completed b) (result_err c) woken later k g h =
      λ w e. h w (g w e)
  Evolves-then (not_completed a) (not_completed b) (result_value c) woken later k g h =
      λ w e. h w (g w e)
  Evolves-then (not_completed a) (result_err b) s woken later k g h =
      subst (λ x. Evolves (not_completed a) x later) (sym h) (λ w e. k w (g w e))
  Evolves-then (not_completed a) (result_value b) s woken later k g h =
      subst (λ x. Evolves (not_completed a) x later) (sym h) (λ w e. k w (g w e))
  Evolves-then (result_err a) r s woken later k g h = subst (λ x. Evolves x s later) g h
  Evolves-then (result_value a) r s woken later k g h = subst (λ x. Evolves x s later) g h

  pub Later-then : (l x y : DataLoader K V E W) → Later l x → Later x y → Later l y
  Later-then l x y g h = record {
    allocated = omega (arith, g.allocated, h.allocated);
    still_woken = λ w e. h.still_woken w (g.still_woken w e);
    evolves =
        Evolves-then (l.task t).result (x.task t).result (y.task t).result x.woken y.woken
          h.still_woken g.evolves h.evolves;
  }

  pub Later-same :
      (l x : DataLoader K V E W)
      → l.fresh ≤ x.fresh
      → (x.task t).result ≡ (l.task t).result
      → x.woken ≡ l.woken
      → Later l x
  Later-same l x a e f = record {
    allocated = a;
    still_woken = λ w h. subst (IsIn w) (sym f) h;
    evolves =
        subst (λ r. Evolves (l.task t).result r x.woken) (sym e)
          (Evolves-same (l.task t).result x.woken);
  }
