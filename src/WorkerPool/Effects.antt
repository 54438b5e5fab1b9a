-- ===== src/WorkerPool/Effects.antt =====
-- Proofs on what a call does to the queue: the copies of a task in it, and its goroutines.
use artemis.Prelude.{
  ℕ, zero, suc, ◌+◌, ◌-◌, ◌≤◌, ◌<◌, ◌≡◌, ◌⊎◌, inl, inr, refl, sym, ap, ◌∙◌, subst, Bool, true,
  false, ◌==◌, Option, some, none, List, [], ◌∷◌, ◌++◌, among, arith, Bool-cases,
}
use artemis.TaskQueue.{QueueError}
use artemis.TaskQueue.Members.{erase}
use artemis.TaskQueue.Calls.{
  Reply, result, got, waits, Fifo, fifo_push, fifo_poll, fifo_resume, fifo_remove, fifo_close,
}

abbrev pub one_if : Bool → ℕ
one_if true = 1
one_if false = 0

abbrev pub copies : ℕ → List ℕ → ℕ
copies t [] = 0
copies t (x ∷ xs) = one_if (x == t) + copies t xs

copies-append : (t : ℕ) (xs ys : List ℕ) → copies t (xs ++ ys) ≡ copies t xs + copies t ys
copies-append t [] ys = omega arith
copies-append t (x ∷ xs) ys = omega (arith, copies-append t xs ys)

copies-erase :
    (t u : ℕ) (xs : List ℕ)
    → among t xs ≡ true
    → copies u (erase t xs) + one_if (t == u) ≡ copies u xs
unfolding erase
copies-erase t u [] h = absurd (ground arith)
copies-erase t u (x ∷ xs) h = let ih = copies-erase t u xs in ground arith

copies-among : (t : ℕ) (xs : List ℕ) → among t xs ≡ false → copies t xs ≡ 0
copies-among t [] h = refl
copies-among t (x ∷ xs) h = let ih = copies-among t xs in ground arith

abbrev is_error : Reply → Bool
is_error (result none) = false
is_error _ = true

abbrev has_task : Reply → Bool
has_task (got (some t)) = true
has_task _ = false

abbrev is_waiting : Reply → Bool
is_waiting waits = true
is_waiting _ = false

pub record Pushes (t : ℕ) (s q : Fifo) : Type 0 where
  pub adds : (u : ℕ) → copies u q.tasks ≡ copies u s.tasks + one_if (t == u)
  pub keeps : q.waiters + q.woken ≡ s.waiters + s.woken
  pub wakes : s.woken ≤ q.woken
  pub first : s.tasks ≡ [] → (q.waiters ≡ 0) ⊎ (0 < q.woken)

push-first :
    (t : ℕ) (w : ℕ) (s : Fifo)
    → let s₀ = record s { tasks = []; closed = false; waiters = w } in
      Pushes t s₀ (fifo_push t s₀).1
push-first t zero s = record {
  adds = λ u. omega arith;
  keeps = refl;
  wakes = omega arith;
  first = λ _. inl refl;
}
push-first t (suc w) s = record {
  adds = λ u. omega arith;
  keeps = omega arith;
  wakes = omega arith;
  first = λ _. inr (omega arith);
}

push-Pushes :
    (t : ℕ) (xs : List ℕ) (c : Bool) (s q : Fifo)
    → let s₀ = record s { tasks = xs; closed = c } in
      fifo_push t s₀ ≡ (result none, q) → Pushes t s₀ q
push-Pushes t xs true s q e = absurd (let d = ap (λ r. is_error r.0) e in cc)
push-Pushes t [] false s q e =
    let s₀ = record s { tasks = []; closed = false } in
    subst (λ z. Pushes t s₀ z) (ap (λ r. r.1) e) (push-first t s.waiters s)
push-Pushes t (h ∷ ts) false s q e =
    let s₀ = record s { tasks = h ∷ ts; closed = false } in
    subst (λ z. Pushes t s₀ z) (ap (λ r. r.1) e)
      (record {
        adds = λ u. omega (arith, copies-append u ts (t ∷ []));
        keeps = refl;
        wakes = omega arith;
        first = λ n. absurd (let d = ap (λ l. elim l [ [] ↦ true | _ ∷ _ ↦ false ]) n in cc);
      })

pub record Removes (t : ℕ) (s q : Fifo) : Type 0 where
  pub takes : (u : ℕ) → copies u q.tasks + one_if (t == u) ≡ copies u s.tasks
  pub waiters : q.waiters ≡ s.waiters
  pub woken : q.woken ≡ s.woken
  pub empties : s.tasks ≡ [] → q.tasks ≡ []

pub remove-Removes : (t : ℕ) (s q : Fifo) → fifo_remove t s ≡ (result none, q) → Removes t s q
unfolding erase
remove-Removes t s q e = elim (Bool-cases (among t s.tasks)) [
  | inl m ↦
      let f : fifo_remove t s ≡ (result none, record s { tasks = erase t s.tasks }) = rw m refl in
      subst (λ z. Removes t s z) (ap (λ r. r.1) (sym f ∙ e))
        (record {
          takes = λ u. copies-erase t u s.tasks m;
          waiters = refl;
          woken = refl;
          empties = λ n. rw (n, erase) refl;
        })
  | inr m ↦
      let f : is_error (fifo_remove t s).0 ≡ true = rw m refl in
      absurd (let d = ap (λ r. is_error r.0) e in cc)
]

pub remove-missing :
    (t : ℕ) (e : QueueError) (s q : Fifo)
    → fifo_remove t s ≡ (result (some e), q)
    → copies t s.tasks ≡ 0
remove-missing t e s q h = elim (Bool-cases (among t s.tasks)) [
  | inl m ↦
      let f : is_error (fifo_remove t s).0 ≡ false = rw m refl in
      absurd (let d = ap (λ r. is_error r.0) h in cc)
  | inr m ↦ copies-among t s.tasks m
]

-- A Poll that does not block leaves the goroutines alone.
pub record Keeps (s q : Fifo) : Type 0 where
  pub waiters : q.waiters ≡ s.waiters
  pub woken : q.woken ≡ s.woken

Keeps-refl : (s : Fifo) → Keeps s s
Keeps-refl s = record { waiters = refl; woken = refl }

poll-Keeps :
    (xs : List ℕ) (c : Bool) (o : Option ℕ) (s q : Fifo)
    → let s₀ = record s { tasks = xs; closed = c } in fifo_poll s₀ ≡ (got o, q) → Keeps s₀ q
poll-Keeps [] true o s q e =
    let s₀ = record s { tasks = []; closed = true } in
    subst (λ z. Keeps s₀ z) (ap (λ r. r.1) e) (Keeps-refl s₀)
poll-Keeps [] false o s q e = absurd (let d = ap (λ r. is_waiting r.0) e in cc)
poll-Keeps (h ∷ ts) c o s q e =
    let s₀ = record s { tasks = h ∷ ts; closed = c } in
    subst (λ z. Keeps s₀ z) (ap (λ r. r.1) e) (record { waiters = refl; woken = refl })

pub record Blocks (s q : Fifo) : Type 0 where
  pub waiters : q.waiters ≡ suc s.waiters
  pub woken : q.woken ≡ s.woken
  pub empty : q.tasks ≡ []

poll-Blocks :
    (xs : List ℕ) (c : Bool) (s q : Fifo)
    → let s₀ = record s { tasks = xs; closed = c } in fifo_poll s₀ ≡ (waits, q) → Blocks s₀ q
poll-Blocks [] true s q e = absurd (let d = ap (λ r. is_waiting r.0) e in cc)
poll-Blocks [] false s q e =
    let s₀ = record s { tasks = []; closed = false } in
    subst (λ z. Blocks s₀ z) (ap (λ r. r.1) e)
      (record { waiters = refl; woken = refl; empty = refl })
poll-Blocks (h ∷ ts) c s q e = absurd (let d = ap (λ r. is_waiting r.0) e in cc)

pub record Resumes (s q : Fifo) : Type 0 where
  pub waiters : q.waiters ≡ s.waiters
  pub woken : q.woken ≡ s.woken - 1

resume-Resumes :
    (xs : List ℕ) (o : Option ℕ) (s q : Fifo)
    → let s₀ = record s { tasks = xs } in fifo_resume s₀ ≡ (got o, q) → Resumes s₀ q
resume-Resumes [] o s q e =
    let s₀ = record s { tasks = [] } in
    subst (λ z. Resumes s₀ z) (ap (λ r. r.1) e) (record { waiters = refl; woken = refl })
resume-Resumes (h ∷ ts) o s q e =
    let s₀ = record s { tasks = h ∷ ts } in
    subst (λ z. Resumes s₀ z) (ap (λ r. r.1) e) (record { waiters = refl; woken = refl })

pub record Closes (s q : Fifo) : Type 0 where
  pub tasks : q.tasks ≡ s.tasks
  pub keeps : q.waiters + q.woken ≡ s.waiters + s.woken
  pub wakes : s.woken ≤ q.woken

close-Closes :
    (c : Bool) (s : Fifo) → let s₀ = record s { closed = c } in Closes s₀ (fifo_close s₀).1
close-Closes true s = record { tasks = refl; keeps = refl; wakes = omega arith }
close-Closes false s = record { tasks = refl; keeps = omega arith; wakes = omega arith }

-- The calls of any queue.
pub push_lem : (t : ℕ) (s q : Fifo) → fifo_push t s ≡ (result none, q) → Pushes t s q
push_lem t s q e = push-Pushes t s.tasks s.closed s q e

pub poll_lem : (o : Option ℕ) (s q : Fifo) → fifo_poll s ≡ (got o, q) → Keeps s q
poll_lem o s q e = poll-Keeps s.tasks s.closed o s q e

pub poll_waits_lem : (s q : Fifo) → fifo_poll s ≡ (waits, q) → Blocks s q
poll_waits_lem s q e = poll-Blocks s.tasks s.closed s q e

pub resume_lem : (o : Option ℕ) (s q : Fifo) → fifo_resume s ≡ (got o, q) → Resumes s q
resume_lem o s q e = resume-Resumes s.tasks o s q e

pub close_lem : (s : Fifo) → Closes s (fifo_close s).1
close_lem s = close-Closes s.closed s
