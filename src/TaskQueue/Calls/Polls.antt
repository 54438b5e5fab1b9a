-- ===== src/TaskQueue/Calls/Polls.antt =====
-- Proofs on one Push or Poll.
use artemis.Prelude.{
  ℕ, zero, suc, ◌-◌, ◌≡◌, refl, sym, ap, Bool, true, false, ◌==◌, Option, some, none, List, [], ◌∷◌,
  ◌++◌, among, arith,
}
use artemis.TaskQueue.{returns, link, push, poll, poll_woken, take_head, close}
use artemis.TaskQueue.Ring.{
  Way, Way-link, Way-end, Way-append, last, last-other, last-not, Way-last, Apart,
}
use artemis.TaskQueue.Members.{Apart-snoc, last-append}
use artemis.TaskQueue.Calls.{
  result, got, pushes, polls, resumes, closes, call, Fifo, fifo_call, queue_at, Linked, Agrees,
}

module _ (next : ℕ → Option ℕ) (t : ℕ) where
  -- The links after a task has been appended.
  Linked-push :
      (h : ℕ) (ts : List ℕ)
      → Way next h ts h
      → Apart (h ∷ ts)
      → among t (h ∷ ts) ≡ false
      → Linked (link (link next t (next (last h ts))) (last h ts) (some t)) (h ∷ (ts ++ (t ∷ [])))
  Linked-push h ts p a m =
      let one : ℕ → Option ℕ = link next t (next (last h ts)) in
      let two : ℕ → Option ℕ = link one (last h ts) (some t) in
      let p₁ : Way one h ts h = Way-link next t (next (last h ts)) h ts h p m in
      let p₂ : Way two h ts t = Way-end one h ts h t p₁ a in
      let e : (last h ts == t) ≡ false = last-not t h ts m in
      let q : two t ≡ some h = rw e (ground (arith, Way-last next h ts h p)) in
      (Way-append two h ts t [] h p₂ q, Apart-snoc (h ∷ ts) t a m)

pub push-Agrees :
    (fuel : ℕ) (next : ℕ → Option ℕ) (t : ℕ) (xs : List ℕ) (c : Bool) (w : ℕ) (s : Fifo)
    → let s₀ = record s { tasks = xs; closed = c; waiters = w } in
      Linked next xs
      → among t xs ≡ false
      → Agrees (call fuel (pushes t) (queue_at next s₀)) (fifo_call (pushes t) s₀)
unfolding push
push-Agrees fuel next t xs true w s l m = record { next = next; ends = refl; links = l }
push-Agrees fuel next t [] false zero s l m = record {
  next = link next t (some t);
  ends = refl;
  links = (ground arith, (refl, tt));
}
push-Agrees fuel next t [] false (suc w) s l m = record {
  next = link next t (some t);
  ends = refl;
  links = (ground arith, (refl, tt));
}
push-Agrees fuel next t (h ∷ ts) false w s (p, a) m = record {
  next = link (link next t (next (last h ts))) (last h ts) (some t);
  ends =
      ap
        (λ x. returns (
          result none,
          record (queue_at (link (link next t (next (last h ts))) (last h ts) (some t)) s) {
            tail = some x;
            closed = false;
            waiters = w;
          },
        ))
        (sym (last-append h ts t []));
  links = Linked-push next t h ts p a m;
}

-- The links after the head has been taken.
abbrev next_without : (ℕ → Option ℕ) → ℕ → List ℕ → ℕ → Option ℕ
next_without next h [] = next
next_without next h (x ∷ ts) = link next (last x ts) (next h)

Linked-take :
    (next : ℕ → Option ℕ) (h : ℕ) (ts : List ℕ)
    → Way next h ts h
    → Apart (h ∷ ts)
    → Linked (next_without next h ts) ts
Linked-take next h [] p a = tt
Linked-take next h (x ∷ ts) (e, p) (m, a) = rw e (Way-end next x ts h x p a, a)

take_head-queue_at :
    (next : ℕ → Option ℕ) (h : ℕ) (ts : List ℕ) (s : Fifo)
    → Linked next (h ∷ ts)
    → take_head (queue_at next (record s { tasks = h ∷ ts }))
      ≡ returns (some h, queue_at (next_without next h ts) (record s { tasks = ts }))
unfolding take_head
take_head-queue_at next h [] s (p, a) = let e : (h == h) ≡ true = ground arith in rw (p, e) refl
take_head-queue_at next h (x ∷ ts) s ((f, p), a) =
    rw (Way-last next x ts h p, last-other h x ts a.0) refl

pub poll-Agrees :
    (fuel : ℕ) (next : ℕ → Option ℕ) (xs : List ℕ) (c : Bool) (s : Fifo)
    → let s₀ = record s { tasks = xs; closed = c } in
      Linked next xs → Agrees (call fuel polls (queue_at next s₀)) (fifo_call polls s₀)
unfolding poll
poll-Agrees fuel next [] true s l = record { next = next; ends = refl; links = tt }
poll-Agrees fuel next [] false s l = record { next = next; ends = refl; links = tt }
poll-Agrees fuel next (h ∷ ts) c s l = record {
  next = next_without next h ts;
  ends = rw (take_head-queue_at next h ts (record s { closed = c }) l) refl;
  links = Linked-take next h ts l.0 l.1;
}

resume-empty :
    (fuel : ℕ) (next : ℕ → Option ℕ) (s : Fifo)
    → let s₀ = record s { tasks = [] } in
      call fuel resumes (queue_at next s₀)
      ≡ returns (got none, queue_at next (record s₀ { woken = s.woken - 1 }))
unfolding poll_woken take_head
resume-empty fuel next s = refl

pub resume-Agrees :
    (fuel : ℕ) (next : ℕ → Option ℕ) (xs : List ℕ) (s : Fifo)
    → let s₀ = record s { tasks = xs } in
      Linked next xs → Agrees (call fuel resumes (queue_at next s₀)) (fifo_call resumes s₀)
unfolding poll_woken
resume-Agrees fuel next [] s l = record { next = next; ends = resume-empty fuel next s; links = tt }
resume-Agrees fuel next (h ∷ ts) s l = record {
  next = next_without next h ts;
  ends = rw (take_head-queue_at next h ts (record s { woken = s.woken - 1 }) l) refl;
  links = Linked-take next h ts l.0 l.1;
}

pub close-Agrees :
    (fuel : ℕ) (next : ℕ → Option ℕ) (c : Bool) (s : Fifo)
    → let s₀ = record s { closed = c } in
      Linked next s.tasks → Agrees (call fuel closes (queue_at next s₀)) (fifo_call closes s₀)
unfolding close
close-Agrees fuel next true s l = record { next = next; ends = refl; links = l }
close-Agrees fuel next false s l = record { next = next; ends = refl; links = l }
