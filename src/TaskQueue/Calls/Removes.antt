-- ===== src/TaskQueue/Calls/Removes.antt =====
-- Proofs on one Remove.
use artemis.Prelude.{
  ℕ, zero, suc, ◌<◌, ◌≡◌, refl, sym, ap, subst, true, false, ◌==◌, Option, some, none, List, [],
  ◌∷◌, ◌++◌, append-nil, among, length, length-append, arith, Bool-cases, inl, inr,
}
use artemis.TaskQueue.{
  Run, returns, element_not_found, TaskQueue, link, find_prev, remove, tail_without,
}
use artemis.TaskQueue.Ring.{
  Way, Way-link, Way-end, Way-append, Way-split, last, last-among, last-other, last-not, Way-last,
  Apart,
}
use artemis.TaskQueue.Members.{
  erase, Found, among-Found, eq-of, among-append, erase-split, Apart-left, Apart-right, Apart-among,
  Apart-without, Apart-middle, last-append,
}
use artemis.TaskQueue.Calls.{result, removes, call, Fifo, fifo_call, queue_at, Linked, Agrees}

module _ (next : ℕ → Option ℕ) (t h : ℕ) where
  -- The search ends in front of the task when the way leads to it.
  find_prev-Way :
      (fuel a : ℕ) (us : List ℕ)
      → Way next a us t
      → among t us ≡ false
      → among h us ≡ false
      → length us < fuel
      → find_prev fuel next t h a ≡ returns (some (last a us))
  unfolding find_prev
  find_prev-Way zero a us p m n l = absurd (omega arith)
  find_prev-Way (suc fuel) a [] p m n l = rw (find_prev, p) (ground arith)
  find_prev-Way (suc fuel) a (u ∷ us) (e, p) m n l =
      let f : (u == t) ≡ false = ground arith in
      let g : (u == h) ≡ false = ground arith in
      rw (find_prev, e, f, g)
        (find_prev-Way fuel u us p (ground arith) (ground arith) (omega arith))

  -- It ends without a result when the task is not on the way around.
  find_prev-none :
      (fuel a : ℕ) (us : List ℕ)
      → Way next a us h
      → among t us ≡ false
      → (h == t) ≡ false
      → among h us ≡ false
      → length us < fuel
      → find_prev fuel next t h a ≡ returns none
  unfolding find_prev
  find_prev-none zero a us p m e n l = absurd (omega arith)
  find_prev-none (suc fuel) a [] p m e n l = rw (find_prev, p, e) (ground arith)
  find_prev-none (suc fuel) a (u ∷ us) (d, p) m e n l =
      let f : (u == t) ≡ false = ground arith in
      let g : (u == h) ≡ false = ground arith in
      rw (find_prev, d, f, g)
        (find_prev-none fuel u us p (ground arith) e (ground arith) (omega arith))

module _ (next : ℕ → Option ℕ) (t h : ℕ) where
  Way-join :
      (us vs : List ℕ)
      → Way next h us t
      → Way next t vs h
      → Apart (h ∷ us)
      → ((z : ℕ) → among z (h ∷ us) ≡ true → among z (t ∷ vs) ≡ false)
      → Way (link next (last h us) (next t)) h (us ++ vs) h
  Way-join us [] p q a o = rw (q, append-nil us) (Way-end next h us t h p a)
  Way-join us (v ∷ vs) p (e, q) a o =
      let r = o (last h us) (last-among h us) in
      rw e (
        Way-append (link next (last h us) (some v)) h us v vs h (Way-end next h us t v p a)
          (Way-link next (last h us) (some v) v vs h q (ground arith)))

  -- The way around once the task `t` between `us` and `vs` has been taken out.
  Way-cut :
      (us vs : List ℕ)
      → Way next h (us ++ (t ∷ vs)) h
      → Apart (h ∷ (us ++ (t ∷ vs)))
      → Way (link (link next (last h us) (next t)) t none) h (us ++ vs) h
  Way-cut us vs p a =
      let parts = Way-split next h us t vs h p in
      let left : Apart (h ∷ us) = Apart-left (h ∷ us) (t ∷ vs) a in
      let none_left = Apart-middle (h ∷ us) t vs a in
      Way-link (link next (last h us) (next t)) t none h (us ++ vs) h
        (Way-join us vs parts.0 parts.1 left (λ z. Apart-among z (h ∷ us) (t ∷ vs) a)) none_left

tail_without-last :
    (t h : ℕ) (us vs : List ℕ)
    → (h == t) ≡ false
    → Apart (h ∷ (us ++ (t ∷ vs)))
    → tail_without t (last h us) (last t vs) h ≡ some (last h (us ++ vs))
tail_without-last t h us [] e a =
    let f : (t == t) ≡ true = ground arith in
    let g : (t == h) ≡ false = ground arith in rw (f, g, append-nil us) refl
tail_without-last t h us (v ∷ vs) e a =
    let m = (Apart-right (h ∷ us) (t ∷ (v ∷ vs)) a).0 in
    let f : (last v vs == t) ≡ false = last-not t v vs m in
    let g : (t == last v vs) ≡ false = ground arith in rw (g, last-append h us v vs) refl

-- A remove of a task that is in the queue, by the place where it stands.
remove-middle :
    (fuel : ℕ) (next : ℕ → Option ℕ) (t h : ℕ) (us vs : List ℕ) (s : Fifo)
    → (h == t) ≡ false
    → among t us ≡ false
    → Linked next (h ∷ (us ++ (t ∷ vs)))
    → length us < fuel
    → remove fuel t (queue_at next (record s { tasks = h ∷ (us ++ (t ∷ vs)) }))
      ≡ returns (
        none,
        queue_at
            (link (link next (last h us) (next t)) t none)
            (record s { tasks = h ∷ (us ++ vs) }),
      )
unfolding remove
remove-middle fuel next t h us vs s e m (p, a) l =
    let q = Way-last next h (us ++ (t ∷ vs)) h p in
    let n : among h us ≡ false = (Apart-left (h ∷ us) (t ∷ vs) a).0 in
    let f = find_prev-Way next t h fuel h us (Way-split next h us t vs h p).0 m n l in
    rw (q, f, last-append h us t vs)
      (ap
        (λ x.
          returns
            (none, record (queue_at (link (link next (last h us) (next t)) t none) s) { tail = x }))
        (tail_without-last t h us vs e a))

-- Of a task at the head of others, where the search ends at the tail.
remove-head :
    (fuel : ℕ) (next : ℕ → Option ℕ) (h x : ℕ) (ts : List ℕ) (s : Fifo)
    → Linked next (h ∷ (x ∷ ts))
    → length (x ∷ ts) < fuel
    → remove fuel h (queue_at next (record s { tasks = h ∷ (x ∷ ts) }))
      ≡ returns (
        none,
        queue_at (link (link next (last x ts) (next h)) h none) (record s { tasks = x ∷ ts }),
      )
unfolding remove
remove-head fuel next h x ts s ((e, p), a) l =
    let q = Way-last next x ts h p in
    let f = find_prev-Way next h h fuel h (x ∷ ts) (e, p) a.0 a.0 l in
    let g : (last x ts == h) ≡ false = last-other h x ts a.0 in
    let k : (h == last x ts) ≡ false = ground arith in rw (q, f, k) refl

remove-only :
    (fuel : ℕ) (next : ℕ → Option ℕ) (h : ℕ) (s : Fifo)
    → next h ≡ some h
    → 0 < fuel
    → remove fuel h (queue_at next (record s { tasks = h ∷ [] }))
      ≡ returns (none, queue_at (link (link next h (some h)) h none) (record s { tasks = [] }))
unfolding remove
remove-only fuel next h s p l =
    let f = find_prev-Way next h h fuel h [] p refl refl l in
    let g : (h == h) ≡ true = ground arith in
    rw (p, f, g)
      (ap (λ x. returns (none, queue_at (link (link next h x) h none) (record s { tasks = [] }))) p)

remove-missing :
    (fuel : ℕ) (next : ℕ → Option ℕ) (t h : ℕ) (ts : List ℕ) (s : Fifo)
    → Linked next (h ∷ ts)
    → among t (h ∷ ts) ≡ false
    → length ts < fuel
    → let q = queue_at next (record s { tasks = h ∷ ts }) in
      remove fuel t q ≡ returns (some element_not_found, q)
unfolding remove
remove-missing fuel next t h ts s (p, a) m l =
    let q = Way-last next h ts h p in
    let f = find_prev-none next t h fuel h ts p (ground arith) (ground arith) a.0 l in
    rw (q, f) refl

Agrees-as :
    {R : Type 0} (r : Run (R × TaskQueue)) (x y : R × Fifo) → x ≡ y → Agrees r x → Agrees r y
Agrees-as r x y e a = subst (λ z. Agrees r z) e a

-- A remove whose effect on the links is known.
Agrees-removed :
    (fuel : ℕ) (next next' : ℕ → Option ℕ) (t : ℕ) (xs ys : List ℕ) (s : Fifo)
    → among t xs ≡ true
    → erase t xs ≡ ys
    → remove fuel t (queue_at next (record s { tasks = xs }))
      ≡ returns (none, queue_at next' (record s { tasks = ys }))
    → Linked next' ys
    → let s₀ = record s { tasks = xs } in
      Agrees (call fuel (removes t) (queue_at next s₀)) (fifo_call (removes t) s₀)
Agrees-removed fuel next next' t xs ys s m e r l =
    Agrees-as (call fuel (removes t) (queue_at next (record s { tasks = xs })))
      (result none, record s { tasks = ys }) (fifo_call (removes t) (record s { tasks = xs }))
      (rw (m, e) refl) (record { next = next'; ends = rw r refl; links = l })

module _ (fuel : ℕ) (next : ℕ → Option ℕ) (t h : ℕ) (s : Fifo) where
  -- One remove of `t` from the list with the head `h` agrees with the list's.
  AgreesAt : List ℕ → Type 0
  AgreesAt ts =
      let s₀ = record s { tasks = h ∷ ts } in
      Agrees (call fuel (removes t) (queue_at next s₀)) (fifo_call (removes t) s₀)

remove-at :
    (fuel : ℕ) (next : ℕ → Option ℕ) (t h : ℕ) (us vs : List ℕ) (s : Fifo)
    → Linked next (h ∷ (us ++ (t ∷ vs)))
    → (h == t) ≡ false
    → among t us ≡ false
    → length (us ++ (t ∷ vs)) < fuel
    → AgreesAt fuel next t h s (us ++ (t ∷ vs))
unfolding AgreesAt
remove-at fuel next t h us vs s l e m n =
    let next' : ℕ → Option ℕ = link (link next (last h us) (next t)) t none in
    let k : length us < fuel = omega (arith, length-append us (t ∷ vs)) in
    let r = among-append t us (t ∷ vs) in
    Agrees-removed fuel next next' t (h ∷ (us ++ (t ∷ vs))) (h ∷ (us ++ vs)) s (ground arith)
      (erase-split t (h ∷ us) vs (rw (e, m) refl)) (remove-middle fuel next t h us vs s e m l k)
      (Way-cut next t h us vs l.0 l.1, Apart-without (h ∷ us) t vs l.1)

remove-first :
    (fuel : ℕ) (next : ℕ → Option ℕ) (h : ℕ) (ts : List ℕ) (s : Fifo)
    → Linked next (h ∷ ts)
    → length ts < fuel
    → AgreesAt fuel next h h s ts
unfolding AgreesAt
remove-first fuel next h [] s l n =
    Agrees-removed fuel next (link (link next h (some h)) h none) h (h ∷ []) [] s (ground arith)
      (erase-split h [] [] refl) (remove-only fuel next h s l.0 n) tt
remove-first fuel next h (x ∷ ts) s ((e, p), a) n =
    Agrees-removed fuel next (link (link next (last x ts) (next h)) h none) h (h ∷ (x ∷ ts))
      (x ∷ ts) s (ground arith) (erase-split h [] (x ∷ ts) refl)
      (remove-head fuel next h x ts s ((e, p), a) n)
      (
        Way-link (link next (last x ts) (next h)) h none x ts x (rw e (Way-end next x ts h x p a.1))
            a.0,
        a.1,
      )

pub remove-Agrees :
    (fuel : ℕ) (next : ℕ → Option ℕ) (t : ℕ) (xs : List ℕ) (s : Fifo)
    → let s₀ = record s { tasks = xs } in
      Linked next xs
      → length xs < suc fuel
      → Agrees (call fuel (removes t) (queue_at next s₀)) (fifo_call (removes t) s₀)
unfolding AgreesAt remove
remove-Agrees fuel next t [] s l n = record { next = next; ends = refl; links = tt }
remove-Agrees fuel next t (h ∷ ts) s l n = elim (Bool-cases (h == t)) [
  | inl e ↦
      subst (λ z. AgreesAt fuel next z h s ts) (eq-of h t e)
        (remove-first fuel next h ts s l (omega arith))
  | inr e ↦ elim (Bool-cases (among t ts)) [
    | inl m ↦
        let f : Found t ts = among-Found t ts m in
        let g = sym f.splits in
        subst (λ zs. AgreesAt fuel next t h s zs) g
          (remove-at fuel next t h f.before f.after s
            (subst (λ zs. Linked next (h ∷ zs)) f.splits l) e f.first
            (subst (λ zs. length zs < fuel) f.splits (omega arith)))
    | inr m ↦
        let s₀ = record s { tasks = h ∷ ts } in
        let k : among t (h ∷ ts) ≡ false = rw (e, m) refl in
        Agrees-as (call fuel (removes t) (queue_at next s₀)) (result (some element_not_found), s₀)
          (fifo_call (removes t) s₀) (rw k refl)
          (record {
            next = next;
            ends = rw (remove-missing fuel next t h ts s l k (omega arith)) refl;
            links = l;
          })
  ]
]
