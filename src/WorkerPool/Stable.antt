-- ===== src/WorkerPool/Stable.antt =====
-- Proofs that what a goroutine's place says stays true while other goroutines go on.
use artemis.Prelude.{ℕ, suc, ◌≤◌, ◌<◌, ◌≡◌, List, [], ◌∷◌, ◌++◌, arith}
use artemis.WorkerPool.{
  Config, Pool, Caller, first, last, helper, replacement, Pc, Move, rejected, started, add, add_cas,
  poll_empty, leaving, term_load, term_queue, try_empty, try_lock, try_set, submit_few, submit_last,
  reload_last, add_shut, add_full, add_room, cas_done, cas_failed, pushed_none, poll_load, quit,
  leave, term_running, term_replace, term_enough, try_shut, try_none, try_locks, terminate,
  shut_running,
}
use artemis.WorkerPool.Invariant.{Seen, Fact, Facts, Asks, Later}

Asks-Later :
    (config : Config) (p p' : Pool) (c : Caller) → Later p p' → Asks config p c → Asks config p' c
Asks-Later config p p' (first t) h a = a
Asks-Later config p p' (last t) h a = let x = h.run in omega arith
Asks-Later config p p' (helper t) h a = a
Asks-Later config p p' (replacement n) h a = a

Seen-Later : (r n : ℕ) (p p' : Pool) → Later p p' → Seen r n p → Seen r n p'
Seen-Later r n p p' h a = record {
  run = let x = h.run in let y = a.run in omega arith;
  count = λ z. let x = a.count z in let y = a.run in let w = h.count (omega arith) in omega arith;
}

empty-Later :
    (p p' : Pool) → Later p p' → (1 ≤ p.run) × (p.count ≡ 0) → (1 ≤ p'.run) × (p'.count ≡ 0)
empty-Later p p' h (a, e) = let x = h.run in let y = h.count a in (omega arith, omega arith)

pub Fact-Later :
    (config : Config) (p p' : Pool) (pc : Pc) → Later p p' → Fact config p pc → Fact config p' pc
Fact-Later config p p' (add c) h a = Asks-Later config p p' c h a
Fact-Later config p p' (add_cas r n c) h (a, b, d) = (a, b, Asks-Later config p p' c h d)
Fact-Later config p p' (poll_empty r n) h a = Seen-Later r n p p' h a
Fact-Later config p p' leaving h a = let x = h.run in omega arith
Fact-Later config p p' term_load h a = let x = h.run in omega arith
Fact-Later config p p' (term_queue r n) h a = a
Fact-Later config p p' (try_empty r n) h (a, b) = (a, Seen-Later r n p p' h b)
Fact-Later config p p' try_lock h a = empty-Later p p' h a
Fact-Later config p p' try_set h a = empty-Later p p' h a
Fact-Later config p p' _ h a = tt

pub Facts-Later :
    (config : Config) (p p' : Pool) (pcs : List Pc)
    → Later p p'
    → Facts config p pcs
    → Facts config p' pcs
Facts-Later config p p' [] h a = tt
Facts-Later config p p' (pc ∷ pcs) h (a, b) =
    (Fact-Later config p p' pc h a, Facts-Later config p p' pcs h b)

pub Facts-append :
    (config : Config) (p : Pool) (xs ys : List Pc)
    → Facts config p xs
    → Facts config p ys
    → Facts config p (xs ++ ys)
Facts-append config p [] ys a b = b
Facts-append config p (x ∷ xs) ys (a, c) b = (a, Facts-append config p xs ys c b)

pub Facts-split :
    (config : Config) (p : Pool) (xs ys : List Pc)
    → Facts config p (xs ++ ys)
    → Facts config p xs × Facts config p ys
Facts-split config p [] ys b = (tt, b)
Facts-split config p (x ∷ xs) ys (a, b) = let c = Facts-split config p xs ys b in ((a, c.0), c.1)

pub Move-Later :
    {config : Config} {p p' : Pool} {pc pc' : Pc} {new : List Pc}
    → Move config p pc p' pc' new
    → Fact config p pc
    → p.run ≤ 2
    → Later p p'
Move-Later (cas_done x y) (a, b, d) s = record {
  run = omega arith;
  count = λ z. absurd (omega arith);
}
Move-Later (shut_running x) f s = record { run = omega arith; count = λ z. omega arith }
Move-Later terminate f s = record { run = s; count = λ z. omega arith }
Move-Later leave f s = record { run = omega arith; count = λ z. omega arith }
Move-Later _ f s = record { run = omega arith; count = λ z. omega arith }

Fact-rejected : (config : Config) (p : Pool) (c : Caller) → Fact config p (rejected c)
Fact-rejected config p (first t) = tt
Fact-rejected config p (last t) = tt
Fact-rejected config p (helper t) = tt
Fact-rejected config p (replacement n) = tt

Fact-started : (config : Config) (p : Pool) (c : Caller) → Fact config p (started c)
Fact-started config p (first t) = tt
Fact-started config p (last t) = tt
Fact-started config p (helper t) = tt
Fact-started config p (replacement n) = tt

Seen-now : (p : Pool) → Seen p.run p.count p
Seen-now p = record { run = omega arith; count = λ z. omega arith }

-- The place that a step leads to says what is the case behind it.
pub Move-Facts :
    {config : Config} {p p' : Pool} {pc pc' : Pc} {new : List Pc}
    → Move config p pc p' pc' new
    → Fact config p pc
    → suc p.count < 0x100000000
    → Facts config p' (pc' ∷ new)
Move-Facts (submit_few x) f n = (ground arith, tt)
Move-Facts (submit_last x y) f n = (y, tt)
Move-Facts (reload_last x) f n = (x, tt)
Move-Facts {config = config} {p = p} (add_shut {c = c} x) f n = (Fact-rejected config p c, tt)
Move-Facts {config = config} {p = p} (add_full {c = c} x y) f n = (Fact-rejected config p c, tt)
Move-Facts (add_room x y) f n = ((x, omega arith, f), tt)
Move-Facts {config = config} {p = p} (cas_done {c = c} x y) f n =
    (tt, (Fact-started config (record p { count = suc p.count }) c, tt))
Move-Facts (cas_failed x) f n = (f.2, tt)
Move-Facts (pushed_none x y) f n = (ground arith, tt)
Move-Facts {p = p} poll_load f n = (Seen-now p, tt)
Move-Facts (quit x e) f n = (let y = f.run in omega arith, tt)
Move-Facts leave f n = (f, tt)
Move-Facts (term_running x) f n = absurd (omega arith)
Move-Facts (term_replace x) f n = absurd f
Move-Facts (term_enough x) f n = absurd f
Move-Facts {p = p} (try_shut x) f n = ((omega arith, Seen-now p), tt)
Move-Facts (try_none e x) f n =
    let s = f.1 in let y = s.run in let z = s.count f.0 in ((omega arith, omega arith), tt)
Move-Facts (try_locks x) f n = (f, tt)
Move-Facts _ f n = (tt, tt)
