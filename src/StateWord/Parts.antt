-- ===== src/StateWord/Parts.antt =====
-- What the word stands for: a run state and a count of workers.
use Prim.Native.Nat.{bit_and, bit_or}
use artemis.Prelude.{
  ℕ, zero, suc, ◌+◌, ◌*◌, ◌%◌, ◌≤◌, ◌<◌, ◌≡◌, refl, ap, ◌∙◌, leb, ◌==◌, if◌then◌else◌, arith,
  Bool-cases, inl, inr,
}
use artemis.StateWord.{
  int64_le, run_state, worker_count, is_running, is_shutdown, is_terminated, make_state,
  set_run_state, inc_worker_count, dec_worker_count,
}
use artemis.StateWord.Bits.{parts, and-parts, or-parts, zero-or, and_zero, and_ones}

-- The word of a run state, by its place in RUNNING, SHUTDOWN and TERMINATED, and a count.
abbrev pub word : ℕ → ℕ → ℕ
word run count = (run * 0x100000000 + 0xFFFFFFFF00000000 + count) % 0x10000000000000000

-- Its upper half.
abbrev high : ℕ → ℕ
high zero = 0xFFFFFFFF
high (suc r) = r

word-parts : (r n : ℕ) → r ≤ 2 → n < 0x100000000 → word r n ≡ parts 32 (high r) n
word-parts zero n h l = omega arith
word-parts (suc r) n h l = omega arith

and-high :
    (r : ℕ)
    → r ≤ 2
    → (bit_and (high r) 0xFFFFFFFF ≡ high r)
      × (bit_and (high r) 0 ≡ 0)
      × (bit_or (high r) 0 ≡ high r)
and-high zero h = (refl, refl, refl)
and-high (suc zero) h = (refl, refl, refl)
and-high (suc (suc zero)) h = (refl, refl, refl)
and-high (suc (suc (suc r))) h = absurd (omega arith)

run_state-word : (r n : ℕ) → r ≤ 2 → n < 0x100000000 → run_state (word r n) ≡ word r 0
unfolding run_state
run_state-word r n h l =
    rw (word-parts r n h l, word-parts r 0 h (omega arith))
      (and-parts 32 (high r) 0xFFFFFFFF n 0 l (omega arith)
        ∙ omega (arith, (and-high r h).0, and_zero 32 n l))

worker_count-word : (r n : ℕ) → r ≤ 2 → n < 0x100000000 → worker_count (word r n) ≡ n
unfolding worker_count
worker_count-word r n h l =
    let e : bit_and (word r n) 0xFFFFFFFF ≡ n = rw (word-parts r n h l) (
      and-parts 32 (high r) 0 n 0xFFFFFFFF l (omega arith)
      ∙ omega (arith, (and-high r h).1, and_ones 32 n l)) in
    omega arith

make_state-word : (r n : ℕ) → r ≤ 2 → n < 0x100000000 → make_state (word r 0) n ≡ word r n
unfolding make_state
make_state-word r n h l =
    let below : n ≡ parts 32 0 n = omega arith in
    rw (word-parts r n h l, word-parts r 0 h (omega arith))
      (ap (bit_or (parts 32 (high r) 0)) below
        ∙ (or-parts 32 (high r) 0 0 n (omega arith) l ∙ omega (arith, (and-high r h).2, zero-or n)))

is_running-word : (r n : ℕ) → r ≤ 2 → n < 0x100000000 → is_running (word r n) ≡ (r == 0)
unfolding is_running
is_running-word r n h l = ground arith

is_shutdown-word : (r n : ℕ) → r ≤ 2 → n < 0x100000000 → is_shutdown (word r n) ≡ leb 1 r
unfolding is_shutdown
is_shutdown-word r n h l = ground arith

is_terminated-word : (r n : ℕ) → r ≤ 2 → n < 0x100000000 → is_terminated (word r n) ≡ leb 2 r
unfolding is_terminated
is_terminated-word r n h l = ground arith

inc-word : (r n : ℕ) → r ≤ 2 → suc n < 0x100000000 → inc_worker_count (word r n) ≡ word r (suc n)
unfolding inc_worker_count
inc-word r n h l = omega arith

dec-word : (r n : ℕ) → r ≤ 2 → suc n < 0x100000000 → dec_worker_count (word r (suc n)) ≡ word r n
unfolding dec_worker_count
dec-word r n h l = omega arith

int64_le-word :
    (q r n : ℕ) → q ≤ 2 → r ≤ 2 → n < 0x100000000 → int64_le (word q 0) (word r n) ≡ leb q r
int64_le-word q r n h k l = ground arith

-- SetRunState, called with a run state, puts the executor in the later one of that and its own, in
-- the order RUNNING, SHUTDOWN, TERMINATED, and the count stays.
pub set_run_state-word :
    (q r n : ℕ)
    → q ≤ 2
    → r ≤ 2
    → n < 0x100000000
    → set_run_state (word q 0) (word r n) ≡ word (if leb q r then r else q) n
unfolding set_run_state
set_run_state-word q r n h k l = elim (Bool-cases (leb q r)) [
  | inl e ↦ rw (int64_le-word q r n h k l, e) refl
  | inr e ↦ rw (int64_le-word q r n h k l, e, worker_count-word r n k l) (make_state-word q n h l)
]

-- A word of a run state and a count below 2³² gives both back, its tests tell the run state, and a
-- worker that is added or taken away changes the count alone, as long as the count has room.
pub word_lem :
    (r n : ℕ)
    → r ≤ 2
    → suc n < 0x100000000
    → (run_state (word r n) ≡ word r 0)
      × (worker_count (word r n) ≡ n)
      × (is_running (word r n) ≡ (r == 0))
      × (is_shutdown (word r n) ≡ leb 1 r)
      × (is_terminated (word r n) ≡ leb 2 r)
      × (inc_worker_count (word r n) ≡ word r (suc n))
      × (dec_worker_count (word r (suc n)) ≡ word r n)
word_lem r n h l =
    let m : n < 0x100000000 = omega arith in
    (
      run_state-word r n h m,
      worker_count-word r n h m,
      is_running-word r n h m,
      is_shutdown-word r n h m,
      is_terminated-word r n h m,
      inc-word r n h l,
      dec-word r n h l,
    )
