-- ===== src/StateWord.antt =====
-- concurrent/worker_pool_executor.go: workerPoolExecutorState, the word with the run state and the
-- worker count. An int64 is its 64 bits, as a number below 2⁶⁴. `SetRunState` is the round of its
-- loop in which no other goroutine writes; the compare-and-swaps succeed.
pub mod Bits
pub mod Parts
use Prim.Native.Nat.{bit_and, bit_or}
use artemis.Prelude.{ℕ, ◌+◌, ◌-◌, ◌*◌, ◌%◌, Bool, true, false, not, leb, if◌then◌else◌}

-- `a <= b` of int64: the top bit is the sign.
abbrev pub int64_le : ℕ → ℕ → Bool
int64_le a b =
    leb ((a + 0x8000000000000000) % 0x10000000000000000)
      ((b + 0x8000000000000000) % 0x10000000000000000)

abbrev pub run_state_mask : ℕ
run_state_mask = 0xFFFFFFFF00000000

abbrev pub run_state_running : ℕ
run_state_running = run_state_mask

abbrev pub run_state_shutdown : ℕ
run_state_shutdown = 0

abbrev pub run_state_terminated : ℕ
run_state_terminated = 0x100000000

unfoldable pub run_state : ℕ → ℕ
run_state s = bit_and s run_state_mask

-- The conversion to uint32 keeps the low 32 bits.
unfoldable pub worker_count : ℕ → ℕ
worker_count s = bit_and s 0xFFFFFFFF % 0x100000000

-- `s < 0`
unfoldable pub is_running : ℕ → Bool
is_running s = not (int64_le 0 s)

unfoldable pub is_shutdown : ℕ → Bool
is_shutdown s = int64_le run_state_shutdown s

unfoldable pub is_terminated : ℕ → Bool
is_terminated s = int64_le run_state_terminated s

unfoldable pub make_state : ℕ → ℕ → ℕ
make_state run count = bit_or run count

unfoldable pub set_run_state : ℕ → ℕ → ℕ
unfolding make_state worker_count
set_run_state new old = if int64_le new old then old else make_state new (worker_count old)

unfoldable pub inc_worker_count : ℕ → ℕ
inc_worker_count s = (s + 1) % 0x10000000000000000

unfoldable pub dec_worker_count : ℕ → ℕ
dec_worker_count s = (s + 0xFFFFFFFFFFFFFFFF) % 0x10000000000000000
