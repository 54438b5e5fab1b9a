-- ===== src/Tests/LoaderRuns.antt =====
-- Runs of dataloader.
use artemis.Prelude.{
  ℕ, ◌+◌, ◌≡◌, refl, true, ◌==◌, if◌then◌else◌, some, List, [], ◌∷◌, codes, Bytes, arith, ◌⊎◌,
}
use artemis.DataLoader.{Config, DataLoader, not_completed, LoadAction, complete_task, load_key}
use artemis.DataLoader.Batches.{batches, batch_loop, concat, AreSized, batches-AreSized}
use artemis.DataLoader.Wakes.{IsIn, IsDone}
use artemis.DataLoader.Wakes.Calls.{
  Call, load_call, poll_call, clear_call, prime_call, dispatch_call, run_call, run_calls,
}
use artemis.DataLoader.Wakes.Woken.{dispatch-IsDone-IsIn}

abbrev two : ℕ
two = 2

abbrev three : List ℕ
three = 7 ∷ 8 ∷ 9 ∷ []

batches-AreSized_example :
    (concat (batches two three) ≡ three) × (two ≡ 0 ⊎ AreSized two (batches two three))
batches-AreSized_example = batches-AreSized two three (omega arith)

batches_run : batches two three ≡ (7 ∷ 8 ∷ []) ∷ (9 ∷ []) ∷ []
unfolding batches batch_loop
batches_run = refl

-- Loads the key 1 only, and asks for the key 9.
abbrev load_some : List (ℕ × ℕ) → List (LoadAction ℕ ℕ Bytes)
load_some [] = load_key 9 ∷ []
load_some ((t, k) ∷ tasks) =
    let rest = load_some tasks in if k == 1 then complete_task t 100 ∷ rest else rest

abbrev config : Config ℕ ℕ Bytes ℕ
config = record {
  same_key = λ j k. j == k;
  same_waker = λ v w. v == w;
  nop_waker = 0;
  batch_load = load_some;
  not_completed_err = λ k. codes "not completed";
  max_batch_size = 1;
}

-- Two tasks wait, with a future of each.
abbrev loader : DataLoader ℕ ℕ Bytes ℕ
loader = record {
  fresh = 2;
  task = λ t. record { key = t + 1; result = not_completed (0 ∷ []) };
  queue = 0 ∷ 1 ∷ [];
  cache = some ((1, 0) ∷ (2, 1) ∷ []);
  woken = [];
}

abbrev calls : List (Call ℕ ℕ Bytes ℕ)
calls =
    load_call (some 2) ∷ poll_call 1 1 6 ∷ clear_call 2 ∷ load_call (some 2) ∷ prime_call 3 30 ∷ []

same_waker-eq : (v w : ℕ) → (v == w) ≡ true → v ≡ w
same_waker-eq v w h = ground arith

dispatch-IsDone-IsIn_example :
    IsDone
      ((run_call config dispatch_call
          (run_calls config calls (run_call config (poll_call 1 0 5) loader))).task
        1).result
    × IsIn 5
        (run_call config dispatch_call
          (run_calls config calls (run_call config (poll_call 1 0 5) loader))).woken
dispatch-IsDone-IsIn_example =
    dispatch-IsDone-IsIn config 1 0 calls loader 5 (0 ∷ []) (λ v. same_waker-eq v 5) (omega arith)
      refl refl (omega arith) (refl, tt)
