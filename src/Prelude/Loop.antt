-- ===== src/Prelude/Loop.antt =====
-- A `for` loop whose body goes on with a new state, stops with a result, or fails; on fuel.
use Prim.Native.Nat.{ℕ, zero, suc, ◌<◌}
use native.Mathlib.Omega.{arith}
use artemis.Prelude.Outcome.{SyntaxError, Outcome, ok, err, panic, out_of_fuel, Ensures}

pub data LoopStep (S R : Type 0) : Type 0 where
  continue : S → LoopStep S R
  stop : R → LoopStep S R

module _ {S R : Type 0} where
  pub iterate : ℕ → (S → Outcome (LoopStep S R)) → S → Outcome R
  iterate zero body s = out_of_fuel
  iterate (suc fuel) body s = elim (body s) [
    | ok t ↦ elim t [ continue s' ↦ iterate fuel body s' | stop r ↦ ok r ]
    | err e ↦ err e
    | panic ↦ panic
    | out_of_fuel ↦ out_of_fuel
  ]

  -- What a round must establish: the invariant at a smaller measure, or the result.
  abbrev pub Round : (S → Type 0) → (S → ℕ) → (R → Type 0) → ℕ → LoopStep S R → Type 0
  Round P measure Q m (continue s) = P s × (measure s < m)
  Round P measure Q m (stop r) = Q r

module _ {S R : Type 0} (P : S → Type 0) (measure : S → ℕ) (Q : R → Type 0)
    (E : SyntaxError → Type 0) (body : S → Outcome (LoopStep S R))
    (round : (s : S) → P s → Ensures (Round P measure Q (measure s)) E (body s)) where
  next-Round :
      (fuel : ℕ)
      → ((s : S) → P s → measure s < fuel → Ensures Q E (iterate fuel body s))
      → (s : S) (r : Outcome (LoopStep S R)) → Ensures (Round P measure Q (measure s)) E r
      → measure s < suc fuel
      → Ensures Q E (elim r [
        | ok t ↦ elim t [ continue s' ↦ iterate fuel body s' | stop q ↦ ok q ]
        | err e ↦ err e
        | panic ↦ panic
        | out_of_fuel ↦ out_of_fuel
      ])
  next-Round fuel ih s (ok (continue s')) h m = ih s' h.0 (omega arith)
  next-Round fuel ih s (ok (stop q)) h m = h
  next-Round fuel ih s (err e) h m = h
  next-Round fuel ih s panic h m = h
  next-Round fuel ih s out_of_fuel h m = h

  -- With a measure below the fuel the loop ends by itself, and its result is as required.
  pub iterate_lem : (fuel : ℕ) (s : S) → P s → measure s < fuel → Ensures Q E (iterate fuel body s)
  unfolding iterate
  iterate_lem zero s h m = absurd (omega arith)
  iterate_lem (suc fuel) s h m = next-Round fuel (iterate_lem fuel) s (body s) (round s h) m
