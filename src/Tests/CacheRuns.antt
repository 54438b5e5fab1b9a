-- ===== src/Tests/CacheRuns.antt =====
-- Runs of graphql/handler, on bit sets that are vectors of bits.
use mathlib.Core.Option
use artemis.Prelude.{
  ℕ, zero, suc, ◌≡◌, ◌≤◌, ◌<◌, refl, subst, Bool, true, false, ◌||◌, ◌&&◌, not, ◌==◌, Option, some,
  none, List, [], ◌∷◌, codes, get_or, arith,
}
use artemis.OperationCache.{BitSet, new_lru_operation_cache}
use artemis.OperationCache.Shared.{IsBitSet, no_queries}
use artemis.OperationCache.Calls.{
  Call, get_query, add_query, serve, serve_shared, serve-eq-serve_shared,
}

abbrev set_at : ℕ → List Bool → List Bool
set_at zero [] = true ∷ []
set_at zero (b ∷ s) = true ∷ s
set_at (suc i) [] = false ∷ set_at i []
set_at (suc i) (b ∷ s) = b ∷ set_at i s

abbrev clear_at : ℕ → List Bool → List Bool
clear_at i [] = []
clear_at zero (b ∷ s) = false ∷ s
clear_at (suc i) (b ∷ s) = b ∷ clear_at i s

abbrev behind : Option ℕ → Option ℕ
behind none = none
behind (some i) = some (suc i)

abbrev next_at : List Bool → ℕ → Option ℕ
next_at [] i = none
next_at (true ∷ s) zero = some 0
next_at (false ∷ s) zero = behind (next_at s 0)
next_at (b ∷ s) (suc i) = behind (next_at s i)

abbrev bits : BitSet
bits = record {
  Bits = List Bool;
  empty = [];
  set_bit = set_at;
  clear_bit = clear_at;
  next_set = next_at;
}

bit_set_at :
    (i : ℕ) (s : List Bool) (j : ℕ) → get_or (set_at i s) j false ≡ (i == j || get_or s j false)
bit_set_at zero [] zero = refl
bit_set_at zero [] (suc j) = ground arith
bit_set_at zero (b ∷ s) zero = refl
bit_set_at zero (b ∷ s) (suc j) = ground arith
bit_set_at (suc i) [] zero = ground arith
bit_set_at (suc i) [] (suc j) = ground (arith, bit_set_at i [] j)
bit_set_at (suc i) (b ∷ s) zero = ground arith
bit_set_at (suc i) (b ∷ s) (suc j) = ground (arith, bit_set_at i s j)

bit_clear_at :
    (i : ℕ) (s : List Bool) (j : ℕ)
    → get_or (clear_at i s) j false ≡ (not (i == j) && get_or s j false)
bit_clear_at i [] j = ground arith
bit_clear_at zero (b ∷ s) zero = ground arith
bit_clear_at zero (b ∷ s) (suc j) = ground arith
bit_clear_at (suc i) (b ∷ s) zero = ground arith
bit_clear_at (suc i) (b ∷ s) (suc j) = ground (arith, bit_clear_at i s j)

abbrev Next : List Bool → ℕ → Option ℕ → Type 0
Next s i none = (k : ℕ) → i ≤ k → get_or s k false ≡ false
Next s i (some j) =
    (i ≤ j) × (get_or s j false ≡ true) × ((k : ℕ) → i ≤ k → k < j → get_or s k false ≡ false)

-- The bits behind the first.
below :
    (b : Bool) (s : List Bool) (i k : ℕ)
    → suc i ≤ k
    → ((m : ℕ) → k ≡ suc m → get_or s m false ≡ false)
    → get_or (b ∷ s) k false ≡ false
below b s i zero h f = absurd (omega arith)
below b s i (suc k) h f = f k refl

below_false :
    (s : List Bool) (k : ℕ)
    → ((m : ℕ) → k ≡ suc m → get_or s m false ≡ false)
    → get_or (false ∷ s) k false ≡ false
below_false s zero f = refl
below_false s (suc k) f = f k refl

Next-behind :
    (b : Bool) (s : List Bool) (i : ℕ) (o : Option ℕ) → Next s i o → Next (b ∷ s) (suc i) (behind o)
Next-behind b s i none h = λ k le. below b s i k le (λ m e. h m (omega arith))
Next-behind b s i (some j) h = (
  omega (arith, h.0),
  h.1,
  λ k le lt. below b s i k le (λ m e. h.2 m (omega arith) (omega arith)),
)

Next-false : (s : List Bool) (o : Option ℕ) → Next s 0 o → Next (false ∷ s) 0 (behind o)
Next-false s none h = λ k le. below_false s k (λ m e. h m (omega arith))
Next-false s (some j) h =
    (omega arith, h.1, λ k le lt. below_false s k (λ m e. h.2 m (omega arith) (omega arith)))

Next-next_at : (s : List Bool) (i : ℕ) → Next s i (next_at s i)
Next-next_at [] i = λ k h. refl
Next-next_at (true ∷ s) zero = (omega arith, refl, λ k h l. absurd (omega arith))
Next-next_at (false ∷ s) zero = Next-false s (next_at s 0) (Next-next_at s 0)
Next-next_at (true ∷ s) (suc i) = Next-behind true s i (next_at s i) (Next-next_at s i)
Next-next_at (false ∷ s) (suc i) = Next-behind false s i (next_at s i) (Next-next_at s i)

bits-IsBitSet : IsBitSet bits
bits-IsBitSet = record {
  has = λ s j. get_or s j false;
  has-empty = λ j. refl;
  has-set = bit_set_at;
  has-clear = bit_clear_at;
  next_set-some = λ s i j e. subst (Next s i) e (Next-next_at s i);
  next_set-none = λ s i e. subst (Next s i) e (Next-next_at s i);
}

abbrev calls : List (Call ℕ)
calls =
    add_query (codes "{ a }") 1
    ∷ add_query (codes "{ b }") 2
    ∷ get_query (codes "{ a }")
    ∷ get_query (codes "{ c }")
    ∷ []

serve-eq-serve_shared_example :
    Option.map (serve bits ℕ calls) (new_lru_operation_cache bits ℕ 3)
    ≡ some (serve_shared ℕ 3 calls (no_queries ℕ))
serve-eq-serve_shared_example = serve-eq-serve_shared bits bits-IsBitSet ℕ 2 calls
