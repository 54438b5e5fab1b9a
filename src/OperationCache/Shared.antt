-- ===== src/OperationCache/Shared.antt =====
-- What the cache amounts to: its queries share one entry, which has the operation that was added
-- last, and once there are more queries than entries a further one blocks.
use artemis.Prelude.{
  ℕ, ◌≡◌, ◌≤◌, ◌<◌, refl, Bool, true, false, ◌||◌, ◌&&◌, not, ltb, ◌==◌, if◌then◌else◌, Option,
  some, none, List, [], ◌∷◌, ◌++◌, Bytes, bytes_eq, length, lookup, insert, arith,
}
use artemis.OperationCache.{BitSet, Run, returns, blocks, Ptr}

-- What the documentation of the package says of a BitSet; `has` tells the bits that are set.
pub record IsBitSet (b : BitSet) : Type 0 where
  pub has : b.Bits → ℕ → Bool
  pub has-empty : (j : ℕ) → has b.empty j ≡ false
  pub has-set : (i : ℕ) (s : b.Bits) (j : ℕ) → has (b.set_bit i s) j ≡ (i == j || has s j)
  pub has-clear : (i : ℕ) (s : b.Bits) (j : ℕ) → has (b.clear_bit i s) j ≡ (not (i == j) && has s j)
  pub next_set-some :
      (s : b.Bits) (i j : ℕ)
      → b.next_set s i ≡ some j
      → (i ≤ j) × (has s j ≡ true) × ((k : ℕ) → i ≤ k → k < j → has s k ≡ false)
  pub next_set-none :
      (s : b.Bits) (i : ℕ) → b.next_set s i ≡ none → (k : ℕ) → i ≤ k → has s k ≡ false

abbrev pub contains : Bytes → List Bytes → Bool
contains q [] = false
contains q (k ∷ keys) = bytes_eq q k || contains q keys

module _ (Op : Type 0) where
  pub record Shared : Type 0 where
    pub keys : List Bytes
    pub last : Option Op

  abbrev pub no_queries : Shared
  no_queries = record { keys = []; last = none }

  abbrev pub shared_get : Bytes → Shared → Option Op
  shared_get q a = if contains q a.keys then a.last else none

  abbrev pub shared_add : ℕ → Bytes → Op → Shared → Run Shared
  shared_add n q o a =
      if contains q a.keys
      then returns (record a { last = some o })
      else if ltb n (length a.keys)
      then blocks
      else returns (record { keys = a.keys ++ (q ∷ []); last = some o })

-- Every query with the one entry.
abbrev pub all_at : Ptr → List Bytes → List (Bytes × Ptr)
all_at e [] = []
all_at e (k ∷ keys) = (k, e) ∷ all_at e keys

pub lookup-all_at :
    (e : Ptr) (q : Bytes) (keys : List Bytes)
    → lookup q (all_at e keys) ≡ (if contains q keys then some e else none)
unfolding lookup
lookup-all_at e q [] = refl
lookup-all_at e q (k ∷ keys) = ground (arith, lookup-all_at e q keys)

pub insert-all_at :
    (e : Ptr) (q : Bytes) (keys : List Bytes)
    → contains q keys ≡ false
    → insert q e (all_at e keys) ≡ all_at e (keys ++ (q ∷ []))
unfolding insert
insert-all_at e q [] h = refl
insert-all_at e q (k ∷ keys) h = ground (arith, insert-all_at e q keys)
