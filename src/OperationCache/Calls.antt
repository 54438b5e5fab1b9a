-- ===== src/OperationCache/Calls.antt =====
-- Sequences of calls on a new cache.
use mathlib.Core.Option
use artemis.Prelude.{
  ℕ, suc, ◌≡◌, refl, ap, ◌∙◌, false, ltb, Option, some, List, [], ◌∷◌, Bytes, length, Bool-cases,
  inl, inr,
}
use artemis.OperationCache.{
  BitSet, Run, returns, panics, blocks, ◌>>=◌, Cache, new_lru_operation_cache, get, add,
}
use artemis.OperationCache.Shared.{IsBitSet, contains, Shared, no_queries, shared_get, shared_add}
use artemis.OperationCache.Refines.{Rep, get-Rep, new-Rep, add-old, add-room, add-blocks}

pub data Call (Op : Type 0) : Type 0 where
  get_query : Bytes → Call Op
  add_query : Bytes → Op → Call Op

-- The answers of `Get`, if all calls return.
abbrev pub serve :
    (bitset : BitSet) (Op : Type 0) → List (Call Op) → Cache bitset Op → Run (List (Option Op))
serve bitset Op [] c = returns []
serve bitset Op (get_query q ∷ calls) c = get bitset Op q c >>= λ (answer, c').
    serve bitset Op calls c' >>= λ answers. returns (answer ∷ answers)
serve bitset Op (add_query q o ∷ calls) c = add bitset Op q o c >>= λ c'. serve bitset Op calls c'

abbrev pub serve_shared : (Op : Type 0) → ℕ → List (Call Op) → Shared Op → Run (List (Option Op))
serve_shared Op n [] a = returns []
serve_shared Op n (get_query q ∷ calls) a =
    serve_shared Op n calls a >>= λ answers. returns (shared_get Op q a ∷ answers)
serve_shared Op n (add_query q o ∷ calls) a =
    shared_add Op n q o a >>= λ a'. serve_shared Op n calls a'

module _ (bitset : BitSet) (laws : IsBitSet bitset) (Op : Type 0) (n : ℕ) where
  abbrev Represents : Cache bitset Op → Shared Op → Type 0
  Represents = Rep bitset laws Op n

  unlocked-Rep :
      (c : Cache bitset Op) (a : Shared Op)
      → Represents c a
      → Represents (record c { locked = false }) a
  unlocked-Rep c a r = record {
    not_locked = refl;
    size = r.size;
    capacity = r.capacity;
    bits = r.bits;
    counted = r.counted;
    cached = r.cached;
    front = r.front;
    held = r.held;
  }

  -- `Add` returns a cache that stands for the state which `shared_add` returns, or both block.
  abbrev Agrees : Run (Cache bitset Op) → Run (Shared Op) → Type 0
  Agrees (returns c) (returns a) = Represents c a
  Agrees blocks blocks = Unit
  Agrees _ _ = ⊥

  add-Agrees :
      (c : Cache bitset Op) (a : Shared Op) (q : Bytes) (o : Op)
      → Represents c a
      → Agrees (add bitset Op q o c) (shared_add Op (suc n) q o a)
  add-Agrees c a q o r = elim (Bool-cases (contains q a.keys)) [
    | inl h ↦ let (c', e, r') = add-old bitset laws Op n c a q o r h in rw (e, h) r'
    | inr h ↦ elim (Bool-cases (ltb (suc n) (length a.keys))) [
      | inl k ↦ rw (add-blocks bitset laws Op n c a q o r h k, h, k) tt
      | inr k ↦ let (c', e, r') = add-room bitset laws Op n c a q o r h k in rw (e, h, k) r'
    ]
  ]

  serve-Rep :
      (calls : List (Call Op)) (c : Cache bitset Op) (a : Shared Op)
      → Represents c a
      → serve bitset Op calls c ≡ serve_shared Op (suc n) calls a
  serve-Rep [] c a r = refl
  serve-Rep (get_query q ∷ calls) c a r = rw (get-Rep bitset laws Op n c a q r) (
      ap (λ m. m >>= λ answers. returns (shared_get Op q a ∷ answers))
        (serve-Rep calls (record c { locked = false }) a (unlocked-Rep c a r)))
  serve-Rep (add_query q o ∷ calls) c a r =
      go (add bitset Op q o c) (shared_add Op (suc n) q o a) (add-Agrees c a q o r)
        (serve-Rep calls)
    where
      go :
          (m : Run (Cache bitset Op)) (k : Run (Shared Op))
          → Agrees m k
          → ((c' : Cache bitset Op) (a' : Shared Op)
              → Represents c' a'
              → serve bitset Op calls c' ≡ serve_shared Op (suc n) calls a')
          → (m >>= λ c'. serve bitset Op calls c') ≡ (k >>= λ a'. serve_shared Op (suc n) calls a')
      go (returns c') (returns a') x ih = ih c' a' x
      go blocks blocks x ih = refl
      go (returns c') panics x ih = elim x [ ]
      go (returns c') blocks x ih = elim x [ ]
      go panics k x ih = elim x [ ]
      go blocks (returns a') x ih = elim x [ ]
      go blocks panics x ih = elim x [ ]

  -- Any calls on a new cache of any size but 0 are answered as by a cache whose queries share one
  -- entry: a query that was added gets the operation that was added last, under whatever query. New
  -- queries are taken until there is one more than the size, and then adding a further one never
  -- returns. No call panics.
  pub serve-eq-serve_shared :
      (calls : List (Call Op))
      → Option.map (serve bitset Op calls) (new_lru_operation_cache bitset Op (suc n))
        ≡ some (serve_shared Op (suc n) calls (no_queries Op))
  serve-eq-serve_shared calls =
      let (c, e, r) = new-Rep bitset laws Op n in
      ap (Option.map (serve bitset Op calls)) e ∙ ap some (serve-Rep calls c (no_queries Op) r)
