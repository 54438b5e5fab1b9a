-- ===== src/OperationCache/Refines.antt =====
-- The cache behaves as `Shared` says, from its creation on.
use artemis.Prelude.{
  ℕ, suc, ◌-◌, ◌≡◌, refl, sym, ap, ◌∙◌, true, false, ltb, ◌==◌, if◌then◌else◌, some, none, List, [],
  ◌∷◌, ◌++◌, Bytes, length, length-append, lookup, insert, Option-cases, inl, inr, arith,
}
use artemis.OperationCache.{
  write, set_next, set_prev, BitSet, returns, blocks, Ptr, root, entry, Cache, EvictList,
  new_lru_operation_cache, get, add, add_new, remove_oldest, push_front, new_entry, insert_after,
  move_to_front, new_lru_evict_list,
}
use artemis.OperationCache.Shared.{
  IsBitSet, contains, Shared, no_queries, shared_get, all_at, lookup-all_at, insert-all_at,
}

module _ (bitset : BitSet) (laws : IsBitSet bitset) (Op : Type 0) (n : ℕ) where
  abbrev pub only : Ptr
  only = entry n

  -- The entry at the front, or the sentinel.
  abbrev pub first_of : List Bytes → Ptr
  first_of [] = root
  first_of (k ∷ keys) = only

  pub record Rep (c : Cache bitset Op) (a : Shared Op) : Type 0 where
    pub not_locked : c.locked ≡ false
    pub size : c.max_entries ≡ suc n
    pub capacity : c.evict_list.max_entries ≡ suc n
    pub bits : (j : ℕ) → laws.has c.evict_list.allocated j ≡ (n == j)
    pub counted : c.evict_list.len ≡ length a.keys
    pub cached : c.cache ≡ all_at only a.keys
    pub front : (c.evict_list.entries root).next ≡ some (first_of a.keys)
    pub held : (c.evict_list.entries only).operation ≡ a.last

  -- The one bit that is set is the one that is found.
  next_only : (s : bitset.Bits) → ((j : ℕ) → laws.has s j ≡ (n == j)) → bitset.next_set s 0 ≡ some n
  next_only s h = elim (Option-cases (bitset.next_set s 0)) [
    | inl e ↦ absurd (ground (arith, laws.next_set-none s 0 e n (omega arith), h n))
    | inr (j, e) ↦ ground (arith, laws.next_set-some s 0 j e, h j)
  ]

  front_only : (q : Bytes) (keys : List Bytes) → contains q keys ≡ true → first_of keys ≡ only
  front_only q [] h = cc
  front_only q (k ∷ keys) h = refl

  stays :
      (l : EvictList bitset Op)
      → (l.entries root).next ≡ some only
      → move_to_front bitset Op only l ≡ returns l
  unfolding move_to_front
  stays l h = rw h (ground arith)

  looked_up :
      (c : Cache bitset Op) (a : Shared Op) (q : Bytes)
      → Rep c a
      → lookup q c.cache ≡ (if contains q a.keys then some only else none)
  looked_up c a q r = ap (lookup q) r.cached ∙ lookup-all_at only q a.keys

  pub get-Rep :
      (c : Cache bitset Op) (a : Shared Op) (q : Bytes)
      → Rep c a
      → get bitset Op q c ≡ returns (shared_get Op q a, record c { locked = false })
  unfolding get
  get-Rep c a q r =
      ground (arith, looked_up c a q r, front_only q a.keys, stays c.evict_list, r.front)

  pub new-Rep :
      (c : Cache bitset Op) × (new_lru_operation_cache bitset Op (suc n) ≡ some c)
      × Rep c (no_queries Op)
  unfolding new_lru_operation_cache new_lru_evict_list
  new-Rep = (
    _,
    refl,
    record {
      not_locked = refl;
      size = refl;
      capacity = refl;
      bits = λ j. ground (arith, laws.has-set (suc n - 1) bitset.empty j, laws.has-empty j);
      counted = refl;
      cached = refl;
      front = refl;
      held = refl;
    },
  )

  -- A query that the cache has.
  pub add-old :
      (c : Cache bitset Op) (a : Shared Op) (q : Bytes) (o : Op)
      → Rep c a
      → contains q a.keys ≡ true
      → (c' : Cache bitset Op) × (add bitset Op q o c ≡ returns c')
        × Rep c' (record a { last = some o })
  unfolding add
  add-old c a q o r h =
      let l = write bitset Op only (λ x. record x { operation = some o }) c.evict_list in
      (
        record c { locked = false; evict_list = l },
        ground (arith, looked_up c a q r, front_only q a.keys, stays c.evict_list, r.front),
        record {
          not_locked = refl;
          size = r.size;
          capacity = r.capacity;
          bits = r.bits;
          counted = r.counted;
          cached = r.cached;
          front = r.front;
          held = ground arith;
        },
      )

  -- What `push_front` leaves, once the entry at the front is `p`.
  abbrev pushed : Bytes → Op → Ptr → EvictList bitset Op → EvictList bitset Op
  pushed q o p l =
      let l₁ =
        write bitset Op only (λ e. record e { query = q; operation = some o })
          (record l { allocated = bitset.set_bit n l.allocated }) in
      let l₂ =
        set_next bitset Op only (some p)
          (set_prev bitset Op only (some root) (set_next bitset Op root (some only) l₁)) in
      record (set_prev bitset Op p (some only) l₂) { len = suc l.len }

  push_front-only :
      (l : EvictList bitset Op) (q : Bytes) (o : Op) (p : Ptr)
      → l.max_entries ≡ suc n
      → bitset.next_set l.allocated 0 ≡ some n
      → (l.entries root).next ≡ some p
      → push_front bitset Op q o l ≡ returns (only, pushed q o p l)
  unfolding push_front new_entry insert_after
  push_front-only l q o p m b f = ground arith

  pushed_front :
      (l : EvictList bitset Op) (q : Bytes) (o : Op) (p : Ptr)
      → (((pushed q o p l).entries root).next ≡ some only)
        × (((pushed q o p l).entries only).operation ≡ some o)
  pushed_front l q o root = (refl, ground arith)
  pushed_front l q o (entry i) = (refl, ground arith)

  first_of_snoc : (keys : List Bytes) (q : Bytes) → first_of (keys ++ (q ∷ [])) ≡ only
  first_of_snoc [] q = refl
  first_of_snoc (k ∷ keys) q = refl

  -- A query that is new to the cache, while there is room.
  pub add-room :
      (c : Cache bitset Op) (a : Shared Op) (q : Bytes) (o : Op)
      → Rep c a
      → contains q a.keys ≡ false
      → ltb (suc n) (length a.keys) ≡ false
      → (c' : Cache bitset Op) × (add bitset Op q o c ≡ returns c')
        × Rep c' (record { keys = a.keys ++ (q ∷ []); last = some o })
  unfolding add add_new
  add-room c a q o r h k =
      let l = pushed q o (first_of a.keys) c.evict_list in
      (
        record c { locked = false; evict_list = l; cache = insert q only c.cache },
        ground (
          arith,
          looked_up c a q r,
          r.size,
          r.counted,
          push_front-only c.evict_list q o (first_of a.keys) r.capacity
              (next_only c.evict_list.allocated r.bits) r.front,
        ),
        record {
          not_locked = refl;
          size = r.size;
          capacity = r.capacity;
          bits = λ j. ground (arith, laws.has-set n c.evict_list.allocated j, r.bits j);
          counted = omega (arith, r.counted, length-append a.keys (q ∷ []));
          cached = ap (insert q only) r.cached ∙ insert-all_at only q a.keys h;
          front =
              (pushed_front c.evict_list q o (first_of a.keys)).0
              ∙ ap some (sym (first_of_snoc a.keys q));
          held = (pushed_front c.evict_list q o (first_of a.keys)).1;
        },
      )

  -- A query that is new to the cache, when there is none: the eviction waits for the lock that its
  -- caller holds.
  pub add-blocks :
      (c : Cache bitset Op) (a : Shared Op) (q : Bytes) (o : Op)
      → Rep c a
      → contains q a.keys ≡ false
      → ltb (suc n) (length a.keys) ≡ true
      → add bitset Op q o c ≡ blocks
  unfolding add add_new remove_oldest
  add-blocks c a q o r h k = ground (arith, looked_up c a q r, r.size, r.counted)
