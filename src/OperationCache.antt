-- ===== src/OperationCache.antt =====
-- graphql/handler/operation_cache.go: LRUOperationCache with its list of entries and their
-- allocator. A pointer to an entry is its index in `entries`, or the address of `root`; the entries
-- are a store of that type. `bitset` is github.com/willf/bitset, which is not in the repository, and
-- `Op` stands for *executor.PreparedOperation.
pub mod Shared
pub mod Refines
pub mod Calls
use artemis.Prelude.{
  ℕ, zero, suc, ◌-◌, Bool, true, false, ltb, ◌==◌, if◌then◌else◌, Option, some, none, List, [], ◌∷◌,
  Bytes, bytes_eq, lookup, insert,
}

-- What is used of a BitSet, with what its package documents: NextSet is the next set bit at a
-- position or behind it.
pub record BitSet : Type 1 where
  pub Bits : Type 0
  pub empty : Bits
  pub set_bit : ℕ → Bits → Bits
  pub clear_bit : ℕ → Bits → Bits
  pub next_set : Bits → ℕ → Option ℕ

-- How a call ends. A nil pointer, an index out of range and `panic` end it by a panic; a mutex that
-- is locked already, by its own goroutine, blocks it for good.
pub data Run (A : Type 0) : Type 0 where
  returns : A → Run A
  panics blocks : Run A

infixl 5 ◌>>=◌
abbrev pub ◌>>=◌ : {A B : Type 0} → Run A → (A → Run B) → Run B
returns a >>= f = f a
panics >>= f = panics
blocks >>= f = blocks

pub data Ptr : Type 0 where
  root : Ptr
  entry : ℕ → Ptr

abbrev pub ptr_eq : Ptr → Ptr → Bool
ptr_eq root root = true
ptr_eq (entry i) (entry j) = i == j
ptr_eq _ _ = false

module _ (bitset : BitSet) (Op : Type 0) where
  open bitset use {Bits, empty, set_bit, clear_bit, next_set}

  pub record LruEntry : Type 0 where
    pub query : Bytes
    pub operation : Option Op
    pub next : Option Ptr
    pub prev : Option Ptr

  pub record EvictList : Type 0 where
    pub max_entries : ℕ
    pub allocated : Bits
    pub entries : Ptr → LruEntry
    pub len : ℕ

  abbrev pub M : Type 0 → Type 0
  M A = EvictList → Run (A × EvictList)

  -- A write to an entry.
  abbrev pub write : Ptr → (LruEntry → LruEntry) → EvictList → EvictList
  write p f l = record l { entries = λ q. if ptr_eq p q then f (l.entries q) else l.entries q }

  abbrev pub set_next : Ptr → Option Ptr → EvictList → EvictList
  set_next p n = write p (λ e. record e { next = n })

  abbrev pub set_prev : Ptr → Option Ptr → EvictList → EvictList
  set_prev p n = write p (λ e. record e { prev = n })

  -- The pointer itself, unless it is nil.
  abbrev pub deref : Option Ptr → Run Ptr
  deref none = panics
  deref (some p) = returns p

  abbrev blank : LruEntry
  blank = record { query = []; operation = none; next = none; prev = none }

  -- `newLRUEvictList` and `newLRUEntryAllocator`; the code that calls it has ruled out 0.
  unfoldable pub new_lru_evict_list : ℕ → EvictList
  new_lru_evict_list max_entries = record {
    max_entries = max_entries;
    allocated = set_bit (max_entries - 1) empty;
    entries = λ p. elim p [
      | root ↦ record blank { next = some root; prev = some root }
      | entry i ↦ blank
    ];
    len = 0;
  }

  -- `lruEntryAllocator.New`
  unfoldable pub new_entry : Bytes → Op → EvictList → Run (Ptr × EvictList)
  new_entry query operation l = elim (next_set l.allocated 0) [
    | none ↦ panics
    | some i ↦
        if ltb i l.max_entries
        then returns (
          entry i,
          write (entry i) (λ e. record e { query = query; operation = some operation })
              (record l { allocated = set_bit i l.allocated }),
        )
        else panics
  ]

  -- `insert`
  unfoldable pub insert_after : Ptr → Ptr → EvictList → Run EvictList
  insert_after e at l₀ =
      let n = (l₀.entries at).next in
      let l = set_next e n (set_prev e (some at) (set_next at (some e) l₀)) in
      deref n >>= λ p. returns (record (set_prev p (some e) l) { len = suc l.len })

  -- `PushFront`, by `insertEntry`
  unfoldable pub push_front : Bytes → Op → EvictList → Run (Ptr × EvictList)
  unfolding new_entry insert_after
  push_front query operation l =
      new_entry query operation l >>= λ (e, l'). insert_after e root l' >>= λ l''. returns (e, l'')

  -- The first two writes of `remove` and `move`: `e.prev.next = e.next; e.next.prev = e.prev`.
  unfoldable pub unlink : Ptr → EvictList → Run EvictList
  unlink e l₀ = deref (l₀.entries e).prev >>= λ p.
      let l = set_next p (l₀.entries e).next l₀ in
      deref (l.entries e).next >>= λ n. returns (set_prev n (l.entries e).prev l)

  -- `Free`. The index of `root`, which is never freed, would be taken from a stray address.
  unfoldable pub free : Ptr → EvictList → Run EvictList
  free root l = panics
  free (entry i) l = returns (
      write (entry i) (λ e. record e { query = []; operation = none })
        (record l { allocated = clear_bit i l.allocated }))

  -- `Remove`, by `remove`
  unfoldable pub remove : Ptr → EvictList → Run EvictList
  unfolding unlink free
  remove e l = unlink e l >>= λ l₁.
      let l₂ = set_prev e none (set_next e none l₁) in
      free e (record l₂ { len = if l₂.len == 0 then 0xFFFFFFFFFFFFFFFF else l₂.len - 1 })

  unfoldable pub move : Ptr → Ptr → EvictList → Run EvictList
  unfolding unlink
  move e at l =
      if ptr_eq e at
      then returns l
      else unlink e l >>= λ l₁.
          let n = (l₁.entries at).next in
          let l₂ = set_next e n (set_prev e (some at) (set_next at (some e) l₁)) in
          deref n >>= λ p. returns (set_prev p (some e) l₂)

  abbrev pub is_at : Option Ptr → Ptr → Bool
  is_at none e = false
  is_at (some p) e = ptr_eq p e

  unfoldable pub move_to_front : Ptr → EvictList → Run EvictList
  unfolding move
  move_to_front e l = if is_at (l.entries root).next e then returns l else move e root l

  abbrev pub back : EvictList → Option Ptr
  back l = if l.len == 0 then none else (l.entries root).prev

  pub record Cache : Type 0 where
    pub max_entries : ℕ
    pub locked : Bool
    pub cache : List (Bytes × Ptr)
    pub evict_list : EvictList

  -- `NewLRUOperationCache`; `none` is the error on a size of 0.
  unfoldable pub new_lru_operation_cache : ℕ → Option Cache
  unfolding new_lru_evict_list
  new_lru_operation_cache zero = none
  new_lru_operation_cache (suc n) = some (record {
    max_entries = suc n;
    locked = false;
    cache = [];
    evict_list = new_lru_evict_list (suc n);
  })

  abbrev pub lock : Cache → Run Cache
  lock c = if c.locked then blocks else returns (record c { locked = true })

  abbrev pub unlock : Cache → Cache
  unlock c = record c { locked = false }

  abbrev delete : Bytes → List (Bytes × Ptr) → List (Bytes × Ptr)
  delete k [] = []
  delete k ((j, p) ∷ entries) =
      let rest = delete k entries in if bytes_eq k j then rest else (j, p) ∷ rest

  unfoldable pub remove_oldest : Cache → Run Cache
  unfolding remove
  remove_oldest c = lock c >>= λ c₁. elim (back c₁.evict_list) [
    | none ↦ returns (unlock c₁)
    | some e ↦ remove e c₁.evict_list >>= λ l. returns (
        unlock
          (record c₁ { evict_list = l; cache = delete (c₁.evict_list.entries e).query c₁.cache }))
  ]

  unfoldable pub get : Bytes → Cache → Run (Option Op × Cache)
  unfolding move_to_front
  get query c = lock c >>= λ c₁. elim (lookup query c₁.cache) [
    | none ↦ returns (none, unlock c₁)
    | some e ↦ move_to_front e c₁.evict_list >>= λ l.
        returns ((l.entries e).operation, unlock (record c₁ { evict_list = l }))
  ]

  -- The part of `Add` for a query that is not in the cache.
  unfoldable pub add_new : Bytes → Op → Cache → Run Cache
  unfolding remove_oldest push_front
  add_new query operation c =
      (if ltb c.max_entries c.evict_list.len then remove_oldest c else returns c) >>= λ c₁.
      push_front query operation c₁.evict_list >>= λ (e, l).
      returns (unlock (record c₁ { evict_list = l; cache = insert query e c₁.cache }))

  unfoldable pub add : Bytes → Op → Cache → Run Cache
  unfolding move_to_front add_new
  add query operation c = lock c >>= λ c₁. elim (lookup query c₁.cache) [
    | none ↦ add_new query operation c₁
    | some e ↦ move_to_front e c₁.evict_list >>= λ l. returns (
        unlock
          (record c₁ { evict_list = write e (λ x. record x { operation = some operation }) l }))
  ]
