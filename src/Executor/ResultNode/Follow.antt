-- ===== src/Executor/ResultNode/Follow.antt =====
-- Proofs on Path, of graphql/executor/result_node.go.
use artemis.Prelude.{
  among, ℕ, ◌≡◌, Bool, true, false, ◌||◌, ◌==◌, Option, some, none, List, [], ◌∷◌, Bytes, lookup,
  get_elem?,
}
use artemis.Executor.ResultNode.{PathKey, index, field, ResultValue, nil, list, object, leaf, Store}

abbrev pub among_fields : ℕ → List (Bytes × ℕ) → Bool
among_fields n [] = false
among_fields n ((k, m) ∷ fields) = m == n || among_fields n fields

-- No two fields have a response key in common.
abbrev pub AreDistinct : List (Bytes × ℕ) → Type 0
AreDistinct [] = Unit
AreDistinct ((k, m) ∷ fields) = (lookup k fields ≡ none) × AreDistinct fields

abbrev pub root_of : ℕ → List ℕ → ℕ
root_of n [] = n
root_of n (p ∷ above) = root_of p above

module _ {V : Type 0} where
  abbrev pub child_at : ResultValue V → PathKey → Option ℕ
  child_at (list nodes) (index i) = get_elem? nodes i
  child_at (object fields) (field k) = lookup k fields
  child_at _ _ = none

  -- From a node down a path.
  abbrev pub follow : Store V → Option ℕ → List PathKey → Option ℕ
  follow s none keys = none
  follow s (some n) [] = some n
  follow s (some n) (k ∷ keys) = follow s (child_at (s n).value k) keys

  abbrev pub IsChild : ℕ → ResultValue V → Type 0
  IsChild n nil = ⊥
  IsChild n (list nodes) = among n nodes ≡ true
  IsChild n (object fields) = (among_fields n fields ≡ true) × AreDistinct fields
  IsChild n (leaf v) = ⊥

  -- The ancestors of a node up to the root, each of which has the one before among its values.
  pub data Linked (s : Store V) : ℕ → List ℕ → Type 0 where
    top : {n : ℕ} → (s n).parent ≡ none → Linked s n []
    below :
        {n p : ℕ} {above : List ℕ}
        → (s n).parent ≡ some p
        → IsChild n (s p).value
        → Linked s p above
        → Linked s n (p ∷ above)
