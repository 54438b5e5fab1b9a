-- ===== src/Executor/ResultNode.antt =====
-- graphql/executor/result_node.go: the nodes of the result. A pointer to a node is a number, and the
-- nodes are a store. Kind and Value, which the code sets together, are one value.
pub mod Follow
use artemis.Prelude.{
  ℕ, zero, suc, ◌+◌, ◌%◌, Bool, true, false, not, ◌==◌, if◌then◌else◌, Option, some, none, List, [],
  ◌∷◌, Bytes, bytes_eq,
}

pub data PathKey : Type 0 where
  index : ℕ → PathKey
  -- `IndexOf` of a node that is not in the list is -1.
  no_index : PathKey
  field : Bytes → PathKey

abbrev pub index_from : ℕ → ℕ → List ℕ → PathKey
index_from i n [] = no_index
index_from i n (m ∷ nodes) =
    let rest = index_from (suc i) n nodes in if m == n then index i else rest

-- `IndexOf`, where the chunks of a list, in their order, are one list. The address of the node finds
-- its place.
abbrev pub index_of : ℕ → List ℕ → PathKey
index_of n nodes = index_from 0 n nodes

-- The response key of the field at a node. The code finds its place by the node's address, and a
-- node that is not among the fields has none.
abbrev pub key_of : ℕ → List (Bytes × ℕ) → Option PathKey
key_of n [] = none
key_of n ((k, m) ∷ fields) = let rest = key_of n fields in if m == n then some (field k) else rest

module _ (V : Type 0) where
  pub data ResultValue : Type 0 where
    nil : ResultValue
    -- the nodes in the chunks of a ResultNodeList
    list : List ℕ → ResultValue
    -- the response key of each execution node, with the node for the value of the field
    object : List (Bytes × ℕ) → ResultValue
    leaf : V → ResultValue

  pub record ResultNode : Type 0 where
    pub parent : Option ℕ
    pub flags : ℕ
    pub value : ResultValue

  abbrev pub Store : Type 0
  Store = ℕ → ResultNode

module _ {V : Type 0} where
  abbrev pub is_nil : ResultNode V → Bool
  is_nil n = elim n.value [ nil ↦ true | _ ↦ false ]

  -- `Flags | ResultFlagRejectNull`, of the lowest bit
  abbrev pub set_to_reject_null : ResultNode V → ResultNode V
  set_to_reject_null n = record n { flags = if n.flags % 2 == 1 then n.flags else n.flags + 1 }

  abbrev pub should_reject_null : ResultNode V → Bool
  should_reject_null n = n.flags % 2 == 1

  -- `Kind = ResultKindNil; Value = nil`
  abbrev pub set_nil : ℕ → Store V → Store V
  set_nil r s = λ q. if q == r then record (s q) { value = nil } else s q

  -- The loop of `Path`, with the keys it has found in front of the list; `none` is a panic. A round
  -- goes to the parent.
  unfoldable pub path_from : ℕ → Store V → ℕ → Option ℕ → List PathKey → Option (List PathKey)
  path_from fuel s child none keys = some keys
  path_from zero s child (some p) keys = none
  path_from (suc fuel) s child (some p) keys = elim (s p).value [
    | list [] ↦ none
    | list (m ∷ nodes) ↦ path_from fuel s p (s p).parent (index_of child (m ∷ nodes) ∷ keys)
    | object fields ↦ elim (key_of child fields) [
      | none ↦ none
      | some key ↦ path_from fuel s p (s p).parent (key ∷ keys)
    ]
    | _ ↦ path_from fuel s child (s p).parent keys
  ]

  unfoldable pub path : ℕ → Store V → ℕ → Option (List PathKey)
  unfolding path_from
  path fuel s n = path_from fuel s n (s n).parent []
