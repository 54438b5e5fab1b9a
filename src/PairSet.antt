-- ===== src/PairSet.antt =====
-- graphql/internal/validator/conflict_fragment_pair_set.go: the pairs of fragments that were
-- compared, with the result. A Go map is an association list with one entry to a key.
pub mod Has
use artemis.Prelude.{
  Bool, true, false, not, if◌then◌else◌, Option, some, none, List, [], ◌∷◌, Bytes, bytes_eq, lookup,
  insert,
}

abbrev pub Pairs : Type 0
Pairs = List (Bytes × List (Bytes × Bool))

unfoldable pub new_conflict_fragment_pair_set : Pairs
new_conflict_fragment_pair_set = []

-- A missing inner map is made first.
abbrev pub or_empty : Option (List (Bytes × Bool)) → List (Bytes × Bool)
or_empty none = []
or_empty (some m) = m

-- `add`
unfoldable pub add_ordered : Pairs → Bytes → Bytes → Bool → Pairs
add_ordered set a b are_mutually_exclusive =
    insert a (insert b are_mutually_exclusive (or_empty (lookup a set))) set

-- `Add`
unfoldable pub add : Pairs → Bytes → Bytes → Bool → Pairs
unfolding add_ordered
add set a b are_mutually_exclusive =
    add_ordered (add_ordered set a b are_mutually_exclusive) b a are_mutually_exclusive

-- The last tests of `Has`, on what the inner map has.
abbrev pub answers : Option Bool → Bool → Bool
answers none are_mutually_exclusive = false
answers (some result) are_mutually_exclusive =
    if not are_mutually_exclusive then not result else true

unfoldable pub has : Pairs → Bytes → Bytes → Bool → Bool
has set a b are_mutually_exclusive = elim (lookup a set) [
  | none ↦ false
  | some am ↦ answers (lookup b am) are_mutually_exclusive
]
