-- ===== src/Tests/PairRuns.antt =====
-- Runs of graphql/internal/validator.
use artemis.Prelude.{◌≡◌, false, true, not, ◌||◌, if◌then◌else◌, codes}
use artemis.PairSet.{Pairs, new_conflict_fragment_pair_set, add, has}
use artemis.PairSet.Has.{is_pair, has-add}

abbrev one_pair : Pairs
one_pair = add new_conflict_fragment_pair_set (codes "Hero") (codes "Droid") true

has-add_example :
    has (add one_pair (codes "Hero") (codes "Human") false) (codes "Human") (codes "Hero") false ≡ (
      if is_pair (codes "Hero") (codes "Human") (codes "Human") (codes "Hero")
      then false || not false
      else has one_pair (codes "Human") (codes "Hero") false)
has-add_example =
    has-add one_pair (codes "Hero") (codes "Human") false (codes "Human") (codes "Hero") false
