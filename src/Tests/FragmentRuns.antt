-- ===== src/Tests/FragmentRuns.antt =====
-- Runs of the rule on unused fragments, and of Prepare on a document with fragments.
use artemis.Prelude.{ℕ, ◌≡◌, ◌↔◌, refl, some, none, List, [], ◌∷◌, codes, Bytes, arith}
use artemis.Token.{name}
use artemis.Ast.{
  Name, name_value, SelectionSet, no_selections, add_selection, fragment_spread, FragmentDefinition,
  OperationDefinition, Document, operation, fragment,
}
use artemis.Executor.Prepare.{RootTypes, root_type_of, prepare, ok, panics}
use artemis.Executor.Prepare.Selects.{prepare-get_operation}
use artemis.Validator.Fragments.{no_unused_fragments, fragment_infos, walk_operations}
use artemis.Validator.Fragments.Spec.{Reachable}
use artemis.Validator.Fragments.Unused.{Among, fragments_of, no_unused_fragments-Reachable}

abbrev named : Bytes → Name
named k = record { token = record { kind = name; location = 1; length = 1; value = k } }

abbrev spread_of : Bytes → SelectionSet
spread_of k = add_selection (fragment_spread (named k) []) no_selections

abbrev fragment_of : Bytes → SelectionSet → FragmentDefinition
fragment_of k set = record {
  name = named k;
  variable_definitions = [];
  type_condition = named (codes "T");
  directives = [];
  selection_set = set;
}

abbrev query_of : SelectionSet → OperationDefinition
query_of set = record {
  type = none;
  name = none;
  variable_definitions = [];
  directives = [];
  selection_set = set;
}

abbrev unused_c : FragmentDefinition
unused_c = fragment_of (codes "C") (spread_of (codes "A"))

-- A and B spread each other, and only A is spread in the query; C is not spread.
abbrev cyclic : Document
cyclic =
    fragment (fragment_of (codes "A") (spread_of (codes "B")))
    ∷ operation (query_of (spread_of (codes "A")))
    ∷ fragment (fragment_of (codes "B") (spread_of (codes "A")))
    ∷ fragment unused_c
    ∷ []

abbrev ten : ℕ
ten = 10

cyclic_run : no_unused_fragments ten cyclic ≡ some (unused_c ∷ [])
unfolding no_unused_fragments
cyclic_run = refl

no_unused_fragments-Reachable_example :
    (reported : List FragmentDefinition) × (no_unused_fragments ten cyclic ≡ some reported)
    × (Among unused_c reported ↔ (
        Among unused_c (fragments_of cyclic)
        × ¬ (
            Reachable (fragment_infos cyclic) (walk_operations cyclic) (name_value unused_c.name))))
unfolding fragment_infos name_value
no_unused_fragments-Reachable_example =
    no_unused_fragments-Reachable ten cyclic unused_c (omega arith)

abbrev root_types : RootTypes Bytes
root_types = record { query = some (codes "Query"); mutation = none; subscription = none }

prepare_run :
    prepare {E = Bytes} root_types [] cyclic []
    ≡ ok (record {
      definition = query_of (spread_of (codes "A"));
      root_type = codes "Query";
      fragment_map = fragment_infos cyclic;
    })
unfolding prepare fragment_infos
prepare_run = refl

-- The query has no name, and one is given.
prepare_panics : prepare {E = Bytes} root_types [] cyclic (codes "F") ≡ panics
unfolding prepare
prepare_panics = refl

abbrev query_named : Bytes → OperationDefinition
query_named k = record (query_of (spread_of (codes "A"))) { name = some (named k) }

abbrev two_queries : Document
two_queries =
    operation (query_named (codes "P"))
    ∷ fragment (fragment_of (codes "A") (spread_of (codes "B")))
    ∷ operation (query_named (codes "Q"))
    ∷ []

prepare-get_operation_example :
    prepare {E = Bytes} root_types [] two_queries (codes "Q")
    ≡ ok (record {
      definition = query_named (codes "Q");
      root_type = codes "Query";
      fragment_map = fragment_infos two_queries;
    })
unfolding name_value root_type_of
prepare-get_operation_example = prepare-get_operation root_types [] two_queries (codes "Q")
