-- ===== src/Tests/CollectRuns.antt =====
-- Runs of graphql/executor on `{ ...f a: name ... { b ...f } }` with `fragment f on T { a: name }`.
use artemis.Prelude.{
  ℕ, ◌+◌, ◌≡◌, refl, some, none, List, [], ◌∷◌, codes, Bytes, inr, length, lookup,
}
use artemis.Token.{Kind}
use artemis.Ast.{
  Name, name_value, response_key, no_name, FieldHead, Selection, SelectionSet, field,
  fragment_spread, inline_fragment, no_selections, add_selection, OperationDefinition,
  FragmentDefinition,
}
use artemis.Executor.Collect.{
  Result, ok, out_of_fuel, collect_loop, visit, should_include_node, directive_if, visit_included,
  visit_field, visit_fragment_spread, find_field_def, does_type_condition_satisfy, can_apply,
  no_value, ◌>>=◌, ExecutionContext, ExecutionNode, object_type, build_child_execution_nodes,
  initial_stack,
}
use artemis.Executor.Collect.Spec.{IsFull, AreFull, AreFullFragments, Returns, collect_sets}
use artemis.Executor.Collect.Build.{
  nothing, build_child_execution_nodes-collect_sets, build_child_execution_nodes-out_of_fuel,
}
use artemis.Executor.Collect.Grouped.{HaveGroups, build_child_execution_nodes-HaveGroups}

abbrev named : Bytes → Name
named text = record {
  token = record { kind = Kind.name; location = 1; length = length text; value = text };
}

abbrev head_of : Bytes → FieldHead
head_of name = record { alias = no_name; name = named name; arguments = []; directives = [] }

abbrev name_as_a : Selection
name_as_a =
    field
      (record {
        alias = some (named (codes "a"));
        name = named (codes "name");
        arguments = [];
        directives = [];
      })
      no_selections

abbrev spread_f : Selection
spread_f = fragment_spread (named (codes "f")) []

abbrev fragment_f : FragmentDefinition
fragment_f = record {
  name = named (codes "f");
  variable_definitions = [];
  type_condition = named (codes "T");
  directives = [];
  selection_set = add_selection name_as_a no_selections;
}

abbrev inside : SelectionSet
inside =
    add_selection (field (head_of (codes "b")) no_selections) (add_selection spread_f no_selections)

abbrev operation : OperationDefinition
operation = record {
  type = none;
  name = no_name;
  variable_definitions = [];
  directives = [];
  selection_set =
      add_selection spread_f
        (add_selection name_as_a (add_selection (inline_fragment no_name [] inside) no_selections));
}

abbrev context : ExecutionContext Bytes Bytes ℕ
context = record {
  operation = operation;
  fragments = (codes "f", fragment_f) ∷ [];
  query = 0;
  fields = λ t name. some name;
  schema_meta_field_def = codes "schema";
  type_meta_field_def = codes "type";
  typename_meta_field_def = codes "typename";
  type_from_ast = λ name. object_type 0;
  argument_values = λ f head. inr (length f);
  directive_argument_if = λ k d. inr no_value;
}

fragments_full : AreFullFragments context.fragments
unfolding IsFull
fragments_full = ((tt, tt), tt)

operation_full : AreFull (initial_stack context 0 none)
unfolding IsFull
operation_full = ((tt, (tt, ((tt, (tt, tt)), tt))), tt)

build_child_execution_nodes-collect_sets_example :
    (m : ℕ) × ((j : ℕ)
      → build_child_execution_nodes context 0 (m + j) none
        ≡ (collect_sets context 0 1 (initial_stack context 0 none) nothing >>= λ x. ok x.nodes))
    × Returns (collect_sets context 0 1 (initial_stack context 0 none) nothing)
build_child_execution_nodes-collect_sets_example =
    build_child_execution_nodes-collect_sets context 0 none fragments_full operation_full

build_child_execution_nodes-HaveGroups_example :
    (m : ℕ) × ((j : ℕ) → HaveGroups context 0 (build_child_execution_nodes context 0 (m + j) none))
build_child_execution_nodes-HaveGroups_example =
    build_child_execution_nodes-HaveGroups context 0 none fragments_full operation_full

build_child_execution_nodes-out_of_fuel_example :
    build_child_execution_nodes context 0 100 (
      some (record {
        definitions = (head_of (codes "user"), no_selections) ∷ [];
        field_def = codes "user";
        args = 0;
      }))
    ≡ out_of_fuel
build_child_execution_nodes-out_of_fuel_example =
    build_child_execution_nodes-out_of_fuel context 0 (head_of (codes "user")) [] (codes "user") 0
      100

-- The keys, with the number of definitions of each.
abbrev keys : List (Bytes × ExecutionNode Bytes ℕ) → List (Bytes × ℕ)
keys [] = []
keys ((k, n) ∷ nodes) = (k, length n.definitions) ∷ keys nodes

abbrev keys_of : Result Bytes (List (Bytes × ExecutionNode Bytes ℕ)) → List (Bytes × ℕ)
keys_of (ok nodes) = keys nodes
keys_of _ = []

collect_run :
    keys_of (build_child_execution_nodes context 0 10 none) ≡ (codes "a", 2) ∷ (codes "b", 1) ∷ []
unfolding build_child_execution_nodes collect_loop visit should_include_node directive_if
    visit_included visit_field visit_fragment_spread find_field_def does_type_condition_satisfy
    can_apply lookup name_value response_key
collect_run = refl
