-- ===== src/Executor/Collect/Build.antt =====
-- Proofs on buildChildExecutionNodesForSelectionSet as a whole.
use artemis.Prelude.{
  ℕ, zero, suc, ◌+◌, ◌≤◌, ◌≡◌, refl, ap, Option, some, List, [], ◌∷◌, Bytes, arith, length,
}
use artemis.Ast.{FieldHead, SelectionSet, no_selections, FragmentDefinition}
use artemis.Executor.Collect.{
  ok, out_of_fuel, ◌>>=◌, ExecutionContext, ExecutionNode, Collecting, collect_loop, initial_stack,
  selection_sets, build_child_execution_nodes,
}
use artemis.Executor.Collect.Spec.{collect_sets, AreFull, AreFullFragments, Returns}
use artemis.Executor.Collect.Spec.Sets.{collect_sets-loop}
use artemis.Executor.Collect.Spec.Unvisited.{unvisited}
use artemis.Executor.Collect.Spec.Returning.{collect_sets-Returns}

unvisited-nil :
    (fragments : List (Bytes × FragmentDefinition)) → unvisited [] fragments ≤ length fragments
unvisited-nil [] = omega arith
unvisited-nil ((k, d) ∷ fragments) = omega (arith, unvisited-nil fragments)

abbrev pub nothing : {F A : Type 0} → Collecting F A
nothing = record { visited = []; nodes = [] }

module _ {E F A : Type 0} (ctx : ExecutionContext E F A) (t : ℕ) where
  pub start-Returns :
      (parent : Option (ExecutionNode F A))
      → Returns (collect_sets ctx t (length ctx.fragments) (initial_stack ctx t parent) nothing)
  start-Returns parent =
      collect_sets-Returns ctx t (length ctx.fragments) (initial_stack ctx t parent) nothing
        (unvisited-nil ctx.fragments)

  pub start-loop :
      (parent : Option (ExecutionNode F A))
      → AreFullFragments ctx.fragments
      → AreFull (initial_stack ctx t parent)
      → (m : ℕ) × ((j : ℕ)
          → collect_loop ctx t (m + j) (initial_stack ctx t parent) nothing
            ≡ collect_sets ctx t (length ctx.fragments) (initial_stack ctx t parent) nothing)
  start-loop parent full f =
      collect_sets-loop ctx t (length ctx.fragments) (initial_stack ctx t parent) nothing full f
        (start-Returns parent)

  -- Where no selection set inside the operation's fragments and the sets to collect is empty, the code
  -- ends with enough fuel: it returns what the specification's CollectFields collects from the sets in
  -- their order, with a depth of as many fragments as the document has, or its error, or it panics
  -- where the `if` of a directive that is asked for on the way is neither missing nor a bool.
  pub build_child_execution_nodes-collect_sets :
      (parent : Option (ExecutionNode F A))
      → AreFullFragments ctx.fragments
      → AreFull (initial_stack ctx t parent)
      → (m : ℕ) × ((j : ℕ)
          → build_child_execution_nodes ctx t (m + j) parent ≡ (
              collect_sets ctx t (length ctx.fragments) (initial_stack ctx t parent) nothing
              >>= λ x. ok x.nodes))
        × Returns (collect_sets ctx t (length ctx.fragments) (initial_stack ctx t parent) nothing)
  unfolding build_child_execution_nodes
  build_child_execution_nodes-collect_sets parent full f =
      let (m, p) = start-loop parent full f in
      (m, λ j. ap (λ o. o >>= λ x. ok x.nodes) (p j), start-Returns parent)

  collect_loop-no_selections :
      (fuel : ℕ) (stack : List SelectionSet) (x : Collecting F A)
      → collect_loop ctx t fuel (no_selections ∷ stack) x ≡ out_of_fuel
  unfolding collect_loop
  collect_loop-no_selections zero stack x = refl
  collect_loop-no_selections (suc fuel) stack x = collect_loop-no_selections fuel stack x

  -- Whatever the fuel, the code does not return for a node whose first definition has no selections.
  pub build_child_execution_nodes-out_of_fuel :
      (head : FieldHead) (definitions : List (FieldHead × SelectionSet)) (f : F) (a : A) (fuel : ℕ)
      → build_child_execution_nodes ctx t fuel (
          some
            (record { definitions = (head, no_selections) ∷ definitions; field_def = f; args = a }))
        ≡ out_of_fuel
  unfolding build_child_execution_nodes
  build_child_execution_nodes-out_of_fuel head definitions f a fuel =
      ap (λ r. r >>= λ x. ok x.nodes)
        (collect_loop-no_selections fuel (selection_sets definitions) nothing)
