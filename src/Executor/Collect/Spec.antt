-- ===== src/Executor/Collect/Spec.antt =====
-- CollectFields of the GraphQL specification, by recursion on the selections. A fragment is taken
-- once, and its selections stand where it is spread.
pub mod Simulates
pub mod Sets
pub mod Unvisited
pub mod Returning
use artemis.Prelude.{
  ℕ, zero, suc, ◌≡◌, Bool, true, false, ◌||◌, if◌then◌else◌, Option, some, none, List, [], ◌∷◌,
  Bytes, lookup,
}
use artemis.Ast.{
  Name, name_value, Directive, FieldHead, Selection, SelectionSet, field, fragment_spread,
  inline_fragment, no_selections, add_selection, FragmentDefinition,
}
use artemis.Executor.Collect.{
  Result, ok, err, panics, out_of_fuel, ◌>>=◌, ExecutionContext, ExecutionNode, Collecting,
  has_name, should_include_node, visit_field, does_type_condition_satisfy, can_apply, initial_stack,
}

module _ {E F A : Type 0} (ctx : ExecutionContext E F A) (t : ℕ) where
  -- `spread` takes the selections of a fragment.
  module _ (spread : SelectionSet → Collecting F A → Result E (Collecting F A)) where
    -- A fragment that is spread the first time, if its type condition holds.
    unfoldable pub collect_fragment : Name → Collecting F A → Result E (Collecting F A)
    collect_fragment name x =
        if has_name (name_value name) x.visited
        then ok x
        else elim (lookup (name_value name) ctx.fragments) [
          | none ↦ ok (record x { visited = name_value name ∷ x.visited })
          | some d ↦
              if does_type_condition_satisfy ctx t d.type_condition
              then spread d.selection_set (record x { visited = name_value name ∷ x.visited })
              else ok (record x { visited = name_value name ∷ x.visited })
        ]

    unfoldable mutual
      -- Of a selection that is to be included.
      pub collect_selection : Selection → Collecting F A → Result E (Collecting F A)
      collect_selection (field head set) x = visit_field ctx t head set x
      collect_selection (inline_fragment condition directives set) x =
          let inside = collect_set set x in if can_apply ctx t condition then inside else ok x
      collect_selection (fragment_spread name directives) x = collect_fragment name x

      pub collect_set : SelectionSet → Collecting F A → Result E (Collecting F A)
      collect_set no_selections x = ok x
      collect_set (add_selection s rest) x =
          (should_include_node ctx t s >>= λ included.
          let y = collect_selection s x in if included then y else ok x)
          >>= λ y. collect_set rest y

  -- With at most `n` fragments inside each other.
  unfoldable pub collect : ℕ → SelectionSet → Collecting F A → Result E (Collecting F A)
  unfolding collect_set
  collect zero = collect_set (λ set x. out_of_fuel)
  collect (suc n) = collect_set (collect n)

  abbrev pub collect_sets : ℕ → List SelectionSet → Collecting F A → Result E (Collecting F A)
  collect_sets n [] x = ok x
  collect_sets n (set ∷ sets) x = collect n set x >>= λ y. collect_sets n sets y

-- No selection set inside is empty, as the grammar has it.
unfoldable mutual
  pub IsFullSelection : Selection → Type 0
  IsFullSelection (field head set) = Unit
  IsFullSelection (inline_fragment condition directives set) = IsFull set
  IsFullSelection (fragment_spread name directives) = Unit

  pub IsFullRest : SelectionSet → Type 0
  IsFullRest no_selections = Unit
  IsFullRest (add_selection s rest) = IsFullSelection s × IsFullRest rest

  pub IsFull : SelectionSet → Type 0
  IsFull no_selections = ⊥
  IsFull (add_selection s rest) = IsFullSelection s × IsFullRest rest

abbrev pub AreFullFragments : List (Bytes × FragmentDefinition) → Type 0
AreFullFragments [] = Unit
AreFullFragments ((k, d) ∷ fragments) = IsFull d.selection_set × AreFullFragments fragments

abbrev pub AreFull : List SelectionSet → Type 0
AreFull [] = Unit
AreFull (set ∷ sets) = IsFull set × AreFull sets

-- A call ends, with a result, an error or a panic, and not for want of fuel.
abbrev pub Returns : {E R : Type 0} → Result E R → Type 0
Returns (ok r) = Unit
Returns (err e) = Unit
Returns panics = Unit
Returns out_of_fuel = ⊥
