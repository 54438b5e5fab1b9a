-- ===== src/Executor/Collect/Grouped.antt =====
-- Proofs on the response keys of the child nodes.
use artemis.Prelude.{
  ℕ, zero, suc, ◌+◌, ◌≡◌, refl, sym, subst, Bool, true, false, if◌then◌else◌, Option, none, List,
  [], ◌∷◌, Bytes, lookup, inl, inr, ◌⊎◌, Bool-cases, Option-cases,
}
use artemis.Ast.{
  Name, name_value, FieldHead, Selection, SelectionSet, field, fragment_spread, inline_fragment,
  no_selections, add_selection, response_key,
}
use artemis.Executor.Collect.{
  Result, ok, err, panics, out_of_fuel, ◌>>=◌, given, ExecutionContext, ExecutionNode, Collecting,
  has_name, should_include_node, find_field_def, does_type_condition_satisfy, visit_field,
  visit_fragment_spread, visit_included, visit, push, resume, collect_loop, initial_stack,
  build_child_execution_nodes,
}
use artemis.Executor.Collect.Spec.{AreFull, AreFullFragments, Returns}
use artemis.Executor.Collect.Build.{nothing, start-loop, start-Returns}
use artemis.Executor.Collect.Nodes.{AreGrouped, coalesce-AreGrouped, append-AreGrouped}

module _ {E F A : Type 0} (ctx : ExecutionContext E F A) (t : ℕ) where
  abbrev Keeps : Result E (Collecting F A × Option SelectionSet) → Type 0
  Keeps (ok y) = AreGrouped y.0.nodes
  Keeps (err e) = Unit
  Keeps panics = Unit
  Keeps out_of_fuel = Unit

  abbrev Groups : Result E (Collecting F A) → Type 0
  Groups (ok x) = AreGrouped x.nodes
  Groups (err e) = Unit
  Groups panics = Unit
  Groups out_of_fuel = Unit

  given-Groups :
      {R : Type 0} (g : E ⊎ R) (k : R → Collecting F A)
      → ((a : R) → AreGrouped (k a).nodes)
      → Groups (given g >>= λ a. ok (k a))
  given-Groups (inl e) k h = tt
  given-Groups (inr a) k h = h a

  Keeps-then :
      (r : Result E (Collecting F A × Option SelectionSet))
      (k : Collecting F A × Option SelectionSet → Result E (Collecting F A))
      → Keeps r
      → ((y : Collecting F A × Option SelectionSet) → AreGrouped y.0.nodes → Groups (k y))
      → Groups (r >>= k)
  Keeps-then (ok y) k h f = f y h
  Keeps-then (err e) k h f = tt
  Keeps-then panics k h f = tt
  Keeps-then out_of_fuel k h f = tt

  Groups-Keeps : (r : Result E (Collecting F A)) → Groups r → Keeps (r >>= λ x. ok (x, none))
  Groups-Keeps (ok x) h = h
  Groups-Keeps (err e) h = tt
  Groups-Keeps panics h = tt
  Groups-Keeps out_of_fuel h = tt

  visit_field-Groups :
      (head : FieldHead) (set : SelectionSet) (x : Collecting F A)
      → AreGrouped x.nodes
      → Groups (visit_field ctx t head set x)
  unfolding visit_field
  visit_field-Groups head set x h = elim (Option-cases (lookup (response_key head) x.nodes)) [
    | inr (n, e) ↦
        rw (e, visit_field) (coalesce-AreGrouped (response_key head) (head, set) x.nodes refl h)
    | inl e ↦ elim (Option-cases (find_field_def ctx t (name_value head.name))) [
      | inl f ↦ rw (e, f, visit_field) h
      | inr (d, f) ↦
          rw (e, f, visit_field)
            (given-Groups (ctx.argument_values d head) _ (λ a.
              append-AreGrouped (response_key head)
                (record { definitions = (head, set) ∷ []; field_def = d; args = a }) x.nodes
                (refl, tt) e h))
    ]
  ]

  spread-nodes :
      (name : Name) (x : Collecting F A) → (visit_fragment_spread ctx t name x).0.nodes ≡ x.nodes
  unfolding visit_fragment_spread
  spread-nodes name x = elim (Bool-cases (has_name (name_value name) x.visited)) [
    | inl e ↦ rw (e, visit_fragment_spread) refl
    | inr e ↦ elim (Option-cases (lookup (name_value name) ctx.fragments)) [
      | inl f ↦ rw (e, f, visit_fragment_spread) refl
      | inr (d, f) ↦ elim (Bool-cases (does_type_condition_satisfy ctx t d.type_condition)) [
        | inl g ↦ rw (e, f, g, visit_fragment_spread) refl
        | inr g ↦ rw (e, f, g, visit_fragment_spread) refl
      ]
    ]
  ]

  visit_included-Keeps :
      (s : Selection) (x : Collecting F A) → AreGrouped x.nodes → Keeps (visit_included ctx t s x)
  unfolding visit_included
  visit_included-Keeps (field head set) x h =
      Groups-Keeps (visit_field ctx t head set x) (visit_field-Groups head set x h)
  visit_included-Keeps (inline_fragment condition directives set) x h = h
  visit_included-Keeps (fragment_spread name directives) x h =
      subst AreGrouped (sym (spread-nodes name x)) h

  tested-Keeps :
      (included : Result E Bool) (v : Result E (Collecting F A × Option SelectionSet))
      (x : Collecting F A)
      → AreGrouped x.nodes
      → Keeps v
      → Keeps (included >>= λ b. if b then v else ok (x, none))
  tested-Keeps (ok true) v x h k = k
  tested-Keeps (ok false) v x h k = h
  tested-Keeps (err e) v x h k = tt
  tested-Keeps panics v x h k = tt
  tested-Keeps out_of_fuel v x h k = tt

  visit-Keeps : (s : Selection) (x : Collecting F A) → AreGrouped x.nodes → Keeps (visit ctx t s x)
  unfolding visit
  visit-Keeps s x h =
      tested-Keeps (should_include_node ctx t s) (visit_included ctx t s x) x h
        (visit_included-Keeps s x h)

  collect_loop-Groups :
      (fuel : ℕ) (stack : List SelectionSet) (x : Collecting F A)
      → AreGrouped x.nodes
      → Groups (collect_loop ctx t fuel stack x)
  unfolding collect_loop
  collect_loop-Groups fuel [] x h = h
  collect_loop-Groups zero (set ∷ stack) x h = tt
  collect_loop-Groups (suc fuel) (no_selections ∷ stack) x h =
      collect_loop-Groups fuel (no_selections ∷ stack) x h
  collect_loop-Groups (suc fuel) (add_selection s rest ∷ stack) x h =
      Keeps-then (visit ctx t s x) _ (visit-Keeps s x h)
        (λ y g. collect_loop-Groups fuel (push y.1 (resume rest stack)) y.0 g)

  abbrev pub HaveGroups : Result E (List (Bytes × ExecutionNode F A)) → Type 0
  HaveGroups (ok nodes) = AreGrouped nodes
  HaveGroups (err e) = Unit
  HaveGroups panics = Unit
  HaveGroups out_of_fuel = ⊥

  Groups-HaveGroups :
      (r : Result E (Collecting F A)) → Groups r → Returns r → HaveGroups (r >>= λ x. ok x.nodes)
  Groups-HaveGroups (ok x) h r = h
  Groups-HaveGroups (err e) h r = tt
  Groups-HaveGroups panics h r = tt
  Groups-HaveGroups out_of_fuel h r = r

  -- Where no selection set inside the operation's fragments and the sets to collect is empty, the code
  -- ends with enough fuel. The nodes that it returns, unless it returns an error or panics, have
  -- different response keys, and each node has a definition, all of them with the node's response key.
  pub build_child_execution_nodes-HaveGroups :
      (parent : Option (ExecutionNode F A))
      → AreFullFragments ctx.fragments
      → AreFull (initial_stack ctx t parent)
      → (m : ℕ) × ((j : ℕ) → HaveGroups (build_child_execution_nodes ctx t (m + j) parent))
  unfolding build_child_execution_nodes
  build_child_execution_nodes-HaveGroups parent full f =
      let (m, p) = start-loop ctx t parent full f in
      (
        m,
        λ j.
            Groups-HaveGroups (collect_loop ctx t (m + j) (initial_stack ctx t parent) nothing)
              (collect_loop-Groups (m + j) (initial_stack ctx t parent) nothing tt)
              (subst Returns (sym (p j)) (start-Returns ctx t parent)),
      )
