-- ===== src/Executor/Collect/Spec/Returning.antt =====
-- Proofs on the depth of the recursion.
use artemis.Prelude.{
  ℕ, zero, suc, ◌≤◌, Bool, true, false, if◌then◌else◌, List, [], ◌∷◌, ◌++◌, Bytes, lookup, inl, inr,
  ◌⊎◌, Bool-cases, arith, Option-cases, codes, lookup,
}
use artemis.Ast.{
  Name, name_value, Directive, FieldHead, Selection, SelectionSet, field, fragment_spread,
  inline_fragment, no_selections, add_selection, FragmentDefinition, response_key,
}
use artemis.Executor.Collect.{
  Result, ok, err, panics, out_of_fuel, ◌>>=◌, given, ExecutionContext, Collecting, has_name,
  should_include_node, directive_if, find_directive, find_field_def, visit_field,
  does_type_condition_satisfy, can_apply, is_true, is_false, IfValue, no_value, boolean,
  other_value, get_directives,
}
use artemis.Executor.Collect.Spec.{
  collect_fragment, collect_selection, collect_set, collect, collect_sets, Returns,
}
use artemis.Executor.Collect.Spec.Unvisited.{unvisited, unvisited-cons, unvisited-lookup}

given-Returns : {E R : Type 0} (g : E ⊎ R) → Returns (given g)
given-Returns (inl e) = tt
given-Returns (inr r) = tt

Returns-then :
    {E R S : Type 0} (r : Result E R) (k : R → Result E S)
    → Returns r
    → ((a : R) → Returns (k a))
    → Returns (r >>= k)
Returns-then (ok a) k h f = f a
Returns-then (err e) k h f = tt
Returns-then panics k h f = tt
Returns-then out_of_fuel k h f = h

is_true-Returns : (E : Type 0) (v : IfValue) → Returns (is_true {E = E} v)
is_true-Returns E no_value = tt
is_true-Returns E (boolean b) = tt
is_true-Returns E other_value = tt

is_false-Returns : (E : Type 0) (v : IfValue) → Returns (is_false {E = E} v)
is_false-Returns E no_value = tt
is_false-Returns E (boolean b) = tt
is_false-Returns E other_value = tt

Returns-if :
    {E R : Type 0} (b : Bool) (p q : Result E R)
    → Returns p
    → Returns q
    → Returns (if b then p else q)
Returns-if true p q g h = g
Returns-if false p q g h = h

module _ {E F A : Type 0} (fragments : List (Bytes × FragmentDefinition)) where
  abbrev Within : ℕ → Result E (Collecting F A) → Type 0
  Within n (ok x) = unvisited x.visited fragments ≤ n
  Within n (err e) = Unit
  Within n panics = Unit
  Within n out_of_fuel = ⊥

  Within-bind :
      (n : ℕ) (r : Result E (Collecting F A)) (k : Collecting F A → Result E (Collecting F A))
      → Within n r
      → ((x : Collecting F A) → unvisited x.visited fragments ≤ n → Within n (k x))
      → Within n (r >>= k)
  Within-bind n (ok x) k h f = f x h
  Within-bind n (err e) k h f = tt
  Within-bind n panics k h f = tt
  Within-bind n out_of_fuel k h f = h

  Within-suc : (n : ℕ) (r : Result E (Collecting F A)) → Within n r → Within (suc n) r
  Within-suc n (ok x) h = omega arith
  Within-suc n (err e) h = tt
  Within-suc n panics h = tt
  Within-suc n out_of_fuel h = h

  Within-Returns : (n : ℕ) (r : Result E (Collecting F A)) → Within n r → Returns r
  Within-Returns n (ok x) h = tt
  Within-Returns n (err e) h = tt
  Within-Returns n panics h = tt
  Within-Returns n out_of_fuel h = h

module _ {E F A : Type 0} (ctx : ExecutionContext E F A) (t : ℕ) where
  abbrev left : Collecting F A → ℕ
  left x = unvisited x.visited ctx.fragments

  directive_if-Returns :
      (k : Bytes) (directives : List Directive) → Returns (directive_if ctx t k directives)
  unfolding directive_if
  directive_if-Returns k directives = elim (Option-cases (find_directive k directives)) [
    | inl e ↦ rw (e, directive_if) tt
    | inr (d, e) ↦ rw (e, directive_if) (given-Returns (ctx.directive_argument_if k d))
  ]

  should_include_node-Returns : (s : Selection) → Returns (should_include_node ctx t s)
  unfolding should_include_node
  should_include_node-Returns s =
      Returns-then (directive_if ctx t (codes "skip") (get_directives s)) _
        (directive_if-Returns (codes "skip") (get_directives s))
        (λ skip. Returns-then (is_true skip) _ (is_true-Returns E skip) (λ should_skip.
          Returns-if should_skip _ _ tt (
            Returns-then (directive_if ctx t (codes "include") (get_directives s)) _
              (directive_if-Returns (codes "include") (get_directives s))
              (λ include.
                Returns-then (is_false include) _ (is_false-Returns E include) (λ _. tt)))))

  Within-given :
      {R : Type 0} (n : ℕ) (g : E ⊎ R) (k : R → Collecting F A)
      → ((a : R) → left (k a) ≤ n)
      → Within ctx.fragments n (given g >>= λ a. ok (k a))
  Within-given n (inl e) k h = tt
  Within-given n (inr a) k h = h a

  visit_field-Within :
      (n : ℕ) (head : FieldHead) (set : SelectionSet) (x : Collecting F A)
      → left x ≤ n
      → Within ctx.fragments n (visit_field ctx t head set x)
  unfolding visit_field
  visit_field-Within n head set x h = elim (Option-cases (lookup (response_key head) x.nodes)) [
    | inr (m, e) ↦ rw (e, visit_field) h
    | inl e ↦ elim (Option-cases (find_field_def ctx t (name_value head.name))) [
      | inl f ↦ rw (e, f, visit_field) h
      | inr (d, f) ↦
          rw (e, f, visit_field)
            (Within-given n (ctx.argument_values d head)
              (λ a. record x {
                nodes =
                    x.nodes
                    ++ ((
                      response_key head,
                      record { definitions = (head, set) ∷ []; field_def = d; args = a },
                    )
                        ∷ []);
              })
              (λ a. h))
    ]
  ]

  module _ (n : ℕ) (spread : SelectionSet → Collecting F A → Result E (Collecting F A))
      (within : (set : SelectionSet) (x : Collecting F A)
        → suc (left x) ≤ n
        → Within ctx.fragments n (spread set x)) where
    fragment-Within :
        (name : Name) (x : Collecting F A)
        → left x ≤ n
        → Within ctx.fragments n (collect_fragment ctx t spread name x)
    unfolding collect_fragment
    fragment-Within name x h = elim (Bool-cases (has_name (name_value name) x.visited)) [
      | inl e ↦ rw e h
      | inr e ↦
          let l : unvisited (name_value name ∷ x.visited) ctx.fragments
              ≤ unvisited x.visited ctx.fragments =
            unvisited-cons (name_value name) x.visited ctx.fragments in
          elim (Option-cases (lookup (name_value name) ctx.fragments)) [
            | inl f ↦ rw (e, f) (omega arith)
            | inr (d, f) ↦ elim (Bool-cases (does_type_condition_satisfy ctx t d.type_condition)) [
              | inl g ↦
                  rw (e, f, g)
                    (within d.selection_set (record x { visited = name_value name ∷ x.visited })
                      (omega
                        (arith, unvisited-lookup (name_value name) x.visited ctx.fragments d e f)))
              | inr g ↦ rw (e, f, g) (omega arith)
            ]
          ]
    ]

    tested-Within :
        (included : Result E Bool) (r : Result E (Collecting F A)) (x : Collecting F A)
        → Returns included
        → left x ≤ n
        → Within ctx.fragments n r
        → Within ctx.fragments n (included >>= λ b. if b then r else ok x)
    tested-Within (ok true) r x i h w = w
    tested-Within (ok false) r x i h w = h
    tested-Within (err e) r x i h w = tt
    tested-Within panics r x i h w = tt
    tested-Within out_of_fuel r x i h w = i

    mutual
      unfolding collect_selection collect_set

      selection-Within :
          (s : Selection) (x : Collecting F A)
          → left x ≤ n
          → Within ctx.fragments n (collect_selection ctx t spread s x)
      selection-Within (field head set) x h = visit_field-Within n head set x h
      selection-Within (inline_fragment condition directives set) x h =
          elim (Bool-cases (can_apply ctx t condition)) [
            | inl e ↦ rw e (set-Within set x h)
            | inr e ↦ rw e h
          ]
      selection-Within (fragment_spread name directives) x h = fragment-Within name x h

      set-Within :
          (set : SelectionSet) (x : Collecting F A)
          → left x ≤ n
          → Within ctx.fragments n (collect_set ctx t spread set x)
      set-Within no_selections x h = h
      set-Within (add_selection s rest) x h =
          Within-bind ctx.fragments n
            (should_include_node ctx t s >>= λ b.
              if b then collect_selection ctx t spread s x else ok x)
            (collect_set ctx t spread rest)
            (tested-Within (should_include_node ctx t s) (collect_selection ctx t spread s x) x
              (should_include_node-Returns s) h (selection-Within s x h))
            (λ y g. set-Within rest y g)

  collect-Within :
      (n : ℕ) (set : SelectionSet) (x : Collecting F A)
      → left x ≤ n
      → Within ctx.fragments n (collect ctx t n set x)
  unfolding collect
  collect-Within zero set x h =
      set-Within zero (λ _ _. out_of_fuel) (λ _ _ g. absurd (omega arith)) set x h
  collect-Within (suc n) set x h =
      set-Within (suc n) (collect ctx t n)
        (λ s y g.
          Within-suc ctx.fragments n (collect ctx t n s y) (collect-Within n s y (omega arith)))
        set x h

  collect_sets-Within :
      (n : ℕ) (sets : List SelectionSet) (x : Collecting F A)
      → left x ≤ n
      → Within ctx.fragments n (collect_sets ctx t n sets x)
  collect_sets-Within n [] x h = h
  collect_sets-Within n (set ∷ sets) x h =
      Within-bind ctx.fragments n (collect ctx t n set x) (collect_sets ctx t n sets)
        (collect-Within n set x h) (λ y g. collect_sets-Within n sets y g)

  pub collect_sets-Returns :
      (n : ℕ) (sets : List SelectionSet) (x : Collecting F A)
      → left x ≤ n
      → Returns (collect_sets ctx t n sets x)
  collect_sets-Returns n sets x h =
      Within-Returns ctx.fragments n (collect_sets ctx t n sets x) (collect_sets-Within n sets x h)
