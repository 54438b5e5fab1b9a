-- ===== src/Executor/Collect/Spec/Simulates.antt =====
-- Proofs on the loops on a stack, beside the recursion of Spec.
use artemis.Prelude.{
  ℕ, suc, ◌+◌, ◌≡◌, refl, sym, ap, subst, ◌∙◌, Bool, true, false, if◌then◌else◌, Option, some, none,
  List, [], ◌∷◌, Bytes, bytes_eq, lookup, inl, inr, Bool-cases, arith, Option-cases,
}
use artemis.Ast.{
  Name, name_value, Selection, SelectionSet, field, fragment_spread, inline_fragment, no_selections,
  add_selection, FragmentDefinition,
}
use artemis.Executor.Collect.{
  Result, ok, err, panics, out_of_fuel, ◌>>=◌, ExecutionContext, Collecting, has_name,
  should_include_node, visit_field, does_type_condition_satisfy, can_apply, visit, visit_included,
  visit_fragment_spread, push, resume, collect_loop,
}
use artemis.Executor.Collect.Spec.{
  collect_fragment, collect_selection, collect_set, IsFullSelection, IsFullRest, IsFull,
  AreFullFragments, Returns,
}

pub lookup-IsFull :
    (fragments : List (Bytes × FragmentDefinition)) (k : Bytes) (d : FragmentDefinition)
    → AreFullFragments fragments
    → lookup k fragments ≡ some d
    → IsFull d.selection_set
unfolding lookup
lookup-IsFull [] k d h e = cc
lookup-IsFull ((j, c) ∷ fragments) k d h e = elim (Bool-cases (bytes_eq k j)) [
  | inl t ↦ let f : c ≡ d = ground arith in subst (λ b. IsFull b.selection_set) f h.0
  | inr t ↦ lookup-IsFull fragments k d h.1 (ground arith)
]

pub Returns-bind :
    {E R S : Type 0} (r : Result E R) (k : R → Result E S) → Returns (r >>= k) → Returns r
Returns-bind (ok a) k h = tt
Returns-bind (err e) k h = tt
Returns-bind panics k h = tt
Returns-bind out_of_fuel k h = h

pub IsFull-IsFullRest : (set : SelectionSet) → IsFull set → IsFullRest set
unfolding IsFull
IsFull-IsFullRest no_selections f = tt
IsFull-IsFullRest (add_selection s rest) f = f

module _ {E F A : Type 0} (ctx : ExecutionContext E F A) (t : ℕ) where
  -- From some fuel on, the loop on what a selection leaves does what the recursion did, and goes on.
  pub record Enters (v : Result E (Collecting F A × Option SelectionSet))
      (r : Result E (Collecting F A)) : Type 0 where
    pub rounds : ℕ
    pub goes_on :
        (j : ℕ) (stack : List SelectionSet)
        → (v >>= λ y. collect_loop ctx t (rounds + j) (push y.1 stack) y.0)
          ≡ (r >>= λ z. collect_loop ctx t j stack z)

  enters :
      {v p : Result E (Collecting F A × Option SelectionSet)} {c q : Result E (Collecting F A)}
      → v ≡ p
      → c ≡ q
      → Enters p q
      → Enters v c
  enters {v = v} {p = p} {c = c} {q = q} e f h =
      subst (λ v. Enters v c) (sym e) (subst (λ r. Enters p r) (sym f) h)

  stays : (r : Result E (Collecting F A)) → Enters (r >>= λ x. ok (x, none)) r
  stays (ok x) = record {
    rounds = 0;
    goes_on = λ j stack. ap (λ k. collect_loop ctx t k stack x) (omega arith);
  }
  stays (err e) = record { rounds = 0; goes_on = λ j stack. refl }
  stays panics = record { rounds = 0; goes_on = λ j stack. refl }
  stays out_of_fuel = record { rounds = 0; goes_on = λ j stack. refl }

  module _ (spread : SelectionSet → Collecting F A → Result E (Collecting F A))
      (full : AreFullFragments ctx.fragments)
      (follows : (set : SelectionSet) (x : Collecting F A)
        → IsFull set
        → Returns (spread set x)
        → Enters (ok (x, some set)) (spread set x)) where
    fragment-Enters :
        (name : Name) (x : Collecting F A)
        → Returns (collect_fragment ctx t spread name x)
        → Enters (ok (visit_fragment_spread ctx t name x)) (collect_fragment ctx t spread name x)
    unfolding visit_fragment_spread collect_fragment
    fragment-Enters name x r = elim (Bool-cases (has_name (name_value name) x.visited)) [
      | inl e ↦ enters (rw e refl) (rw e refl) (stays (ok x))
      | inr e ↦
          let x' : Collecting F A = record x { visited = name_value name ∷ x.visited } in
          elim (Option-cases (lookup (name_value name) ctx.fragments)) [
            | inl f ↦ enters (rw (e, f) refl) (rw (e, f) refl) (stays (ok x'))
            | inr (d, f) ↦ elim (Bool-cases (does_type_condition_satisfy ctx t d.type_condition)) [
              | inl g ↦
                  let q : collect_fragment ctx t spread name x ≡ spread d.selection_set x' =
                    rw (e, f, g) refl in
                  enters (rw (e, f, g) refl) q (
                    follows d.selection_set x'
                      (lookup-IsFull ctx.fragments (name_value name) d full f) (subst Returns q r))
              | inr g ↦ enters (rw (e, f, g) refl) (rw (e, f, g) refl) (stays (ok x'))
            ]
          ]
    ]

    -- A selection with the test whether it is to be included.
    tested-Enters :
        (included : Result E Bool) (s : Selection) (x : Collecting F A)
        → (included ≡ ok true
            → Enters (visit_included ctx t s x) (collect_selection ctx t spread s x))
        → Enters
            (included >>= λ b. if b then visit_included ctx t s x else ok (x, none))
            (included >>= λ b. if b then collect_selection ctx t spread s x else ok x)
    tested-Enters (ok true) s x h = h refl
    tested-Enters (ok false) s x h = stays (ok x)
    tested-Enters (err e) s x h = stays (err e)
    tested-Enters panics s x h = stays panics
    tested-Enters out_of_fuel s x h = stays out_of_fuel

    tested-Returns :
        (included : Result E Bool) (s : Selection) (x : Collecting F A)
        → included ≡ ok true
        → Returns (included >>= λ b. if b then collect_selection ctx t spread s x else ok x)
        → Returns (collect_selection ctx t spread s x)
    tested-Returns included s x e h =
        subst (λ i. Returns (i >>= λ b. if b then collect_selection ctx t spread s x else ok x)) e h

    abbrev Continues : SelectionSet → Collecting F A → Type 0
    Continues set x =
        (m : ℕ) × ((j : ℕ) (stack : List SelectionSet)
          → collect_loop ctx t (m + j) (resume set stack) x
            ≡ (collect_set ctx t spread set x >>= λ z. collect_loop ctx t j stack z))

    -- The first selection, then the others.
    then-Continues :
        (s : Selection) (rest : SelectionSet) (x : Collecting F A) (r : Result E (Collecting F A))
        → Enters (visit ctx t s x) r
        → ((y : Collecting F A) → r ≡ ok y → Continues rest y)
        → Returns r
        → (m : ℕ) × ((j : ℕ) (stack : List SelectionSet)
            → collect_loop ctx t (m + j) (add_selection s rest ∷ stack) x
              ≡ (r >>= λ y. collect_set ctx t spread rest y) >>= λ z. collect_loop ctx t j stack z)
    unfolding collect_loop
    then-Continues s rest x (ok y) h k r =
        let (m, p) = k y refl in
        (
          suc (h.rounds + m),
          λ j stack.
              ap (λ n. collect_loop ctx t n (add_selection s rest ∷ stack) x)
                {y = suc (h.rounds + (m + j))} (omega arith)
              ∙ (h.goes_on (m + j) (resume rest stack) ∙ p j stack),
        )
    then-Continues s rest x (err e) h k r = (
      suc h.rounds,
      λ j stack.
          ap (λ n. collect_loop ctx t n (add_selection s rest ∷ stack) x) {y = suc (h.rounds + j)}
            (omega arith)
          ∙ h.goes_on j (resume rest stack),
    )
    then-Continues s rest x panics h k r = (
      suc h.rounds,
      λ j stack.
          ap (λ n. collect_loop ctx t n (add_selection s rest ∷ stack) x) {y = suc (h.rounds + j)}
            (omega arith)
          ∙ h.goes_on j (resume rest stack),
    )
    then-Continues s rest x out_of_fuel h k r = absurd r

    pub set-Enters :
        (set : SelectionSet) (x : Collecting F A)
        → IsFull set
        → Continues set x
        → Enters (ok (x, some set)) (collect_set ctx t spread set x)
    unfolding IsFull
    set-Enters no_selections x f h = absurd f
    set-Enters (add_selection s rest) x f h = record { rounds = h.0; goes_on = h.1 }

    mutual
      unfolding visit visit_included collect_selection collect_set IsFullSelection

      selection-Enters :
          (s : Selection) (x : Collecting F A)
          → IsFullSelection s
          → Returns (collect_selection ctx t spread s x)
          → Enters (visit_included ctx t s x) (collect_selection ctx t spread s x)
      selection-Enters (field head set) x f r = stays (visit_field ctx t head set x)
      selection-Enters (inline_fragment condition directives set) x f r =
          elim (Bool-cases (can_apply ctx t condition)) [
            | inl e ↦
                let q : collect_selection ctx t spread (inline_fragment condition directives set) x
                    ≡ collect_set ctx t spread set x =
                  rw e refl in
                enters (rw e refl) q (
                  set-Enters set x f
                    (rest-Continues set x (IsFull-IsFullRest set f) (subst Returns q r)))
            | inr e ↦ enters (rw e refl) (rw e refl) (stays (ok x))
          ]
      selection-Enters (fragment_spread name directives) x f r = fragment-Enters name x r

      pub rest-Continues :
          (set : SelectionSet) (x : Collecting F A)
          → IsFullRest set
          → Returns (collect_set ctx t spread set x)
          → Continues set x
      rest-Continues no_selections x f r =
          (0, λ j stack. ap (λ k. collect_loop ctx t k stack x) (omega arith))
      rest-Continues (add_selection s rest) x f r =
          let one : Result E (Collecting F A) = should_include_node ctx t s >>= λ b.
          if b then collect_selection ctx t spread s x else ok x in
          let returns : Returns one = Returns-bind one (collect_set ctx t spread rest) r in
          then-Continues s rest x one
            (tested-Enters (should_include_node ctx t s) s x (λ e.
              selection-Enters s x f.0
                (tested-Returns (should_include_node ctx t s) s x e returns)))
            (λ y e.
              rest-Continues rest y f.1
                (subst (λ o. Returns (o >>= collect_set ctx t spread rest)) e r))
            returns
