-- ===== src/Executor/Collect/Spec/Sets.antt =====
-- Proofs on the loops and the recursion, from selection sets on.
use artemis.Prelude.{ℕ, zero, suc, ◌+◌, ◌≡◌, refl, ap, subst, ◌∙◌, some, List, [], ◌∷◌, arith}
use artemis.Ast.{SelectionSet}
use artemis.Executor.Collect.{
  Result, ok, err, panics, out_of_fuel, ◌>>=◌, ExecutionContext, Collecting, collect_loop,
}
use artemis.Executor.Collect.Spec.{
  collect, collect_sets, IsFull, AreFull, AreFullFragments, Returns,
}
use artemis.Executor.Collect.Spec.Simulates.{
  Enters, Returns-bind, set-Enters, rest-Continues, IsFull-IsFullRest,
}

module _ {E F A : Type 0} (ctx : ExecutionContext E F A) (t : ℕ) where
  pub collect-Enters :
      (n : ℕ) (set : SelectionSet) (x : Collecting F A)
      → AreFullFragments ctx.fragments
      → IsFull set
      → Returns (collect ctx t n set x)
      → Enters ctx t (ok (x, some set)) (collect ctx t n set x)
  unfolding collect
  collect-Enters zero set x full f r =
      let none_inside : SelectionSet → Collecting F A → Result E (Collecting F A) =
        λ _ _. out_of_fuel in
      set-Enters ctx t none_inside full (λ _ _ _ h. absurd h) set x f
        (rest-Continues ctx t none_inside full (λ _ _ _ h. absurd h) set x (IsFull-IsFullRest set f)
          r)
  collect-Enters (suc n) set x full f r =
      let inside : (s : SelectionSet) (y : Collecting F A)
          → IsFull s
          → Returns (collect ctx t n s y)
          → Enters ctx t (ok (y, some s)) (collect ctx t n s y) =
        λ s y g h. collect-Enters n s y full g h in
      set-Enters ctx t (collect ctx t n) full inside set x f
        (rest-Continues ctx t (collect ctx t n) full inside set x (IsFull-IsFullRest set f) r)

  then-sets :
      (n : ℕ) (set : SelectionSet) (sets : List SelectionSet) (x : Collecting F A)
      (r : Result E (Collecting F A))
      → Enters ctx t (ok (x, some set)) r
      → ((y : Collecting F A)
          → r ≡ ok y
          → (m : ℕ) × ((j : ℕ) → collect_loop ctx t (m + j) sets y ≡ collect_sets ctx t n sets y))
      → Returns r
      → (m : ℕ) × ((j : ℕ)
          → collect_loop ctx t (m + j) (set ∷ sets) x ≡ (r >>= λ y. collect_sets ctx t n sets y))
  then-sets n set sets x (ok y) h k r =
      let (m, p) = k y refl in
      (
        h.rounds + m,
        λ j.
            ap (λ n. collect_loop ctx t n (set ∷ sets) x) {y = h.rounds + (m + j)} (omega arith)
            ∙ (h.goes_on (m + j) sets ∙ p j),
      )
  then-sets n set sets x (err e) h k r = (h.rounds, λ j. h.goes_on j sets)
  then-sets n set sets x panics h k r = (h.rounds, λ j. h.goes_on j sets)
  then-sets n set sets x out_of_fuel h k r = absurd r

  pub collect_sets-loop :
      (n : ℕ) (sets : List SelectionSet) (x : Collecting F A)
      → AreFullFragments ctx.fragments
      → AreFull sets
      → Returns (collect_sets ctx t n sets x)
      → (m : ℕ) × ((j : ℕ) → collect_loop ctx t (m + j) sets x ≡ collect_sets ctx t n sets x)
  unfolding collect_loop
  collect_sets-loop n [] x full f r = (0, λ j. refl)
  collect_sets-loop n (set ∷ sets) x full f r =
      let h =
        collect-Enters n set x full f.0
          (Returns-bind (collect ctx t n set x) (collect_sets ctx t n sets) r) in
      then-sets n set sets x (collect ctx t n set x) h
        (λ y e.
          collect_sets-loop n sets y full f.1
            (subst (λ o. Returns (o >>= collect_sets ctx t n sets)) e r))
        (Returns-bind (collect ctx t n set x) (collect_sets ctx t n sets) r)
