-- ===== src/Executor/Errors/Propagation.antt =====
-- The nodes that an error makes nil.
use artemis.Prelude.{
  among, ◌%◌, ℕ, zero, suc, ◌<◌, ◌≡◌, refl, sym, ap, ◌∙◌, Bool, true, false, not, ◌||◌, ◌&&◌, ◌==◌,
  if◌then◌else◌, some, none, List, [], ◌∷◌, ◌++◌, length, Bool-cases, inl, inr, arith,
}
use artemis.Executor.ResultNode.{
  PathKey, nil, ResultNode, Store, is_nil, should_reject_null, set_nil, path,
}
use artemis.Executor.Errors.{
  GraphqlError, GoError, other_error, graphql_error, Executor, locate, propagate_execution_error,
  append_error, as_graphql_error, handle_node_error,
}

or_false : (b : Bool) → (b || false) ≡ b
or_false true = refl
or_false false = refl

eq_flip : (a b : ℕ) → (a == b) ≡ (b == a)
eq_flip a b = ground arith

-- What the pointer to the graphql.Error of an error leads to, with the locations and the path of the
-- node.
abbrev pub error_at :
    {L F : Type 0} → GoError → List L → List PathKey → GraphqlError L F → GraphqlError L F
error_at (other_error m) locations keys e = record {
  message = m;
  locations = locations;
  path = keys;
  rest = none;
}
error_at (graphql_error q) locations keys e = locate locations keys e

module _ {V : Type 0} where
  -- The ancestors of a node, nearest first. The root takes a null.
  pub data Ancestors (s : Store V) : ℕ → List ℕ → Type 0 where
    topmost : {n : ℕ} → (s n).parent ≡ none → should_reject_null (s n) ≡ false → Ancestors s n []
    nearer :
        {n p : ℕ} {above : List ℕ}
        → (s n).parent ≡ some p
        → (p == n) ≡ false
        → Ancestors s p above
        → Ancestors s n (p ∷ above)

  -- The parents of the nodes that reject a null, from a node up to the first that takes it.
  abbrev pub nulled : Store V → ℕ → List ℕ → List ℕ
  nulled s r [] = []
  nulled s r (p ∷ above) =
      let rest = nulled s p above in if should_reject_null (s r) then p ∷ rest else []

  abbrev clear_all : List ℕ → Store V → Store V
  clear_all [] s = s
  clear_all (p ∷ ps) s = clear_all ps (set_nil p s)

  -- A node made nil keeps its parent and its flags.
  set_nil_parent : (q r : ℕ) (s : Store V) → (set_nil q s r).parent ≡ (s r).parent
  set_nil_parent q r s = elim (Bool-cases (r == q)) [ inl e ↦ rw e refl | inr e ↦ rw e refl ]

  set_nil_flags : (q r : ℕ) (s : Store V) → (set_nil q s r).flags ≡ (s r).flags
  set_nil_flags q r s = elim (Bool-cases (r == q)) [ inl e ↦ rw e refl | inr e ↦ rw e refl ]

  set_nil-should_reject_null :
      (q r : ℕ) (s : Store V) → should_reject_null (set_nil q s r) ≡ should_reject_null (s r)
  set_nil-should_reject_null q r s = ap (λ f. f % 2 == 1) (set_nil_flags q r s)

  nulled-set_nil :
      (q r : ℕ) (s : Store V) (above : List ℕ) → nulled (set_nil q s) r above ≡ nulled s r above
  nulled-set_nil q r s [] = refl
  nulled-set_nil q r s (p ∷ above) =
      ap (λ b. if b then p ∷ nulled (set_nil q s) p above else [])
        (set_nil-should_reject_null q r s)
      ∙ ap (λ rest. if should_reject_null (s r) then p ∷ rest else []) (nulled-set_nil q p s above)

  set_nil-Ancestors :
      (q : ℕ) (s : Store V) (r : ℕ) (above : List ℕ)
      → Ancestors s r above
      → Ancestors (set_nil q s) r above
  set_nil-Ancestors q s r above (topmost e f) =
      topmost (set_nil_parent q r s ∙ e) (set_nil-should_reject_null q r s ∙ f)
  set_nil-Ancestors q s r (p ∷ above) (nearer e f a) =
      nearer (set_nil_parent q r s ∙ e) f (set_nil-Ancestors q s p above a)

  propagate-nulled :
      (s : Store V) (r : ℕ) (above : List ℕ) (fuel : ℕ)
      → Ancestors s r above
      → length above < fuel
      → propagate_execution_error fuel s r ≡ some (clear_all (nulled s r above) s)
  unfolding propagate_execution_error
  propagate-nulled s r above zero a h = absurd (omega arith)
  propagate-nulled s r above (suc fuel) (topmost e f) h = rw (f, propagate_execution_error) refl
  propagate-nulled s r (p ∷ above) (suc fuel) (nearer e f a) h =
      elim (Bool-cases (should_reject_null (s r))) [
        | inl t ↦
            rw (t, e, propagate_execution_error)
              (propagate-nulled (set_nil p s) p above fuel (set_nil-Ancestors p s p above a)
                  (omega arith)
                ∙ ap (λ ps. some (clear_all ps (set_nil p s))) (nulled-set_nil p p s above))
        | inr t ↦ rw (t, propagate_execution_error) refl
      ]

  clear_first :
      (rest : Bool) (r : ℕ) (s : Store V) (q : ℕ)
      → (if rest then record (set_nil r s q) { value = nil } else set_nil r s q)
        ≡ (if q == r || rest then record (s q) { value = nil } else s q)
  clear_first rest r s q = elim (Bool-cases (q == r)) [
    | inl f ↦ elim (Bool-cases rest) [ inl t ↦ rw (f, t) refl | inr t ↦ rw (f, t) refl ]
    | inr f ↦ elim (Bool-cases rest) [ inl t ↦ rw (f, t) refl | inr t ↦ rw (f, t) refl ]
  ]

  clear_once :
      (rest : Bool) (p : ℕ) (s : Store V) (q : ℕ)
      → (if rest then record (set_nil p s q) { value = nil } else set_nil p s q)
        ≡ (if p == q || rest then record (s q) { value = nil } else s q)
  clear_once rest p s q =
      clear_first rest p s q
      ∙ ap (λ b. if b || rest then record (s q) { value = nil } else s q) (eq_flip q p)

  clear_all_lem :
      (ps : List ℕ) (s : Store V) (q : ℕ)
      → clear_all ps s q ≡ (if among q ps then record (s q) { value = nil } else s q)
  clear_all_lem [] s q = refl
  clear_all_lem (p ∷ ps) s q = clear_all_lem ps (set_nil p s) q ∙ clear_once (among q ps) p s q

  -- The nodes after an error at `r`, whose parent is `p`.
  abbrev pub after_error : Store V → ℕ → ℕ → List ℕ → ℕ → ResultNode V
  after_error s r p above q =
      if q == r || (not (is_nil (s p)) && among q (nulled s p above))
      then record (s q) { value = nil }
      else s q

  is_nil_other : (p r : ℕ) (s : Store V) → (p == r) ≡ false → is_nil (set_nil r s p) ≡ is_nil (s p)
  is_nil_other p r s h = rw h refl

  module _ {L F : Type 0} where
    -- `append_error` after the node was made nil.
    error_dropped :
        (x : Executor V L F) (e r p fuel : ℕ)
        → (x.nodes r).parent ≡ some p
        → (p == r) ≡ false
        → is_nil (x.nodes p) ≡ true
        → append_error fuel e r (record x { nodes = set_nil r x.nodes })
          ≡ some (record x { nodes = set_nil r x.nodes })
    unfolding append_error
    error_dropped x e r p fuel parent ne t =
        rw (set_nil_parent r r x.nodes ∙ parent, append_error)
          (rw (is_nil_other p r x.nodes ne ∙ t, append_error) refl)

    error_kept :
        (x : Executor V L F) (e r p : ℕ) (above : List ℕ) (fuel : ℕ)
        → (x.nodes r).parent ≡ some p
        → (p == r) ≡ false
        → is_nil (x.nodes p) ≡ false
        → Ancestors x.nodes p above
        → length above < fuel
        → append_error fuel e r (record x { nodes = set_nil r x.nodes })
          ≡ some (record x {
            nodes = clear_all (nulled x.nodes p above) (set_nil r x.nodes);
            errs = x.errs ++ (e ∷ []);
          })
    unfolding append_error
    error_kept x e r p above fuel parent ne t a h =
        rw (set_nil_parent r r x.nodes ∙ parent, append_error)
          (rw (is_nil_other p r x.nodes ne ∙ t, append_error)
            (rw
              (
                propagate-nulled (set_nil r x.nodes) p above fuel
                    (set_nil-Ancestors r x.nodes p above a) h,
                append_error,
              )
              (ap
                (λ ps. some (record x {
                  nodes = clear_all ps (set_nil r x.nodes);
                  errs = x.errs ++ (e ∷ []);
                }))
                (nulled-set_nil r p x.nodes above))))

    -- The pointer to the graphql.Error of an error.
    abbrev pub pointer_of : GoError → Executor V L F → ℕ
    pointer_of (other_error m) x = x.next_error
    pointer_of (graphql_error e) x = e

    append_error-nulled :
        (x : Executor V L F) (e r p : ℕ) (above : List ℕ) (fuel : ℕ)
        → (x.nodes r).parent ≡ some p
        → (p == r) ≡ false
        → Ancestors x.nodes p above
        → length above < fuel
        → (x' : Executor V L F) × (append_error fuel e r (record x { nodes = set_nil r x.nodes })
            ≡ some x')
          × ((q : ℕ) → x'.nodes q ≡ after_error x.nodes r p above q)
          × (x'.errs ≡ (if is_nil (x.nodes p) then x.errs else x.errs ++ (e ∷ [])))
          × (x'.errors ≡ x.errors)
    append_error-nulled x e r p above fuel parent ne a h = elim (Bool-cases (is_nil (x.nodes p))) [
      | inl t ↦ (
        record x { nodes = set_nil r x.nodes },
        error_dropped x e r p fuel parent ne t,
        λ q. rw t (
            ap (λ b. if b then record (x.nodes q) { value = nil } else x.nodes q)
              (sym (or_false (q == r)))),
        rw t refl,
        refl,
      )
      | inr t ↦ (
        record x {
          nodes = clear_all (nulled x.nodes p above) (set_nil r x.nodes);
          errs = x.errs ++ (e ∷ []);
        },
        error_kept x e r p above fuel parent ne t a h,
        λ q. rw t (
            clear_all_lem (nulled x.nodes p above) (set_nil r x.nodes) q
            ∙ clear_first (among q (nulled x.nodes p above)) r x.nodes q),
        rw t refl,
        refl,
      )
    ]

    -- The error of a node that is not the root, with enough fuel for its ancestors, of which the
    -- root takes a null: the node becomes nil. If its parent is nil already, no other node changes
    -- and the error is dropped. If not, the pointer to the error is added to the errors of the
    -- response, and those nodes become nil that are parents of the nodes which reject a null, from
    -- the parent on, and not from the node itself. In both cases the graphql.Error that the pointer
    -- leads to has the locations and the path of the node from then on, so that an error which was
    -- recorded before, for another node, loses those it had; no other error changes.
    pub handle_node_error-nulled :
        (x : Executor V L F) (locations : List L) (err : GoError) (r p : ℕ) (above : List ℕ)
        (fuel : ℕ) (keys : List PathKey)
        → path fuel x.nodes r ≡ some keys
        → (x.nodes r).parent ≡ some p
        → (p == r) ≡ false
        → Ancestors x.nodes p above
        → length above < fuel
        → (x' : Executor V L F) × (handle_node_error fuel locations err r x ≡ some x')
          × ((q : ℕ) → x'.nodes q ≡ after_error x.nodes r p above q)
          × (x'.errs ≡ (if is_nil (x.nodes p) then x.errs else x.errs ++ (pointer_of err x ∷ [])))
          × ((q : ℕ)
              → x'.errors q ≡ (
                  if q == pointer_of err x
                  then error_at err locations keys (x.errors q)
                  else x.errors q))
    unfolding handle_node_error as_graphql_error
    handle_node_error-nulled x locations (other_error m) r p above fuel keys k parent ne a h =
        let y = (as_graphql_error (other_error m) locations keys x).1 in
        let n = append_error-nulled y x.next_error r p above fuel parent ne a h in
        (n.0, rw (k, handle_node_error) n.1, n.2, n.3, λ q. ap (λ f. f q) n.4)
    handle_node_error-nulled x locations (graphql_error e) r p above fuel keys k parent ne a h =
        let y = (as_graphql_error (graphql_error e) locations keys x).1 in
        let n = append_error-nulled y e r p above fuel parent ne a h in
        (n.0, rw (k, handle_node_error) n.1, n.2, n.3, λ q. ap (λ f. f q) n.4)
