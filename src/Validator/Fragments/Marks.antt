-- ===== src/Validator/Fragments/Marks.antt =====
-- What is marked in the end, and what is reported.
use artemis.Prelude.{
  ℕ, zero, suc, ◌<◌, ◌≡◌, ◌↔◌, inl, inr, refl, sym, subst, true, false, Option, some, List, [], ◌∷◌,
  Bytes, lookup, arith, Bool-cases, Option-cases,
}
use artemis.Ast.{Document, SelectionSet, FragmentDefinition}
use artemis.Validator.Fragments.{
  Infos, fragment_infos, is_used, Marking, scan, mark_loop, recursively_mark_used,
  check_fragment_spread, check_spreads,
}
use artemis.Validator.Fragments.Spec.{Spreads, Defined, Reachable, at_root, by_spread}
use artemis.Validator.Fragments.Scans.{
  Pending, Scanned, scan-Scanned, new_mark-Scanned, undefined, used-first, used-later, used-cons,
}
use artemis.Validator.Fragments.Sizes.{
  unused_size, size_left, scan-size, unused_size-lookup, unused_size-all,
}

module _ (infos : Infos) (Q : Bytes → Type 0)
    (closed : (j : Bytes)
      → Q j
      → (d : Defined infos j) (k : Bytes) → Spreads d.definition.selection_set k
      → Defined infos k
      → Q k) where
  -- What a marked fragment spreads is pending, and only names with the property are.
  record Marked (m : Marking) : Type 0 where
    covers :
        (j : Bytes)
        → is_used j m.used ≡ true
        → (d : Defined infos j) (k : Bytes) → Spreads d.definition.selection_set k
        → Defined infos k
        → Pending k m
    only : (k : Bytes) → Pending k m → Defined infos k → Q k

  scan-Marked :
      (set : SelectionSet) (stack : List SelectionSet) (used : List Bytes)
      → Marked (record { used = used; stack = set ∷ stack })
      → Marked (scan infos set (record { used = used; stack = stack }))
  scan-Marked set stack used h =
      let m : Marking = record { used = used; stack = stack } in
      let s : Scanned infos (Spreads set) m (scan infos set m) = scan-Scanned infos set m in
      record {
        covers = λ j u d k x e. elim (s.fresh j u) [
          | inl v ↦ elim (h.covers j v d k x e) [
            | inl w ↦ s.keeps k (inl w)
            | inr i ↦ elim i [ inl y ↦ s.finds k y e | inr y ↦ s.keeps k (inr y) ]
          ]
          | inr f ↦ f d k x
        ];
        only =
            s.only Q closed (λ k p d. h.only k (elim p [ inl u ↦ inl u | inr i ↦ inr (inr i) ]) d)
              (λ k x d. h.only k (inr (inl x)) d);
      }

  -- The marks have been followed to the end, and what was pending is marked.
  record Ends (m : Marking) (r : Option (List Bytes)) : Type 0 where
    used : List Bytes
    returns : r ≡ some used
    marked : Marked (record { used = used; stack = [] })
    keeps : (k : Bytes) → Pending k m → Defined infos k → is_used k used ≡ true

  mark_loop-Ends :
      (fuel : ℕ) (stack : List SelectionSet) (used : List Bytes)
      → let m : Marking = record { used = used; stack = stack } in
        Marked m → size_left infos m < fuel → Ends m (mark_loop fuel infos m)
  unfolding mark_loop
  mark_loop-Ends zero stack used h n = absurd (omega arith)
  mark_loop-Ends (suc fuel) [] used h n = record {
    used = used;
    returns = refl;
    marked = h;
    keeps = λ k p d. elim p [ inl u ↦ u | inr i ↦ absurd i ];
  }
  mark_loop-Ends (suc fuel) (set ∷ stack) used h n =
      let m : Marking = record { used = used; stack = stack } in
      let m' : Marking = scan infos set m in
      let s : Scanned infos (Spreads set) m m' = scan-Scanned infos set m in
      let ih : Ends m' (mark_loop fuel infos m') =
        mark_loop-Ends fuel m'.stack m'.used (scan-Marked set stack used h)
          (omega (arith, scan-size infos set m)) in
      record {
        used = ih.used;
        returns = ih.returns;
        marked = ih.marked;
        keeps = λ k p d.
            ih.keeps k
              (elim p [
                | inl u ↦ s.keeps k (inl u)
                | inr i ↦ elim i [ inl x ↦ s.finds k x d | inr x ↦ s.keeps k (inr x) ]
              ])
              d;
      }

  Scanned-Marked :
      (S : Bytes → Type 0) (m m' : Marking)
      → Scanned infos S m m'
      → ((k : Bytes) → S k → Defined infos k → Q k)
      → Marked m
      → Marked m'
  Scanned-Marked S m m' s q h = record {
    covers = λ j u d k x e. elim (s.fresh j u) [
      | inl v ↦ s.keeps k (h.covers j v d k x e)
      | inr f ↦ f d k x
    ];
    only = s.only Q closed h.only q;
  }

  -- After one spread its fragment is marked, and so is what was.
  record Checked (k : Bytes) (used : List Bytes) (r : Option (List Bytes)) : Type 0 where
    used' : List Bytes
    returns : r ≡ some used'
    marked : Marked (record { used = used'; stack = [] })
    keeps : (j : Bytes) → is_used j used ≡ true → Defined infos j → is_used j used' ≡ true
    finds : Defined infos k → is_used k used' ≡ true

  check_fragment_spread-new :
      (fuel : ℕ) (k : Bytes) (used : List Bytes) (f : FragmentDefinition)
      → Marked (record { used = used; stack = [] })
      → lookup k infos ≡ some f
      → is_used k used ≡ false
      → Q k
      → unused_size [] infos < fuel
      → Checked k used (check_fragment_spread fuel infos k used)
  unfolding check_fragment_spread recursively_mark_used
  check_fragment_spread-new fuel k used f h e u q n =
      let m : Marking = record { used = used; stack = [] } in
      let m' : Marking = record { used = k ∷ used; stack = f.selection_set ∷ [] } in
      let s : Scanned infos (λ j. j ≡ k) m m' =
        new_mark-Scanned infos k f m (λ j. j ≡ k) e refl (λ j p. p) in
      let h' : Marked m' = Scanned-Marked (λ j. j ≡ k) m m' s (λ j p d. subst Q (sym p) q) h in
      let ends : Ends m' (mark_loop fuel infos m') =
        mark_loop-Ends fuel (f.selection_set ∷ []) (k ∷ used) h'
          (omega (arith, unused_size-lookup k used infos f u e, unused_size-all used infos)) in
      record {
        used' = ends.used;
        returns = rw (check_fragment_spread, e, recursively_mark_used, u) ends.returns;
        marked = ends.marked;
        keeps = λ j v d. ends.keeps j (s.keeps j (inl v)) d;
        finds = λ d. ends.keeps k (s.finds k refl d) d;
      }

  check_fragment_spread-Checked :
      (fuel : ℕ) (k : Bytes) (used : List Bytes)
      → Marked (record { used = used; stack = [] })
      → (Defined infos k → Q k)
      → unused_size [] infos < fuel
      → Checked k used (check_fragment_spread fuel infos k used)
  unfolding check_fragment_spread recursively_mark_used
  check_fragment_spread-Checked fuel k used h q n = elim (Option-cases (lookup k infos)) [
    | inl e ↦ record {
      used' = used;
      returns = rw (check_fragment_spread, e) refl;
      marked = h;
      keeps = λ j v d. v;
      finds = λ d. absurd (undefined infos k k e refl d);
    }
    | inr x ↦ elim (Bool-cases (is_used k used)) [
      | inl u ↦ record {
        used' = used;
        returns = rw (check_fragment_spread, x.1, recursively_mark_used, u) refl;
        marked = h;
        keeps = λ j v d. v;
        finds = λ d. u;
      }
      | inr u ↦
          check_fragment_spread-new fuel k used x.0 h x.1 u
            (q (record { definition = x.0; found = x.1 })) n
    ]
  ]

  record AllChecked (roots used : List Bytes) (r : Option (List Bytes)) : Type 0 where
    used' : List Bytes
    returns : r ≡ some used'
    marked : Marked (record { used = used'; stack = [] })
    keeps : (j : Bytes) → is_used j used ≡ true → Defined infos j → is_used j used' ≡ true
    finds : (j : Bytes) → is_used j roots ≡ true → Defined infos j → is_used j used' ≡ true

  check_spreads-AllChecked :
      (fuel : ℕ) (roots used : List Bytes)
      → Marked (record { used = used; stack = [] })
      → ((k : Bytes) → is_used k roots ≡ true → Defined infos k → Q k)
      → unused_size [] infos < fuel
      → AllChecked roots used (check_spreads fuel infos roots used)
  unfolding check_spreads
  check_spreads-AllChecked fuel [] used h q n = record {
    used' = used;
    returns = refl;
    marked = h;
    keeps = λ j v d. v;
    finds = λ j v d. absurd (let w : false ≡ true = v in cc);
  }
  check_spreads-AllChecked fuel (k ∷ roots) used h q n =
      let one : Checked k used (check_fragment_spread fuel infos k used) =
        check_fragment_spread-Checked fuel k used h (q k (used-first infos k roots)) n in
      let rest : AllChecked roots one.used' (check_spreads fuel infos roots one.used') =
        check_spreads-AllChecked fuel roots one.used' one.marked
          (λ j v d. q j (used-later infos j k roots v) d) n in
      record {
        used' = rest.used';
        returns = rw (check_spreads, one.returns) rest.returns;
        marked = rest.marked;
        keeps = λ j v d. rest.keeps j (one.keeps j v d) d;
        finds = λ j v d. elim (used-cons infos j k roots v) [
          | inl p ↦
              rest.keeps j
                (subst (λ i. is_used i one.used' ≡ true) (sym p)
                  (one.finds (subst (Defined infos) p d)))
                d
          | inr w ↦ rest.finds j w d
        ];
      }

module _ (document : Document) (roots : List Bytes) where
  -- The infos of the document, as the rule sees them.
  abbrev pub infos_of : Infos
  infos_of = fragment_infos document

  -- What the checks of the spreads come to.
  pub record Marks (r : Option (List Bytes)) : Type 0 where
    pub used : List Bytes
    pub returns : r ≡ some used
    pub exactly :
        (k : Bytes) → Defined infos_of k → (is_used k used ≡ true) ↔ Reachable infos_of roots k

  used-Reachable :
      (k : Bytes) (used : List Bytes)
      → Marked infos_of
          (Reachable infos_of roots)
          (λ j q d k s e. by_spread q d s e)
          (record { used = used; stack = [] })
      → ((j : Bytes) → is_used j roots ≡ true → Defined infos_of j → is_used j used ≡ true)
      → Reachable infos_of roots k
      → is_used k used ≡ true
  used-Reachable k used h f (at_root u d) = f k u d
  used-Reachable k used h f (by_spread {j = j} r d s e) =
      elim (h.covers j (used-Reachable j used h f r) d k s e) [ inl u ↦ u | inr i ↦ absurd i ]

  pub check_spreads-Marks :
      (fuel : ℕ) → unused_size [] infos_of < fuel → Marks (check_spreads fuel infos_of roots [])
  check_spreads-Marks fuel n =
      let c : (j : Bytes)
          → Reachable infos_of roots j
          → (d : Defined infos_of j) (k : Bytes) → Spreads d.definition.selection_set k
          → Defined infos_of k
          → Reachable infos_of roots k =
        λ j q d k s e. by_spread q d s e in
      let a =
        check_spreads-AllChecked infos_of (Reachable infos_of roots) c fuel roots []
          (record {
            covers = λ j u. absurd (let w : false ≡ true = u in cc);
            only = λ k p d. elim p [
              | inl u ↦ absurd (let w : false ≡ true = u in cc)
              | inr i ↦ absurd i
            ];
          })
          (λ k u d. at_root u d) n in
      record {
        used = a.used';
        returns = a.returns;
        exactly =
            λ k d. (λ u. a.marked.only k (inl u) d, used-Reachable k a.used' a.marked a.finds);
      }
