-- ===== src/Validator/Fragments/Scans.antt =====
-- Proofs on the scan of one selection set: whom it marks, and what it leaves on the stack.
use artemis.Prelude.{
  ◌≡◌, ◌⊎◌, inl, inr, refl, sym, ap, ◌∙◌, subst, true, Option, some, none, List, [], ◌∷◌, Bytes,
  bytes_eq, bytes_eq→eq, bytes_eq_refl, lookup, Bool-cases, Option-cases,
}
use artemis.Ast.{
  name_value, Name, Directive, FieldHead, Selection, SelectionSet, field, fragment_spread,
  inline_fragment, no_selections, add_selection, FragmentDefinition,
}
use artemis.Validator.Fragments.{Infos, is_used, Marking, push_nonempty, mark, scan, scan_selection}
use artemis.Validator.Fragments.Spec.{
  SelectionSpreads, spread, in_field, in_inline, Spreads, at_first, at_later, Defined,
}

abbrev pub InStack : Bytes → List SelectionSet → Type 0
InStack k [] = ⊥
InStack k (set ∷ stack) = Spreads set k ⊎ InStack k stack

-- The name is marked, or some set that waits on the stack has a spread of it.
abbrev pub Pending : Bytes → Marking → Type 0
Pending k m = (is_used k m.used ≡ true) ⊎ InStack k m.stack

-- What one scan does, of a set or a selection whose spreads are `S`.
pub record Scanned (infos : Infos) (S : Bytes → Type 0) (m m' : Marking) : Type 1 where
  pub keeps : (k : Bytes) → Pending k m → Pending k m'
  pub finds : (k : Bytes) → S k → Defined infos k → Pending k m'
  pub fresh :
      (j : Bytes)
      → is_used j m'.used ≡ true
      → (is_used j m.used ≡ true)
        ⊎ ((d : Defined infos j) (k : Bytes) → Spreads d.definition.selection_set k → Pending k m')
  -- A property of what the set spreads and of what was pending holds of what is pending.
  pub only :
      (Q : Bytes → Type 0)
      → ((j : Bytes)
          → Q j
          → (d : Defined infos j) (k : Bytes) → Spreads d.definition.selection_set k
          → Defined infos k
          → Q k)
      → ((k : Bytes) → Pending k m → Defined infos k → Q k)
      → ((k : Bytes) → S k → Defined infos k → Q k)
      → (k : Bytes) → Pending k m'
      → Defined infos k
      → Q k

none_spread : (k : Bytes) → Spreads no_selections k → ⊥
none_spread k s = elim s [ ]

module _ (infos : Infos) where
  push_nonempty-Scanned :
      (s : SelectionSet) (m : Marking) → Scanned infos (Spreads s) m (push_nonempty s m)
  push_nonempty-Scanned no_selections m = record {
    keeps = λ k p. p;
    finds = λ k s d. absurd (none_spread k s);
    fresh = λ j u. inl u;
    only = λ Q c p s k h d. p k h d;
  }
  push_nonempty-Scanned (add_selection s set) m = record {
    keeps = λ k p. elim p [ inl u ↦ inl u | inr i ↦ inr (inr i) ];
    finds = λ k s d. inr (inl s);
    fresh = λ j u. inl u;
    only = λ Q c p s k h d. elim h [
      | inl u ↦ p k (inl u) d
      | inr i ↦ elim i [ inl x ↦ s k x d | inr x ↦ p k (inr x) d ]
    ];
  }

  unchanged-Scanned :
      (S : Bytes → Type 0) (m : Marking)
      → ((k : Bytes) → S k → Defined infos k → Pending k m)
      → Scanned infos S m m
  unchanged-Scanned S m f = record {
    keeps = λ k p. p;
    finds = f;
    fresh = λ j u. inl u;
    only = λ Q c p s k h d. p k h d;
  }

  -- Either the name is the one marked now, or it was marked before.
  pub used-cons :
      (j k : Bytes) (used : List Bytes)
      → is_used j (k ∷ used) ≡ true
      → (j ≡ k) ⊎ (is_used j used ≡ true)
  used-cons j k used u = elim (Bool-cases (bytes_eq j k)) [
    | inl e ↦ inl (bytes_eq→eq j k e)
    | inr e ↦ inr (sym (rw e refl) ∙ u)
  ]

  pub used-later :
      (j k : Bytes) (used : List Bytes) → is_used j used ≡ true → is_used j (k ∷ used) ≡ true
  used-later j k used u = elim (Bool-cases (bytes_eq j k)) [ inl e ↦ rw e refl | inr e ↦ rw e u ]

  pub used-first : (k : Bytes) (used : List Bytes) → is_used k (k ∷ used) ≡ true
  used-first k used = rw (bytes_eq_refl k) refl

  same-definition :
      (j k : Bytes) (f : FragmentDefinition) (d : Defined infos j)
      → lookup k infos ≡ some f
      → j ≡ k
      → d.definition ≡ f
  same-definition j k f d e q =
      let a : lookup j infos ≡ some f = ap (λ i. lookup i infos) q ∙ e in let b = d.found in cc

  pub new_mark-Scanned :
      (k : Bytes) (f : FragmentDefinition) (m : Marking) (S : Bytes → Type 0)
      → lookup k infos ≡ some f
      → S k
      → ((j : Bytes) → S j → j ≡ k)
      → Scanned infos S m (record { used = k ∷ m.used; stack = f.selection_set ∷ m.stack })
  new_mark-Scanned k f m S e s o = record {
    keeps = λ j p. elim p [ inl u ↦ inl (used-later j k m.used u) | inr i ↦ inr (inr i) ];
    finds = λ j x d.
        inl (subst (λ i. is_used i (k ∷ m.used) ≡ true) (sym (o j x)) (used-first k m.used));
    fresh = λ j u. elim (used-cons j k m.used u) [
      | inl q ↦ inr (λ d i x.
          inr (inl (subst (λ g. Spreads g.selection_set i) (same-definition j k f d e q) x)))
      | inr v ↦ inl v
    ];
    only = λ Q c p x j h d. elim h [
      | inl u ↦ elim (used-cons j k m.used u) [
        | inl q ↦ x j (subst S (sym q) s) d
        | inr v ↦ p j (inl v) d
      ]
      | inr i ↦ elim i [
        | inl y ↦
            c k (x k s (record { definition = f; found = e }))
              (record { definition = f; found = e }) j y d
        | inr y ↦ p j (inr y) d
      ]
    ];
  }

  mark-Scanned :
      (k : Bytes) (f : FragmentDefinition) (m : Marking) (S : Bytes → Type 0)
      → lookup k infos ≡ some f
      → S k
      → ((j : Bytes) → S j → j ≡ k)
      → Scanned infos S m (mark k f m)
  mark-Scanned k f m S e s o = elim (Bool-cases (is_used k m.used)) [
    | inl u ↦ rw u (
        unchanged-Scanned S m (λ j x d. inl (subst (λ i. is_used i m.used ≡ true) (sym (o j x)) u)))
    | inr u ↦ rw u (new_mark-Scanned k f m S e s o)
  ]

field-Spreads :
    (head : FieldHead) (set : SelectionSet) (k : Bytes)
    → SelectionSpreads (field head set) k
    → Spreads set k
field-Spreads head set k (in_field s) = s

inline-Spreads :
    (condition : Option Name) (directives : List Directive) (set : SelectionSet) (k : Bytes)
    → SelectionSpreads (inline_fragment condition directives set) k
    → Spreads set k
inline-Spreads condition directives set k (in_inline s) = s

Scanned-as :
    (infos : Infos) (S T : Bytes → Type 0) (m m' : Marking)
    → ((k : Bytes) → S k → T k)
    → ((k : Bytes) → T k → S k)
    → Scanned infos S m m'
    → Scanned infos T m m'
Scanned-as infos S T m m' f g x = record {
  keeps = x.keeps;
  finds = λ k t d. x.finds k (g k t) d;
  fresh = x.fresh;
  only = λ Q c p t k h d. x.only Q c p (λ j s. t j (f j s)) k h d;
}

Scanned-then :
    (infos : Infos) (S T : Bytes → Type 0) (m₀ m₁ m₂ : Marking)
    → Scanned infos S m₀ m₁
    → Scanned infos T m₁ m₂
    → Scanned infos (λ k. S k ⊎ T k) m₀ m₂
Scanned-then infos S T m₀ m₁ m₂ x y = record {
  keeps = λ k p. y.keeps k (x.keeps k p);
  finds = λ k s d. elim s [ inl a ↦ y.keeps k (x.finds k a d) | inr b ↦ y.finds k b d ];
  fresh = λ j u. elim (y.fresh j u) [
    | inl v ↦ elim (x.fresh j v) [ inl w ↦ inl w | inr h ↦ inr (λ d k s. y.keeps k (h d k s)) ]
    | inr h ↦ inr h
  ];
  only = λ Q c p t. y.only Q c (x.only Q c p (λ k s. t k (inl s))) (λ k s. t k (inr s));
}

spread-name :
    (name : Name) (directives : List Directive) (j : Bytes)
    → SelectionSpreads (fragment_spread name directives) j
    → j ≡ name_value name
spread-name name directives j spread = refl

first-or-later :
    (s : Selection) (set : SelectionSet) (k : Bytes)
    → Spreads (add_selection s set) k
    → SelectionSpreads s k ⊎ Spreads set k
first-or-later s set k (at_first a) = inl a
first-or-later s set k (at_later b) = inr b

module _ (infos : Infos) where
  pub undefined : (k j : Bytes) → lookup j infos ≡ none → k ≡ j → Defined infos k → ⊥
  undefined k j e q d =
      let a : lookup k infos ≡ none = ap (λ i. lookup i infos) q ∙ e in let b = d.found in absurd cc

  scan_selection-Scanned :
      (s : Selection) (m : Marking)
      → Scanned infos (SelectionSpreads s) m (scan_selection infos s m)
  scan_selection-Scanned (field head set) m =
      Scanned-as infos (Spreads set) (SelectionSpreads (field head set)) m (push_nonempty set m)
        (λ k x. in_field x) (field-Spreads head set) (push_nonempty-Scanned infos set m)
  scan_selection-Scanned (inline_fragment type_condition directives set) m =
      Scanned-as infos (Spreads set)
        (SelectionSpreads (inline_fragment type_condition directives set)) m (push_nonempty set m)
        (λ k x. in_inline x) (inline-Spreads type_condition directives set)
        (push_nonempty-Scanned infos set m)
  scan_selection-Scanned (fragment_spread name directives) m =
      elim (Option-cases (lookup (name_value name) infos)) [
        | inl e ↦
            rw (scan_selection, e)
              (unchanged-Scanned infos (SelectionSpreads (fragment_spread name directives)) m
                (λ k s d.
                  absurd (undefined k (name_value name) e (spread-name name directives k s) d)))
        | inr x ↦
            rw (scan_selection, x.1)
              (mark-Scanned infos (name_value name) x.0 m
                (SelectionSpreads (fragment_spread name directives)) x.1 spread
                (spread-name name directives))
      ]

  -- Scanning a set leaves nothing that it spreads out.
  pub scan-Scanned :
      (set : SelectionSet) (m : Marking) → Scanned infos (Spreads set) m (scan infos set m)
  scan-Scanned no_selections m =
      unchanged-Scanned infos (Spreads no_selections) m (λ k s d. absurd (none_spread k s))
  scan-Scanned (add_selection s set) m =
      Scanned-as infos (λ k. SelectionSpreads s k ⊎ Spreads set k) (Spreads (add_selection s set)) m
        (scan infos set (scan_selection infos s m))
        (λ k x. elim x [ inl a ↦ at_first a | inr b ↦ at_later b ]) (first-or-later s set)
        (Scanned-then infos (SelectionSpreads s) (Spreads set) m (scan_selection infos s m)
          (scan infos set (scan_selection infos s m)) (scan_selection-Scanned s m)
          (scan-Scanned set (scan_selection infos s m)))
