-- ===== src/Validator/Fragments/Sizes.antt =====
-- Proofs on what is left to scan: the sets on the stack, and those of the fragments without a mark.
use artemis.Prelude.{
  ℕ, ◌+◌, ◌≤◌, ◌<◌, ◌≡◌, refl, sym, ap, ◌∙◌, subst, true, false, if◌then◌else◌, some, List, [], ◌∷◌,
  Bytes, bytes_eq, bytes_eq→eq, bytes_eq_refl, lookup, arith, inl, inr, Bool-cases, Option-cases,
}
use artemis.Ast.{
  name_value, Selection, SelectionSet, field, fragment_spread, inline_fragment, no_selections,
  add_selection, FragmentDefinition,
}
use artemis.Validator.Fragments.{Infos, is_used, Marking, push_nonempty, mark, scan, scan_selection}

abbrev mutual
  pub selection_size : Selection → ℕ
  selection_size (field head set) = set_size set
  selection_size (fragment_spread name directives) = 0
  selection_size (inline_fragment type_condition directives set) = set_size set

  pub set_size : SelectionSet → ℕ
  set_size no_selections = 1
  set_size (add_selection s set) = selection_size s + set_size set

abbrev pub stack_size : List SelectionSet → ℕ
stack_size [] = 0
stack_size (set ∷ stack) = set_size set + stack_size stack

-- The sets of the fragments that are not used yet.
abbrev pub unused_size : List Bytes → Infos → ℕ
unused_size used [] = 0
unused_size used ((k, f) ∷ infos) =
    let rest = unused_size used infos in
    if is_used k used then rest else set_size f.selection_set + rest

abbrev pub size_left : Infos → Marking → ℕ
size_left infos m = stack_size m.stack + unused_size m.used infos

unused_size-cons :
    (k : Bytes) (used : List Bytes) (infos : Infos)
    → unused_size (k ∷ used) infos ≤ unused_size used infos
unused_size-cons k used [] = omega arith
unused_size-cons k used ((j, f) ∷ infos) = let ih = unused_size-cons k used infos in ground arith

pub unused_size-lookup :
    (k : Bytes) (used : List Bytes) (infos : Infos) (f : FragmentDefinition)
    → is_used k used ≡ false
    → lookup k infos ≡ some f
    → unused_size (k ∷ used) infos + set_size f.selection_set ≤ unused_size used infos
unfolding lookup
unused_size-lookup k used [] f h e = cc
unused_size-lookup k used ((j, g) ∷ infos) f h e = elim (Bool-cases (bytes_eq k j)) [
  | inl x ↦
      let p : k ≡ j = bytes_eq→eq k j x in
      let n : is_used j used ≡ false = subst (λ i. is_used i used ≡ false) p h in
      let o : bytes_eq j k ≡ true = subst (λ i. bytes_eq i k ≡ true) p (bytes_eq_refl k) in
      let l : some g ≡ some f = sym (rw x refl) ∙ e in
      let q : g ≡ f = cc in
      let r : set_size g.selection_set ≡ set_size f.selection_set =
        ap (λ d. set_size d.selection_set) q in
      rw (n, o) (omega (arith, unused_size-cons k used infos))
  | inr x ↦
      let l : lookup k infos ≡ some f = sym (rw x refl) ∙ e in
      let ih = unused_size-lookup k used infos f h l in ground arith
]

push_nonempty-size :
    (infos : Infos) (set : SelectionSet) (m : Marking)
    → size_left infos (push_nonempty set m) ≤ set_size set + size_left infos m
push_nonempty-size infos no_selections m = omega arith
push_nonempty-size infos (add_selection s set) m = omega arith

mark-size :
    (infos : Infos) (k : Bytes) (f : FragmentDefinition) (m : Marking)
    → lookup k infos ≡ some f
    → size_left infos (mark k f m) ≤ size_left infos m
mark-size infos k f m e = elim (Bool-cases (is_used k m.used)) [
  | inl u ↦ rw u (omega arith)
  | inr u ↦ rw u (omega (arith, unused_size-lookup k m.used infos f u e))
]

scan_selection-size :
    (infos : Infos) (s : Selection) (m : Marking)
    → size_left infos (scan_selection infos s m) ≤ selection_size s + size_left infos m
scan_selection-size infos (field head set) m = push_nonempty-size infos set m
scan_selection-size infos (inline_fragment type_condition directives set) m =
    push_nonempty-size infos set m
scan_selection-size infos (fragment_spread name directives) m =
    elim (Option-cases (lookup (name_value name) infos)) [
      | inl e ↦ rw (scan_selection, e) (omega arith)
      | inr x ↦
          rw (scan_selection, x.1) (omega (arith, mark-size infos (name_value name) x.0 m x.1))
    ]

pub scan-size :
    (infos : Infos) (set : SelectionSet) (m : Marking)
    → size_left infos (scan infos set m) < set_size set + size_left infos m
scan-size infos no_selections m = omega arith
scan-size infos (add_selection s set) m =
    omega (arith, scan-size infos set (scan_selection infos s m), scan_selection-size infos s m)

-- No more is left than all the fragments.
pub unused_size-all :
    (used : List Bytes) (infos : Infos) → unused_size used infos ≤ unused_size [] infos
unused_size-all used [] = omega arith
unused_size-all used ((k, f) ∷ infos) = let ih = unused_size-all used infos in ground arith
