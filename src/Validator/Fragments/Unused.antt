-- ===== src/Validator/Fragments/Unused.antt =====
-- The fragments that are reported, against the fragments that the operations lead to.
use artemis.Prelude.{
  ℕ, ◌<◌, ◌≡◌, ◌⊎◌, ◌↔◌, inl, inr, refl, sym, ◌∙◌, subst, true, false, some, List, [], ◌∷◌, Bytes,
  bytes_eq, bytes_eq_refl, insert, lookup-insert, Bool-cases,
}
use artemis.Ast.{name_value, FragmentDefinition, operation, fragment, Document}
use artemis.Validator.Fragments.{
  Infos, is_used, add_infos, fragment_infos, check_spreads, report_unused, no_unused_fragments,
  walk_operations,
}
use artemis.Validator.Fragments.Spec.{Defined, Reachable}
use artemis.Validator.Fragments.Sizes.{unused_size}
use artemis.Validator.Fragments.Marks.{Marks, check_spreads-Marks}

abbrev pub Among : FragmentDefinition → List FragmentDefinition → Type 0
Among f [] = ⊥
Among f (g ∷ gs) = (f ≡ g) ⊎ Among f gs

abbrev pub fragments_of : Document → List FragmentDefinition
fragments_of [] = []
fragments_of (operation o ∷ definitions) = fragments_of definitions
fragments_of (fragment f ∷ definitions) = f ∷ fragments_of definitions

add_infos-Defined :
    (document : Document) (infos : Infos) (k : Bytes)
    → Defined infos k
    → Defined (add_infos document infos) k
unfolding name_value insert
add_infos-Defined [] infos k d = d
add_infos-Defined (operation o ∷ definitions) infos k d = add_infos-Defined definitions infos k d
add_infos-Defined (fragment f ∷ definitions) infos k d =
    add_infos-Defined definitions (insert (name_value f.name) f infos) k
      (elim (Bool-cases (bytes_eq k (name_value f.name))) [
        | inl e ↦ record {
          definition = f;
          found = lookup-insert k (name_value f.name) f infos ∙ rw e refl;
        }
        | inr e ↦ record {
          definition = d.definition;
          found = lookup-insert k (name_value f.name) f infos ∙ (rw e d.found);
        }
      ])

Among-Defined :
    (document : Document) (infos : Infos) (f : FragmentDefinition)
    → Among f (fragments_of document)
    → Defined (add_infos document infos) (name_value f.name)
unfolding name_value insert
Among-Defined [] infos f m = absurd m
Among-Defined (operation o ∷ definitions) infos f m = Among-Defined definitions infos f m
Among-Defined (fragment g ∷ definitions) infos f (inl e) =
    let k = name_value g.name in
    let d : Defined (insert k g infos) k = record {
      definition = g;
      found = lookup-insert k k g infos ∙ rw (bytes_eq_refl k) refl;
    } in
    subst (λ h. Defined (add_infos definitions (insert k g infos)) (name_value h.name)) (sym e)
      (add_infos-Defined definitions (insert k g infos) k d)
Among-Defined (fragment g ∷ definitions) infos f (inr m) =
    Among-Defined definitions (insert (name_value g.name) g infos) f m

report_unused-Among :
    (used : List Bytes) (document : Document) (f : FragmentDefinition)
    → Among f (report_unused used document)
      ↔ (Among f (fragments_of document) × (is_used (name_value f.name) used ≡ false))
unfolding report_unused name_value
report_unused-Among used [] f = (λ m. absurd m, λ p. absurd p.0)
report_unused-Among used (operation o ∷ definitions) f = report_unused-Among used definitions f
report_unused-Among used (fragment g ∷ definitions) f =
    let ih = report_unused-Among used definitions f in
    elim (Bool-cases (is_used (name_value g.name) used)) [
      | inl u ↦ rw u (
        λ m. (inr (ih.0 m).0, (ih.0 m).1),
        λ p. elim p.0 [
          | inl e ↦
              let v : is_used (name_value g.name) used ≡ false =
                subst (λ h. is_used (name_value h.name) used ≡ false) e p.1 in
              absurd (let w : true ≡ false = sym u ∙ v in cc)
          | inr m ↦ ih.1 (m, p.1)
        ],
      )
      | inr u ↦ rw u (
        λ m. elim m [
          | inl e ↦ (inl e, subst (λ h. is_used (name_value h.name) used ≡ false) (sym e) u)
          | inr n ↦ (inr (ih.0 n).0, (ih.0 n).1)
        ],
        λ p. elim p.0 [ inl e ↦ inl e | inr m ↦ inr (ih.1 (m, p.1)) ],
      )
    ]

-- The search for unused fragments ends, with as much fuel as the fragments of the document have
-- selections and one, whatever cycles their spreads form; and it reports a fragment exactly if it is
-- one of the document's and no spread in an operation, at any depth, leads to its name, be it directly
-- or through the spreads of other fragments.
pub no_unused_fragments-Reachable :
    (fuel : ℕ) (document : Document) (f : FragmentDefinition)
    → unused_size [] (fragment_infos document) < fuel
    → (reported : List FragmentDefinition) × (no_unused_fragments fuel document ≡ some reported)
      × (Among f reported ↔ (
          Among f (fragments_of document)
          × ¬ (Reachable (fragment_infos document) (walk_operations document) (name_value f.name))))
unfolding no_unused_fragments fragment_infos
no_unused_fragments-Reachable fuel document f n =
    let marks : Marks document (walk_operations document)
        (check_spreads fuel (fragment_infos document) (walk_operations document) []) =
      check_spreads-Marks document (walk_operations document) fuel n in
    let r = report_unused-Among marks.used document f in
    (
      report_unused marks.used document,
      rw (no_unused_fragments, marks.returns) refl,
      (
        λ m.
            let p = r.0 m in
            (
              p.0,
              λ q.
                  let u =
                    (marks.exactly (name_value f.name) (Among-Defined document [] f p.0)).1 q in
                  let v = p.1 in absurd (let w : true ≡ false = sym u ∙ v in cc),
            ),
        λ p. r.1 (
          p.0,
          elim (Bool-cases (is_used (name_value f.name) marks.used)) [
            | inl u ↦
                absurd
                  (p.1 ((marks.exactly (name_value f.name) (Among-Defined document [] f p.0)).0 u))
            | inr u ↦ u
          ],
        ),
      ),
    )
