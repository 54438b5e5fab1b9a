-- ===== src/Validator/Fragments.antt =====
-- graphql/validator/validation_context.go and rules/no_unused_fragments.go: the fragments of a
-- document, the marks of those that are used, and the rule that asks for them. A FragmentInfo is the
-- definition in the map at its name; `used` has the names of the infos that are marked. Of the walk
-- (walk.go) the part that this rule takes part in is here: its calls at the fragment spreads of the
-- operations, and then at the fragments.
pub mod Spec
pub mod Scans
pub mod Sizes
pub mod Marks
pub mod Unused
use artemis.Prelude.{
  ℕ, zero, suc, Bool, true, false, if◌then◌else◌, Option, some, none, List, [], ◌∷◌, ◌++◌, Bytes,
  lookup, insert, bytes_eq, ◌||◌,
}
use artemis.Ast.{
  name_value, Selection, SelectionSet, field, fragment_spread, inline_fragment, no_selections,
  add_selection, FragmentDefinition, Definition, operation, fragment, Document,
}

abbrev pub Infos : Type 0
Infos = List (Bytes × FragmentDefinition)

abbrev pub is_used : Bytes → List Bytes → Bool
is_used k [] = false
is_used k (j ∷ used) = bytes_eq k j || is_used k used

-- The loop of `FragmentInfo` that builds the map: of two fragments with a name the last one stays.
abbrev pub add_infos : Document → Infos → Infos
add_infos [] infos = infos
add_infos (operation o ∷ definitions) infos = add_infos definitions infos
add_infos (fragment f ∷ definitions) infos =
    add_infos definitions (insert (name_value f.name) f infos)

unfoldable pub fragment_infos : Document → Infos
unfolding insert name_value
fragment_infos document = add_infos document []

pub record Marking : Type 0 where
  pub used : List Bytes
  pub stack : List SelectionSet

-- `if len(selection.SelectionSet) > 0`
abbrev pub push_nonempty : SelectionSet → Marking → Marking
push_nonempty no_selections m = m
push_nonempty (add_selection s set) m = record m { stack = add_selection s set ∷ m.stack }

-- The mark of a fragment that is not used yet.
abbrev pub mark : Bytes → FragmentDefinition → Marking → Marking
mark k f m =
    if is_used k m.used then m else record { used = k ∷ m.used; stack = f.selection_set ∷ m.stack }

abbrev pub scan_selection : Infos → Selection → Marking → Marking
scan_selection infos (field head set) m = push_nonempty set m
scan_selection infos (inline_fragment type_condition directives set) m = push_nonempty set m
scan_selection infos (fragment_spread name directives) m = elim (lookup (name_value name) infos) [
  | none ↦ m
  | some f ↦ mark (name_value name) f m
]

abbrev pub scan : Infos → SelectionSet → Marking → Marking
scan infos no_selections m = m
scan infos (add_selection s set) m = scan infos set (scan_selection infos s m)

-- The loop of `RecursivelyMarkUsed`; the result is the names of the used, `none` is for want of fuel.
unfoldable pub mark_loop : ℕ → Infos → Marking → Option (List Bytes)
unfolding lookup name_value
mark_loop zero infos m = none
mark_loop (suc fuel) infos m = elim m.stack [
  | [] ↦ some m.used
  | set ∷ stack ↦ mark_loop fuel infos (scan infos set (record m { stack = stack }))
]

unfoldable pub recursively_mark_used :
    ℕ → Infos → Bytes → FragmentDefinition → List Bytes → Option (List Bytes)
unfolding mark_loop
recursively_mark_used fuel infos k f used =
    if is_used k used
    then some used
    else mark_loop fuel infos (record { used = k ∷ used; stack = f.selection_set ∷ [] })

-- `CheckFragmentSpread`
unfoldable pub check_fragment_spread : ℕ → Infos → Bytes → List Bytes → Option (List Bytes)
unfolding recursively_mark_used lookup
check_fragment_spread fuel infos k used = elim (lookup k infos) [
  | none ↦ some used
  | some f ↦ recursively_mark_used fuel infos k f used
]

-- The calls at the spreads of the operations.
unfoldable pub check_spreads : ℕ → Infos → List Bytes → List Bytes → Option (List Bytes)
unfolding check_fragment_spread
check_spreads fuel infos [] used = some used
check_spreads fuel infos (k ∷ spreads) used = elim (check_fragment_spread fuel infos k used) [
  | none ↦ none
  | some used' ↦ check_spreads fuel infos spreads used'
]

-- `CheckFragment` of each fragment of the document: those that are reported.
unfoldable pub report_unused : List Bytes → Document → List FragmentDefinition
unfolding name_value
report_unused used [] = []
report_unused used (operation o ∷ definitions) = report_unused used definitions
report_unused used (fragment f ∷ definitions) =
    let rest = report_unused used definitions in
    if is_used (name_value f.name) used then rest else f ∷ rest

-- The names of the spreads of a set, in the order of `walkSelectionSet`.
abbrev mutual
  pub selection_spreads : Selection → List Bytes
  selection_spreads (field head set) = walk_selection_set set
  selection_spreads (inline_fragment type_condition directives set) = walk_selection_set set
  selection_spreads (fragment_spread name directives) = name_value name ∷ []

  pub walk_selection_set : SelectionSet → List Bytes
  walk_selection_set no_selections = []
  walk_selection_set (add_selection s set) = selection_spreads s ++ walk_selection_set set

-- The first loop of `walk`.
abbrev pub walk_operations : Document → List Bytes
walk_operations [] = []
walk_operations (operation o ∷ definitions) =
    walk_selection_set o.selection_set ++ walk_operations definitions
walk_operations (fragment f ∷ definitions) = walk_operations definitions

-- The rule over a document: `CheckFragmentSpread` in the first loop of `walk`, `CheckFragment` in the
-- second.
unfoldable pub no_unused_fragments : ℕ → Document → Option (List FragmentDefinition)
unfolding check_spreads report_unused fragment_infos name_value
no_unused_fragments fuel document =
    elim (check_spreads fuel (fragment_infos document) (walk_operations document) []) [
      | none ↦ none
      | some used ↦ some (report_unused used document)
    ]
