-- ===== src/Validator/Fragments/Spec.antt =====
-- The fragments that the spreads of some operations lead to, by the definition of the specification.
use artemis.Prelude.{◌≡◌, true, Option, some, List, Bytes, lookup}
use artemis.Ast.{
  name_value, Name, Directive, FieldHead, Selection, SelectionSet, field, fragment_spread,
  inline_fragment, add_selection, FragmentDefinition,
}
use artemis.Validator.Fragments.{Infos, is_used}

-- A set has a spread of the name, at any depth.
mutual
  pub data SelectionSpreads : Selection → Bytes → Type 0 where
    spread :
        {name : Name} {directives : List Directive}
        → SelectionSpreads (fragment_spread name directives) (name_value name)
    in_field :
        {head : FieldHead} {set : SelectionSet} {k : Bytes}
        → Spreads set k
        → SelectionSpreads (field head set) k
    in_inline :
        {type_condition : Option Name} {directives : List Directive} {set : SelectionSet}
        {k : Bytes}
        → Spreads set k
        → SelectionSpreads (inline_fragment type_condition directives set) k

  pub data Spreads : SelectionSet → Bytes → Type 0 where
    at_first :
        {s : Selection} {set : SelectionSet} {k : Bytes}
        → SelectionSpreads s k
        → Spreads (add_selection s set) k
    at_later :
        {s : Selection} {set : SelectionSet} {k : Bytes}
        → Spreads set k
        → Spreads (add_selection s set) k

-- A fragment of the document has the name.
pub record Defined (infos : Infos) (k : Bytes) : Type 0 where
  pub definition : FragmentDefinition
  pub found : lookup k infos ≡ some definition

pub data Reachable (infos : Infos) (roots : List Bytes) : Bytes → Type 0 where
  at_root : {k : Bytes} → is_used k roots ≡ true → Defined infos k → Reachable infos roots k
  by_spread :
      {j k : Bytes}
      → Reachable infos roots j
      → (d : Defined infos j) → Spreads d.definition.selection_set k
      → Defined infos k
      → Reachable infos roots k
