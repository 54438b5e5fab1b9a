-- ===== src/Parser/Selections.antt =====
-- parser.go: parseSelectionSet, parseSelection, parseField, parseFragmentSpread, parseInlineFragment
-- and parseTypeCondition. The fuel bounds the depth of nesting and the length of lists.
pub mod Reads
use artemis.Prelude.{ℕ, zero, suc, false, not, ◌||◌, Option, some, [], bytes_eq, codes}
use artemis.Prelude.Outcome.{out_of_fuel}
use artemis.Token.{left_paren, left_brace, right_brace, spread, colon, at_sign, name, same_kind}
use artemis.Ast.{
  Name, no_name, FieldHead, Selection, SelectionSet, field, fragment_spread, inline_fragment,
  no_selections, add_selection,
}
use artemis.Parser.Tokens.{
  Parser, ◌>>=◌, pure, peek, choose, skip, expect, expect_keyword, parse_name, optional, present,
  items_until,
}
use artemis.Parser.Types.{parse_named_type}
use artemis.Parser.Directives.{parse_arguments, parse_directives}

unfoldable pub parse_type_condition : Parser Name
parse_type_condition = do _ ← expect_keyword (codes "on"); parse_named_type

-- The alias and the name of a field.
unfoldable pub parse_field_name : Parser (Option Name × Name)
parse_field_name = do
  name_or_alias ← parse_name
  has_colon ← skip colon
  choose has_colon (parse_name >>= λ field_name. pure (some name_or_alias, field_name))
      (pure (no_name, name_or_alias))

unfoldable pub parse_field_head : ℕ → Parser FieldHead
parse_field_head n = do
  names ← parse_field_name
  arguments ← optional left_paren [] (parse_arguments n false)
  directives ← optional at_sign [] (parse_directives n false)
  pure (record { alias = names.0; name = names.1; arguments = arguments; directives = directives })

unfoldable pub parse_field : Parser SelectionSet → ℕ → Parser Selection
parse_field parse_set n = do
  head ← parse_field_head n
  set ← optional left_brace no_selections parse_set
  pure (field head set)

unfoldable pub parse_fragment_spread : ℕ → Parser Selection
parse_fragment_spread n = do
  fragment_name ← parse_name
  directives ← optional at_sign [] (parse_directives n false)
  pure (fragment_spread fragment_name directives)

unfoldable pub parse_inline_fragment : Parser SelectionSet → ℕ → Parser Selection
parse_inline_fragment parse_set n = do
  type_condition ← optional name no_name (present parse_type_condition)
  directives ← optional at_sign [] (parse_directives n false)
  set ← parse_set
  pure (inline_fragment type_condition directives set)

-- Behind `...`: an inline fragment unless a name other than `on` follows.
unfoldable pub parse_fragment : Parser SelectionSet → ℕ → Parser Selection
parse_fragment parse_set n = do
  t ← peek
  choose (not (same_kind t.kind name) || bytes_eq t.value (codes "on"))
      (parse_inline_fragment parse_set n) (parse_fragment_spread n)

unfoldable pub parse_selection : Parser SelectionSet → ℕ → Parser Selection
parse_selection parse_set n = do
  is_fragment ← skip spread
  choose is_fragment (parse_fragment parse_set n) (parse_field parse_set n)

unfoldable pub selections_block : Parser Selection → ℕ → Parser SelectionSet
selections_block p n = do
  _ ← expect left_brace
  items_until no_selections add_selection p right_brace n

unfoldable pub parse_selection_set : ℕ → Parser SelectionSet
parse_selection_set zero l = out_of_fuel
parse_selection_set (suc n) l = selections_block (parse_selection (parse_selection_set n) n) n l
