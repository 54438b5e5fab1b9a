-- ===== src/Parser/Documents.antt =====
-- parser.go: parseDocument, parseDefinition, parseOperationDefinition, parseQueryShorthand,
-- parseFragmentDefinition, parseFragmentName; interface.go: Parse, ParseValue and ParseType.
pub mod Reads
pub mod Whole
use artemis.Prelude.{ℕ, ◌+◌, Bool, false, ◌||◌, some, none, [], ◌∷◌, Bytes, bytes_eq, codes}
use artemis.Prelude.Outcome
use artemis.Prelude.Outcome.{Outcome, ok, expected_fragment_name}
use artemis.Token.{sof, eof, left_paren, left_brace, at_sign, name, same_kind}
use artemis.Token.Source.{Source, size}
use artemis.Lexer.Stream.{Lexer, new}
use artemis.Ast.{
  Name, no_name, Value, AstType, OperationDefinition, FragmentDefinition, Definition, operation,
  fragment, Document,
}
use artemis.Parser.Tokens.{
  Parser, ◌>>=◌, pure, peek, choose, fail_at, unexpected, expect, is_keyword, parse_name, optional,
  present, items_until,
}
use artemis.Parser.Values.{parse_value}
use artemis.Parser.Types.{parse_type}
use artemis.Parser.Directives.{parse_directives, parse_variable_definitions}
use artemis.Parser.Selections.{parse_type_condition, parse_selection_set}

unfoldable pub parse_operation_definition : ℕ → Parser OperationDefinition
parse_operation_definition n = do
  type ← expect name
  operation_name ← optional name no_name (present parse_name)
  variable_definitions ← optional left_paren [] (parse_variable_definitions n)
  directives ← optional at_sign [] (parse_directives n false)
  selection_set ← parse_selection_set n
  pure (record {
    type = some type;
    name = operation_name;
    variable_definitions = variable_definitions;
    directives = directives;
    selection_set = selection_set;
  })

unfoldable pub parse_query_shorthand : ℕ → Parser OperationDefinition
parse_query_shorthand n = do
  selection_set ← parse_selection_set n
  pure (record {
    type = none;
    name = no_name;
    variable_definitions = [];
    directives = [];
    selection_set = selection_set;
  })

unfoldable pub parse_fragment_name : Parser Name
parse_fragment_name = do
  t ← peek
  choose (is_keyword (codes "on") t) (fail_at t expected_fragment_name) parse_name

-- Variable definitions are read if the option ExperimentalFragmentVariables is set.
unfoldable pub parse_fragment_definition : Bool → ℕ → Parser FragmentDefinition
parse_fragment_definition fragment_variables n = do
  _ ← expect name
  fragment_name ← parse_fragment_name
  variable_definitions ←
      choose fragment_variables (optional left_paren [] (parse_variable_definitions n)) (pure [])
  type_condition ← parse_type_condition
  directives ← optional at_sign [] (parse_directives n false)
  selection_set ← parse_selection_set n
  pure (record {
    name = fragment_name;
    variable_definitions = variable_definitions;
    type_condition = type_condition;
    directives = directives;
    selection_set = selection_set;
  })

abbrev pub is_operation_type : Bytes → Bool
is_operation_type v =
    bytes_eq v (codes "query")
    || (bytes_eq v (codes "mutation") || bytes_eq v (codes "subscription"))

-- A definition that begins with a name.
unfoldable pub parse_named_definition : Bool → ℕ → Parser Definition
parse_named_definition fragment_variables n = do
  t ← peek
  choose (is_operation_type t.value) (parse_operation_definition n >>= λ d. pure (operation d)) (
      choose (bytes_eq t.value (codes "fragment"))
        (parse_fragment_definition fragment_variables n >>= λ d. pure (fragment d)) unexpected)

unfoldable pub parse_definition : Bool → ℕ → Parser Definition
parse_definition fragment_variables n = do
  t ← peek
  choose (same_kind t.kind name) (parse_named_definition fragment_variables n) (
      choose (same_kind t.kind left_brace) (parse_query_shorthand n >>= λ d. pure (operation d))
        unexpected)

unfoldable pub parse_document : Bool → ℕ → Parser Document
parse_document fragment_variables n = do
  _ ← expect sof
  items_until [] (◌∷◌) (parse_definition fragment_variables n) eof n

-- Each round of a loop, and each level of nesting, takes a token.
abbrev pub fuel_for : Source → ℕ
fuel_for source = size source.body + 3

abbrev pub result {ℓ} : {A : Type ℓ} → Outcome (A × Lexer) → Outcome A
result m = Outcome.◌>>=◌ m λ r. ok r.0

unfoldable pub parse : Bool → Source → Outcome Document
parse fragment_variables source =
    result (parse_document fragment_variables (fuel_for source) (new source))

-- One node with nothing behind it.
abbrev pub whole {ℓ} : {A : Type ℓ} → Parser A → Parser A
whole p = do _ ← expect sof; a ← p; _ ← expect eof; pure a

unfoldable pub parse_value_source : Source → Outcome Value
parse_value_source source = result (whole (parse_value (fuel_for source) false) (new source))

unfoldable pub parse_type_source : Source → Outcome AstType
parse_type_source source = result (whole (parse_type (fuel_for source)) (new source))
