-- ===== src/Parser/Directives.antt =====
-- parser.go: parseArguments, parseArgument, parseDirectives, parseDirective, parseDefaultValue and
-- the variable definitions.
pub mod Reads
use artemis.Prelude.{ℕ, zero, suc, Bool, true, false, Option, some, none, List, [], ◌∷◌}
use artemis.Prelude.Outcome
use artemis.Prelude.Outcome.{ok, out_of_fuel}
use artemis.Token.{left_paren, right_paren, colon, equals, at_sign, same_kind}
use artemis.Ast.{Value, Argument, Directive, VariableDefinition}
use artemis.Parser.Tokens.{Parser, ◌>>=◌, pure, expect, parse_name, optional, items_until}
use artemis.Parser.Values.{parse_value, parse_variable}
use artemis.Parser.Types.{parse_type}

unfoldable pub parse_argument : ℕ → Bool → Parser Argument
parse_argument n is_const = do
  name ← parse_name
  _ ← expect colon
  value ← parse_value n is_const
  pure (record { name = name; value = value })

unfoldable pub parse_arguments : ℕ → Bool → Parser (List Argument)
parse_arguments n is_const = do
  _ ← expect left_paren
  items_until [] (◌∷◌) (parse_argument n is_const) right_paren n

unfoldable pub parse_directive : ℕ → Bool → Parser Directive
parse_directive n is_const = do
  _ ← expect at_sign
  name ← parse_name
  arguments ← optional left_paren [] (parse_arguments n is_const)
  pure (record { name = name; arguments = arguments })

-- A directive, and the rest while an `@` follows; the number bounds the directives.
unfoldable pub directives_loop : Parser Directive → ℕ → Parser (List Directive)
directives_loop p zero l = out_of_fuel
directives_loop p (suc m) l = Outcome.◌>>=◌ (p l) λ (d, l₁).
    elim (same_kind l₁.token.kind at_sign) [
      | true ↦ Outcome.◌>>=◌ (directives_loop p m l₁) λ (ds, l₂). ok (d ∷ ds, l₂)
      | false ↦ ok (d ∷ [], l₁)
    ]

unfoldable pub parse_directives : ℕ → Bool → Parser (List Directive)
parse_directives n is_const = directives_loop (parse_directive n is_const) n

unfoldable pub parse_default_value : ℕ → Parser (Option Value)
parse_default_value n = do _ ← expect equals; value ← parse_value n true; pure (some value)

unfoldable pub parse_variable_definition : ℕ → Parser VariableDefinition
parse_variable_definition n = do
  variable_name ← parse_variable
  _ ← expect colon
  type ← parse_type n
  default_value ← optional equals none (parse_default_value n)
  directives ← optional at_sign [] (parse_directives n true)
  pure (record {
    variable_name = variable_name;
    type = type;
    default_value = default_value;
    directives = directives;
  })

unfoldable pub parse_variable_definitions : ℕ → Parser (List VariableDefinition)
parse_variable_definitions n = do
  _ ← expect left_paren
  items_until [] (◌∷◌) (parse_variable_definition n) right_paren n
