-- ===== src/Parser/Values.antt =====
-- parser.go: parseValue, parseListValue, parseObjectValue, parseObjectField, parseVariable. The fuel
-- bounds the depth of nesting and the length of lists.
pub mod Reads
use artemis.Prelude.{ℕ, zero, suc, Bool, ◌||◌, bytes_eq, codes, if◌then◌else◌}
use artemis.Prelude.Outcome.{out_of_fuel}
use artemis.Token.{
  Kind, Token, dollar, int, float, string, block_string, name, left_bracket, right_bracket,
  left_brace, right_brace, colon,
}
use artemis.Ast.{
  Name, Value, Values, ObjectFields, variable, int_value, float_value, string_value, boolean_value,
  null_value, enum_value, empty_list, list_value, empty_object, object_value, no_values, add_value,
  no_fields, add_field,
}
use artemis.Parser.Tokens.{
  Parser, ◌>>=◌, ◌>>◌, pure, choose, unexpected, take_token, expect, parse_name, items_to,
}

unfoldable pub parse_variable : Parser Name
parse_variable = do _ ← expect dollar; parse_name

-- The value of a name token.
abbrev pub name_to_value : Token → Value
name_to_value t =
    if bytes_eq t.value (codes "true") || bytes_eq t.value (codes "false")
    then boolean_value t
    else if bytes_eq t.value (codes "null")
    then null_value t
    else enum_value t

-- The start token is kept for an empty list or object.
abbrev pub to_list_value : Token → Values → Value
to_list_value start no_values = empty_list start
to_list_value start (add_value v vs) = list_value (add_value v vs)

abbrev pub to_object_value : Token → ObjectFields → Value
to_object_value start no_fields = empty_object start
to_object_value start (add_field n v fs) = object_value (add_field n v fs)

-- A field before it is put before the rest of the fields.
abbrev pub OpenField : Type 0
OpenField = Name × Value

abbrev pub close_field : OpenField → ObjectFields → ObjectFields
close_field (n, v) fs = add_field n v fs

unfoldable pub parse_list_value : Parser Value → ℕ → Parser Value
parse_list_value parse_item n = do
  start ← expect left_bracket
  values ← items_to no_values add_value parse_item right_bracket n
  pure (to_list_value start values)

unfoldable pub parse_object_field : Parser Value → Parser OpenField
parse_object_field parse_item = do
  field_name ← parse_name
  _ ← expect colon
  value ← parse_item
  pure (field_name, value)

unfoldable pub parse_object_value : Parser Value → ℕ → Parser Value
parse_object_value parse_item n = do
  start ← expect left_brace
  fields ← items_to no_fields close_field (parse_object_field parse_item) right_brace n
  pure (to_object_value start fields)

-- The `switch` on the kind of the current token.
abbrev pub value_switch : Bool → Parser Value → ℕ → Token → Kind → Parser Value
value_switch is_const p n t dollar =
    choose is_const unexpected (parse_variable >>= λ x. pure (variable x))
value_switch is_const p n t int = take_token >> pure (int_value t)
value_switch is_const p n t float = take_token >> pure (float_value t)
value_switch is_const p n t string = take_token >> pure (string_value t)
value_switch is_const p n t block_string = take_token >> pure (string_value t)
value_switch is_const p n t name = take_token >> pure (name_to_value t)
value_switch is_const p n t left_bracket = parse_list_value p n
value_switch is_const p n t left_brace = parse_object_value p n
value_switch is_const p n t _ = unexpected

unfoldable pub parse_value : ℕ → Bool → Parser Value
parse_value zero is_const l = out_of_fuel
parse_value (suc n) is_const l =
    value_switch is_const (parse_value n is_const) n l.token l.token.kind l
