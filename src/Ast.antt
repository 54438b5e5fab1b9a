-- ===== src/Ast.antt =====
-- graphql/ast/ast.go: the nodes that the parser builds. A node holds the tokens that the source's
-- node holds. `Name{}`, the zero value of a name that may be left out, is `none`.
pub mod Lexemes
use artemis.Prelude.{Bool, true, false, Option, some, none, List, [], Bytes, codes, bytes_eq, ◌||◌}
use artemis.Token.{Token}

-- A name with its token.
pub record Name : Type 0 where
  pub token : Token

abbrev pub no_name : Option Name
no_name = none

abbrev pub is_nil : Option Name → Bool
is_nil none = true
is_nil (some n) = false

-- `Value` of a name that has a token.
unfoldable pub name_value : Name → Bytes
name_value n = n.token.value

-- `empty_list` and `empty_object` keep the start token, as `ValuesOrStartToken` does.
mutual
  pub data Value : Type 0 where
    variable : Name → Value
    int_value float_value string_value boolean_value null_value enum_value : Token → Value
    empty_list : Token → Value
    list_value : Values → Value
    empty_object : Token → Value
    object_value : ObjectFields → Value

  pub data Values : Type 0 where
    no_values : Values
    add_value : Value → Values → Values

  pub data ObjectFields : Type 0 where
    no_fields : ObjectFields
    add_field : Name → Value → ObjectFields → ObjectFields

pub data AstType : Type 0 where
  named_type : Name → AstType
  list_type : AstType → AstType
  non_null_type : AstType → AstType

pub record Argument : Type 0 where
  pub name : Name
  pub value : Value

pub record Directive : Type 0 where
  pub name : Name
  pub arguments : List Argument

pub record VariableDefinition : Type 0 where
  pub variable_name : Name
  pub type : AstType
  pub default_value : Option Value
  pub directives : List Directive

-- The fields of `Field` but its selection set.
pub record FieldHead : Type 0 where
  pub alias : Option Name
  pub name : Name
  pub arguments : List Argument
  pub directives : List Directive

mutual
  pub data Selection : Type 0 where
    field : FieldHead → SelectionSet → Selection
    fragment_spread : Name → List Directive → Selection
    inline_fragment : Option Name → List Directive → SelectionSet → Selection

  pub data SelectionSet : Type 0 where
    no_selections : SelectionSet
    add_selection : Selection → SelectionSet → SelectionSet

pub record OperationDefinition : Type 0 where
  pub type : Option Token
  pub name : Option Name
  pub variable_definitions : List VariableDefinition
  pub directives : List Directive
  pub selection_set : SelectionSet

pub record FragmentDefinition : Type 0 where
  pub name : Name
  pub variable_definitions : List VariableDefinition
  pub type_condition : Name
  pub directives : List Directive
  pub selection_set : SelectionSet

pub data Definition : Type 0 where
  operation : OperationDefinition → Definition
  fragment : FragmentDefinition → Definition

abbrev pub Document : Type 0
Document = List Definition

-- `ResponseKey`: the alias if there is one, otherwise the name.
unfoldable pub response_key : FieldHead → Bytes
unfolding name_value
response_key f = elim f.alias [ none ↦ name_value f.name | some a ↦ name_value a ]

unfoldable pub is_query_shorthand : OperationDefinition → Bool
is_query_shorthand d = elim d.type [ none ↦ true | some t ↦ false ]

unfoldable pub operation_type : OperationDefinition → Bytes
operation_type d = elim d.type [ none ↦ codes "query" | some t ↦ t.value ]
