-- ===== src/Ast/Lexemes.antt =====
-- The text of a document as a list of lexemes, by the grammar in the comments of
-- graphql/parser/parser.go. It is the specification of the parser.
use artemis.Prelude.{Option, some, none, List, [], ◌∷◌, ◌++◌, Bytes, codes}
use artemis.Token.{
  Kind, Token, bang, dollar, left_paren, right_paren, spread, colon, equals, at_sign, left_bracket,
  right_bracket, left_brace, right_brace, name, int, float, string, block_string,
}
use artemis.Ast.{
  Name, Value, Values, ObjectFields, variable, int_value, float_value, string_value, boolean_value,
  null_value, enum_value, empty_list, list_value, empty_object, object_value, no_values, add_value,
  no_fields, add_field, AstType, named_type, list_type, non_null_type, Argument, Directive,
  VariableDefinition, FieldHead, Selection, SelectionSet, field, fragment_spread, inline_fragment,
  no_selections, add_selection, OperationDefinition, FragmentDefinition, Definition, operation,
  fragment, Document,
}

abbrev pub Lexeme : Type 0
Lexeme = Kind × Bytes

-- Names, numbers and strings have a value; punctuators and comments have none.
abbrev pub spelling : Kind → Bytes → Bytes
spelling name v = v
spelling int v = v
spelling float v = v
spelling string v = v
spelling block_string v = v
spelling _ v = []

abbrev pub lexeme : Token → Lexeme
lexeme t = (t.kind, spelling t.kind t.value)

-- A punctuator.
abbrev pub mark : Kind → Lexeme
mark k = (k, [])

abbrev pub of_token : Option Token → List Lexeme
of_token none = []
of_token (some t) = lexeme t ∷ []

abbrev pub of_name : Name → List Lexeme
of_name n = lexeme n.token ∷ []

abbrev pub of_optional_name : Option Name → List Lexeme
of_optional_name none = []
of_optional_name (some n) = of_name n

abbrev mutual
  pub of_value : Value → List Lexeme
  of_value (variable n) = mark dollar ∷ of_name n
  of_value (int_value t) = lexeme t ∷ []
  of_value (float_value t) = lexeme t ∷ []
  of_value (string_value t) = lexeme t ∷ []
  of_value (boolean_value t) = lexeme t ∷ []
  of_value (null_value t) = lexeme t ∷ []
  of_value (enum_value t) = lexeme t ∷ []
  of_value (empty_list t) = mark left_bracket ∷ mark right_bracket ∷ []
  of_value (list_value vs) = mark left_bracket ∷ (of_values vs ++ (mark right_bracket ∷ []))
  of_value (empty_object t) = mark left_brace ∷ mark right_brace ∷ []
  of_value (object_value fs) = mark left_brace ∷ (of_object_fields fs ++ (mark right_brace ∷ []))

  pub of_values : Values → List Lexeme
  of_values no_values = []
  of_values (add_value v vs) = of_value v ++ of_values vs

  pub of_object_fields : ObjectFields → List Lexeme
  of_object_fields no_fields = []
  of_object_fields (add_field n v fs) =
      (of_name n ++ (mark colon ∷ of_value v)) ++ of_object_fields fs

abbrev pub of_type : AstType → List Lexeme
of_type (named_type n) = of_name n
of_type (list_type t) = mark left_bracket ∷ (of_type t ++ (mark right_bracket ∷ []))
of_type (non_null_type t) = of_type t ++ (mark bang ∷ [])

abbrev pub of_argument : Argument → List Lexeme
of_argument a = of_name a.name ++ (mark colon ∷ of_value a.value)

abbrev pub of_all {ℓ} : {A : Type ℓ} → (A → List Lexeme) → List A → List Lexeme
of_all f [] = []
of_all f (x ∷ xs) = f x ++ of_all f xs

-- A list between two punctuators, and nothing for the empty list.
abbrev pub of_group {ℓ} : {A : Type ℓ} → Kind → Kind → (A → List Lexeme) → List A → List Lexeme
of_group open_kind close_kind f [] = []
of_group open_kind close_kind f (x ∷ xs) =
    mark open_kind ∷ (of_all f (x ∷ xs) ++ (mark close_kind ∷ []))

abbrev pub of_arguments : List Argument → List Lexeme
of_arguments = of_group left_paren right_paren of_argument

abbrev pub of_directive : Directive → List Lexeme
of_directive d = mark at_sign ∷ (of_name d.name ++ of_arguments d.arguments)

abbrev pub of_directives : List Directive → List Lexeme
of_directives = of_all of_directive

abbrev pub of_default : Option Value → List Lexeme
of_default none = []
of_default (some v) = mark equals ∷ of_value v

abbrev pub of_variable_definition : VariableDefinition → List Lexeme
of_variable_definition d =
    (mark dollar ∷ of_name d.variable_name)
    ++ (mark colon ∷ (of_type d.type ++ (of_default d.default_value ++ of_directives d.directives)))

abbrev pub of_variable_definitions : List VariableDefinition → List Lexeme
of_variable_definitions = of_group left_paren right_paren of_variable_definition

-- An alias stands before a colon.
abbrev pub of_alias : Option Name → List Lexeme
of_alias none = []
of_alias (some n) = lexeme n.token ∷ mark colon ∷ []

abbrev pub of_field_head : FieldHead → List Lexeme
of_field_head f =
    of_alias f.alias ++ (of_name f.name ++ (of_arguments f.arguments ++ of_directives f.directives))

abbrev pub of_type_condition : Option Name → List Lexeme
of_type_condition none = []
of_type_condition (some n) = (name, codes "on") ∷ lexeme n.token ∷ []

abbrev mutual
  pub of_selection : Selection → List Lexeme
  of_selection (field f set) = of_field_head f ++ of_selection_set set
  of_selection (fragment_spread n ds) = mark spread ∷ (of_name n ++ of_directives ds)
  of_selection (inline_fragment n ds set) =
      mark spread ∷ (of_type_condition n ++ (of_directives ds ++ of_selection_set set))

  pub of_selection_set : SelectionSet → List Lexeme
  of_selection_set no_selections = []
  of_selection_set (add_selection s set) =
      mark left_brace ∷ ((of_selection s ++ of_selections set) ++ (mark right_brace ∷ []))

  pub of_selections : SelectionSet → List Lexeme
  of_selections no_selections = []
  of_selections (add_selection s set) = of_selection s ++ of_selections set

abbrev pub of_operation : OperationDefinition → List Lexeme
of_operation d =
    of_token d.type
    ++ (of_optional_name d.name
        ++ (of_variable_definitions d.variable_definitions
            ++ (of_directives d.directives ++ of_selection_set d.selection_set)))

abbrev pub of_fragment : FragmentDefinition → List Lexeme
of_fragment d =
    (name, codes "fragment")
    ∷ (of_name d.name
        ++ (of_variable_definitions d.variable_definitions
            ++ (of_type_condition (some d.type_condition)
                ++ (of_directives d.directives ++ of_selection_set d.selection_set))))

abbrev pub of_definition : Definition → List Lexeme
of_definition (operation d) = of_operation d
of_definition (fragment d) = of_fragment d

abbrev pub of_document : Document → List Lexeme
of_document = of_all of_definition
