-- ===== src/Executor/Collect.antt =====
-- graphql/executor/execute.go: the child nodes of a selection set. An object type is a number; `E`
-- stands for errors, `F` for the fields of the schema and `A` for the values of arguments.
pub mod Spec
pub mod Build
pub mod Nodes
pub mod Grouped
use artemis.Prelude.{
  ℕ, zero, suc, ◌==◌, Bool, true, false, not, ◌||◌, ◌&&◌, if◌then◌else◌, Option, some, none, List,
  [], ◌∷◌, ◌++◌, Bytes, bytes_eq, codes, lookup, ◌⊎◌, inl, inr,
}
use artemis.Ast.{
  Name, name_value, Directive, FieldHead, Selection, SelectionSet, field, fragment_spread,
  inline_fragment, no_selections, add_selection, response_key, OperationDefinition,
  FragmentDefinition,
}

-- `panics` is a type assertion that fails; `out_of_fuel` is of the model only.
pub data Result (E R : Type 0) : Type 0 where
  ok : R → Result E R
  err : E → Result E R
  panics : Result E R
  out_of_fuel : Result E R

infixl 5 ◌>>=◌
abbrev pub ◌>>=◌ : {E R S : Type 0} → Result E R → (R → Result E S) → Result E S
ok r >>= f = f r
err e >>= f = err e
panics >>= f = panics
out_of_fuel >>= f = out_of_fuel

abbrev pub given : {E R : Type 0} → E ⊎ R → Result E R
given (inl e) = err e
given (inr r) = ok r

-- What `TypeFromAST` finds: an object type, an abstract type with its possible types, or neither.
pub data ConditionalType : Type 0 where
  object_type : ℕ → ConditionalType
  abstract_type : List ℕ → ConditionalType
  other_type : ConditionalType

-- What Get("if") returns: nil, a bool, or a value of another type, which a document that was not
-- validated may have.
pub data IfValue : Type 0 where
  no_value : IfValue
  boolean : Bool → IfValue
  other_value : IfValue

-- The parts of the operation, its schema and its variables that the code asks.
-- `directive_argument_if` is ArgumentValues for a directive, then Get("if").
pub record ExecutionContext (E F A : Type 0) : Type 0 where
  pub operation : OperationDefinition
  pub fragments : List (Bytes × FragmentDefinition)
  pub query : ℕ
  pub fields : ℕ → Bytes → Option F
  pub schema_meta_field_def : F
  pub type_meta_field_def : F
  pub typename_meta_field_def : F
  pub type_from_ast : Name → ConditionalType
  pub argument_values : F → FieldHead → E ⊎ A
  pub directive_argument_if : Bytes → Directive → E ⊎ IfValue

pub record ExecutionNode (F A : Type 0) : Type 0 where
  pub definitions : List (FieldHead × SelectionSet)
  pub field_def : F
  pub args : A

-- The names of the visited fragments, and the child nodes with their response keys: the map `fields`
-- holds the nodes of `childNodes`, and each is put into both at once.
pub record Collecting (F A : Type 0) : Type 0 where
  pub visited : List Bytes
  pub nodes : List (Bytes × ExecutionNode F A)

abbrev pub has_name : Bytes → List Bytes → Bool
has_name k [] = false
has_name k (j ∷ names) = bytes_eq k j || has_name k names

abbrev pub contains : ℕ → List ℕ → Bool
contains t [] = false
contains t (o ∷ types) = o == t || contains t types

-- The search of `DirectiveValues`.
abbrev pub find_directive : Bytes → List Directive → Option Directive
find_directive k [] = none
find_directive k (d ∷ directives) =
    let rest = find_directive k directives in
    if bytes_eq (name_value d.name) k then some d else rest

abbrev pub get_directives : Selection → List Directive
get_directives (field head set) = head.directives
get_directives (fragment_spread name directives) = directives
get_directives (inline_fragment type_condition directives set) = directives

-- `field.Definitions = append(field.Definitions, selection)` at the node of a key
abbrev pub coalesce :
    {F A : Type 0}
    → Bytes
    → FieldHead × SelectionSet
    → List (Bytes × ExecutionNode F A)
    → List (Bytes × ExecutionNode F A)
coalesce k d [] = []
coalesce k d ((j, n) ∷ nodes) =
    let rest = coalesce k d nodes in
    if bytes_eq k j
    then (j, record n { definitions = n.definitions ++ (d ∷ []) }) ∷ nodes
    else (j, n) ∷ rest

-- `v != nil && v.(bool)`
abbrev pub is_true : {E : Type 0} → IfValue → Result E Bool
is_true no_value = ok false
is_true (boolean b) = ok b
is_true other_value = panics

-- `v != nil && !v.(bool)`
abbrev pub is_false : {E : Type 0} → IfValue → Result E Bool
is_false no_value = ok false
is_false (boolean b) = ok (not b)
is_false other_value = panics

-- A selection set is popped before its last selection is processed.
abbrev pub resume : SelectionSet → List SelectionSet → List SelectionSet
resume no_selections stack = stack
resume (add_selection s rest) stack = add_selection s rest ∷ stack

abbrev pub push : Option SelectionSet → List SelectionSet → List SelectionSet
push none stack = stack
push (some set) stack = set ∷ stack

abbrev pub selection_sets : List (FieldHead × SelectionSet) → List SelectionSet
selection_sets [] = []
selection_sets ((head, set) ∷ definitions) = set ∷ selection_sets definitions

module _ {E F A : Type 0} (ctx : ExecutionContext E F A) (t : ℕ) where
  -- `DirectiveValues`, then Get("if"); no directive has no values.
  unfoldable pub directive_if : Bytes → List Directive → Result E IfValue
  directive_if k directives = elim (find_directive k directives) [
    | none ↦ ok no_value
    | some d ↦ given (ctx.directive_argument_if k d)
  ]

  unfoldable pub should_include_node : Selection → Result E Bool
  unfolding directive_if
  should_include_node s = directive_if (codes "skip") (get_directives s) >>= λ skip.
      is_true skip >>= λ should_skip.
      if should_skip
      then ok false
      else directive_if (codes "include") (get_directives s) >>= λ include.
          is_false include >>= λ should_not_include. ok (not should_not_include)

  unfoldable pub find_field_def : Bytes → Option F
  find_field_def name =
      if ctx.query == t && bytes_eq name (codes "__schema")
      then some ctx.schema_meta_field_def
      else if ctx.query == t && bytes_eq name (codes "__type")
      then some ctx.type_meta_field_def
      else if bytes_eq name (codes "__typename")
      then some ctx.typename_meta_field_def
      else ctx.fields t name

  unfoldable pub does_type_condition_satisfy : Name → Bool
  does_type_condition_satisfy condition = elim (ctx.type_from_ast condition) [
    | object_type o ↦ o == t
    | abstract_type types ↦ contains t types
    | other_type ↦ false
  ]

  -- The case of a field.
  unfoldable pub visit_field : FieldHead → SelectionSet → Collecting F A → Result E (Collecting F A)
  unfolding find_field_def
  visit_field head set x = elim (lookup (response_key head) x.nodes) [
    | some n ↦ ok (record x { nodes = coalesce (response_key head) (head, set) x.nodes })
    | none ↦ elim (find_field_def (name_value head.name)) [
      | none ↦ ok x
      | some f ↦ given (ctx.argument_values f head) >>= λ args. ok (record x {
        nodes =
            x.nodes
            ++ ((
              response_key head,
              record { definitions = (head, set) ∷ []; field_def = f; args = args },
            )
                ∷ []);
      })
    ]
  ]

  -- No type condition, or one that holds.
  unfoldable pub can_apply : Option Name → Bool
  unfolding does_type_condition_satisfy
  can_apply none = true
  can_apply (some condition) = does_type_condition_satisfy condition

  abbrev pub visit_inline_fragment : Option Name → SelectionSet → Option SelectionSet
  visit_inline_fragment condition set = if can_apply condition then some set else none

  -- The selection set that the last test leaves to be processed, and the names visited.
  unfoldable pub visit_fragment_spread :
      Name → Collecting F A → Collecting F A × Option SelectionSet
  unfolding does_type_condition_satisfy
  visit_fragment_spread name x =
      let x' : Collecting F A = record x { visited = name_value name ∷ x.visited } in
      if has_name (name_value name) x.visited
      then (x, none)
      else elim (lookup (name_value name) ctx.fragments) [
        | none ↦ (x', none)
        | some d ↦
            if does_type_condition_satisfy d.type_condition
            then (x', some d.selection_set)
            else (x', none)
      ]

  -- The switch on a selection, and the selection set that it pushes.
  unfoldable pub visit_included :
      Selection → Collecting F A → Result E (Collecting F A × Option SelectionSet)
  unfolding visit_field visit_fragment_spread
  visit_included (field head set) x = visit_field head set x >>= λ x'. ok (x', none)
  visit_included (inline_fragment condition directives set) x =
      ok (x, visit_inline_fragment condition set)
  visit_included (fragment_spread name directives) x = ok (visit_fragment_spread name x)

  -- What the code does with one selection.
  unfoldable pub visit :
      Selection → Collecting F A → Result E (Collecting F A × Option SelectionSet)
  unfolding should_include_node visit_included
  visit s x =
      should_include_node s >>= λ included. if included then visit_included s x else ok (x, none)

  -- The two loops. A round takes a selection of the set on top of the stack; the inner loop goes on
  -- with the same set, and the outer one with the set that is then on top. An element of the stack is
  -- a selection set from its selectionIndex on. A set with no selections is never popped.
  unfoldable pub collect_loop : ℕ → List SelectionSet → Collecting F A → Result E (Collecting F A)
  unfolding visit
  collect_loop fuel [] x = ok x
  collect_loop zero (set ∷ stack) x = out_of_fuel
  collect_loop (suc fuel) (no_selections ∷ stack) x = collect_loop fuel (no_selections ∷ stack) x
  collect_loop (suc fuel) (add_selection s rest ∷ stack) x =
      visit s x >>= λ y. collect_loop fuel (push y.1 (resume rest stack)) y.0

  -- The stack that the code starts with; `none` is the root node. The first definition is on top.
  abbrev pub initial_stack : Option (ExecutionNode F A) → List SelectionSet
  initial_stack none = ctx.operation.selection_set ∷ []
  initial_stack (some n) = selection_sets n.definitions

  unfoldable pub build_child_execution_nodes :
      ℕ → Option (ExecutionNode F A) → Result E (List (Bytes × ExecutionNode F A))
  unfolding collect_loop
  build_child_execution_nodes fuel parent =
      collect_loop fuel (initial_stack parent) (record { visited = []; nodes = [] }) >>= λ x.
      ok x.nodes
