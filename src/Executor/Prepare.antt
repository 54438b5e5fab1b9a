-- ===== src/Executor/Prepare.antt =====
-- graphql/executor/prepared_operation.go: Prepare, which picks the operation of a document that is
-- to be executed. `T` stands for the object types of the schema and `E` for errors of the validator,
-- whose answer is an argument.
pub mod Selects
use artemis.Prelude.{
  ℕ, Bool, true, false, if◌then◌else◌, Option, some, none, List, [], ◌∷◌, Bytes, bytes_eq, codes,
  lookup, insert,
}
use artemis.Ast.{
  Name, name_value, operation_type, OperationDefinition, FragmentDefinition, Definition, operation,
  fragment, Document,
}

-- The messages of Prepare.
pub data PrepareError (E : Type 0) : Type 0 where
  invalid : E → List E → PrepareError E
  several_operations no_operation : PrepareError E
  unknown_operation : Bytes → PrepareError E
  no_query_type no_mutation_type no_subscription_type other_operation :
      OperationDefinition → PrepareError E

-- How Prepare ends. `panics` is the use of a nil pointer.
pub data Prepares (E R : Type 0) : Type 0 where
  ok : R → Prepares E R
  err : PrepareError E → Prepares E R
  panics : Prepares E R

infixl 5 ◌>>=◌
abbrev pub ◌>>=◌ : {E R S : Type 0} → Prepares E R → (R → Prepares E S) → Prepares E S
ok r >>= f = f r
err e >>= f = err e
panics >>= f = panics

-- The root types of the schema
pub record RootTypes (T : Type 0) : Type 0 where
  pub query : Option T
  pub mutation : Option T
  pub subscription : Option T

pub record PreparedOperation (T : Type 0) : Type 0 where
  pub definition : OperationDefinition
  pub root_type : T
  pub fragment_map : List (Bytes × FragmentDefinition)

module _ {E : Type 0} where
  -- `Value` of a name that may be left out: it takes the value of the token, which is nil then.
  abbrev pub value_of : Option Name → Prepares E Bytes
  value_of none = panics
  value_of (some n) = ok (name_value n)

  -- The loop over the definitions, with the operation found and the fragments so far.
  unfoldable pub find_operation :
      Bytes
      → Document
      → Option OperationDefinition
      → List (Bytes × FragmentDefinition)
      → Prepares E (Option OperationDefinition × List (Bytes × FragmentDefinition))
  unfolding name_value insert
  find_operation name [] found fragments = ok (found, fragments)
  find_operation [] (operation d ∷ definitions) none fragments =
      find_operation [] definitions (some d) fragments
  find_operation [] (operation d ∷ definitions) (some o) fragments = err several_operations
  find_operation (c ∷ name) (operation d ∷ definitions) found fragments = value_of d.name >>= λ v.
      find_operation (c ∷ name) definitions (if bytes_eq (c ∷ name) v then some d else found)
        fragments
  find_operation name (fragment f ∷ definitions) found fragments =
      find_operation name definitions found (insert (name_value f.name) f fragments)

  abbrev pub missing : Bytes → PrepareError E
  missing [] = no_operation
  missing (c ∷ name) = unknown_operation (c ∷ name)

  abbrev pub given : {R : Type 0} → Option R → PrepareError E → Prepares E R
  given none e = err e
  given (some r) e = ok r

  unfoldable pub root_type_of : {T : Type 0} → RootTypes T → OperationDefinition → Prepares E T
  unfolding operation_type
  root_type_of types o =
      if bytes_eq (operation_type o) (codes "query")
      then given types.query (no_query_type o)
      else if bytes_eq (operation_type o) (codes "mutation")
      then given types.mutation (no_mutation_type o)
      else if bytes_eq (operation_type o) (codes "subscription")
      then given types.subscription (no_subscription_type o)
      else err (other_operation o)

  unfoldable pub prepare :
      {T : Type 0} → RootTypes T → List E → Document → Bytes → Prepares E (PreparedOperation T)
  unfolding find_operation root_type_of
  prepare types (e ∷ errs) document name = err (invalid e errs)
  prepare types [] document name = find_operation name document none [] >>= λ r.
      given r.0 (missing name) >>= λ o. root_type_of types o >>= λ t.
      ok (record { definition = o; root_type = t; fragment_map = r.1 })
