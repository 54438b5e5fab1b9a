-- ===== src/Types.antt =====
-- graphql/types.go and type_comparators.go: the types of a schema and the order of types. A named type
-- is a number; `leaf_type` stands for scalars, enums and input objects.
pub mod Covariance
use artemis.Prelude.{ℕ, ◌==◌, Bool, true, false, ◌||◌, if◌then◌else◌, List, [], ◌∷◌, among}

pub data GraphqlType : Type 0 where
  leaf_type object_type abstract_type : ℕ → GraphqlType
  list_type non_null_type : GraphqlType → GraphqlType

-- `NullableTypeOf`
unfoldable pub nullable_type_of : GraphqlType → GraphqlType
nullable_type_of (non_null_type t) = t
nullable_type_of t = t

-- `NamedTypeOf`
unfoldable pub named_type_of : GraphqlType → GraphqlType
named_type_of (list_type t) = named_type_of t
named_type_of (non_null_type t) = named_type_of t
named_type_of t = t

-- `==` of two types: named types are the same by their numbers, and `same_wrapping` tells of two
-- wrapping types whether they are one object.
unfoldable pub same_type : (GraphqlType → GraphqlType → Bool) → GraphqlType → GraphqlType → Bool
same_type same_wrapping (leaf_type m) (leaf_type n) = m == n
same_type same_wrapping (object_type m) (object_type n) = m == n
same_type same_wrapping (abstract_type m) (abstract_type n) = m == n
same_type same_wrapping (list_type t) (list_type u) = same_wrapping (list_type t) (list_type u)
same_type same_wrapping (non_null_type t) (non_null_type u) =
    same_wrapping (non_null_type t) (non_null_type u)
same_type same_wrapping t u = false

-- `IsTypeSubTypeOf`; `possible_types` are the PossibleTypes of the schema. The sub type shrinks in
-- each call.
unfoldable pub is_type_sub_type_of :
    (GraphqlType → GraphqlType → Bool) → (ℕ → List ℕ) → GraphqlType → GraphqlType → Bool
unfolding same_type
is_type_sub_type_of same_wrapping possible_types (non_null_type t) u =
    let inner = is_type_sub_type_of same_wrapping possible_types t in
    if same_type same_wrapping (non_null_type t) u then true else elim u [
      | non_null_type v ↦ inner v
      | list_type v ↦ false
      | abstract_type n ↦ false
      | leaf_type n ↦ inner (leaf_type n)
      | object_type n ↦ inner (object_type n)
    ]
is_type_sub_type_of same_wrapping possible_types (list_type t) u =
    let element = is_type_sub_type_of same_wrapping possible_types t in
    if same_type same_wrapping (list_type t) u
    then true
    else elim u [ list_type v ↦ element v | _ ↦ false ]
is_type_sub_type_of same_wrapping possible_types (object_type m) u =
    if same_type same_wrapping (object_type m) u
    then true
    else elim u [ abstract_type n ↦ among m (possible_types n) | _ ↦ false ]
is_type_sub_type_of same_wrapping possible_types (leaf_type m) u =
    same_type same_wrapping (leaf_type m) u
is_type_sub_type_of same_wrapping possible_types (abstract_type m) u =
    same_type same_wrapping (abstract_type m) u
