-- ===== src/Validator.antt =====
-- graphql/validator/rules/variables_in_allowed_position.go: the test on the place of a variable.
pub mod Positions
pub mod Fragments
use artemis.Prelude.{ℕ, Bool, true, false, not, ◌&&◌, if◌then◌else◌, Option, some, none, List}
use artemis.Types.{
  GraphqlType, leaf_type, object_type, abstract_type, list_type, non_null_type, is_type_sub_type_of,
}

-- `IsNonNullType`
abbrev pub is_non_null_type : GraphqlType → Bool
is_non_null_type (non_null_type t) = true
is_non_null_type _ = false

-- A default value is a null or not; `none` is a variable without one.
abbrev pub has_non_null_default : Option Bool → Bool
has_non_null_default none = false
has_non_null_default (some is_null) = not is_null

module _ (same_wrapping : GraphqlType → GraphqlType → Bool) (possible_types : ℕ → List ℕ) where
  -- `allowedVariableUsage`, with the variable's default value by whether it is the null value
  unfoldable pub allowed_variable_usage : GraphqlType → Option Bool → GraphqlType → Bool → Bool
  allowed_variable_usage var_type default (non_null_type u) has_location_default =
      if is_non_null_type var_type
      then is_type_sub_type_of same_wrapping possible_types var_type (non_null_type u)
      else if not (has_non_null_default default) && not has_location_default
      then false
      else is_type_sub_type_of same_wrapping possible_types var_type u
  allowed_variable_usage var_type default location_type has_location_default =
      is_type_sub_type_of same_wrapping possible_types var_type location_type
