-- ===== src/Tests/TypeRuns.antt =====
-- Runs of graphql/type_comparators.go and of the rule on places of variables, on the types `[Pet]` and `[Animal]`, where `Pet` is an object of `Animal`.
use artemis.Prelude.{◌⊎◌, not, ◌&&◌, some, ℕ, ◌≡◌, refl, Bool, true, false, List, [], ◌∷◌}
use artemis.Types.{
  GraphqlType, object_type, abstract_type, list_type, non_null_type, is_type_sub_type_of, same_type,
}
use artemis.Validator.{is_non_null_type, has_non_null_default, allowed_variable_usage}
use artemis.Validator.Positions.{allowed_variable_usage-HasType}
use artemis.Types.Covariance.{
  IsPresent, Value, null, object_value, list_value, no_values, add_value, HasType,
  is_type_sub_type_of-HasType,
}

-- No two wrapping types are one object.
abbrev all_apart : GraphqlType → GraphqlType → Bool
all_apart t u = false

all_apart-eq : (t u : GraphqlType) → all_apart t u ≡ true → t ≡ u
all_apart-eq t u h = cc

abbrev animals : ℕ → List ℕ
animals n = 7 ∷ []

abbrev pets : GraphqlType
pets = list_type (object_type 7)

abbrev animal_lists : GraphqlType
animal_lists = list_type (abstract_type 3)

abbrev one_pet : Value
one_pet = list_value (add_value (object_value 7) (add_value null no_values))

pets_below : is_type_sub_type_of all_apart animals pets animal_lists ≡ true
unfolding is_type_sub_type_of same_type
pets_below = refl

one_pet-HasType : HasType animals pets one_pet
unfolding HasType
one_pet-HasType = (refl, (tt, tt))

is_type_sub_type_of-HasType_example : HasType animals animal_lists one_pet
is_type_sub_type_of-HasType_example =
    is_type_sub_type_of-HasType all_apart all_apart-eq animals pets animal_lists one_pet pets_below
      one_pet-HasType

pets_allowed :
    allowed_variable_usage all_apart animals pets (some false) (non_null_type animal_lists) false
    ≡ true
unfolding allowed_variable_usage is_type_sub_type_of same_type
pets_allowed = refl

allowed_variable_usage-HasType_example :
    ((v : Value)
      → IsPresent v
      → HasType animals pets v
      → HasType animals (non_null_type animal_lists) v)
    × ((HasType animals pets null → HasType animals (non_null_type animal_lists) null)
        ⊎ ((is_non_null_type (non_null_type animal_lists) ≡ true)
            × (is_non_null_type pets ≡ false)
            × ((not (has_non_null_default (some false)) && not false) ≡ false)))
allowed_variable_usage-HasType_example =
    allowed_variable_usage-HasType all_apart all_apart-eq animals pets (some false)
      (non_null_type animal_lists) false pets_allowed
