-- ===== src/Validator/Positions.antt =====
-- The values that a variable brings to its place.
use artemis.Prelude.{
  ℕ, ◌≡◌, ◌⊎◌, refl, sym, ◌∙◌, Bool, true, false, not, ◌&&◌, Option, List, Bool-cases, inl, inr,
}
use artemis.Types.{
  GraphqlType, leaf_type, object_type, abstract_type, list_type, non_null_type, is_type_sub_type_of,
}
use artemis.Types.Covariance.{Value, null, IsPresent, HasType, is_type_sub_type_of-HasType}
use artemis.Validator.{is_non_null_type, has_non_null_default, allowed_variable_usage}

module _ (same_wrapping : GraphqlType → GraphqlType → Bool)
    (sound : (t u : GraphqlType) → same_wrapping t u ≡ true → t ≡ u)
    (possible_types : ℕ → List ℕ) where
  -- A nullable variable at a non-null place.
  abbrev HasDefault : Option Bool → Bool → Type 0
  HasDefault default location = (not (has_non_null_default default) && not location) ≡ false

  anywhere :
      {D : Type 0} (t u : GraphqlType)
      → is_type_sub_type_of same_wrapping possible_types t u ≡ true
      → ((v : Value) → IsPresent v → HasType possible_types t v → HasType possible_types u v)
        × ((HasType possible_types t null → HasType possible_types u null) ⊎ D)
  anywhere t u g = (
    λ v p. is_type_sub_type_of-HasType same_wrapping sound possible_types t u v g,
    inl (is_type_sub_type_of-HasType same_wrapping sound possible_types t u null g),
  )

  -- Where the code allows a variable at a place, every value of the variable's type but null is a
  -- value of the place's type. A null is one too, unless the place is non-null and the variable is
  -- not; then the variable has a default value that is not null, or the place has a default value.
  -- `==` holds of equal types only.
  pub allowed_variable_usage-HasType :
      (t : GraphqlType) (default : Option Bool) (u : GraphqlType) (location : Bool)
      → allowed_variable_usage same_wrapping possible_types t default u location ≡ true
      → ((v : Value) → IsPresent v → HasType possible_types t v → HasType possible_types u v)
        × ((HasType possible_types t null → HasType possible_types u null)
            ⊎ ((is_non_null_type u ≡ true)
                × (is_non_null_type t ≡ false)
                × HasDefault default location))
  unfolding allowed_variable_usage HasType
  allowed_variable_usage-HasType t default (non_null_type u) location h =
      elim (Bool-cases (is_non_null_type t)) [
        | inl e ↦
            let g : is_type_sub_type_of same_wrapping possible_types t (non_null_type u) ≡ true =
              sym (rw (e, allowed_variable_usage) refl) ∙ h in
            (
              λ v p.
                  is_type_sub_type_of-HasType same_wrapping sound possible_types t (non_null_type u)
                    v g,
              inl (
                  is_type_sub_type_of-HasType same_wrapping sound possible_types t (non_null_type u)
                    null g),
            )
        | inr e ↦ elim (Bool-cases (not (has_non_null_default default) && not location)) [
          | inl f ↦ let z : false ≡ true = sym (rw (e, f, allowed_variable_usage) refl) ∙ h in cc
          | inr f ↦
              let g : is_type_sub_type_of same_wrapping possible_types t u ≡ true =
                sym (rw (e, f, allowed_variable_usage) refl) ∙ h in
              (
                λ v p q.
                    (p, is_type_sub_type_of-HasType same_wrapping sound possible_types t u v g q),
                inr (refl, e, f),
              )
        ]
      ]
  allowed_variable_usage-HasType t default (leaf_type n) location h = anywhere t (leaf_type n) h
  allowed_variable_usage-HasType t default (object_type n) location h = anywhere t (object_type n) h
  allowed_variable_usage-HasType t default (abstract_type n) location h =
      anywhere t (abstract_type n) h
  allowed_variable_usage-HasType t default (list_type u) location h = anywhere t (list_type u) h
