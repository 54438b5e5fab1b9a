-- ===== src/Types/Covariance.antt =====
-- Types as sets of values.
use artemis.Prelude.{
  ℕ, ◌≡◌, refl, sym, subst, ap, ◌∙◌, Bool, true, false, List, among, Bool-cases, inl, inr, arith,
}
use artemis.Types.{
  GraphqlType, leaf_type, object_type, abstract_type, list_type, non_null_type, same_type,
  is_type_sub_type_of,
}

mutual
  -- The values of a response: an object and a leaf have the number of their type.
  pub data Value : Type 0 where
    null : Value
    leaf_value object_value : ℕ → Value
    list_value : Values → Value

  pub data Values : Type 0 where
    no_values : Values
    add_value : Value → Values → Values

abbrev pub AllOf : (Value → Type 0) → Values → Type 0
AllOf P no_values = Unit
AllOf P (add_value v vs) = P v × AllOf P vs

abbrev pub IsPresent : Value → Type 0
IsPresent null = ⊥
IsPresent (leaf_value n) = Unit
IsPresent (object_value n) = Unit
IsPresent (list_value vs) = Unit

module _ (possible_types : ℕ → List ℕ) where
  -- A value has a type.
  unfoldable pub HasType : GraphqlType → Value → Type 0
  HasType (leaf_type m) null = Unit
  HasType (leaf_type m) (leaf_value n) = n ≡ m
  HasType (leaf_type m) v = ⊥
  HasType (object_type m) null = Unit
  HasType (object_type m) (object_value n) = n ≡ m
  HasType (object_type m) v = ⊥
  HasType (abstract_type m) null = Unit
  HasType (abstract_type m) (object_value n) = among n (possible_types m) ≡ true
  HasType (abstract_type m) v = ⊥
  HasType (list_type t) null = Unit
  HasType (list_type t) (list_value vs) = AllOf (HasType t) vs
  HasType (list_type t) v = ⊥
  HasType (non_null_type t) v = IsPresent v × HasType t v

AllOf-map :
    (P Q : Value → Type 0) → ((v : Value) → P v → Q v) → (vs : Values) → AllOf P vs → AllOf Q vs
AllOf-map P Q f no_values h = tt
AllOf-map P Q f (add_value v vs) h = (f v h.0, AllOf-map P Q f vs h.1)

module _ (same_wrapping : GraphqlType → GraphqlType → Bool)
    (sound : (t u : GraphqlType) → same_wrapping t u ≡ true → t ≡ u) where
  same_type-eq : (t u : GraphqlType) → same_type same_wrapping t u ≡ true → t ≡ u
  unfolding same_type
  same_type-eq (leaf_type m) (leaf_type n) h = let e : m ≡ n = ground arith in ap leaf_type e
  same_type-eq (object_type m) (object_type n) h = let e : m ≡ n = ground arith in ap object_type e
  same_type-eq (abstract_type m) (abstract_type n) h =
      let e : m ≡ n = ground arith in ap abstract_type e
  same_type-eq (list_type t) (list_type u) h = sound (list_type t) (list_type u) h
  same_type-eq (non_null_type t) (non_null_type u) h = sound (non_null_type t) (non_null_type u) h
  same_type-eq _ _ h = cc

  module _ (possible_types : ℕ → List ℕ) where
    object-abstract :
        (m n : ℕ) (v : Value)
        → among m (possible_types n) ≡ true
        → HasType possible_types (object_type m) v
        → HasType possible_types (abstract_type n) v
    unfolding HasType
    object-abstract m n null h t = tt
    object-abstract m n (object_value k) h t =
        subst (λ x. among x (possible_types n) ≡ true) (sym t) h
    object-abstract m n (leaf_value k) h t = absurd t
    object-abstract m n (list_value vs) h t = absurd t

    list-list :
        (t u : GraphqlType) (v : Value)
        → ((w : Value) → HasType possible_types t w → HasType possible_types u w)
        → HasType possible_types (list_type t) v
        → HasType possible_types (list_type u) v
    unfolding HasType
    list-list t u null f h = tt
    list-list t u (list_value vs) f h =
        AllOf-map (HasType possible_types t) (HasType possible_types u) f vs h
    list-list t u (leaf_value k) f h = absurd h
    list-list t u (object_value k) f h = absurd h

    -- The types that the code does not take for the same.
    object-other :
        (m : ℕ) (u : GraphqlType) (v : Value)
        → same_type same_wrapping (object_type m) u ≡ false
        → is_type_sub_type_of same_wrapping possible_types (object_type m) u ≡ true
        → HasType possible_types (object_type m) v
        → HasType possible_types u v
    unfolding is_type_sub_type_of
    object-other m (abstract_type n) v e h p = object-abstract m n v h p
    object-other m (object_type n) v e h p =
        let z : false ≡ true = sym (rw (e, is_type_sub_type_of) refl) ∙ h in cc
    object-other m (leaf_type n) v e h p = cc
    object-other m (list_type u) v e h p = cc
    object-other m (non_null_type u) v e h p = cc

    abbrev Widens : GraphqlType → Type 0
    Widens t =
        (u : GraphqlType) (v : Value)
        → is_type_sub_type_of same_wrapping possible_types t u ≡ true
        → HasType possible_types t v
        → HasType possible_types u v

    list-other :
        (t u : GraphqlType) (v : Value)
        → same_type same_wrapping (list_type t) u ≡ false
        → Widens t
        → is_type_sub_type_of same_wrapping possible_types (list_type t) u ≡ true
        → HasType possible_types (list_type t) v
        → HasType possible_types u v
    unfolding is_type_sub_type_of
    list-other t (list_type u) v e f h p =
        let g : is_type_sub_type_of same_wrapping possible_types t u ≡ true =
          sym (rw (e, is_type_sub_type_of) refl) ∙ h in
        list-list t u v (λ w q. f u w g q) p
    list-other t (abstract_type n) v e f h p = cc
    list-other t (object_type n) v e f h p = cc
    list-other t (leaf_type n) v e f h p = cc
    list-other t (non_null_type u) v e f h p = cc

    non_null-other :
        (t u : GraphqlType) (v : Value)
        → same_type same_wrapping (non_null_type t) u ≡ false
        → Widens t
        → is_type_sub_type_of same_wrapping possible_types (non_null_type t) u ≡ true
        → HasType possible_types (non_null_type t) v
        → HasType possible_types u v
    unfolding is_type_sub_type_of HasType
    non_null-other t (non_null_type u) v e f h p =
        let g : is_type_sub_type_of same_wrapping possible_types t u ≡ true =
          sym (rw (e, is_type_sub_type_of) refl) ∙ h in
        (p.0, f u v g p.1)
    non_null-other t (leaf_type n) v e f h p = f (leaf_type n) v h p.1
    non_null-other t (object_type n) v e f h p = f (object_type n) v h p.1
    non_null-other t (list_type u) v e f h p = cc
    non_null-other t (abstract_type n) v e f h p = cc

    -- Every value of a type is a value of the types that the code says it is a sub type of, where `==`
    -- holds of equal types only.
    pub is_type_sub_type_of-HasType :
        (t u : GraphqlType) (v : Value)
        → is_type_sub_type_of same_wrapping possible_types t u ≡ true
        → HasType possible_types t v
        → HasType possible_types u v
    unfolding is_type_sub_type_of HasType
    is_type_sub_type_of-HasType (leaf_type m) u v h p =
        subst (λ x. HasType possible_types x v) (same_type-eq (leaf_type m) u h) p
    is_type_sub_type_of-HasType (abstract_type m) u v h p =
        subst (λ x. HasType possible_types x v) (same_type-eq (abstract_type m) u h) p
    is_type_sub_type_of-HasType (object_type m) u v h p =
        elim (Bool-cases (same_type same_wrapping (object_type m) u)) [
          | inl e ↦ subst (λ x. HasType possible_types x v) (same_type-eq (object_type m) u e) p
          | inr e ↦ object-other m u v e h p
        ]
    is_type_sub_type_of-HasType (list_type t) u v h p =
        elim (Bool-cases (same_type same_wrapping (list_type t) u)) [
          | inl e ↦ subst (λ x. HasType possible_types x v) (same_type-eq (list_type t) u e) p
          | inr e ↦ list-other t u v e (λ x w. is_type_sub_type_of-HasType t x w) h p
        ]
    is_type_sub_type_of-HasType (non_null_type t) u v h p =
        elim (Bool-cases (same_type same_wrapping (non_null_type t) u)) [
          | inl e ↦ subst (λ x. HasType possible_types x v) (same_type-eq (non_null_type t) u e) p
          | inr e ↦ non_null-other t u v e (λ x w. is_type_sub_type_of-HasType t x w) h p
        ]
