-- ===== src/Coercion/Int.antt =====
-- Proofs on the coercer of Int.
use artemis.Prelude.{
  ℕ, ◌≤◌, ◌≡◌, refl, sym, ap, ◌∙◌, subst, true, false, ◌||◌, some, none, Bytes, ltb, Bool-cases,
  Option-cases, inl, inr, arith,
}
use artemis.Coercion.{
  ℤ, pos, negsuc, CoercionMode, result_coercion_mode, input_coercion_mode, GoScalar, bool_value,
  int_value, uint_value, float_value, string_value, GoValue, plain, pointer, nil_value, other_value,
  Coerced, accepted, accepted_nil, refused, Numbers, coerce_scalar, coerce, int_coerce_bool,
  int_coerce_signed_integer, int_coerce_unsigned_integer, int_coerce_float, int_coerce_string,
  coerce_string_impl, int_coercer, coerce_result_value, coerce_variable_value,
}

abbrev pub IsInt32 : ℤ → Type 0
IsInt32 (pos n) = n ≤ 2147483647
IsInt32 (negsuc n) = n ≤ 2147483647

-- A scalar is an integer of Go.
abbrev pub IsInteger : {F : Type 0} → GoScalar F → ℤ → Type 0
IsInteger (int_value y) z = y ≡ z
IsInteger (uint_value n) z = pos n ≡ z
IsInteger s z = ⊥

-- A value is an integer of Go, or a pointer to one.
abbrev pub HoldsInteger : {F : Type 0} → GoValue F → ℤ → Type 0
HoldsInteger (plain s) z = IsInteger s z
HoldsInteger (pointer none) z = ⊥
HoldsInteger (pointer (some s)) z = IsInteger s z
HoldsInteger v z = ⊥

abbrev pub Accepts : (ℤ → Type 0) → Coerced ℤ → Type 0
Accepts P (accepted z) = P z
Accepts P accepted_nil = Unit
Accepts P (refused r) = Unit

module _ {F : Type 0} (numbers : Numbers F) (converted : (f : F) → IsInt32 (numbers.to_int32 f))
    (parsed : (s : Bytes) (z : ℤ) → numbers.parse_int32 s ≡ some z → IsInt32 z) where
  signed-IsInt32 :
      (z : ℤ) (mode : CoercionMode)
      → Accepts (λ y. IsInt32 y × (z ≡ y)) (int_coerce_signed_integer numbers z mode)
  unfolding int_coerce_signed_integer
  signed-IsInt32 (pos n) mode = elim (Bool-cases (ltb 2147483647 n)) [
    | inl e ↦ rw e tt
    | inr e ↦ rw e (ground arith, refl)
  ]
  signed-IsInt32 (negsuc n) mode = elim (Bool-cases (ltb 2147483647 n)) [
    | inl e ↦ rw e tt
    | inr e ↦ rw e (ground arith, refl)
  ]

  unsigned-IsInt32 :
      (n : ℕ) (mode : CoercionMode)
      → Accepts (λ y. IsInt32 y × (pos n ≡ y)) (int_coerce_unsigned_integer numbers n mode)
  unfolding int_coerce_unsigned_integer
  unsigned-IsInt32 n mode = elim (Bool-cases (ltb 2147483647 n)) [
    | inl e ↦ rw e tt
    | inr e ↦ rw e (ground arith, refl)
  ]

  Accepts-map :
      (P Q : ℤ → Type 0) (c : Coerced ℤ) → ((z : ℤ) → P z → Q z) → Accepts P c → Accepts Q c
  Accepts-map P Q (accepted z) f h = f z h
  Accepts-map P Q accepted_nil f h = tt
  Accepts-map P Q (refused r) f h = tt

  parsed-IsInt32 : (s : Bytes) → Accepts IsInt32 (coerce_string_impl numbers s)
  unfolding coerce_string_impl
  parsed-IsInt32 s = elim (Option-cases (numbers.parse_int32 s)) [
    | inl e ↦ rw (e, coerce_string_impl) tt
    | inr (z, e) ↦ rw (e, coerce_string_impl) (parsed s z e)
  ]

  float-IsInt32 : (f : F) (mode : CoercionMode) → Accepts IsInt32 (int_coerce_float numbers f mode)
  unfolding int_coerce_float
  float-IsInt32 f input_coercion_mode = tt
  float-IsInt32 f result_coercion_mode =
      elim (Bool-cases (numbers.is_int32 (numbers.to_int32 f) f)) [
        | inl e ↦ rw e (converted f)
        | inr e ↦ rw e tt
      ]

  result-IsInt32 :
      (s : GoScalar F)
      → Accepts IsInt32 (coerce_scalar numbers (int_coercer numbers) s result_coercion_mode)
  unfolding coerce_scalar int_coercer int_coerce_bool int_coerce_string
  result-IsInt32 (bool_value true) = omega arith
  result-IsInt32 (bool_value false) = omega arith
  result-IsInt32 (int_value z) =
      Accepts-map (λ y. IsInt32 y × (z ≡ y)) IsInt32
        (int_coerce_signed_integer numbers z result_coercion_mode) (λ y h. h.0)
        (signed-IsInt32 z result_coercion_mode)
  result-IsInt32 (uint_value n) =
      Accepts-map (λ y. IsInt32 y × (pos n ≡ y)) IsInt32
        (int_coerce_unsigned_integer numbers n result_coercion_mode) (λ y h. h.0)
        (unsigned-IsInt32 n result_coercion_mode)
  result-IsInt32 (float_value f) = float-IsInt32 f result_coercion_mode
  result-IsInt32 (string_value s) = parsed-IsInt32 s

  input-IsInt32 :
      (s : GoScalar F)
      → Accepts
          (λ z. IsInt32 z × IsInteger s z)
          (coerce_scalar numbers (int_coercer numbers) s input_coercion_mode)
  unfolding coerce_scalar int_coercer int_coerce_bool int_coerce_string int_coerce_float
  input-IsInt32 (bool_value b) = tt
  input-IsInt32 (int_value z) = signed-IsInt32 z input_coercion_mode
  input-IsInt32 (uint_value n) = unsigned-IsInt32 n input_coercion_mode
  input-IsInt32 (float_value f) = tt
  input-IsInt32 (string_value s) = tt

  -- What Int makes of a result, if it is neither an error nor nil, is an integer of 32 bits. What Int
  -- makes of a variable's value is one too, and is the integer that the value holds, which is an
  -- integer of Go or a pointer to one. A float converted to int32 and a text that ParseInt reads have
  -- 32 bits.
  pub coerce-IsInt32 :
      (v : GoValue F)
      → Accepts IsInt32 (coerce_result_value numbers v)
        × Accepts (λ z. IsInt32 z × HoldsInteger v z) (coerce_variable_value numbers v)
  unfolding coerce_result_value coerce_variable_value coerce
  coerce-IsInt32 (plain (bool_value b)) =
      (result-IsInt32 (bool_value b), input-IsInt32 (bool_value b))
  coerce-IsInt32 (plain (int_value z)) = (result-IsInt32 (int_value z), input-IsInt32 (int_value z))
  coerce-IsInt32 (plain (uint_value n)) =
      (result-IsInt32 (uint_value n), input-IsInt32 (uint_value n))
  coerce-IsInt32 (plain (string_value s)) =
      (result-IsInt32 (string_value s), input-IsInt32 (string_value s))
  coerce-IsInt32 (plain (float_value f)) =
      elim (Bool-cases (numbers.is_nan f || numbers.is_inf f)) [
        | inl e ↦ rw (e, coerce) (tt, tt)
        | inr e ↦ rw (e, coerce) (result-IsInt32 (float_value f), input-IsInt32 (float_value f))
      ]
  coerce-IsInt32 (pointer none) = (tt, tt)
  coerce-IsInt32 (pointer (some s)) = (result-IsInt32 s, input-IsInt32 s)
  coerce-IsInt32 nil_value = (tt, tt)
  coerce-IsInt32 other_value = (tt, tt)

module _ {F : Type 0} (numbers : Numbers F) where
  signed-accepted :
      (z : ℤ) (mode : CoercionMode)
      → IsInt32 z
      → int_coerce_signed_integer numbers z mode ≡ accepted z
  unfolding int_coerce_signed_integer
  signed-accepted (pos n) mode h = let e : ltb 2147483647 n ≡ false = ground arith in rw e refl
  signed-accepted (negsuc n) mode h = let e : ltb 2147483647 n ≡ false = ground arith in rw e refl

  unsigned-accepted :
      (n : ℕ) (z : ℤ) (mode : CoercionMode)
      → pos n ≡ z
      → IsInt32 z
      → int_coerce_unsigned_integer numbers n mode ≡ accepted z
  unfolding int_coerce_unsigned_integer
  unsigned-accepted n z mode e h =
      let g : IsInt32 (pos n) = subst IsInt32 (sym e) h in
      let f : ltb 2147483647 n ≡ false = ground arith in rw f (ap accepted e)

  scalar-accepted :
      (s : GoScalar F) (z : ℤ) (mode : CoercionMode)
      → IsInteger s z
      → IsInt32 z
      → coerce_scalar numbers (int_coercer numbers) s mode ≡ accepted z
  unfolding coerce_scalar int_coercer
  scalar-accepted (int_value y) z mode e h =
      signed-accepted y mode (subst IsInt32 (sym e) h) ∙ ap accepted e
  scalar-accepted (uint_value n) z mode e h = unsigned-accepted n z mode e h
  scalar-accepted (bool_value b) z mode e h = absurd e
  scalar-accepted (float_value f) z mode e h = absurd e
  scalar-accepted (string_value s) z mode e h = absurd e

  -- Int takes an integer of 32 bits, of any integer type of Go or behind a pointer, as it is, from a
  -- result and from a variable.
  pub coerce-accepted :
      (v : GoValue F) (z : ℤ)
      → HoldsInteger v z
      → IsInt32 z
      → (coerce_result_value numbers v ≡ accepted z)
        × (coerce_variable_value numbers v ≡ accepted z)
  unfolding coerce_result_value coerce_variable_value coerce
  coerce-accepted (plain (int_value y)) z e h = (
    scalar-accepted (int_value y) z result_coercion_mode e h,
    scalar-accepted (int_value y) z input_coercion_mode e h,
  )
  coerce-accepted (plain (uint_value n)) z e h = (
    scalar-accepted (uint_value n) z result_coercion_mode e h,
    scalar-accepted (uint_value n) z input_coercion_mode e h,
  )
  coerce-accepted (pointer (some s)) z e h =
      (scalar-accepted s z result_coercion_mode e h, scalar-accepted s z input_coercion_mode e h)
  coerce-accepted (plain (bool_value b)) z e h = absurd e
  coerce-accepted (plain (float_value f)) z e h = absurd e
  coerce-accepted (plain (string_value s)) z e h = absurd e
  coerce-accepted (pointer none) z e h = absurd e
  coerce-accepted nil_value z e h = absurd e
  coerce-accepted other_value z e h = absurd e
