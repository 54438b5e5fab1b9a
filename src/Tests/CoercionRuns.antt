-- ===== src/Tests/CoercionRuns.antt =====
-- Runs of Int's coercer, where floats are natural numbers and texts have one digit.
use artemis.Prelude.{
  ℕ, ◌-◌, ◌≡◌, ◌≤◌, refl, sym, ◌∙◌, subst, true, false, if◌then◌else◌, Option, some, none, [], ◌∷◌,
  Bytes, codes, ltb, Bool-cases, inl, inr, arith,
}
use artemis.Coercion.{
  ℤ, pos, negsuc, int_value, string_value, GoValue, plain, pointer, accepted, Numbers, coerce,
  coerce_scalar, int_coercer, coerce_result_value, coerce_variable_value, coerce_string_impl,
  int_coerce_string,
}
use artemis.Coercion.Int.{IsInt32, HoldsInteger, Accepts, coerce-IsInt32, coerce-accepted}

abbrev digit : Bytes → Option ℤ
digit [] = none
digit (c ∷ []) = if ltb c 58 then some (pos (c - 48)) else none
digit (c ∷ d ∷ s) = none

abbrev numbers : Numbers ℕ
numbers = record {
  is_nan = λ f. false;
  is_inf = λ f. false;
  to_int32 = λ f. if ltb 2147483647 f then pos 0 else pos f;
  is_int32 = λ z f. true;
  parse_int32 = digit;
}

converted : (f : ℕ) → IsInt32 (numbers.to_int32 f)
converted f = elim (Bool-cases (ltb 2147483647 f)) [
  | inl e ↦ rw e (omega arith)
  | inr e ↦ rw e (ground arith)
]

digit-IsInt32 : (s : Bytes) (z : ℤ) → digit s ≡ some z → IsInt32 z
digit-IsInt32 [] z e = cc
digit-IsInt32 (c ∷ []) z e = elim (Bool-cases (ltb c 58)) [
  | inl f ↦
      let g : some (pos (c - 48)) ≡ some z = sym (rw f refl) ∙ e in
      let h : pos (c - 48) ≡ z = cc in
      let i : c - 48 ≤ 2147483647 = ground arith in subst IsInt32 h i
  | inr f ↦ let g : none ≡ some z = sym (rw f refl) ∙ e in cc
]
digit-IsInt32 (c ∷ d ∷ s) z e = cc

abbrev five : GoValue ℕ
five = plain (string_value (codes "5"))

coerce-IsInt32_example :
    Accepts IsInt32 (coerce_result_value numbers five)
    × Accepts (λ z. IsInt32 z × HoldsInteger five z) (coerce_variable_value numbers five)
coerce-IsInt32_example = coerce-IsInt32 numbers converted digit-IsInt32 five

five_run : coerce_result_value numbers five ≡ accepted (pos 5)
unfolding coerce_result_value coerce coerce_scalar int_coercer coerce_string_impl int_coerce_string
five_run = refl

abbrev minus_three : GoValue ℕ
minus_three = pointer (some (int_value (negsuc 2)))

coerce-accepted_example :
    (coerce_result_value numbers minus_three ≡ accepted (negsuc 2))
    × (coerce_variable_value numbers minus_three ≡ accepted (negsuc 2))
coerce-accepted_example = coerce-accepted numbers minus_three (negsuc 2) refl (omega arith)
