-- ===== src/Coercion.antt =====
-- graphql/typeutil/coercion_helper.go, and the coercer of Int in graphql/scalars.go. An error is the
-- reason that its message gives.
pub mod Int
use artemis.Prelude.{ℕ, Bool, true, false, ◌||◌, if◌then◌else◌, Option, some, none, Bytes, ltb}

pub data ℤ : Type 0 where
  pos : ℕ → ℤ
  negsuc : ℕ → ℤ

pub data CoercionMode : Type 0 where
  result_coercion_mode input_coercion_mode : CoercionMode

pub data Reason : Type 0 where
  invalid_type : CoercionMode → Reason
  non_integer too_large too_small : Reason

-- `F` stands for the floats. int, int8 to int64 are one case, whose handlers agree, and so are uint,
-- uint8 to uint64, and both floats.
pub data GoScalar (F : Type 0) : Type 0 where
  bool_value : Bool → GoScalar F
  int_value : ℤ → GoScalar F
  uint_value : ℕ → GoScalar F
  float_value : F → GoScalar F
  string_value : Bytes → GoScalar F

-- `pointer none` is a nil pointer to a scalar.
pub data GoValue (F : Type 0) : Type 0 where
  plain : GoScalar F → GoValue F
  pointer : Option (GoScalar F) → GoValue F
  nil_value other_value : GoValue F

pub data Coerced (R : Type 0) : Type 0 where
  accepted : R → Coerced R
  accepted_nil : Coerced R
  refused : Reason → Coerced R

-- The handlers that a coercer gives; `raise_non_value` is the error for NaN and Inf.
pub record CoercionHelper (F R : Type 0) : Type 0 where
  pub coerce_bool : Bool → CoercionMode → Coerced R
  pub coerce_signed_integer : ℤ → CoercionMode → Coerced R
  pub coerce_unsigned_integer : ℕ → CoercionMode → Coerced R
  pub coerce_float : F → CoercionMode → Coerced R
  pub coerce_string : Bytes → CoercionMode → Coerced R
  pub raise_non_value : Reason

-- What the code asks of package math, of the conversions of Go and of strconv.ParseInt to base 10 and
-- 32 bits: NaN, Inf, the conversion to int32, whether an int32 is a float, and the text of an int32.
pub record Numbers (F : Type 0) : Type 0 where
  pub is_nan : F → Bool
  pub is_inf : F → Bool
  pub to_int32 : F → ℤ
  pub is_int32 : ℤ → F → Bool
  pub parse_int32 : Bytes → Option ℤ

module _ {F : Type 0} (numbers : Numbers F) where
  module _ {R : Type 0} (impl : CoercionHelper F R) where
    -- The handlers of the base. Those of pointers call them without the test on NaN and Inf.
    unfoldable pub coerce_scalar : GoScalar F → CoercionMode → Coerced R
    coerce_scalar (bool_value b) mode = impl.coerce_bool b mode
    coerce_scalar (int_value z) mode = impl.coerce_signed_integer z mode
    coerce_scalar (uint_value n) mode = impl.coerce_unsigned_integer n mode
    coerce_scalar (float_value f) mode = impl.coerce_float f mode
    coerce_scalar (string_value s) mode = impl.coerce_string s mode

    -- `Coerce`
    unfoldable pub coerce : GoValue F → CoercionMode → Coerced R
    unfolding coerce_scalar
    coerce (plain (float_value f)) mode =
        if numbers.is_nan f || numbers.is_inf f
        then refused impl.raise_non_value
        else coerce_scalar (float_value f) mode
    coerce (plain s) mode = coerce_scalar s mode
    coerce (pointer none) mode = accepted_nil
    coerce (pointer (some s)) mode = coerce_scalar s mode
    coerce nil_value mode = accepted_nil
    coerce other_value mode = refused (invalid_type mode)

  unfoldable pub int_coerce_bool : Bool → CoercionMode → Coerced ℤ
  int_coerce_bool b input_coercion_mode = refused (invalid_type input_coercion_mode)
  int_coerce_bool b result_coercion_mode = if b then accepted (pos 1) else accepted (pos 0)

  -- An int64 beside MaxInt32 = 2147483647 and MinInt32 = -2147483648; `negsuc n` is -(n + 1).
  unfoldable pub int_coerce_signed_integer : ℤ → CoercionMode → Coerced ℤ
  int_coerce_signed_integer (pos n) mode =
      if ltb 2147483647 n then refused too_large else accepted (pos n)
  int_coerce_signed_integer (negsuc n) mode =
      if ltb 2147483647 n then refused too_small else accepted (negsuc n)

  unfoldable pub int_coerce_unsigned_integer : ℕ → CoercionMode → Coerced ℤ
  int_coerce_unsigned_integer n mode =
      if ltb 2147483647 n then refused too_large else accepted (pos n)

  unfoldable pub int_coerce_float : F → CoercionMode → Coerced ℤ
  int_coerce_float f input_coercion_mode = refused (invalid_type input_coercion_mode)
  int_coerce_float f result_coercion_mode =
      if numbers.is_int32 (numbers.to_int32 f) f
      then accepted (numbers.to_int32 f)
      else refused non_integer

  -- `coerceStringImpl`
  unfoldable pub coerce_string_impl : Bytes → Coerced ℤ
  coerce_string_impl s = elim (numbers.parse_int32 s) [
    | none ↦ refused non_integer
    | some z ↦ accepted z
  ]

  unfoldable pub int_coerce_string : Bytes → CoercionMode → Coerced ℤ
  unfolding coerce_string_impl
  int_coerce_string s input_coercion_mode = refused (invalid_type input_coercion_mode)
  int_coerce_string s result_coercion_mode = coerce_string_impl s

  unfoldable pub int_coercer : CoercionHelper F ℤ
  unfolding int_coerce_bool int_coerce_signed_integer int_coerce_unsigned_integer int_coerce_float
      int_coerce_string
  int_coercer = record {
    coerce_bool = int_coerce_bool;
    coerce_signed_integer = int_coerce_signed_integer;
    coerce_unsigned_integer = int_coerce_unsigned_integer;
    coerce_float = int_coerce_float;
    coerce_string = int_coerce_string;
    raise_non_value = non_integer;
  }

  -- `CoerceResultValue` and `CoerceVariableValue` of Int
  unfoldable pub coerce_result_value : GoValue F → Coerced ℤ
  unfolding coerce int_coercer
  coerce_result_value v = coerce int_coercer v result_coercion_mode

  unfoldable pub coerce_variable_value : GoValue F → Coerced ℤ
  unfolding coerce int_coercer
  coerce_variable_value v = coerce int_coercer v input_coercion_mode
