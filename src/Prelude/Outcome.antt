-- ===== src/Prelude/Outcome.antt =====
-- How a call ends: with a value, with a syntax error, by a Go panic, or, in the model only, for
-- want of fuel. `SyntaxError` is the part of graphql/error.go's Error that the lexer and the parser
-- fill in: the location and the message.
use Prim.Native.Nat.{ℕ}
use artemis.Prelude.Tests.{Bytes}
use artemis.Token.{Kind}

-- What `charAtPosToStr` prints of the character at a position.
pub data CharText : Type 0 where
  eof : CharText
  printable : ℕ → CharText
  escaped : ℕ → CharText

-- One constructor for each format string of a message, with the values it prints.
pub data Message : Type 0 where
  invalid_character : CharText → Message
  unexpected_single_quote : Message
  unexpected_character : CharText → Message
  expected_digit_after_minus : CharText → Message
  unexpected_digit_after_zero : CharText → Message
  expected_digit_after_point : CharText → Message
  expected_digit : CharText → Message
  invalid_character_in_string : CharText → Message
  invalid_unicode_escape : Bytes → Message
  invalid_escape : ℕ → Message
  unterminated_string : Message
  expected_token : Kind → Kind → Bytes → Message
  expected_keyword : Bytes → Kind → Bytes → Message
  unexpected_token : Kind → Bytes → Message
  expected_fragment_name : Message

pub record SyntaxError : Type 0 where
  pub location : ℕ
  pub message : Message

pub data Outcome {ℓ} (A : Type ℓ) : Type ℓ where
  ok : A → Outcome A
  err : SyntaxError → Outcome A
  panic out_of_fuel : Outcome A

infixl 5 ◌>>=◌
abbrev pub ◌>>=◌ {ℓ κ} : {A : Type ℓ} {B : Type κ} → Outcome A → (A → Outcome B) → Outcome B
ok a >>= f = f a
err e >>= f = err e
panic >>= f = panic
out_of_fuel >>= f = out_of_fuel

-- The call neither panics nor runs out of fuel; `P` holds of its value, `E` of its error.
abbrev pub Ensures {ℓ} : {A : Type ℓ} → (A → Type 0) → (SyntaxError → Type 0) → Outcome A → Type 0
Ensures P E (ok a) = P a
Ensures P E (err e) = E e
Ensures P E panic = ⊥
Ensures P E out_of_fuel = ⊥

module _ {ℓ κ} {A : Type ℓ} {B : Type κ} (P : A → Type 0) (Q : B → Type 0)
    (E : SyntaxError → Type 0) where
  pub Ensures-bind :
      (m : Outcome A) (f : A → Outcome B)
      → Ensures P E m
      → ((a : A) → P a → Ensures Q E (f a))
      → Ensures Q E (m >>= f)
  Ensures-bind (ok a) f h k = k a h
  Ensures-bind (err e) f h k = h
  Ensures-bind panic f h k = h
  Ensures-bind out_of_fuel f h k = h

module _ {ℓ} {A : Type ℓ} (P Q : A → Type 0) (E : SyntaxError → Type 0) where
  pub Ensures-mono : (m : Outcome A) → ((a : A) → P a → Q a) → Ensures P E m → Ensures Q E m
  Ensures-mono (ok a) k h = k a h
  Ensures-mono (err e) k h = h
  Ensures-mono panic k h = h
  Ensures-mono out_of_fuel k h = h
