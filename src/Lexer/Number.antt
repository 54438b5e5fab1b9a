-- ===== src/Lexer/Number.antt =====
-- lexer.go: consumeDigits and lexNumber, which is cut at its four parts: the sign, the integer part,
-- the fraction and the exponent.
pub mod Bounds
use artemis.Prelude.{ℕ, ◌-◌, Bool, true, false, not, ◌||◌, ◌==◌, within, if◌then◌else◌}
use artemis.Prelude.Outcome.{
  Outcome, ok, ◌>>=◌, expected_digit_after_minus, expected_digit_after_point,
  unexpected_digit_after_zero, expected_digit,
}
use artemis.Token.{Kind, int, float, Token}
use artemis.Token.Source.{Source, size, sub_str}
use artemis.Lexer.Cursor.{
  peek, consume, consume_while, char_at_pos_to_str, fail, make_token_with_value,
}

unfoldable pub is_digit : ℕ → Bool
is_digit c = within b'0' b'9' c

-- The byte that `consumeDigits` returns is the one at the position that this returns.
unfoldable pub consume_digits : Source → ℕ → ℕ
consume_digits src pos = consume_while is_digit src (size src.body - pos) pos

-- The first digit with the position behind it.
unfoldable pub lex_sign : Source → ℕ → Outcome (ℕ × ℕ)
unfolding is_digit
lex_sign src start =
    let char = peek src start in
    let pos = consume src start in
    if char == b'-'
    then if is_digit (peek src pos)
      then ok (peek src pos, consume src pos)
      else fail src pos (expected_digit_after_minus (char_at_pos_to_str src pos))
    else ok (char, pos)

unfoldable pub lex_integer : Source → ℕ × ℕ → Outcome ℕ
unfolding is_digit
lex_integer src (char, pos) =
    if char == b'0'
    then if is_digit (peek src pos)
      then fail src pos (unexpected_digit_after_zero (char_at_pos_to_str src pos))
      else ok pos
    else ok (consume_digits src pos)

unfoldable pub lex_fraction : Source → ℕ → Outcome (Kind × ℕ)
unfolding is_digit
lex_fraction src start =
    let pos = consume src start in
    if peek src start == b'.'
    then if is_digit (peek src pos)
      then ok (float, consume_digits src (consume src pos))
      else fail src pos (expected_digit_after_point (char_at_pos_to_str src pos))
    else ok (int, start)

-- The position behind the sign of an exponent.
unfoldable pub skip_sign : Source → ℕ → ℕ
skip_sign src pos = if peek src pos == b'+' || peek src pos == b'-' then consume src pos else pos

unfoldable pub lex_exponent : Source → Kind × ℕ → Outcome (Kind × ℕ)
unfolding is_digit skip_sign
lex_exponent src (kind, start) =
    let pos = skip_sign src (consume src start) in
    if peek src start == b'E' || peek src start == b'e'
    then if is_digit (peek src pos)
      then ok (float, consume_digits src (consume src pos))
      else fail src pos (expected_digit (char_at_pos_to_str src pos))
    else ok (kind, start)

unfoldable pub number_token : Source → ℕ → Kind × ℕ → Outcome (Token × ℕ)
number_token src start (kind, pos) = do
  value ← sub_str src.body start pos
  token ← make_token_with_value src pos kind (pos - start) value
  ok (token, pos)

unfoldable pub lex_number : Source → ℕ → Outcome (Token × ℕ)
lex_number src start = do
  signed ← lex_sign src start
  integer ← lex_integer src signed
  fraction ← lex_fraction src integer
  exponent ← lex_exponent src fraction
  number_token src start exponent
