-- ===== src/Lexer/Scan.antt =====
-- lexer.go: lexName, lexComment and lexToken.
pub mod Bounds
use artemis.Prelude.{
  ℕ, ◌-◌, Bool, not, ◌&&◌, ◌||◌, ◌==◌, ltb, leb, within, if◌then◌else◌, Option, some, none, [],
}
use artemis.Prelude.Outcome.{Outcome, ok, ◌>>=◌}
use artemis.Token.{
  Kind, eof, bang, dollar, amp, left_paren, right_paren, spread, colon, equals, at_sign,
  left_bracket, right_bracket, left_brace, pipe, right_brace, name, string, comment, Token,
}
use artemis.Token.Source.{Source, size, sub_str, location_from_pos}
use artemis.Lexer.Cursor.{
  peek, consume, consume_while, new_unexpected_character_error, make_token, make_token_with_value,
}
use artemis.Lexer.Whitespace.{consume_whitespace}
use artemis.Lexer.Number.{is_digit, lex_number}
use artemis.Lexer.Text.{lex_string}
use artemis.Lexer.BlockText.{lex_block_string}

unfoldable pub is_letter : ℕ → Bool
is_letter c = c == b'_' || (within b'a' b'z' c || within b'A' b'Z' c)

-- The characters of a name behind the first.
unfoldable pub is_name_char : ℕ → Bool
unfolding is_digit is_letter
is_name_char c = is_letter c || is_digit c

unfoldable pub lex_name : Source → ℕ → Outcome (Token × ℕ)
lex_name src start = do
  let pos = consume_while is_name_char src (size src.body - start) (consume src start)
  value ← sub_str src.body start pos
  token ← make_token_with_value src pos name (pos - start) value
  ok (token, pos)

unfoldable pub is_comment_char : ℕ → Bool
is_comment_char c = ltb 0x1F c || c == b'\t'

unfoldable pub lex_comment : Source → ℕ → Outcome (Token × ℕ)
lex_comment src start = do
  let pos = consume_while is_comment_char src (size src.body - start) (consume src start)
  token ← make_token src pos comment (pos - start)
  ok (token, pos)

-- The punctuators of one byte.
unfoldable pub punctuator : ℕ → Option Kind
punctuator c =
    if c == b'!'
    then some bang
    else if c == b'$'
    then some dollar
    else if c == b'&'
    then some amp
    else if c == b'('
    then some left_paren
    else if c == b')'
    then some right_paren
    else if c == b':'
    then some colon
    else if c == b'='
    then some equals
    else if c == b'@'
    then some at_sign
    else if c == b'['
    then some left_bracket
    else if c == b']'
    then some right_bracket
    else if c == b'{'
    then some left_brace
    else if c == b'|'
    then some pipe
    else if c == b'}'
    then some right_brace
    else none

-- The token with the position behind it.
abbrev close_token : ℕ → Outcome Token → Outcome (Token × ℕ)
close_token pos m = do token ← m; ok (token, pos)

unfoldable pub lex_simple_token : Source → ℕ → Kind → Outcome (Token × ℕ)
lex_simple_token src start kind = do
  let pos = consume src start
  token ← make_token src pos kind 1
  ok (token, pos)

unfoldable pub lex_spread : Source → ℕ → Outcome (Token × ℕ)
lex_spread src p0 =
    let p1 = consume src p0 in
    let p2 = consume src p1 in
    if not (peek src p1 == b'.')
    then new_unexpected_character_error src (p1 - 1)
    else if not (peek src p2 == b'.')
    then new_unexpected_character_error src (p2 - 2)
    else close_token (consume src p2) (make_token src (consume src p2) spread 3)

-- Two quotes and no third are an empty string.
unfoldable pub lex_quote : Source → ℕ → Outcome (Token × ℕ)
lex_quote src p0 =
    let p1 = consume src p0 in
    let p2 = consume src p1 in
    if peek src p1 == b'"'
    then if peek src p2 == b'"'
      then lex_block_string src (consume src p2)
      else close_token p2 (make_token_with_value src p2 string 2 [])
    else lex_string src p1

-- The `switch` on the byte at `pos`, which no white space precedes.
unfoldable pub lex_switch : Source → ℕ → Outcome (Token × ℕ)
lex_switch src pos =
    let char = peek src pos in
    elim (punctuator char) [
      | some kind ↦ lex_simple_token src pos kind
      | none ↦
          if char == b'#'
          then lex_comment src pos
          else if char == b'.'
          then lex_spread src pos
          else if is_letter char
          then lex_name src pos
          else if char == b'-' || is_digit char
          then lex_number src pos
          else if char == b'"'
          then lex_quote src pos
          else new_unexpected_character_error src pos
    ]

unfoldable pub lex_eof : Source → ℕ → Outcome (Token × ℕ)
lex_eof src pos = do
  location ← location_from_pos src pos
  ok (record { kind = eof; location = location; length = 0; value = [] }, pos)

-- The next token, comments included, with the position behind it.
unfoldable pub lex_token : Source → ℕ → Outcome (Token × ℕ)
lex_token src start =
    let pos = consume_whitespace src start in
    if peek src pos == 0 && leb (size src.body) pos then lex_eof src pos else lex_switch src pos
