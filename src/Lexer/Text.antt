-- ===== src/Lexer/Text.antt =====
-- lexer.go: lexString, uniCharCode and char2hex.
pub mod Bounds
use artemis.Prelude.{
  ℕ, suc, ◌+◌, ◌-◌, ◌*◌, Bool, true, false, not, ◌&&◌, ◌||◌, ◌==◌, ltb, within, if◌then◌else◌,
  Option, some, none, List, [], ◌∷◌, ◌++◌, Bytes,
}
use artemis.Prelude.Outcome.{
  Outcome, ok, ◌>>=◌, invalid_unicode_escape, invalid_escape, invalid_character_in_string,
  unterminated_string,
}
use artemis.Prelude.Loop.{LoopStep, continue, stop, iterate}
use artemis.Utf8.{encode_rune}
use artemis.Token.{string, Token}
use artemis.Token.Source.{Source, size, sub_str}
use artemis.Lexer.Cursor.{peek, consume, char_at_pos_to_str, fail, make_token_with_value}

-- `none` stands for -1.
unfoldable pub char2hex : ℕ → Option ℕ
char2hex a =
    if within b'0' b'9' a
    then some (a - b'0')
    else if within b'A' b'F' a
    then some (a - 55)
    else if within b'a' b'f' a
    then some (a - 87)
    else none

-- The four digits take disjoint bits, and the or with a negative number is negative.
unfoldable pub join_digits : Option ℕ → Option ℕ → Option ℕ → Option ℕ → Option ℕ
join_digits (some a) (some b) (some c) (some d) = some (a * 4096 + b * 256 + c * 16 + d)
join_digits _ _ _ _ = none

unfoldable pub uni_char_code : ℕ → ℕ → ℕ → ℕ → Option ℕ
unfolding char2hex join_digits
uni_char_code a b c d = join_digits (char2hex a) (char2hex b) (char2hex c) (char2hex d)

-- The byte that a backslash and a letter stand for; `none` for `u` and for all other letters.
unfoldable pub escaped_character : ℕ → Option ℕ
escaped_character c =
    if c == b'"' || (c == b'\\' || c == b'/')
    then some c
    else if c == b'b'
    then some 0x08
    else if c == b'f'
    then some 0x0C
    else if c == b'n'
    then some b'\n'
    else if c == b'r'
    then some b'\r'
    else if c == b't'
    then some b'\t'
    else none

-- `pos` stands behind the `u`; the end is that of the text shown in the message.
unfoldable pub unicode_escape_error : Source → ℕ → ℕ → Outcome (Bytes × ℕ)
unicode_escape_error src pos end = do
  text ← sub_str src.body pos end
  fail src (pos - 1) (invalid_unicode_escape text)

unfoldable pub lex_unicode : Source → ℕ → Outcome (Bytes × ℕ)
lex_unicode src p0 =
    let p1 = consume src p0 in
    let p2 = consume src p1 in
    let p3 = consume src p2 in
    let code = uni_char_code (peek src p0) (peek src p1) (peek src p2) (peek src p3) in
    if ltb (size src.body - p0) 4 then unicode_escape_error src p0 (size src.body) else elim code [
      | some r ↦ ok (encode_rune r, consume src p3)
      | none ↦ unicode_escape_error src p0 (p0 + 4)
    ]

-- An escape sequence: `pos` stands behind the backslash.
unfoldable pub lex_escape : Source → ℕ → Outcome (Bytes × ℕ)
lex_escape src start =
    let char = peek src start in
    let pos = consume src start in
    elim (escaped_character char) [
      | some c ↦ ok (c ∷ [], pos)
      | none ↦
          if char == b'u' then lex_unicode src pos else fail src (pos - 1) (invalid_escape char)
    ]

-- The text read so far and the position.
abbrev pub Reading : Type 0
Reading = Bytes × ℕ

unfoldable pub close_string : Source → ℕ → Reading → Outcome (LoopStep Reading (Token × ℕ))
close_string src start (value, pos) = do
  token ← make_token_with_value src pos string (pos - start) value
  ok (stop (token, pos))

unfoldable pub string_escape : Source → Reading → Outcome (LoopStep Reading (Token × ℕ))
string_escape src (value, pos) = do
  (text, pos') ← lex_escape src pos
  ok (continue (value ++ text, pos'))

-- One round of the loop, its condition and what follows the loop included.
unfoldable pub string_body : Source → ℕ → Reading → Outcome (LoopStep Reading (Token × ℕ))
string_body src start (value, pos) =
    let char = peek src pos in
    let pos' = consume src pos in
    if not (ltb pos (size src.body)) || (char == b'\n' || char == b'\r')
    then fail src pos unterminated_string
    else if char == b'"'
    then close_string src start (value, pos')
    else if ltb char 0x20 && not (char == b'\t')
    then fail src pos (invalid_character_in_string (char_at_pos_to_str src pos))
    else if not (char == b'\\')
    then ok (continue (value ++ char ∷ [], pos'))
    else string_escape src (value, pos')

-- `pos` stands behind the opening quote. A round takes a byte at least.
unfoldable pub lex_string : Source → ℕ → Outcome (Token × ℕ)
lex_string src pos = iterate (suc (size src.body)) (string_body src (pos - 1)) ([], pos)
