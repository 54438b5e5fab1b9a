-- ===== src/Lexer/BlockText.antt =====
-- lexer.go: lexBlockString.
pub mod Bounds
use artemis.Prelude.{ℕ, suc, ◌-◌, not, ◌&&◌, ◌==◌, ltb, if◌then◌else◌, [], ◌∷◌, ◌++◌, Bytes}
use artemis.Prelude.Outcome.{Outcome, ok, ◌>>=◌, invalid_character_in_string, unterminated_string}
use artemis.Prelude.Loop.{LoopStep, continue, stop, iterate}
use artemis.BlockString.{block_string_value}
use artemis.Token.{block_string, Token}
use artemis.Token.Source.{Source, size}
use artemis.Lexer.Cursor.{peek, consume, char_at_pos_to_str, fail, make_token_with_value}
use artemis.Lexer.Text.{Reading}

unfoldable pub close_block_string : Source → ℕ → Reading → Outcome (LoopStep Reading (Token × ℕ))
close_block_string src start (value, pos) = do
  token ← make_token_with_value src pos block_string (pos - start) (block_string_value value)
  ok (stop (token, pos))

-- At a quote: the closing triple quote, or one or two quotes of the text.
unfoldable pub block_quote : Source → ℕ → Reading → Outcome (LoopStep Reading (Token × ℕ))
block_quote src start (value, p0) =
    let p1 = consume src p0 in
    let p2 = consume src p1 in
    if peek src p1 == b'"'
    then if peek src p2 == b'"'
      then close_block_string src start (value, consume src p2)
      else ok (continue (value ++ b'"' ∷ b'"' ∷ [], p2))
    else ok (continue (value ++ b'"' ∷ [], p1))

-- At a backslash: an escaped triple quote, or the backslash with the quotes that follow it.
unfoldable pub block_escape : Source → Reading → Outcome (LoopStep Reading (Token × ℕ))
block_escape src (value, p0) =
    let p1 = consume src p0 in
    let p2 = consume src p1 in
    let p3 = consume src p2 in
    if not (peek src p1 == b'"')
    then ok (continue (value ++ b'\\' ∷ [], p1))
    else if not (peek src p2 == b'"')
    then ok (continue (value ++ b'\\' ∷ b'"' ∷ [], p2))
    else if not (peek src p3 == b'"')
    then ok (continue (value ++ b'\\' ∷ b'"' ∷ b'"' ∷ [], p3))
    else ok (continue (value ++ b'"' ∷ b'"' ∷ b'"' ∷ [], consume src p3))

-- One round of the loop, its condition and what follows the loop included.
unfoldable pub block_string_body : Source → ℕ → Reading → Outcome (LoopStep Reading (Token × ℕ))
block_string_body src start (value, pos) =
    let char = peek src pos in
    if not (ltb pos (size src.body))
    then fail src pos unterminated_string
    else if char == b'"'
    then block_quote src start (value, pos)
    else if char == b'\\'
    then block_escape src (value, pos)
    else if ltb char 0x20 && (not (char == b'\t') && (not (char == b'\r') && not (char == b'\n')))
    then fail src pos (invalid_character_in_string (char_at_pos_to_str src pos))
    else ok (continue (value ++ char ∷ [], consume src pos))

-- `pos` stands behind the opening triple quote. A round takes a byte at least.
unfoldable pub lex_block_string : Source → ℕ → Outcome (Token × ℕ)
lex_block_string src pos = iterate (suc (size src.body)) (block_string_body src (pos - 3)) ([], pos)
