-- ===== src/Lexer/BlockText/Bounds.antt =====
-- A block string token spans the bytes read, its errors point into the source, and its loop ends.
use artemis.Prelude.{ℕ, suc, ◌+◌, ◌-◌, ◌≤◌, ◌<◌, ◌≡◌, arith, Bytes, []}
use artemis.Prelude.Outcome.{Ensures}
use artemis.Prelude.Loop.{Round, iterate_lem}
use artemis.Token.Source.{Source, size}
use artemis.Lexer.Cursor.{consume, fail, make_token_with_value}
use artemis.Lexer.Cursor.Bounds.{PointsInto, Spans}
use artemis.Lexer.Text.{Reading}
use artemis.Lexer.BlockText.{
  close_block_string, block_quote, block_escape, block_string_body, lex_block_string,
}

module _ (src : Source) (start : ℕ) where
  -- Between two rounds the opening quotes lie behind.
  abbrev Inside : Reading → Type 0
  Inside r = (start < r.1) × (r.1 ≤ size src.body)

  abbrev left : Reading → ℕ
  left r = size src.body - r.1

  close_block_string-Spans :
      (value : Bytes) (pos m : ℕ)
      → start < pos
      → pos ≤ size src.body
      → Ensures
          (Round Inside left (Spans src start) m)
          (PointsInto src)
          (close_block_string src start (value, pos))
  unfolding close_block_string make_token_with_value
  close_block_string-Spans value pos m h g = ground arith

  block_quote-Round :
      (value : Bytes) (pos : ℕ)
      → start < pos
      → pos < size src.body
      → Ensures
          (Round Inside left (Spans src start) (size src.body - pos))
          (PointsInto src)
          (block_quote src start (value, pos))
  unfolding block_quote
  block_quote-Round value pos h g =
      let p3 = consume src (consume src (consume src pos)) in
      ground (arith, close_block_string-Spans value p3 (size src.body - pos))

  block_escape-Round :
      (value : Bytes) (pos : ℕ)
      → start < pos
      → pos < size src.body
      → Ensures
          (Round Inside left (Spans src start) (size src.body - pos))
          (PointsInto src)
          (block_escape src (value, pos))
  unfolding block_escape
  block_escape-Round value pos h g = ground arith

  block_string_body-Round :
      (r : Reading)
      → Inside r
      → Ensures
          (Round Inside left (Spans src start) (left r))
          (PointsInto src)
          (block_string_body src start r)
  unfolding block_string_body fail
  block_string_body-Round (value, pos) h =
      ground (arith, block_quote-Round value pos, block_escape-Round value pos)

pub lex_block_string-Spans :
    (src : Source) (start : ℕ)
    → start + 3 ≤ size src.body
    → Ensures (Spans src start) (PointsInto src) (lex_block_string src (start + 3))
unfolding lex_block_string
lex_block_string-Spans src start h =
    let e : start + 3 - 3 ≡ start = omega arith in
    rw e (
      iterate_lem (Inside src start) (left src start) (Spans src start) (PointsInto src)
        (block_string_body src start) (block_string_body-Round src start) (suc (size src.body))
        ([], start + 3) (omega arith) (omega arith))
