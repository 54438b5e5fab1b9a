-- ===== src/Lexer/Text/Bounds.antt =====
-- A string token spans the bytes read, its errors point into the source, and its loop ends.
use artemis.Prelude.{ℕ, suc, ◌+◌, ◌-◌, ◌≤◌, ◌<◌, ◌≡◌, arith, Bytes, []}
use artemis.Prelude.Outcome.{Ensures, Ensures-bind}
use artemis.Prelude.Loop.{Round, iterate_lem}
use artemis.Token.Source.{Source, size, sub_str}
use artemis.Lexer.Cursor.{consume, fail, make_token_with_value}
use artemis.Lexer.Cursor.Bounds.{PointsInto, Spans}
use artemis.Lexer.Text.{
  Reading, unicode_escape_error, lex_unicode, lex_escape, close_string, string_escape, string_body,
  lex_string,
}

module _ (src : Source) where
  unicode_escape_error_points :
      (P : Bytes × ℕ → Type 0) (pos end : ℕ)
      → pos ≤ end
      → end ≤ size src.body
      → Ensures P (PointsInto src) (unicode_escape_error src pos end)
  unfolding unicode_escape_error sub_str fail
  unicode_escape_error_points P pos end h g = ground arith

  -- The escape ends behind `pos`, and within the body.
  abbrev pub Behind : ℕ → Bytes × ℕ → Type 0
  Behind pos r = (pos ≤ r.1) × (r.1 ≤ size src.body)

  lex_unicode-Behind :
      (pos : ℕ) → pos ≤ size src.body → Ensures (Behind pos) (PointsInto src) (lex_unicode src pos)
  unfolding lex_unicode
  lex_unicode-Behind pos h = ground (
    arith,
    unicode_escape_error_points (Behind pos) pos (size src.body) h (omega arith),
    unicode_escape_error_points (Behind pos) pos (pos + 4) (omega arith),
  )

  lex_escape-Behind :
      (pos : ℕ)
      → 0 < pos
      → pos ≤ size src.body
      → Ensures (Behind pos) (PointsInto src) (lex_escape src pos)
  unfolding lex_escape fail
  lex_escape-Behind pos g h = ground (arith, lex_unicode-Behind (consume src pos))

module _ (src : Source) (start : ℕ) where
  -- Between two rounds the opening quote lies behind.
  abbrev Inside : Reading → Type 0
  Inside r = (start < r.1) × (r.1 ≤ size src.body)

  abbrev left : Reading → ℕ
  left r = size src.body - r.1

  close_string-Spans :
      (value : Bytes) (pos m : ℕ)
      → start < pos
      → pos ≤ size src.body
      → Ensures
          (Round Inside left (Spans src start) m)
          (PointsInto src)
          (close_string src start (value, pos))
  unfolding close_string make_token_with_value
  close_string-Spans value pos m h g = ground arith

  string_escape-Round :
      (value : Bytes) (pos m : ℕ)
      → start < pos
      → pos ≤ size src.body
      → size src.body - pos < m
      → Ensures
          (Round Inside left (Spans src start) m)
          (PointsInto src)
          (string_escape src (value, pos))
  unfolding string_escape
  string_escape-Round value pos m h g k =
      Ensures-bind (Behind src pos) _ (PointsInto src) (lex_escape src pos) _
        (lex_escape-Behind src pos (omega arith) g) λ r b. omega arith

  string_body-Round :
      (r : Reading)
      → Inside r
      → Ensures
          (Round Inside left (Spans src start) (left r))
          (PointsInto src)
          (string_body src start r)
  unfolding string_body fail
  string_body-Round (value, pos) h = ground (
    arith,
    close_string-Spans value (pos + 1) (size src.body - pos),
    string_escape-Round value (pos + 1) (size src.body - pos),
  )

pub lex_string-Spans :
    (src : Source) (start : ℕ)
    → start < size src.body
    → Ensures (Spans src start) (PointsInto src) (lex_string src (start + 1))
unfolding lex_string
lex_string-Spans src start h =
    let e : start + 1 - 1 ≡ start = omega arith in
    rw e (
      iterate_lem (Inside src start) (left src start) (Spans src start) (PointsInto src)
        (string_body src start) (string_body-Round src start) (suc (size src.body)) ([], start + 1)
        (omega arith) (omega arith))
