-- ===== src/Lexer/Scan/Bounds.antt =====
-- Every token spans the bytes read, and every error of the lexer points into the source.
use artemis.Prelude.{
  ℕ, ◌+◌, ◌-◌, ◌≤◌, ◌<◌, ◌≡◌, refl, arith, Option-cases, ◌⊎◌, inl, inr, ◌==◌, ◌&&◌, Bool-cases, leb,
}
use artemis.Prelude.Outcome.{Outcome, ok, err, panic, out_of_fuel, Ensures}
use artemis.Token.{Kind, Token, eof}
use artemis.Token.Source.{Source, size, sub_str, location_from_pos}
use artemis.Lexer.Cursor.{
  peek, fail, make_token, make_token_with_value, new_unexpected_character_error,
}
use artemis.Lexer.Cursor.Bounds.{PointsInto, Spans, peek_inside, consume_while_bounds}
use artemis.Lexer.Whitespace.{consume_whitespace}
use artemis.Lexer.Whitespace.Bounds.{consume_whitespace_bounds}
use artemis.Lexer.Number.Bounds.{lex_number-Spans}
use artemis.Lexer.Text.Bounds.{lex_string-Spans}
use artemis.Lexer.BlockText.Bounds.{lex_block_string-Spans}
use artemis.Lexer.Scan.{
  is_name_char, lex_name, is_comment_char, lex_comment, punctuator, lex_simple_token, lex_spread,
  lex_quote, lex_switch, lex_eof, lex_token,
}

module _ (src : Source) (start : ℕ) (inside : start < size src.body) where
  lex_name-Spans : Ensures (Spans src start) (PointsInto src) (lex_name src start)
  unfolding lex_name sub_str make_token_with_value
  lex_name-Spans =
      ground (arith, consume_while_bounds is_name_char src (size src.body - start) (start + 1))

  lex_comment-Spans : Ensures (Spans src start) (PointsInto src) (lex_comment src start)
  unfolding lex_comment make_token
  lex_comment-Spans =
      ground (arith, consume_while_bounds is_comment_char src (size src.body - start) (start + 1))

  lex_simple_token-Spans :
      (k : Kind) → Ensures (Spans src start) (PointsInto src) (lex_simple_token src start k)
  unfolding lex_simple_token make_token
  lex_simple_token-Spans k = ground arith

  lex_spread-Spans : Ensures (Spans src start) (PointsInto src) (lex_spread src start)
  unfolding lex_spread make_token new_unexpected_character_error fail
  lex_spread-Spans =
      ground (arith, peek_inside src.body (start + 1), peek_inside src.body (start + 2))

  lex_quote-Spans : Ensures (Spans src start) (PointsInto src) (lex_quote src start)
  unfolding lex_quote make_token_with_value
  lex_quote-Spans = ground (
    arith,
    peek_inside src.body (start + 1),
    peek_inside src.body (start + 2),
    lex_string-Spans src start,
    lex_block_string-Spans src start,
  )

  lex_switch-Spans : Ensures (Spans src start) (PointsInto src) (lex_switch src start)
  unfolding lex_switch new_unexpected_character_error fail
  lex_switch-Spans = elim (Option-cases (punctuator (peek src start))) [
    | inl e ↦
        rw (e, lex_switch)
          (ground (
            arith,
            lex_comment-Spans,
            lex_spread-Spans,
            lex_name-Spans,
            lex_number-Spans src start inside,
            lex_quote-Spans,
          ))
    | inr (k, e) ↦ rw (e, lex_switch) (lex_simple_token-Spans k)
  ]

-- What `lex_token` returns from `start`: the end of the file, at the end of the body, or a token
-- that spans the bytes from the end of the white space to the new position.
abbrev pub NextToken : Source → ℕ → Token × ℕ → Type 0
NextToken src start (t, pos) =
    (t.location ≡ consume_whitespace src start + 1)
    × (start + 1 ≤ t.location)
    × (t.location + t.length ≡ pos + 1)
    × (pos ≤ size src.body)
    × ((start < pos) ⊎ ((t.kind ≡ eof) × (pos ≡ size src.body)))

eof_next :
    (src : Source) (start pos : ℕ)
    → pos ≡ consume_whitespace src start
    → start ≤ pos
    → pos ≡ size src.body
    → Ensures (NextToken src start) (PointsInto src) (lex_eof src pos)
unfolding lex_eof location_from_pos
eof_next src start pos e h g = ground arith

-- A token found behind white space is the next token.
Spans-next :
    (src : Source) (start pos : ℕ) (r : Outcome (Token × ℕ))
    → pos ≡ consume_whitespace src start
    → start ≤ pos
    → Ensures (Spans src pos) (PointsInto src) r
    → Ensures (NextToken src start) (PointsInto src) r
Spans-next src start pos (ok (t, p)) e h s =
    (omega arith, omega arith, omega arith, omega arith, inl (omega arith))
Spans-next src start pos (err x) e h s = s
Spans-next src start pos panic e h s = s
Spans-next src start pos out_of_fuel e h s = s

-- From any position within the body `lexToken` returns the next token, or an error at a location
-- in the source; it never panics and all its loops end.
pub lex_token-NextToken :
    (src : Source) (start : ℕ)
    → start ≤ size src.body
    → Ensures (NextToken src start) (PointsInto src) (lex_token src start)
unfolding lex_token
lex_token-NextToken src start h =
    let pos = consume_whitespace src start in
    let b = consume_whitespace_bounds src start h in
    elim (Bool-cases (peek src pos == 0 && leb (size src.body) pos)) [
      | inl e ↦ rw e (eof_next src start pos refl b.0 (ground arith))
      | inr e ↦ rw e (
          Spans-next src start pos _ refl b.0
            (lex_switch-Spans src pos (ground (arith, peek_inside src.body pos))))
    ]
