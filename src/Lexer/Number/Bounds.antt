-- ===== src/Lexer/Number/Bounds.antt =====
-- A number token spans the bytes read, and its errors point into the source.
use artemis.Prelude.{ℕ, ◌-◌, ◌≤◌, ◌<◌, arith}
use artemis.Prelude.Outcome.{Ensures, Ensures-bind}
use artemis.Token.{Kind}
use artemis.Token.Source.{Source, size, sub_str}
use artemis.Lexer.Cursor.{consume, fail, make_token_with_value}
use artemis.Lexer.Cursor.Bounds.{PointsInto, Spans, consume_while_bounds}
use artemis.Lexer.Number.{
  is_digit, consume_digits, lex_sign, lex_integer, lex_fraction, skip_sign, lex_exponent,
  number_token, lex_number,
}

module _ (src : Source) (start : ℕ) where
  -- The position is behind `start`, and within the body.
  abbrev Behind : ℕ → Type 0
  Behind pos = (start < pos) × (pos ≤ size src.body)

  consume_digits-Behind : (pos : ℕ) → Behind pos → Behind (consume_digits src pos)
  unfolding consume_digits
  consume_digits-Behind pos h =
      omega (arith, consume_while_bounds is_digit src (size src.body - pos) pos h.1)

  consume-Behind : (pos : ℕ) → Behind pos → Behind (consume src pos)
  consume-Behind pos h = ground arith

  lex_sign-Behind :
      start < size src.body → Ensures (λ r. Behind r.1) (PointsInto src) (lex_sign src start)
  unfolding lex_sign fail
  lex_sign-Behind h = ground arith

  lex_integer-Behind :
      (r : ℕ × ℕ) → Behind r.1 → Ensures Behind (PointsInto src) (lex_integer src r)
  unfolding lex_integer fail
  lex_integer-Behind (char, pos) h = ground (arith, consume_digits-Behind pos h)

  lex_fraction-Behind :
      (pos : ℕ) → Behind pos → Ensures (λ r. Behind r.1) (PointsInto src) (lex_fraction src pos)
  unfolding lex_fraction fail
  lex_fraction-Behind pos h = ground (arith, consume_digits-Behind (consume src (consume src pos)))

  lex_exponent-Behind :
      (r : Kind × ℕ) → Behind r.1 → Ensures (λ r. Behind r.1) (PointsInto src) (lex_exponent src r)
  unfolding lex_exponent fail
  lex_exponent-Behind (kind, pos) h =
      let p = skip_sign src (consume src pos) in
      ground (
        arith,
        consume-Behind pos,
        consume-Behind (consume src pos),
        consume-Behind p,
        consume_digits-Behind (consume src p),
      )

  number_token-Spans :
      (r : Kind × ℕ)
      → Behind r.1
      → Ensures (Spans src start) (PointsInto src) (number_token src start r)
  unfolding number_token sub_str make_token_with_value
  number_token-Spans (kind, pos) h = ground arith

  pub lex_number-Spans :
      start < size src.body → Ensures (Spans src start) (PointsInto src) (lex_number src start)
  unfolding lex_number
  lex_number-Spans h =
      let E = PointsInto src in
      let Q = Spans src start in
      Ensures-bind (λ r. Behind r.1) Q E (lex_sign src start) _ (lex_sign-Behind h)
        λ r h1. Ensures-bind Behind Q E (lex_integer src r) _ (lex_integer-Behind r h1) λ p h2.
          Ensures-bind (λ r. Behind r.1) Q E (lex_fraction src p) _ (lex_fraction-Behind p h2)
            λ f h3.
              Ensures-bind (λ r. Behind r.1) Q E (lex_exponent src f) _ (lex_exponent-Behind f h3)
                λ e h4. number_token-Spans e h4
