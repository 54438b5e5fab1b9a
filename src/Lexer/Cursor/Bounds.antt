-- ===== src/Lexer/Cursor/Bounds.antt =====
-- Positions, tokens and errors stay within the body.
use artemis.Prelude.{ℕ, zero, suc, ◌+◌, ◌-◌, ◌≤◌, ◌<◌, ◌≡◌, Bool, [], ◌∷◌, arith, Bytes}
use artemis.Prelude.Outcome.{SyntaxError, Message, Ensures}
use artemis.Token.{Kind, Token}
use artemis.Token.Source.{Source, at, size}
use artemis.Lexer.Cursor.{
  consume, consume_while, fail, new_unexpected_character_error, make_token_with_value,
}

-- An error points at a byte of the source, or just behind the last.
abbrev pub PointsInto : Source → SyntaxError → Type 0
PointsInto src e = (1 ≤ e.location) × (e.location ≤ size src.body + 1)

-- A token of bytes `start` to `pos`, which is where the lexer stands.
abbrev pub Spans : Source → ℕ → Token × ℕ → Type 0
Spans src start (t, pos) =
    (t.location ≡ start + 1)
    × (t.location + t.length ≡ pos + 1)
    × (start < pos)
    × (pos ≤ size src.body)

pub consume_bounds :
    (src : Source) (pos : ℕ)
    → pos ≤ size src.body
    → (pos ≤ consume src pos) × (consume src pos ≤ size src.body)
consume_bounds src pos h = ground arith

-- A byte that is not 0 stands before the end.
pub peek_inside : (body : Bytes) (pos : ℕ) → 0 < at body pos → pos < size body
peek_inside [] pos h = absurd (omega arith)
peek_inside (c ∷ body) zero h = omega arith
peek_inside (c ∷ body) (suc pos) h = omega (arith, peek_inside body pos h)

pub fail_points :
    {A : Type 0} (P : A → Type 0) (src : Source) (pos : ℕ) (m : Message)
    → pos ≤ size src.body
    → Ensures P (PointsInto src) (fail src pos m)
unfolding fail
fail_points P src pos m h = ground arith

pub new_unexpected_character_error_points :
    {A : Type 0} (P : A → Type 0) (src : Source) (pos : ℕ)
    → pos ≤ size src.body
    → Ensures P (PointsInto src) (new_unexpected_character_error src pos)
unfolding new_unexpected_character_error
new_unexpected_character_error_points P src pos h = fail_points P src pos _ h

pub make_token_with_value-Spans :
    (src : Source) (start pos : ℕ) (k : Kind) (v : Bytes)
    → start < pos
    → pos ≤ size src.body
    → Ensures
        (λ t. Spans src start (t, pos))
        (PointsInto src)
        (make_token_with_value src pos k (pos - start) v)
unfolding make_token_with_value
make_token_with_value-Spans src start pos k v h g = ground arith

module _ (test : ℕ → Bool) (src : Source) where
  pub consume_while_bounds :
      (rounds pos : ℕ)
      → pos ≤ size src.body
      → (pos ≤ consume_while test src rounds pos)
        × (consume_while test src rounds pos ≤ size src.body)
  unfolding consume_while
  consume_while_bounds zero pos h = omega arith
  consume_while_bounds (suc rounds) pos h =
      ground (arith, consume_while_bounds rounds (consume src pos))
