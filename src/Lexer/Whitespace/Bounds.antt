-- ===== src/Lexer/Whitespace/Bounds.antt =====
-- White space is skipped within the body.
use artemis.Prelude.{ℕ, zero, suc, ◌≤◌, ◌<◌, arith}
use artemis.Token.Source.{Source, size}
use artemis.Lexer.Whitespace.{skip_bom, whitespace_step, whitespace_loop, consume_whitespace}

module _ (src : Source) where
  skip_bom_bounds :
      (pos : ℕ)
      → pos ≤ size src.body
      → (pos ≤ skip_bom src pos) × (skip_bom src pos ≤ size src.body)
  unfolding skip_bom
  skip_bom_bounds pos h = ground arith

  whitespace_step_bounds :
      (pos : ℕ)
      → pos < size src.body
      → (pos ≤ whitespace_step src pos) × (whitespace_step src pos ≤ size src.body)
  unfolding whitespace_step
  whitespace_step_bounds pos h = ground arith

  whitespace_loop_bounds :
      (rounds pos : ℕ)
      → pos ≤ size src.body
      → (pos ≤ whitespace_loop rounds src pos) × (whitespace_loop rounds src pos ≤ size src.body)
  unfolding whitespace_loop
  whitespace_loop_bounds zero pos h = omega arith
  whitespace_loop_bounds (suc rounds) pos h =
      ground
        (arith, whitespace_step_bounds pos, whitespace_loop_bounds rounds (whitespace_step src pos))

  pub consume_whitespace_bounds :
      (pos : ℕ)
      → pos ≤ size src.body
      → (pos ≤ consume_whitespace src pos) × (consume_whitespace src pos ≤ size src.body)
  unfolding consume_whitespace
  consume_whitespace_bounds pos h = omega (
    arith,
    skip_bom_bounds pos h,
    whitespace_loop_bounds (size src.body) (skip_bom src pos) (skip_bom_bounds pos h).1,
  )
