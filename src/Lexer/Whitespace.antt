-- ===== src/Lexer/Whitespace.antt =====
-- lexer.go: consumeWhitespace.
pub mod Bounds
use artemis.Prelude.{
  ℕ, zero, suc, ◌+◌, ◌-◌, Bool, true, false, ◌&&◌, ◌||◌, leb, ltb, ◌==◌, if◌then◌else◌,
}
use artemis.Token.Source.{Source, at, size}

-- The bytes that stand for themselves as white space.
abbrev pub is_blank : ℕ → Bool
is_blank c = c == b'\t' || (c == b' ' || (c == b',' || c == b'\n'))

-- A byte order mark at the beginning of the source is skipped.
unfoldable pub skip_bom : Source → ℕ → ℕ
skip_bom src pos =
    if pos == 0
      && (leb 3 (size src.body - pos)
          && (at src.body pos == 0xEF
              && (at src.body (pos + 1) == 0xBB && at src.body (pos + 2) == 0xBF)))
    then pos + 3
    else pos

-- One round of the loop: the position behind a white space, or the same position at another byte.
unfoldable pub whitespace_step : Source → ℕ → ℕ
whitespace_step src pos =
    if is_blank (at src.body pos)
    then pos + 1
    else if at src.body pos == b'\r'
    then if leb 2 (size src.body - pos) && at src.body (pos + 1) == b'\n' then pos + 2 else pos + 1
    else pos

unfoldable pub whitespace_loop : ℕ → Source → ℕ → ℕ
whitespace_loop zero src pos = pos
whitespace_loop (suc rounds) src pos =
    let next = whitespace_step src pos in
    elim (ltb pos (size src.body) && ltb pos next) [
      | true ↦ whitespace_loop rounds src next
      | false ↦ pos
    ]

unfoldable pub consume_whitespace : Source → ℕ → ℕ
consume_whitespace src pos = whitespace_loop (size src.body) src (skip_bom src pos)
