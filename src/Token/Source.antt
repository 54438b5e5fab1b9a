-- ===== src/Token/Source.antt =====
-- graphql/token/source.go: the body of a document, positions and locations in it.

pub mod Lines
pub mod Locations
use artemis.Prelude.{
  ℕ, zero, suc, ◌+◌, ◌-◌, ◌&&◌, ◌||◌, ltb, leb, ◌==◌, if◌then◌else◌, Bytes, length, get_or, take,
  drop, Option, none, some,
}
use artemis.Prelude.Outcome.{Outcome, ok, panic}
use artemis.Utf8.{decode_rune}

pub record Source : Type 0 where
  pub body : Bytes
  pub name : Bytes
  pub line_offset : ℕ
  pub column_offset : ℕ

-- `SourceBody.At`: 0 past the end
abbrev pub at : Bytes → ℕ → ℕ
at body pos = get_or body pos 0

abbrev pub size : Bytes → ℕ
size body = length body

-- The rune at a position with its width; `none` stands for the -1 that says end of file.
unfoldable pub rune_at : Bytes → ℕ → Option (ℕ × ℕ)
rune_at body pos =
    if leb (size body) pos
    then none
    else let c = at body pos in some (if ltb c 0x80 then (c, 1) else decode_rune (drop pos body))

-- `body[start:end]`, which panics out of range.
unfoldable pub sub_str : Bytes → ℕ → ℕ → Outcome Bytes
sub_str body start end =
    if leb start end && leb end (size body)
    then ok (take (end - start) (drop start body))
    else panic

unfoldable pub location_from_pos : Source → ℕ → Outcome ℕ
location_from_pos s pos = if ltb (size s.body) pos then panic else ok (pos + 1)

unfoldable pub pos_from_location : Source → ℕ → Outcome ℕ
pos_from_location s location =
    if location == 0 || ltb (size s.body + 1) location then panic else ok (location - 1)

pub record SourceLocationInfo : Type 0 where
  pub name : Bytes
  pub line : ℕ
  pub column : ℕ

-- One round of the loop of `LocationInfoOf`, at `i`. Every branch adds 1 to `i`.
unfoldable pub location_step : Bytes → ℕ → ℕ → ℕ × ℕ → ℕ × ℕ
location_step body position i (line, column) =
    if at body i == b'\r'
    then if ltb (i + 1) (size body) && at body (i + 1) == b'\n'
      then if i + 1 == position then (line + 1, 0) else (line, column)
      else (line + 1, 1)
    else if at body i == b'\n'
    then (line + 1, 1)
    else (line, column + 1)

-- The loop, with the rounds left: from `i` to `position` there are `position - i`.
unfoldable pub location_loop : ℕ → Bytes → ℕ → ℕ → ℕ × ℕ → ℕ × ℕ
location_loop zero body position i lc = lc
location_loop (suc rounds) body position i lc =
    location_loop rounds body position (i + 1) (location_step body position i lc)

-- `min position bodySize`
abbrev pub clamp : ℕ → ℕ → ℕ
clamp position body_size = if leb body_size position then body_size else position

unfoldable pub location_info_of : Source → ℕ → SourceLocationInfo
unfolding location_loop location_step
location_info_of s zero = record { name = s.name; line = 0; column = 0 }
location_info_of s (suc pos) =
    let position = clamp pos (size s.body) in
    let lc = location_loop position s.body position 0 (1, 1) in
    record { name = s.name; line = s.line_offset + lc.0; column = s.column_offset + lc.1 }
