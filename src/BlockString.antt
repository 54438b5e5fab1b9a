-- ===== src/BlockString.antt =====
-- graphql/internal/lexer/block_string_value.go: the value of a block string from its raw text.
-- Lines are byte strings; `leadingWhitespaceLen` walks runes, and up to the first that is neither a
-- space nor a tab they are bytes.
pub mod Lines
pub mod Indent
use artemis.Prelude.{
  ℕ, zero, suc, Bool, false, ◌&&◌, ◌||◌, ltb, ◌==◌, if◌then◌else◌, Option, some, none, List, [],
  ◌∷◌, ◌++◌, Bytes, length, drop,
}

abbrev pub add_to_line : ℕ → List Bytes → List Bytes
add_to_line c [] = (c ∷ []) ∷ []
add_to_line c (line ∷ lines) = (c ∷ line) ∷ lines

-- `splitLinesRegex.Split(in, -1)` for `\r\n|[\n\r]`. The flag says that the byte before was the `\r`
-- of a line end, so that a `\n` belongs to it.
unfoldable pub split_lines_after : Bool → Bytes → List Bytes
split_lines_after cr [] = [] ∷ []
split_lines_after cr (c ∷ cs) =
    let rest = split_lines_after (c == b'\r') cs in
    if cr && c == b'\n'
    then rest
    else if c == b'\n' || c == b'\r'
    then [] ∷ rest
    else add_to_line c rest

unfoldable pub split_lines : Bytes → List Bytes
unfolding split_lines_after
split_lines = split_lines_after false

unfoldable pub leading_whitespace_len : Bytes → ℕ
leading_whitespace_len [] = 0
leading_whitespace_len (c ∷ cs) =
    let n = leading_whitespace_len cs in if c == b' ' || c == b'\t' then suc n else 0

unfoldable pub is_blank : Bytes → Bool
unfolding leading_whitespace_len
is_blank line = leading_whitespace_len line == length line

-- `commonIndent` after one more line; `none` stands for -1. The loop breaks at 0, which no line
-- changes.
unfoldable pub narrow_indent : Option ℕ → Bytes → Option ℕ
unfolding leading_whitespace_len
narrow_indent none line =
    let indent = leading_whitespace_len line in
    if ltb indent (length line) then some indent else none
narrow_indent (some common) line =
    let indent = leading_whitespace_len line in
    if ltb indent (length line) && ltb indent common then some indent else some common

-- Over `lines[1:]`.
unfoldable pub common_indent : Option ℕ → List Bytes → Option ℕ
common_indent common [] = common
common_indent common (line ∷ lines) = common_indent (narrow_indent common line) lines

unfoldable pub remove_indent : ℕ → List Bytes → List Bytes
remove_indent n [] = []
remove_indent n (line ∷ lines) =
    (if ltb (length line) n then [] else drop n line) ∷ remove_indent n lines

-- `if commonIndent > 0 { … }`
unfoldable pub dedent_rest : Option ℕ → List Bytes → List Bytes
dedent_rest none lines = lines
dedent_rest (some zero) lines = lines
dedent_rest (some (suc n)) lines = remove_indent (suc n) lines

unfoldable pub dedent : List Bytes → List Bytes
dedent [] = []
dedent (first ∷ lines) = first ∷ dedent_rest (common_indent none lines) lines

unfoldable pub trim_leading : List Bytes → List Bytes
trim_leading [] = []
trim_leading (line ∷ lines) =
    let rest = trim_leading lines in if is_blank line then rest else line ∷ lines

-- The line stays unless it is blank and so are all behind it.
abbrev pub keep_line : Bytes → List Bytes → List Bytes
keep_line line [] = if is_blank line then [] else line ∷ []
keep_line line (next ∷ rest) = line ∷ next ∷ rest

unfoldable pub trim_trailing : List Bytes → List Bytes
trim_trailing [] = []
trim_trailing (line ∷ lines) = keep_line line (trim_trailing lines)

-- `strings.Join(lines, "\n")`
unfoldable pub join_lines : List Bytes → Bytes
join_lines [] = []
join_lines (line ∷ []) = line
join_lines (line ∷ next ∷ lines) = line ++ (b'\n' ∷ join_lines (next ∷ lines))

unfoldable pub block_string_lines : Bytes → List Bytes
block_string_lines raw = trim_trailing (trim_leading (dedent (split_lines raw)))

unfoldable pub block_string_value : Bytes → Bytes
block_string_value raw = join_lines (block_string_lines raw)
