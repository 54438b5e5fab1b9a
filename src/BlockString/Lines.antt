-- ===== src/BlockString/Lines.antt =====
-- The lines that BlockStringValue keeps.
use artemis.Prelude.{
  ℕ, zero, suc, ◌≡◌, ◌≢◌, Bool, false, ◌&&◌, ◌||◌, ◌==◌, ltb, arith, List, [], ◌∷◌, Bytes, length,
  drop, Option, none, some, Bool-cases, inl, inr,
}
use artemis.BlockString.{
  add_to_line, split_lines_after, split_lines, remove_indent, dedent_rest, dedent, trim_leading,
  keep_line, trim_trailing, block_string_lines, is_blank, common_indent,
}

-- No byte of the line ends a line.
abbrev pub IsLine : Bytes → Type 0
IsLine [] = Unit
IsLine (c ∷ cs) = (c ≢ b'\n') × (c ≢ b'\r') × IsLine cs

abbrev pub AreLines : List Bytes → Type 0
AreLines [] = Unit
AreLines (line ∷ lines) = IsLine line × AreLines lines

-- The first line, if there is one, is not blank.
abbrev pub StartsFull : List Bytes → Type 0
StartsFull [] = Unit
StartsFull (line ∷ lines) = is_blank line ≡ false

-- The last line, if there is one, is not blank.
abbrev pub EndsFull : List Bytes → Type 0
EndsFull [] = Unit
EndsFull (line ∷ []) = is_blank line ≡ false
EndsFull (line ∷ next ∷ lines) = EndsFull (next ∷ lines)

add_to_line-AreLines :
    (c : ℕ) (lines : List Bytes)
    → c ≢ b'\n'
    → c ≢ b'\r'
    → AreLines lines
    → AreLines (add_to_line c lines)
add_to_line-AreLines c [] n r h = ((n, r, tt), tt)
add_to_line-AreLines c (line ∷ lines) n r h = ((n, r, h.0), h.1)

split_lines_after-AreLines : (cr : Bool) (s : Bytes) → AreLines (split_lines_after cr s)
unfolding split_lines_after
split_lines_after-AreLines cr [] = (tt, tt)
split_lines_after-AreLines cr (c ∷ cs) =
    let ih = split_lines_after-AreLines (c == b'\r') cs in
    elim (Bool-cases (cr && c == b'\n')) [
      | inl e ↦ rw e ih
      | inr e₁ ↦ elim (Bool-cases (c == b'\n' || c == b'\r')) [
        | inl e ↦ rw (e₁, e) (tt, ih)
        | inr e ↦
            rw (e₁, e)
              (add_to_line-AreLines c (split_lines_after (c == b'\r') cs) (ground arith)
                (ground arith) ih)
      ]
    ]

drop-IsLine : (n : ℕ) (line : Bytes) → IsLine line → IsLine (drop n line)
drop-IsLine zero line h = h
drop-IsLine (suc n) [] h = tt
drop-IsLine (suc n) (c ∷ cs) h = drop-IsLine n cs h.2

remove_indent-AreLines :
    (n : ℕ) (lines : List Bytes) → AreLines lines → AreLines (remove_indent n lines)
unfolding remove_indent
remove_indent-AreLines n [] h = tt
remove_indent-AreLines n (line ∷ lines) h = elim (Bool-cases (ltb (length line) n)) [
  | inl e ↦ rw e (tt, remove_indent-AreLines n lines h.1)
  | inr e ↦ rw e (drop-IsLine n line h.0, remove_indent-AreLines n lines h.1)
]

dedent_rest-AreLines :
    (indent : Option ℕ) (lines : List Bytes) → AreLines lines → AreLines (dedent_rest indent lines)
unfolding dedent_rest
dedent_rest-AreLines none lines h = h
dedent_rest-AreLines (some zero) lines h = h
dedent_rest-AreLines (some (suc n)) lines h = remove_indent-AreLines (suc n) lines h

dedent-AreLines : (lines : List Bytes) → AreLines lines → AreLines (dedent lines)
unfolding dedent
dedent-AreLines [] h = tt
dedent-AreLines (line ∷ lines) h = (h.0, dedent_rest-AreLines (common_indent none lines) lines h.1)

trim_leading_lem :
    (lines : List Bytes)
    → AreLines lines
    → AreLines (trim_leading lines) × StartsFull (trim_leading lines)
unfolding trim_leading
trim_leading_lem [] h = (tt, tt)
trim_leading_lem (line ∷ lines) h = elim (Bool-cases (is_blank line)) [
  | inl e ↦ rw e (trim_leading_lem lines h.1)
  | inr e ↦ rw e (h, e)
]

keep_line_lem :
    (line : Bytes) (rest : List Bytes)
    → IsLine line
    → AreLines rest
    → EndsFull rest
    → AreLines (keep_line line rest) × EndsFull (keep_line line rest)
keep_line_lem line [] h k e = elim (Bool-cases (is_blank line)) [
  | inl b ↦ rw b (tt, tt)
  | inr b ↦ rw b ((h, tt), b)
]
keep_line_lem line (next ∷ rest) h k e = ((h, k), e)

trim_trailing_lem :
    (lines : List Bytes)
    → AreLines lines
    → AreLines (trim_trailing lines) × EndsFull (trim_trailing lines)
unfolding trim_trailing
trim_trailing_lem [] h = (tt, tt)
trim_trailing_lem (line ∷ lines) h =
    let ih = trim_trailing_lem lines h.1 in keep_line_lem line (trim_trailing lines) h.0 ih.0 ih.1

keep_line-StartsFull :
    (line : Bytes) (rest : List Bytes) → is_blank line ≡ false → StartsFull (keep_line line rest)
keep_line-StartsFull line [] h = rw h h
keep_line-StartsFull line (next ∷ rest) h = h

trim_trailing-StartsFull :
    (lines : List Bytes) → StartsFull lines → StartsFull (trim_trailing lines)
unfolding trim_trailing
trim_trailing-StartsFull [] h = tt
trim_trailing-StartsFull (line ∷ lines) h = keep_line-StartsFull line (trim_trailing lines) h

-- The lines whose join is the value of a block string: none holds a line feed or a carriage return,
-- so that the value has line feeds between lines only, and the first and the last, where there are
-- any, are not blank.
pub block_string_lines-EndsFull :
    (raw : Bytes)
    → AreLines (block_string_lines raw)
      × StartsFull (block_string_lines raw)
      × EndsFull (block_string_lines raw)
unfolding block_string_lines split_lines
block_string_lines-EndsFull raw =
    let led =
      trim_leading_lem (dedent (split_lines raw))
        (dedent-AreLines (split_lines raw) (split_lines_after-AreLines false raw)) in
    let kept = trim_trailing_lem (trim_leading (dedent (split_lines raw))) led.0 in
    (kept.0, trim_trailing-StartsFull (trim_leading (dedent (split_lines raw))) led.1, kept.1)
