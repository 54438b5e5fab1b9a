-- ===== src/BlockString/Indent.antt =====
-- The indentation that BlockStringValue removes.
use artemis.Prelude.{
  ℕ, zero, suc, ◌≤◌, ◌<◌, ◌≡◌, ◌⊎◌, inl, inr, refl, true, false, ◌&&◌, ◌||◌, ◌==◌, ltb, arith, List,
  [], ◌∷◌, Bytes, length, Option, none, some, Bool-cases, drop, ◌-◌, length-drop,
}
use artemis.BlockString.{
  leading_whitespace_len, is_blank, narrow_indent, common_indent, remove_indent, dedent_rest,
}

-- Each line that is not blank is indented by `n` at least.
abbrev pub AtLeast : ℕ → List Bytes → Type 0
AtLeast n [] = Unit
AtLeast n (line ∷ lines) =
    (is_blank line ≡ false → n ≤ leading_whitespace_len line) × AtLeast n lines

-- A line that is not blank is indented by `n`.
abbrev pub Attains : ℕ → List Bytes → Type 0
Attains n [] = ⊥
Attains n (line ∷ lines) =
    ((is_blank line ≡ false) × (leading_whitespace_len line ≡ n)) ⊎ Attains n lines

abbrev pub AreBlank : List Bytes → Type 0
AreBlank [] = Unit
AreBlank (line ∷ lines) = (is_blank line ≡ true) × AreBlank lines

-- The least indentation, or none where all lines are blank.
abbrev pub IsLeast : List Bytes → Option ℕ → Type 0
IsLeast lines none = AreBlank lines
IsLeast lines (some n) = AtLeast n lines × Attains n lines

leading_whitespace_len_bound : (line : Bytes) → leading_whitespace_len line ≤ length line
unfolding leading_whitespace_len
leading_whitespace_len_bound [] = omega arith
leading_whitespace_len_bound (c ∷ cs) = ground (arith, leading_whitespace_len_bound cs)

-- The test of the loop says that a line is not blank.
full-is_blank :
    (line : Bytes) → ltb (leading_whitespace_len line) (length line) ≡ true → is_blank line ≡ false
unfolding is_blank
full-is_blank line h = ground arith

blank-is_blank :
    (line : Bytes) → ltb (leading_whitespace_len line) (length line) ≡ false → is_blank line ≡ true
unfolding is_blank
blank-is_blank line h = ground (arith, leading_whitespace_len_bound line)

-- The least indentation when `common` was the least before.
abbrev Narrowed : ℕ → List Bytes → Option ℕ → Type 0
Narrowed common lines none = ⊥
Narrowed common lines (some n) = (n ≤ common) × AtLeast n lines × ((n ≡ common) ⊎ Attains n lines)

narrower :
    (common : ℕ) (line : Bytes) (lines : List Bytes) (r : Option ℕ)
    → is_blank line ≡ false
    → leading_whitespace_len line < common
    → Narrowed (leading_whitespace_len line) lines r
    → Narrowed common (line ∷ lines) r
narrower common line lines none e h x = elim x [ ]
narrower common line lines (some n) e h (a, b, inl c) =
    (omega arith, ((λ _. a), b), inr (inl (e, omega arith)))
narrower common line lines (some n) e h (a, b, inr c) = (omega arith, ((λ _. a), b), inr (inr c))

not_narrower :
    (common : ℕ) (line : Bytes) (lines : List Bytes) (r : Option ℕ)
    → (is_blank line ≡ false → common ≤ leading_whitespace_len line)
    → Narrowed common lines r
    → Narrowed common (line ∷ lines) r
not_narrower common line lines none k x = elim x [ ]
not_narrower common line lines (some n) k (a, b, inl c) =
    (a, ((λ e. omega (arith, k e, a)), b), inl c)
not_narrower common line lines (some n) k (a, b, inr c) =
    (a, ((λ e. omega (arith, k e, a)), b), inr (inr c))

kept_indent :
    (common : ℕ) (line : Bytes)
    → (ltb (leading_whitespace_len line) (length line) && ltb (leading_whitespace_len line) common)
      ≡ false
    → is_blank line ≡ false
    → common ≤ leading_whitespace_len line
unfolding is_blank
kept_indent common line e h = ground (arith, leading_whitespace_len_bound line)

common_indent-Narrowed :
    (common : ℕ) (lines : List Bytes) → Narrowed common lines (common_indent (some common) lines)
unfolding common_indent narrow_indent
common_indent-Narrowed common [] = (omega arith, tt, inl refl)
common_indent-Narrowed common (line ∷ lines) =
    elim (Bool-cases (
      ltb (leading_whitespace_len line) (length line)
      && ltb (leading_whitespace_len line) common)) [
        | inl e ↦ rw e (
            narrower common line lines (common_indent (some (leading_whitespace_len line)) lines)
              (full-is_blank line (ground arith)) (ground arith)
              (common_indent-Narrowed (leading_whitespace_len line) lines))
        | inr e ↦ rw e (
            not_narrower common line lines (common_indent (some common) lines)
              (λ full. kept_indent common line e full) (common_indent-Narrowed common lines))
      ]

Narrowed-IsLeast :
    (line : Bytes) (lines : List Bytes) (r : Option ℕ)
    → is_blank line ≡ false
    → Narrowed (leading_whitespace_len line) lines r
    → IsLeast (line ∷ lines) r
Narrowed-IsLeast line lines none e x = elim x [ ]
Narrowed-IsLeast line lines (some n) e (a, b, inl c) = (((λ _. a), b), inl (e, omega arith))
Narrowed-IsLeast line lines (some n) e (a, b, inr c) = (((λ _. a), b), inr c)

blank-IsLeast :
    (line : Bytes) (lines : List Bytes) (r : Option ℕ)
    → is_blank line ≡ true
    → IsLeast lines r
    → IsLeast (line ∷ lines) r
blank-IsLeast line lines none e h = (e, h)
blank-IsLeast line lines (some n) e (a, b) = (((λ f. cc), a), inr b)

-- The loop over the lines behind the first finds the least indentation of those that are not blank,
-- and none just where all are blank.
pub common_indent-IsLeast : (lines : List Bytes) → IsLeast lines (common_indent none lines)
unfolding common_indent narrow_indent
common_indent-IsLeast [] = tt
common_indent-IsLeast (line ∷ lines) =
    elim (Bool-cases (ltb (leading_whitespace_len line) (length line))) [
      | inl e ↦ rw e (
          Narrowed-IsLeast line lines (common_indent (some (leading_whitespace_len line)) lines)
            (full-is_blank line e) (common_indent-Narrowed (leading_whitespace_len line) lines))
      | inr e ↦ rw e (
          blank-IsLeast line lines (common_indent none lines) (blank-is_blank line e)
            (common_indent-IsLeast lines))
    ]

leading_whitespace_len-drop :
    (n : ℕ) (line : Bytes)
    → n ≤ leading_whitespace_len line
    → leading_whitespace_len (drop n line) ≡ leading_whitespace_len line - n
unfolding leading_whitespace_len
leading_whitespace_len-drop zero line h = omega arith
leading_whitespace_len-drop (suc n) [] h = absurd (omega arith)
leading_whitespace_len-drop (suc n) (c ∷ cs) h = elim (Bool-cases (c == b' ' || c == b'\t')) [
  | inl e ↦ ground (arith, leading_whitespace_len-drop n cs)
  | inr e ↦ ground arith
]

full-bound : (line : Bytes) → is_blank line ≡ false → leading_whitespace_len line < length line
unfolding is_blank
full-bound line h = ground (arith, leading_whitespace_len_bound line)

-- The least indented line starts at the margin once its indentation is removed.
drop-margin :
    (n : ℕ) (line : Bytes)
    → is_blank line ≡ false
    → leading_whitespace_len line ≡ n
    → (is_blank (drop n line) ≡ false) × (leading_whitespace_len (drop n line) ≡ 0)
unfolding is_blank
drop-margin n line h e =
    let k = leading_whitespace_len-drop n line (omega arith) in
    (ground (arith, k, length-drop n line, full-bound line h), omega (arith, k))

remove_indent-Attains :
    (n : ℕ) (lines : List Bytes) → Attains n lines → Attains 0 (remove_indent n lines)
unfolding remove_indent
remove_indent-Attains n [] x = x
remove_indent-Attains n (line ∷ lines) (inl (h, e)) = elim (Bool-cases (ltb (length line) n)) [
  | inl k ↦ absurd (ground (arith, full-bound line h))
  | inr k ↦ rw k (inl (drop-margin n line h e))
]
remove_indent-Attains n (line ∷ lines) (inr x) = inr (remove_indent-Attains n lines x)

at_margin :
    (lines : List Bytes) (r : Option ℕ)
    → IsLeast lines r
    → AreBlank lines ⊎ Attains 0 (dedent_rest r lines)
unfolding dedent_rest
at_margin lines none h = inl h
at_margin lines (some zero) h = inr h.1
at_margin lines (some (suc n)) h = inr (remove_indent-Attains (suc n) lines h.1)

-- Unless all lines behind the first are blank, one that is not blank starts at the margin once the
-- common indentation is removed.
pub dedent_rest-Attains :
    (lines : List Bytes) → AreBlank lines ⊎ Attains 0 (dedent_rest (common_indent none lines) lines)
dedent_rest-Attains lines = at_margin lines (common_indent none lines) (common_indent-IsLeast lines)
