-- ===== src/Token/Source/Locations.antt =====
-- The line and the column that LocationInfoOf counts.
use artemis.Prelude.{
  ℕ, zero, suc, ◌+◌, ◌≤◌, ◌<◌, ◌≡◌, ◌≢◌, refl, sym, ap, ◌∙◌, subst, Bool, true, false, ◌&&◌, ◌==◌,
  ltb, if◌then◌else◌, arith, Bytes, take,
}
use artemis.BlockString.{split_lines_after, split_lines}
use artemis.Token.Source.{Source, at, size, clamp, location_step, location_loop, location_info_of}
use artemis.Token.Source.Lines.{counted, extend, ends_cr, counted-snoc, ends_cr-snoc, take-snoc}

-- A position between a carriage return and its line feed.
abbrev pub splits_break : Bytes → ℕ → Bool
splits_break body i = ends_cr false (take i body) && (ltb i (size body) && at body i == b'\n')

-- The lines of the text in front of a position.
abbrev pub before : Bytes → ℕ → ℕ × ℕ
before body i = counted (split_lines (take i body))

-- The state of the loop at the top of a round. Between a carriage return and its line feed the
-- break is not counted yet.
abbrev Tracks : Bool → ℕ × ℕ → ℕ × ℕ → Type 0
Tracks true (n, l) (line, column) = (line + 1 ≡ n) × (l ≡ 0)
Tracks false (n, l) (line, column) = (line ≡ n) × (column ≡ l + 1)

abbrev Locates : Bool → ℕ × ℕ → ℕ × ℕ → Type 0
Locates true (n, l) (line, column) = (line ≡ n) × (column ≡ 0)
Locates false (n, l) (line, column) = (line ≡ n) × (column ≡ l + 1)

-- A round that is not the last, and the last.
location_step-Tracks :
    (body : Bytes) (position i : ℕ) (cr : Bool) (n l line column : ℕ)
    → i < size body
    → suc i ≢ position
    → Tracks (cr && (ltb i (size body) && at body i == b'\n')) (n, l) (line, column)
    → Tracks
        (at body i == b'\r' && (ltb (suc i) (size body) && at body (suc i) == b'\n'))
        (extend cr (at body i) (n, l))
        (location_step body position i (line, column))
unfolding location_step
location_step-Tracks body position i cr n l line column h ne t = ground arith

location_step-Locates :
    (body : Bytes) (i : ℕ) (cr : Bool) (n l line column : ℕ)
    → i < size body
    → Tracks (cr && (ltb i (size body) && at body i == b'\n')) (n, l) (line, column)
    → Locates
        (at body i == b'\r' && (ltb (suc i) (size body) && at body (suc i) == b'\n'))
        (extend cr (at body i) (n, l))
        (location_step body (suc i) i (line, column))
unfolding location_step
location_step-Locates body i cr n l line column h t = ground arith

module _ (body : Bytes) where
  before-suc :
      (i : ℕ)
      → i < size body
      → before body (suc i) ≡ extend (ends_cr false (take i body)) (at body i) (before body i)
  unfolding split_lines
  before-suc i h =
      ap (λ s. counted (split_lines_after false s)) (take-snoc body i h)
      ∙ counted-snoc false (take i body) (at body i)

  splits_break-suc :
      (i : ℕ)
      → i < size body
      → splits_break body (suc i)
        ≡ (at body i == b'\r' && (ltb (suc i) (size body) && at body (suc i) == b'\n'))
  splits_break-suc i h =
      ap (λ s. ends_cr false s && (ltb (suc i) (size body) && at body (suc i) == b'\n'))
        (take-snoc body i h)
      ∙ ap (λ b. b && (ltb (suc i) (size body) && at body (suc i) == b'\n'))
          (ends_cr-snoc false (take i body) (at body i))

  -- A claim on the state behind the next byte.
  behind :
      (P : Bool → ℕ × ℕ → Type 0) (i : ℕ)
      → i < size body
      → P
          (at body i == b'\r' && (ltb (suc i) (size body) && at body (suc i) == b'\n'))
          (extend (ends_cr false (take i body)) (at body i) (before body i))
      → P (splits_break body (suc i)) (before body (suc i))
  behind P i h p =
      subst (λ b. P b (before body (suc i))) (sym (splits_break-suc i h))
        (subst (P _) (sym (before-suc i h)) p)

  location_loop-Locates :
      (position rounds i : ℕ) (lc : ℕ × ℕ)
      → i + suc rounds ≡ position
      → position ≤ size body
      → Tracks (splits_break body i) (before body i) lc
      → Locates
          (splits_break body position)
          (before body position)
          (location_loop (suc rounds) body position i lc)
  unfolding location_loop
  location_loop-Locates position zero i (line, column) e h t =
      let q : suc i ≡ position = omega arith in
      subst
        (λ p. Locates (splits_break body p) (before body p) (location_step body p i (line, column)))
        q
        (behind (λ b p. Locates b p (location_step body (suc i) i (line, column))) i (omega arith)
          (location_step-Locates body i (ends_cr false (take i body)) (before body i).0
            (before body i).1 line column (omega arith) t))
  location_loop-Locates position (suc rounds) i (line, column) e h t =
      let q : suc i ≡ i + 1 = omega arith in
      let lc = location_step body position i (line, column) in
      location_loop-Locates position rounds (i + 1) lc (omega arith) h (
        subst (λ j. Tracks (splits_break body j) (before body j) lc) q
          (behind (λ b p. Tracks b p lc) i (omega arith)
            (location_step-Tracks body position i (ends_cr false (take i body)) (before body i).0
              (before body i).1 line column (omega arith) (λ z. omega arith) t)))

  location_from_start :
      (position : ℕ)
      → position ≤ size body
      → Locates
          (splits_break body position)
          (before body position)
          (location_loop position body position 0 (1, 1))
  unfolding location_loop split_lines split_lines_after
  location_from_start zero h = (refl, refl)
  location_from_start (suc position) h =
      location_loop-Locates (suc position) position 0 (1, 1) (omega arith) h (refl, refl)

located :
    (b : Bool) (p lc : ℕ × ℕ) → Locates b p lc → (lc.0 ≡ p.0) × (lc.1 ≡ (if b then 0 else suc p.1))
located true p lc h = h
located false p lc h = (h.0, omega (arith, h.1))

clamped : (position n : ℕ) → position ≤ n → clamp position n ≡ position
clamped position n h = ground arith

-- Of a position in the source, LocationInfoOf gives as line the number of lines, in the sense of
-- BlockStringValue, of the text in front of it, and as column one more than the length of the last
-- of them, but 0 between a carriage return and its line feed. The offsets of the source are added.
pub location_info_of-splits_break :
    (s : Source) (position : ℕ)
    → position ≤ size s.body
    → ((location_info_of s (suc position)).line ≡ s.line_offset + (before s.body position).0)
      × ((location_info_of s (suc position)).column
          ≡ s.column_offset
            + (if splits_break s.body position then 0 else suc (before s.body position).1))
unfolding location_info_of
location_info_of-splits_break s position h =
    let p = before s.body position in
    let lc =
      located (splits_break s.body position) p (location_loop position s.body position 0 (1, 1))
        (location_from_start s.body position h) in
    let at_end = ap (λ q. location_loop q s.body q 0 (1, 1)) (clamped position (size s.body) h) in
    (
      ap (λ x. s.line_offset + x) (ap (λ x. x.0) at_end ∙ lc.0),
      ap (λ x. s.column_offset + x) (ap (λ x. x.1) at_end ∙ lc.1),
    )
