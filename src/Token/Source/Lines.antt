-- ===== src/Token/Source/Lines.antt =====
-- The lines of a text that grows by a byte at its end.
use artemis.Prelude.{
  ℕ, zero, suc, ◌≤◌, ◌<◌, ◌≡◌, refl, sym, ap, ◌∙◌, subst, Bool, true, false, ◌&&◌, ◌||◌, ◌==◌,
  if◌then◌else◌, arith, List, [], ◌∷◌, ◌++◌, Bytes, length, take, get_or,
}
use artemis.BlockString.{add_to_line, split_lines_after}

-- How many lines there are, and the length of the last.
abbrev pub counted : List Bytes → ℕ × ℕ
counted [] = (0, 0)
counted (line ∷ []) = (1, length line)
counted (line ∷ next ∷ lines) = let p = counted (next ∷ lines) in (suc p.0, p.1)

-- One more byte at the end; the flag says that a carriage return stands before it.
abbrev pub extend : Bool → ℕ → ℕ × ℕ → ℕ × ℕ
extend cr c (n, l) =
    if cr && c == b'\n' then (n, l) else if c == b'\n' || c == b'\r' then (suc n, 0) else (n, suc l)

abbrev pub ends_cr : Bool → Bytes → Bool
ends_cr cr [] = cr
ends_cr cr (c ∷ cs) = ends_cr (c == b'\r') cs

-- A byte put in front of the first line, which is the last if there is one line.
abbrev bump : ℕ × ℕ → ℕ × ℕ
bump (n, l) = (n, if n == 1 then suc l else l)

counted-add_to_line :
    (c : ℕ) (lines : List Bytes)
    → 1 ≤ (counted lines).0
    → counted (add_to_line c lines) ≡ bump (counted lines)
counted-add_to_line c [] h = absurd (omega arith)
counted-add_to_line c (line ∷ []) h = refl
counted-add_to_line c (line ∷ next ∷ []) h = refl
counted-add_to_line c (line ∷ next ∷ more ∷ lines) h = ground arith

counted-break :
    (lines : List Bytes) → counted ([] ∷ lines) ≡ (suc (counted lines).0, (counted lines).1)
counted-break [] = refl
counted-break (line ∷ lines) = refl

-- A byte in front, which ends a line or not.
abbrev front : Bool → Bool → ℕ × ℕ → ℕ × ℕ
front joined ends p = if joined then p else if ends then (suc p.0, p.1) else bump p

counted-front :
    (joined ends : Bool) (c : ℕ) (lines : List Bytes)
    → 1 ≤ (counted lines).0
    → counted (if joined then lines else if ends then [] ∷ lines else add_to_line c lines)
      ≡ front joined ends (counted lines)
counted-front true ends c lines h = refl
counted-front false true c lines h = counted-break lines
counted-front false false c lines h = counted-add_to_line c lines h

front-some : (joined ends : Bool) (n l : ℕ) → 1 ≤ n → 1 ≤ (front joined ends (n, l)).0
front-some joined ends n l h = ground arith

front-extend :
    (joined ends cr : Bool) (c n l : ℕ)
    → 1 ≤ n
    → front joined ends (extend cr c (n, l)) ≡ extend cr c (front joined ends (n, l))
front-extend true ends cr c n l h = refl
front-extend false true cr c n l h = ground arith
front-extend false false cr c n l h = ground arith

split_lines_after-some : (cr : Bool) (s : Bytes) → 1 ≤ (counted (split_lines_after cr s)).0
unfolding split_lines_after
split_lines_after-some cr [] = omega arith
split_lines_after-some cr (c ∷ s) =
    let p = split_lines_after-some (c == b'\r') s in
    let rest = split_lines_after (c == b'\r') s in
    subst (λ x. 1 ≤ x.0)
      (sym (counted-front (cr && c == b'\n') (c == b'\n' || c == b'\r') c rest p))
      (front-some (cr && c == b'\n') (c == b'\n' || c == b'\r') (counted rest).0 (counted rest).1 p)

pub counted-snoc :
    (cr : Bool) (s : Bytes) (c : ℕ)
    → counted (split_lines_after cr (s ++ (c ∷ [])))
      ≡ extend (ends_cr cr s) c (counted (split_lines_after cr s))
unfolding split_lines_after
counted-snoc cr [] c =
    counted-front (cr && c == b'\n') (c == b'\n' || c == b'\r') c ([] ∷ []) (omega arith)
counted-snoc cr (x ∷ s) c =
    let joined = cr && x == b'\n' in
    let ends = x == b'\n' || x == b'\r' in
    let after = x == b'\r' in
    let lines = split_lines_after after s in
    let some = split_lines_after-some after s in
    counted-front joined ends x (split_lines_after after (s ++ (c ∷ [])))
      (split_lines_after-some after (s ++ (c ∷ [])))
    ∙ (ap (front joined ends) (counted-snoc after s c)
        ∙ (front-extend joined ends (ends_cr after s) c (counted lines).0 (counted lines).1 some
            ∙ ap (extend (ends_cr after s) c) (sym (counted-front joined ends x lines some))))

pub ends_cr-snoc : (cr : Bool) (s : Bytes) (c : ℕ) → ends_cr cr (s ++ (c ∷ [])) ≡ (c == b'\r')
ends_cr-snoc cr [] c = refl
ends_cr-snoc cr (x ∷ s) c = ends_cr-snoc (x == b'\r') s c

pub take-snoc :
    (s : Bytes) (i : ℕ) → i < length s → take (suc i) s ≡ take i s ++ (get_or s i 0 ∷ [])
take-snoc [] i h = absurd (omega arith)
take-snoc (x ∷ s) zero h = refl
take-snoc (x ∷ s) (suc i) h = ap (λ y. x ∷ y) (take-snoc s i (omega arith))
