-- ===== src/TaskQueue/Ring.antt =====
-- Proofs on the links of a circular list: the way from one task through others to a last one.
use artemis.Prelude.{
  ℕ, ◌≡◌, true, false, ◌==◌, Option, some, List, [], ◌∷◌, ◌++◌, among, arith, Bool-cases, inl, inr,
}
use artemis.TaskQueue.{link}

-- From `a` the links lead through the tasks of the list to `b`.
abbrev pub Way : (ℕ → Option ℕ) → ℕ → List ℕ → ℕ → Type 0
Way next a [] b = next a ≡ some b
Way next a (x ∷ xs) b = (next a ≡ some x) × Way next x xs b

abbrev pub last : ℕ → List ℕ → ℕ
last a [] = a
last a (x ∷ xs) = last x xs

-- Without a repetition.
abbrev pub Apart : List ℕ → Type 0
Apart [] = Unit
Apart (x ∷ xs) = (among x xs ≡ false) × Apart xs

-- A new link of a task that is not on the way.
pub Way-link :
    (next : ℕ → Option ℕ) (t : ℕ) (n : Option ℕ) (a : ℕ) (xs : List ℕ) (b : ℕ)
    → Way next a xs b
    → among t (a ∷ xs) ≡ false
    → Way (link next t n) a xs b
Way-link next t n a [] b p h = ground arith
Way-link next t n a (x ∷ xs) b (e, p) h = (ground arith, Way-link next t n x xs b p (ground arith))

pub last-among : (a : ℕ) (xs : List ℕ) → among (last a xs) (a ∷ xs) ≡ true
last-among a [] = ground arith
last-among a (x ∷ xs) = let ih = last-among x xs in ground arith

pub last-other : (a x : ℕ) (xs : List ℕ) → among a (x ∷ xs) ≡ false → (last x xs == a) ≡ false
last-other a x xs h =
    let ih = last-among x xs in
    elim (Bool-cases (last x xs == a)) [ inl e ↦ absurd (ground arith) | inr e ↦ e ]

-- A new link of the last task leads elsewhere.
pub Way-end :
    (next : ℕ → Option ℕ) (a : ℕ) (xs : List ℕ) (b c : ℕ)
    → Way next a xs b
    → Apart (a ∷ xs)
    → Way (link next (last a xs) (some c)) a xs c
Way-end next a [] b c p h = ground arith
Way-end next a (x ∷ xs) b c (e, p) (h, k) = (rw (last-other a x xs h) e, Way-end next x xs b c p k)

pub Way-append :
    (next : ℕ → Option ℕ) (a : ℕ) (xs : List ℕ) (t : ℕ) (ys : List ℕ) (b : ℕ)
    → Way next a xs t
    → Way next t ys b
    → Way next a (xs ++ (t ∷ ys)) b
Way-append next a [] t ys b p q = (p, q)
Way-append next a (x ∷ xs) t ys b (e, p) q = (e, Way-append next x xs t ys b p q)

pub Way-split :
    (next : ℕ → Option ℕ) (a : ℕ) (xs : List ℕ) (t : ℕ) (ys : List ℕ) (b : ℕ)
    → Way next a (xs ++ (t ∷ ys)) b
    → Way next a xs t × Way next t ys b
Way-split next a [] t ys b p = p
Way-split next a (x ∷ xs) t ys b (e, p) = let ih = Way-split next x xs t ys b p in ((e, ih.0), ih.1)

pub Way-last :
    (next : ℕ → Option ℕ) (a : ℕ) (xs : List ℕ) (b : ℕ)
    → Way next a xs b
    → next (last a xs) ≡ some b
Way-last next a [] b p = p
Way-last next a (x ∷ xs) b (e, p) = Way-last next x xs b p

pub last-not : (t a : ℕ) (xs : List ℕ) → among t (a ∷ xs) ≡ false → (last a xs == t) ≡ false
last-not t a [] h = ground arith
last-not t a (x ∷ xs) h = last-not t x xs (ground arith)
