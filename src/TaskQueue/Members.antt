-- ===== src/TaskQueue/Members.antt =====
-- Proofs on lists of tasks without a repetition, and on a task taken out of one.
use artemis.Prelude.{
  ℕ, ◌≡◌, refl, sym, ap, ◌∙◌, true, false, ◌==◌, ◌||◌, if◌then◌else◌, List, [], ◌∷◌, ◌++◌, among,
  arith, Bool-cases, inl, inr,
}
use artemis.TaskQueue.Ring.{Apart, last}

-- The list without the first task that is the given one.
unfoldable pub erase : ℕ → List ℕ → List ℕ
erase t [] = []
erase t (x ∷ xs) = let rest = erase t xs in if x == t then xs else x ∷ rest

-- Where a task stands in a list.
pub record Found (t : ℕ) (xs : List ℕ) : Type 0 where
  pub before : List ℕ
  pub after : List ℕ
  pub splits : xs ≡ before ++ (t ∷ after)
  pub first : among t before ≡ false

pub eq-of : (a b : ℕ) → (a == b) ≡ true → a ≡ b
eq-of a b h = ground arith

pub among-Found : (t : ℕ) (xs : List ℕ) → among t xs ≡ true → Found t xs
among-Found t [] h = absurd (ground arith)
among-Found t (x ∷ xs) h = elim (Bool-cases (x == t)) [
  | inl e ↦ record {
    before = [];
    after = xs;
    splits = ap (λ y. y ∷ xs) (eq-of x t e);
    first = refl;
  }
  | inr e ↦
      let ih : Found t xs = among-Found t xs (sym (rw e refl) ∙ h) in
      record {
        before = x ∷ ih.before;
        after = ih.after;
        splits = ap (λ ys. x ∷ ys) ih.splits;
        first = rw e ih.first;
      }
]

pub among-append : (z : ℕ) (xs ys : List ℕ) → among z (xs ++ ys) ≡ (among z xs || among z ys)
among-append z [] ys = refl
among-append z (x ∷ xs) ys = let ih = among-append z xs ys in ground arith

pub erase-split :
    (t : ℕ) (xs ys : List ℕ) → among t xs ≡ false → erase t (xs ++ (t ∷ ys)) ≡ xs ++ ys
unfolding erase
erase-split t [] ys h = ground arith
erase-split t (x ∷ xs) ys h =
    let ih = erase-split t xs ys (ground arith) in
    let e : (x == t) ≡ false = ground arith in rw e (ap (λ zs. x ∷ zs) ih)

pub Apart-left : (xs ys : List ℕ) → Apart (xs ++ ys) → Apart xs
Apart-left [] ys h = tt
Apart-left (x ∷ xs) ys (h, k) = let e = among-append x xs ys in (ground arith, Apart-left xs ys k)

pub Apart-right : (xs ys : List ℕ) → Apart (xs ++ ys) → Apart ys
Apart-right [] ys h = h
Apart-right (x ∷ xs) ys (h, k) = Apart-right xs ys k

-- What is in the first part is not in the second.
pub Apart-among :
    (z : ℕ) (xs ys : List ℕ) → Apart (xs ++ ys) → among z xs ≡ true → among z ys ≡ false
Apart-among z [] ys h m = absurd (ground arith)
Apart-among z (x ∷ xs) ys (h, k) m = elim (Bool-cases (x == z)) [
  | inl e ↦
      let p = eq-of x z e in
      let q : among z (xs ++ ys) ≡ false = ap (λ y. among y (xs ++ ys)) (sym p) ∙ h in
      let r = among-append z xs ys in ground arith
  | inr e ↦ Apart-among z xs ys k (sym (rw e refl) ∙ m)
]

-- A list without its task in the middle, or with one more at its end.
pub Apart-without : (xs : List ℕ) (t : ℕ) (ys : List ℕ) → Apart (xs ++ (t ∷ ys)) → Apart (xs ++ ys)
Apart-without [] t ys (h, k) = k
Apart-without (x ∷ xs) t ys (h, k) =
    let e = among-append x xs (t ∷ ys) in
    let f = among-append x xs ys in (ground arith, Apart-without xs t ys k)

pub Apart-middle :
    (xs : List ℕ) (t : ℕ) (ys : List ℕ) → Apart (xs ++ (t ∷ ys)) → among t (xs ++ ys) ≡ false
Apart-middle [] t ys (h, k) = h
Apart-middle (x ∷ xs) t ys (h, k) =
    let e = among-append x xs (t ∷ ys) in let ih = Apart-middle xs t ys k in ground arith

pub Apart-snoc : (xs : List ℕ) (t : ℕ) → Apart xs → among t xs ≡ false → Apart (xs ++ (t ∷ []))
Apart-snoc [] t h m = (refl, tt)
Apart-snoc (x ∷ xs) t (h, k) m =
    let e = among-append x xs (t ∷ []) in (ground arith, Apart-snoc xs t k (ground arith))

pub last-append : (a : ℕ) (xs : List ℕ) (t : ℕ) (ys : List ℕ) → last a (xs ++ (t ∷ ys)) ≡ last t ys
last-append a [] t ys = refl
last-append a (x ∷ xs) t ys = last-append x xs t ys
