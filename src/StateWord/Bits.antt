-- ===== src/StateWord/Bits.antt =====
-- Proofs on `&` and `|` of words in two parts.
use Prim.Native.Nat.{min, max, ◌^◌, digits, bit_and, bit_or, bit_and-bitwise, bit_or-bitwise}
use native.Mathlib.Nat.{pow-suc, one-le-pow}
use artemis.Prelude.{ℕ, zero, suc, ◌+◌, ◌-◌, ◌*◌, ◌/◌, ◌%◌, ◌≤◌, ◌<◌, ◌≡◌, refl, ap, ◌∙◌, arith}

module _ (z : ℕ → ℕ) (f : ℕ → ℕ → ℕ) where
  -- Any two counts of digits that suffice give the same.
  digits-count : (m n a b : ℕ) → a ≤ m → a ≤ n → digits z f m a b ≡ digits z f n a b
  digits-count zero (suc n) (suc a) b h k = absurd (omega arith)
  digits-count m zero (suc a) b h k = absurd (omega arith)
  digits-count zero zero zero b h k = refl
  digits-count zero (suc n) zero b h k = refl
  digits-count (suc m) zero zero b h k = refl
  digits-count (suc m) (suc n) zero b h k = refl
  digits-count (suc m) (suc n) (suc a) b h k =
      let ih = digits-count m n (suc a / 2) (b / 2) (omega arith) (omega arith) in
      ap (λ x. x * 2 + f (suc a % 2) (b % 2)) ih

and-halves : (a b : ℕ) → bit_and a b ≡ bit_and (a / 2) (b / 2) * 2 + min (a % 2) (b % 2)
and-halves zero b = omega (arith, bit_and-bitwise 0 b, bit_and-bitwise 0 (b / 2))
and-halves (suc a) b = omega (
  arith,
  bit_and-bitwise (suc a) b,
  bit_and-bitwise (suc a / 2) (b / 2),
  digits-count (λ x. 0) min a (suc a / 2) (suc a / 2) (b / 2) (omega arith) (omega arith),
)

or-halves : (a b : ℕ) → bit_or a b ≡ bit_or (a / 2) (b / 2) * 2 + max (a % 2) (b % 2)
or-halves zero b = omega (arith, bit_or-bitwise 0 b, bit_or-bitwise 0 (b / 2))
or-halves (suc a) b = omega (
  arith,
  bit_or-bitwise (suc a) b,
  bit_or-bitwise (suc a / 2) (b / 2),
  digits-count (λ x. x) max a (suc a / 2) (suc a / 2) (b / 2) (omega arith) (omega arith),
)

-- A word in two parts, the lower one of `k` bits.
abbrev pub parts : ℕ → ℕ → ℕ → ℕ
parts k a r = a * 2 ^ k + r

module _ (op g : ℕ → ℕ → ℕ)
    (halves : (a b : ℕ) → op a b ≡ op (a / 2) (b / 2) * 2 + g (a % 2) (b % 2))
    (at_zero : op 0 0 ≡ 0) where
  -- An operation on digits goes part by part.
  op-parts :
      (k a b r t : ℕ)
      → r < 2 ^ k
      → t < 2 ^ k
      → op (parts k a r) (parts k b t) ≡ parts k (op a b) (op r t)
  op-parts zero a b r t h l =
      let r₀ : r ≡ 0 = omega arith in
      let t₀ : t ≡ 0 = omega arith in
      let x : parts 0 a r ≡ a = omega arith in
      let y : parts 0 b t ≡ b = omega arith in rw (x, y, r₀, t₀) (omega (arith, at_zero))
  op-parts (suc k) a b r t h l =
      let p = pow-suc 2 k in
      let e : a * 2 ^ suc k ≡ 2 * (a * 2 ^ k) = omega (arith, ap (λ (x : ℕ). a * x) p) in
      let f : b * 2 ^ suc k ≡ 2 * (b * 2 ^ k) = omega (arith, ap (λ (x : ℕ). b * x) p) in
      let d : op a b * 2 ^ suc k ≡ 2 * (op a b * 2 ^ k) =
        omega (arith, ap (λ (x : ℕ). op a b * x) p) in
      let x : parts (suc k) a r / 2 ≡ parts k a (r / 2) = omega arith in
      let y : parts (suc k) b t / 2 ≡ parts k b (t / 2) = omega arith in
      let v : parts (suc k) a r % 2 ≡ r % 2 = omega arith in
      let w : parts (suc k) b t % 2 ≡ t % 2 = omega arith in
      let ih = op-parts k a b (r / 2) (t / 2) (omega arith) (omega arith) in
      let q = halves (parts (suc k) a r) (parts (suc k) b t) in
      let u : op (parts (suc k) a r) (parts (suc k) b t)
          ≡ op (parts k a (r / 2)) (parts k b (t / 2)) * 2 + g (r % 2) (t % 2) =
        q ∙ rw (x, y, v, w) refl in
      omega (arith, u, ih, halves r t, d)

pub and-parts :
    (k a b r t : ℕ)
    → r < 2 ^ k
    → t < 2 ^ k
    → bit_and (parts k a r) (parts k b t) ≡ parts k (bit_and a b) (bit_and r t)
and-parts = op-parts bit_and min and-halves refl

pub or-parts :
    (k a b r t : ℕ)
    → r < 2 ^ k
    → t < 2 ^ k
    → bit_or (parts k a r) (parts k b t) ≡ parts k (bit_or a b) (bit_or r t)
or-parts = op-parts bit_or max or-halves refl

pub zero-and : (b : ℕ) → bit_and 0 b ≡ 0
zero-and b = bit_and-bitwise 0 b

pub zero-or : (b : ℕ) → bit_or 0 b ≡ b
zero-or b = bit_or-bitwise 0 b

pub and_zero : (k n : ℕ) → n < 2 ^ k → bit_and n 0 ≡ 0
and_zero zero n h = let e : n ≡ 0 = omega arith in rw e refl
and_zero (suc k) n h =
    let p = pow-suc 2 k in omega (arith, and-halves n 0, and_zero k (n / 2) (omega arith))

-- A mask of `k` ones keeps what fits below it.
pub and_ones : (k n : ℕ) → n < 2 ^ k → bit_and n (2 ^ k - 1) ≡ n
and_ones zero n h = let e : n ≡ 0 = omega arith in rw e refl
and_ones (suc k) n h =
    let p = pow-suc 2 k in
    let o = one-le-pow k 2 in
    let x : (2 ^ suc k - 1) / 2 ≡ 2 ^ k - 1 = omega arith in
    let y : (2 ^ suc k - 1) % 2 ≡ 1 = omega arith in
    let ih = and_ones k (n / 2) (omega arith) in
    let u : bit_and n (2 ^ suc k - 1) ≡ bit_and (n / 2) (2 ^ k - 1) * 2 + min (n % 2) 1 =
      and-halves n (2 ^ suc k - 1) ∙ rw (x, y) refl in
    omega (arith, u, ih)
