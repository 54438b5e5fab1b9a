-- ===== src/JsonStream/Text/Literal.antt =====
-- The text of a string is a JSON string literal without HTML's special characters.
use artemis.Prelude.{
  ℕ, zero, suc, ◌/◌, ◌%◌, ◌-◌, ◌≤◌, ◌<◌, ◌≡◌, ◌≢◌, inl, inr, refl, arith, Option, [], ◌∷◌, ◌++◌,
  Bytes, get_or, take, true, subst, ltb→lt, within, leb, ◌&&◌, ◌||◌, ◌==◌, Bool-cases, ltb, Bool,
  length,
}
use artemis.JsonStream.Refines.{IsWriter, Writes}
use artemis.Utf8.{rune_error, rune_self, decode_rune}
use artemis.JsonStream.Text.{
  write_string, hex, hex_digits, escape_byte, escape_rune, escape_next, html_safe_set,
}
use artemis.JsonStream.Text.Escaped.{write_string-Writes, escaped_after, escaped, spelled}

-- A byte that stands for itself.
abbrev pub IsPlain : ℕ → Type 0
IsPlain c = (0x20 ≤ c) × (c ≢ b'"') × (c ≢ b'\\') × (c ≢ b'<') × (c ≢ b'>') × (c ≢ b'&')

abbrev pub IsHexDigit : ℕ → Type 0
IsHexDigit c = (within b'0' b'9' c || within b'a' b'f' c) ≡ true

and_left : (a b : Bool) → (a && b) ≡ true → a ≡ true
and_left a b h = ground arith

and_right : (a b : Bool) → (a && b) ≡ true → b ≡ true
and_right a b h = ground arith

pub data IsEscape : ℕ → Type 0 where
  quote : IsEscape b'"'
  backslash : IsEscape b'\\'
  line_feed : IsEscape b'n'
  carriage_return : IsEscape b'r'
  tab : IsEscape b't'

-- What stands between the quotes of a literal.
pub data IsBody : Bytes → Type 0 where
  done : IsBody []
  plain : {c : ℕ} {cs : Bytes} → IsPlain c → IsBody cs → IsBody (c ∷ cs)
  short : {c : ℕ} {cs : Bytes} → IsEscape c → IsBody cs → IsBody (b'\\' ∷ c ∷ cs)
  unicode :
      {h₁ h₂ h₃ h₄ : ℕ} {cs : Bytes}
      → IsHexDigit h₁
      → IsHexDigit h₂
      → IsHexDigit h₃
      → IsHexDigit h₄
      → IsBody cs
      → IsBody (b'\\' ∷ b'u' ∷ h₁ ∷ h₂ ∷ h₃ ∷ h₄ ∷ cs)

IsBody-append : {xs ys : Bytes} → IsBody xs → IsBody ys → IsBody (xs ++ ys)
IsBody-append done q = q
IsBody-append (plain h p) q = plain h (IsBody-append p q)
IsBody-append (short h p) q = short h (IsBody-append p q)
IsBody-append (unicode a b c d p) q = unicode a b c d (IsBody-append p q)

abbrev all : (ℕ → Bool) → Bytes → Bool
all p [] = true
all p (c ∷ cs) = p c && all p cs

get_or-all :
    (p : ℕ → Bool) (xs : Bytes) (n : ℕ) → all p xs ≡ true → n < length xs → p (get_or xs n 0) ≡ true
get_or-all p [] n h k = absurd (omega arith)
get_or-all p (x ∷ xs) zero h k = and_left (p x) (all p xs) h
get_or-all p (x ∷ xs) (suc n) h k = get_or-all p xs n (and_right (p x) (all p xs) h) (omega arith)

hex-IsHexDigit : (n : ℕ) → n < 16 → IsHexDigit (hex n)
unfolding hex
hex-IsHexDigit n h = get_or-all (λ c. within b'0' b'9' c || within b'a' b'f' c) hex_digits n refl h

high-IsPlain : (c : ℕ) → 0x80 ≤ c → IsPlain c
high-IsPlain c h = ground arith

safe-IsPlain : (c : ℕ) → html_safe_set c ≡ true → IsPlain c
unfolding html_safe_set
safe-IsPlain c h = ground arith

high-IsBody : (s : Bytes) → all (leb 0x80) s ≡ true → IsBody s
high-IsBody [] h = done
high-IsBody (c ∷ s) h =
    plain (high-IsPlain c (ground arith))
      (high-IsBody s (and_right (leb 0x80 c) (all (leb 0x80) s) h))

unicode_escape :
    (b : ℕ) → b < 0x80 → IsBody (b'\\' ∷ b'u' ∷ b'0' ∷ b'0' ∷ hex (b / 16) ∷ hex (b % 16) ∷ [])
unicode_escape b h =
    unicode refl refl (hex-IsHexDigit (b / 16) (omega arith))
      (hex-IsHexDigit (b % 16) (omega arith)) done

self-IsEscape : (b : ℕ) → (b == b'\\' || b == b'"') ≡ true → IsEscape b
self-IsEscape b h = elim (Bool-cases (b == b'\\')) [
  | inl e ↦ let q : 92 ≡ b = ground arith in subst IsEscape q backslash
  | inr e ↦ let q : 34 ≡ b = ground arith in subst IsEscape q quote
]

escape_byte-IsBody : (b : ℕ) → b < 0x80 → IsBody (escape_byte b)
unfolding escape_byte
escape_byte-IsBody b h = elim (Bool-cases (b == b'\\' || b == b'"')) [
  | inl e ↦ rw e (short (self-IsEscape b e) done)
  | inr e₁ ↦ elim (Bool-cases (b == b'\n')) [
    | inl e ↦ rw (e₁, e) (short line_feed done)
    | inr e₂ ↦ elim (Bool-cases (b == b'\r')) [
      | inl e ↦ rw (e₁, e₂, e) (short carriage_return done)
      | inr e₃ ↦ elim (Bool-cases (b == b'\t')) [
        | inl e ↦ rw (e₁, e₂, e₃, e) (short tab done)
        | inr e ↦ rw (e₁, e₂, e₃, e) (unicode_escape b h)
      ]
    ]
  ]
]

-- The bytes of an encoding of several bytes.
decode_rune-high :
    (b : ℕ) (rest : Bytes)
    → 0x80 ≤ b
    → all (leb 0x80) (take (decode_rune (b ∷ rest)).1 (b ∷ rest)) ≡ true
unfolding decode_rune
decode_rune-high b [] h = ground arith
decode_rune-high b (x ∷ []) h = ground arith
decode_rune-high b (x ∷ y ∷ []) h = ground arith
decode_rune-high b (x ∷ y ∷ z ∷ rest) h = ground arith

-- What a character of `s` is written as.
abbrev Spelling : Bytes → Option Bytes × ℕ → Type 0
Spelling s r = IsBody (spelled r.0 (take r.1 s))

escape_rune-Spelling :
    (s : Bytes) (c size : ℕ)
    → all (leb 0x80) (take size s) ≡ true
    → Spelling s (escape_rune (c, size))
unfolding escape_rune
escape_rune-Spelling s c size h = elim (Bool-cases (c == rune_error && size == 1)) [
  | inl e ↦ rw e (unicode refl refl refl refl done)
  | inr e₁ ↦ elim (Bool-cases (c == 0x2028 || c == 0x2029)) [
    | inl e ↦ rw (e₁, e) (unicode refl refl refl (hex-IsHexDigit (c % 16) (omega arith)) done)
    | inr e ↦ rw (e₁, e) (high-IsBody (take size s) h)
  ]
]

escape_next-Spelling : (b : ℕ) (rest : Bytes) → Spelling (b ∷ rest) (escape_next b rest)
unfolding escape_next
escape_next-Spelling b rest = elim (Bool-cases (ltb b rune_self)) [
  | inl low ↦ elim (Bool-cases (html_safe_set b)) [
    | inl e ↦ rw (low, e) (plain (safe-IsPlain b e) done)
    | inr e ↦ rw (low, e) (escape_byte-IsBody b (ltb→lt b 0x80 low))
  ]
  | inr high ↦ rw high (
      escape_rune-Spelling (b ∷ rest) (decode_rune (b ∷ rest)).0 (decode_rune (b ∷ rest)).1
        (decode_rune-high b rest (ground arith)))
]

escaped_after-IsBody : (n : ℕ) (s : Bytes) → IsBody (escaped_after n s)
unfolding escaped_after
escaped_after-IsBody n [] = done
escaped_after-IsBody (suc n) (b ∷ rest) = escaped_after-IsBody n rest
escaped_after-IsBody zero (b ∷ rest) =
    IsBody-append (escape_next-Spelling b rest)
      (escaped_after-IsBody ((escape_next b rest).1 - 1) rest)

pub escaped-IsBody : (s : Bytes) → IsBody (escaped s)
unfolding escaped
escaped-IsBody s = escaped_after-IsBody 0 s

module _ {W Err : Type 0} (write_to : W → Bytes → W × Option Err) (log : W → Bytes)
    (is_writer : IsWriter write_to log) where
  -- Over a writer that behaves as io.Writer documents, WriteString adds one JSON string literal to
  -- what the stream has written, for any bytes at all: between its quotes each byte stands for
  -- itself or belongs to an escape of JSON, with no control byte, quote or backslash otherwise and
  -- none of `<`, `>` and `&`.
  pub write_string-IsBody :
      (s : Bytes)
      → (body : Bytes) × IsBody body
        × Writes write_to log is_writer (b'"' ∷ (body ++ (b'"' ∷ []))) (write_string write_to s)
  write_string-IsBody s =
      (escaped s, escaped-IsBody s, write_string-Writes write_to log is_writer s)
