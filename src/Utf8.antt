-- ===== src/Utf8.antt =====
-- The two functions of Go's unicode/utf8 that the lexer and the JSON writer call, as the package
-- documents them: a byte that begins no valid encoding decodes to U+FFFD with size 1.
use artemis.Prelude.{
  ℕ, ◌+◌, ◌-◌, ◌*◌, ◌/◌, ◌%◌, Bool, ◌&&◌, [], ◌∷◌, ltb, ◌==◌, within, if◌then◌else◌, Bytes, get_or,
}

abbrev pub rune_error : ℕ
rune_error = 0xFFFD

abbrev pub rune_self : ℕ
rune_self = 0x80

-- A continuation byte.
abbrev pub is_cont : ℕ → Bool
is_cont b = within 0x80 0xBF b

decode_two : ℕ → ℕ → ℕ × ℕ
decode_two b0 b1 = if is_cont b1 then ((b0 - 0xC0) * 64 + (b1 - 0x80), 2) else (rune_error, 1)

-- The range of a second byte depends on the first: no overlong form, no surrogate.
decode_three : ℕ → ℕ → ℕ → ℕ × ℕ
decode_three b0 b1 b2 =
    let lo = if b0 == 0xE0 then 0xA0 else 0x80 in
    let hi = if b0 == 0xED then 0x9F else 0xBF in
    if within lo hi b1 && is_cont b2
    then ((b0 - 0xE0) * 4096 + (b1 - 0x80) * 64 + (b2 - 0x80), 3)
    else (rune_error, 1)

decode_four : ℕ → ℕ → ℕ → ℕ → ℕ × ℕ
decode_four b0 b1 b2 b3 =
    let lo = if b0 == 0xF0 then 0x90 else 0x80 in
    let hi = if b0 == 0xF4 then 0x8F else 0xBF in
    if within lo hi b1 && (is_cont b2 && is_cont b3)
    then ((b0 - 0xF0) * 262144 + (b1 - 0x80) * 4096 + (b2 - 0x80) * 64 + (b3 - 0x80), 4)
    else (rune_error, 1)

-- `utf8.DecodeRune`: the rune and its width. A missing byte reads as 0, which is no continuation.
unfoldable pub decode_rune : Bytes → ℕ × ℕ
unfolding decode_two decode_three decode_four
decode_rune [] = (rune_error, 0)
decode_rune (b0 ∷ p) =
    if ltb b0 0x80
    then (b0, 1)
    else if within 0xC2 0xDF b0
    then decode_two b0 (get_or p 0 0)
    else if within 0xE0 0xEF b0
    then decode_three b0 (get_or p 0 0) (get_or p 1 0)
    else if within 0xF0 0xF4 b0
    then decode_four b0 (get_or p 0 0) (get_or p 1 0) (get_or p 2 0)
    else (rune_error, 1)

-- `utf8.EncodeRune`, by which `bytes.Buffer.WriteRune` writes a rune of at most 16 bits.
unfoldable pub encode_rune : ℕ → Bytes
encode_rune r =
    if ltb r 0x80
    then r ∷ []
    else if ltb r 0x800
    then (0xC0 + r / 64) ∷ (0x80 + r % 64) ∷ []
    else if within 0xD800 0xDFFF r
    then 0xEF ∷ 0xBF ∷ 0xBD ∷ []
    else (0xE0 + r / 4096) ∷ (0x80 + r / 64 % 64) ∷ (0x80 + r % 64) ∷ []
