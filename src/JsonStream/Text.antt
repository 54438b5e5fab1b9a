-- ===== src/JsonStream/Text.antt =====
-- jsonwriter/stream_string.go: WriteString. The indices `i` and `start` are kept as the bytes from
-- `i` on and the bytes between the two, which are not written yet.
pub mod Escaped
pub mod Literal
use artemis.Prelude.{
  ℕ, zero, suc, ◌/◌, ◌%◌, Bool, true, false, not, ◌&&◌, ◌||◌, ltb, ◌==◌, within, if◌then◌else◌,
  Option, some, none, List, [], ◌∷◌, ◌++◌, Bytes, codes, length, get_or, take, drop,
}
use artemis.Utf8.{rune_error, rune_self, decode_rune}
use artemis.JsonStream.{Stream, write_bytes, write_raw_string}

-- The entries that are true, of the bytes below `rune_self`.
unfoldable pub html_safe_set : ℕ → Bool
html_safe_set c =
    within b' ' 0x7F c && not (c == b'"' || (c == b'&' || (c == b'<' || (c == b'>' || c == b'\\'))))

abbrev pub hex_digits : Bytes
hex_digits = codes "0123456789abcdef"

unfoldable pub hex : ℕ → ℕ
hex d = get_or hex_digits d 0

-- The switch on a byte that is not safe.
unfoldable pub escape_byte : ℕ → Bytes
escape_byte b =
    if b == b'\\' || b == b'"'
    then b'\\' ∷ b ∷ []
    else if b == b'\n'
    then b'\\' ∷ b'n' ∷ []
    else if b == b'\r'
    then b'\\' ∷ b'r' ∷ []
    else if b == b'\t'
    then b'\\' ∷ b't' ∷ []
    else b'\\' ∷ b'u' ∷ b'0' ∷ b'0' ∷ hex (b / 16) ∷ hex (b % 16) ∷ []

-- What a rune of several bytes turns into, if it does not stand for itself, and its width.
unfoldable pub escape_rune : ℕ × ℕ → Option Bytes × ℕ
escape_rune (c, size) =
    if c == rune_error && size == 1
    then (some (codes "\\ufffd"), 1)
    else if c == 0x2028 || c == 0x2029
    then (some (b'\\' ∷ b'u' ∷ b'2' ∷ b'0' ∷ b'2' ∷ hex (c % 16) ∷ []), size)
    else (none, size)

-- The branches of the loop's body, on the byte at `i` and those behind it.
unfoldable pub escape_next : ℕ → Bytes → Option Bytes × ℕ
escape_next b rest =
    if ltb b rune_self
    then (if html_safe_set b then none else some (escape_byte b), 1)
    else escape_rune (decode_rune (b ∷ rest))

-- `s[start:i]` behind the character; `start = i` once that was written.
unfoldable pub next_pending : Option Bytes → Bytes → Bytes → Bytes
next_pending none pending char = pending ++ char
next_pending (some e) pending char = []

module _ {W Err : Type 0} (write_to : W → Bytes → W × Option Err) where
  -- `if start < i { stream.WriteRawString(s[start:i]) }`
  unfoldable pub write_pending : Bytes → Stream W Err → Stream W Err
  write_pending pending s =
      if ltb 0 (length pending) then write_raw_string write_to pending s else s

  unfoldable pub write_escape : Option Bytes → Bytes → Stream W Err → Stream W Err
  write_escape none pending s = s
  write_escape (some e) pending s = write_bytes e (write_pending pending s)

  unfoldable pub finish_string : Bytes → Stream W Err → Stream W Err
  finish_string pending s = write_bytes (b'"' ∷ []) (write_pending pending s)

  -- The loop of `writeStringSlowPath`. A round takes a byte at least, so that no more are needed
  -- than there are bytes.
  unfoldable pub slow_path : ℕ → Bytes → Bytes → Stream W Err → Stream W Err
  slow_path rounds pending [] s = finish_string pending s
  slow_path zero pending (b ∷ rest) s = finish_string pending s
  slow_path (suc rounds) pending (b ∷ rest) s =
      let next = escape_next b rest in
      slow_path rounds (next_pending next.0 pending (take next.1 (b ∷ rest)))
        (drop next.1 (b ∷ rest)) (write_escape next.0 pending s)

  -- The first loop, from its `i` on.
  unfoldable pub fast_path : Bytes → Stream W Err → Stream W Err
  fast_path [] s = write_bytes (b'"' ∷ []) s
  fast_path (c ∷ cs) s = elim (ltb c rune_self && html_safe_set c) [
    | true ↦ fast_path cs (write_bytes (c ∷ []) s)
    | false ↦ slow_path (suc (length cs)) [] (c ∷ cs) s
  ]

  unfoldable pub write_string : Bytes → Stream W Err → Stream W Err
  write_string s stream = fast_path s (write_bytes (b'"' ∷ []) stream)

  unfoldable pub write_object_field : Bytes → Stream W Err → Stream W Err
  unfolding write_string
  write_object_field field s = write_bytes (b':' ∷ []) (write_string field s)
