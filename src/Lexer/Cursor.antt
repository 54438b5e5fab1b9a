-- ===== src/Lexer/Cursor.antt =====
-- lexer.go: the methods that read the body and those that make tokens and errors. Within a token
-- the only field of the lexer that changes is bytePos, so these methods take the source and the
-- position, and return the position where they move it. `bodySize` caches `size src.body`.
pub mod Bounds
use artemis.Prelude.{
  ℕ, suc, ◌+◌, ◌-◌, Bool, true, false, not, ◌&&◌, [], ltb, leb, ◌==◌, within, if◌then◌else◌, zero,
  Option, some, none, Bytes,
}
use artemis.Prelude.Outcome.{
  Outcome, ok, err, ◌>>=◌, CharText, eof, printable, escaped, Message, invalid_character,
  unexpected_single_quote, unexpected_character,
}
use artemis.Token.{Kind, Token}
use artemis.Token.Source.{Source, at, size, rune_at, location_from_pos}

abbrev pub peek : Source → ℕ → ℕ
peek src pos = at src.body pos

-- Where `consume` leaves bytePos; the byte that it returns is `peek src pos`.
abbrev pub consume : Source → ℕ → ℕ
consume src pos = if ltb pos (size src.body) then pos + 1 else pos

-- `for test(peek()) { consume() }`, with the rounds that the body allows. The tests of the source
-- refuse the byte 0 that `peek` returns at the end.
unfoldable pub consume_while : (ℕ → Bool) → Source → ℕ → ℕ → ℕ
consume_while test src zero pos = pos
consume_while test src (suc rounds) pos = elim (test (peek src pos)) [
  | true ↦ consume_while test src rounds (consume src pos)
  | false ↦ pos
]

unfoldable pub char_text : Option (ℕ × ℕ) → CharText
char_text none = eof
char_text (some (r, _)) = if leb 0x20 r && ltb r 0x7F then printable r else escaped r

unfoldable pub char_at_pos_to_str : Source → ℕ → CharText
unfolding char_text rune_at
char_at_pos_to_str src pos =
    if leb (size src.body) pos then eof else char_text (rune_at src.body pos)

-- `return nil, graphql.NewSyntaxError(lexer.source, lexer.LocationWithPos(pos), message)`
unfoldable pub fail {ℓ} : {A : Type ℓ} → Source → ℕ → Message → Outcome A
unfolding location_from_pos
fail src pos message = do
  location ← location_from_pos src pos
  err (record { location = location; message = message })

unfoldable pub unexpected_character_message : Source → ℕ → Message
unexpected_character_message src pos =
    let char = at src.body pos in
    let text = char_at_pos_to_str src pos in
    if ltb char 0x20 && (not (char == 0x09) && (not (char == 0x0A) && not (char == 0x0D)))
    then invalid_character text
    else if char == b'\''
    then unexpected_single_quote
    else unexpected_character text

unfoldable pub new_unexpected_character_error {ℓ} : {A : Type ℓ} → Source → ℕ → Outcome A
new_unexpected_character_error src pos = fail src pos (unexpected_character_message src pos)

-- The token that ends at `pos`.
unfoldable pub make_token_with_value : Source → ℕ → Kind → ℕ → Bytes → Outcome Token
unfolding location_from_pos
make_token_with_value src pos kind length value = do
  location ← location_from_pos src (pos - length)
  ok (record { kind = kind; location = location; length = length; value = value })

unfoldable pub make_token : Source → ℕ → Kind → ℕ → Outcome Token
unfolding make_token_with_value
make_token src pos kind length = make_token_with_value src pos kind length []
