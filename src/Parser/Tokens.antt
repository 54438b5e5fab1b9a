-- ===== src/Parser/Tokens.antt =====
-- parser.go: skip, expect, skipKeyword, expectKeyword, peek, unexpected, parseName, and the loops
-- that read the items of a list. A parser is a function of the lexer that it advances. A loop that
-- appends to a slice until a token is skipped is a recursion that puts each item before the rest.
pub mod Reads
pub mod Lists
use artemis.Prelude.{ℕ, zero, suc, Bool, true, false, ◌&&◌, some, Bytes, bytes_eq, Option}
use artemis.Prelude.Outcome
use artemis.Prelude.Outcome.{
  Outcome, ok, err, out_of_fuel, Message, expected_token, expected_keyword, unexpected_token,
}
use artemis.Token.{Kind, name, Token, same_kind}
use artemis.Lexer.Stream.{Lexer, advance}
use artemis.Ast.{Name}

abbrev pub Parser {ℓ} : Type ℓ → Type ℓ
Parser A = Lexer → Outcome (A × Lexer)

infixl 5 ◌>>=◌ ◌>>◌
abbrev pub ◌>>=◌ {ℓ κ} : {A : Type ℓ} {B : Type κ} → Parser A → (A → Parser B) → Parser B
◌>>=◌ p f l = Outcome.◌>>=◌ (p l) λ r. f r.0 r.1

abbrev pub ◌>>◌ {ℓ κ} : {A : Type ℓ} {B : Type κ} → Parser A → Parser B → Parser B
◌>>◌ p q = p >>= λ _. q

abbrev pub pure {ℓ} : {A : Type ℓ} → A → Parser A
pure a l = ok (a, l)

-- `p.lexer.Token()`
abbrev pub peek : Parser Token
peek l = ok (l.token, l)

-- Runs one of two parsers; the one not chosen is not run.
abbrev pub choose {ℓ} : {A : Type ℓ} → Bool → Parser A → Parser A → Parser A
choose b p q l = elim b [ true ↦ p l | false ↦ q l ]

unfoldable pub fail_at {ℓ} : {A : Type ℓ} → Token → Message → Parser A
fail_at t m l = err (record { location = t.location; message = m })

unfoldable pub unexpected {ℓ} : {A : Type ℓ} → Parser A
unfolding fail_at
unexpected = peek >>= λ t. fail_at t (unexpected_token t.kind t.value)

-- The lexer advances and the token passed is returned.
unfoldable pub take_token : Parser Token
take_token = do t ← peek; _ ← advance; pure t

unfoldable pub skip : Kind → Parser Bool
unfolding take_token
skip k = do t ← peek; choose (same_kind t.kind k) (take_token >> pure true) (pure false)

unfoldable pub expect : Kind → Parser Token
unfolding take_token fail_at
expect k = do
  t ← peek
  choose (same_kind t.kind k) take_token (fail_at t (expected_token k t.kind t.value))

abbrev pub is_keyword : Bytes → Token → Bool
is_keyword keyword t = same_kind t.kind name && bytes_eq t.value keyword

unfoldable pub skip_keyword : Bytes → Parser Bool
unfolding take_token
skip_keyword keyword = do
  t ← peek
  choose (is_keyword keyword t) (take_token >> pure true) (pure false)

unfoldable pub expect_keyword : Bytes → Parser (Unit {0})
expect_keyword keyword = do
  found ← skip_keyword keyword
  t ← peek
  choose found (pure tt) (fail_at t (expected_keyword keyword t.kind t.value))

unfoldable pub parse_name : Parser Name
unfolding expect
parse_name = do t ← expect name; pure (record { token = t })

-- What is read where the code leaves its zero value if nothing is.
abbrev pub present : {A : Type 0} → Parser A → Parser (Option A)
present p = do a ← p; pure (some a)

-- `if p.peek().Kind == kind { x, err = parse() }`
unfoldable pub optional {ℓ} : {A : Type ℓ} → Kind → A → Parser A → Parser A
optional k default p = do t ← peek; choose (same_kind t.kind k) p (pure default)

-- `for { item; stop = skip(close); if stop { break } }`, with what ends a list and what adds to one.
unfoldable pub items_until {ℓ} : {A L : Type ℓ} → L → (A → L → L) → Parser A → Kind → ℕ → Parser L
items_until end add p close zero l = out_of_fuel
items_until end add p close (suc n) l = Outcome.◌>>=◌ (p l) λ (a, l₁).
    Outcome.◌>>=◌ (skip close l₁) λ (stop, l₂). elim stop [
      | true ↦ ok (add a end, l₂)
      | false ↦ Outcome.◌>>=◌ (items_until end add p close n l₂) λ (rest, l₃). ok (add a rest, l₃)
    ]

-- `for { stop = skip(close); if stop { break }; item }`
unfoldable pub items_to {ℓ} : {A L : Type ℓ} → L → (A → L → L) → Parser A → Kind → ℕ → Parser L
items_to end add p close zero l = out_of_fuel
items_to end add p close (suc n) l = Outcome.◌>>=◌ (skip close l) λ (stop, l₁). elim stop [
  | true ↦ ok (end, l₁)
  | false ↦
      Outcome.◌>>=◌ (p l₁)
        λ (a, l₂). Outcome.◌>>=◌ (items_to end add p close n l₂) λ (rest, l₃). ok (add a rest, l₃)
]
