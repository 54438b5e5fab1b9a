-- ===== src/Lexer/Stream/Chain.antt =====
-- The invariant of a lexer: the tokens of a chain lie in the source, in order, without overlap.
use artemis.Prelude.{
  ℕ, suc, ◌+◌, ◌-◌, ◌≤◌, ◌<◌, ◌≡◌, ◌≢◌, refl, true, false, arith, [], ◌∷◌, some, none, inl, inr,
  Option, List,
}
use artemis.Prelude.Outcome.{Ensures, Ensures-bind}
use artemis.Token.{Token, eof, same_kind, new_sof_token}
use artemis.Token.Kinds.{ne→same_kind, same_kind_refl}
use artemis.Token.Source.{Source, size}
use artemis.Lexer.Cursor.Bounds.{PointsInto}
use artemis.Lexer.Scan.{lex_token}
use artemis.Lexer.Scan.Bounds.{NextToken, lex_token-NextToken}
use artemis.Lexer.Stream.{Lexer, new, move_to, lex_next, next_token}

-- Nearest first: each token but the start of the file lies in the source, and begins where the one
-- before it ends, or behind that; only the first of the list may be the end of the file, and the
-- last is the start of the file.
abbrev pub IsChain : Token → List Token → Type 0
IsChain t [] = t ≡ new_sof_token
IsChain t (s ∷ r) =
    (1 ≤ t.location) × (s.location + s.length ≤ t.location) × (s.kind ≢ eof) × IsChain s r

-- `limit` is where the next token may begin.
abbrev pub NextFits : Token → Option Token → ℕ → Type 0
NextFits t none pos = t.location + t.length ≤ pos + 1
NextFits t (some n) pos =
    (1 ≤ n.location)
    × (t.location + t.length ≤ n.location)
    × (n.location + n.length ≤ pos + 1)
    × (t.kind ≢ eof)

pub record IsValid (l : Lexer) : Type 0 where
  pub within : l.byte_pos ≤ size l.source.body
  pub chain : IsChain l.token l.prev_tokens
  pub next_fits : NextFits l.token l.next l.byte_pos

-- The rounds that are left: none at the end of the file, else one for each byte not read, one to
-- reach the end, and one for a token that is lexed already and takes bytes.
abbrev pub next_weight : Option Token → ℕ
next_weight none = 0
next_weight (some t) = elim (same_kind t.kind eof) [ true ↦ 0 | false ↦ 1 ]

abbrev pub token_weight : Token → ℕ → ℕ
token_weight t n = elim (same_kind t.kind eof) [ true ↦ 0 | false ↦ n ]

abbrev pub measure : Lexer → ℕ
measure l = token_weight l.token (suc (size l.source.body - l.byte_pos + next_weight l.next))

pub new-IsValid : (s : Source) → IsValid (new s)
unfolding new
new-IsValid s = record { within = omega arith; chain = refl; next_fits = omega arith }

-- Tokens that the lexer may be at when it looks for the next one.
pub record Looking (l s : Lexer) : Type 0 where
  pub valid : IsValid s
  pub source_same : s.source ≡ l.source
  pub not_eof : s.token.kind ≢ eof
  pub lighter : measure s ≤ measure l

token_weight-ne_eof : (t : Token) (n : ℕ) → t.kind ≢ eof → token_weight t n ≡ n
token_weight-ne_eof t n h = ground (arith, ne→same_kind t.kind eof h)

pub token_weight-le : (t : Token) (n : ℕ) → token_weight t n ≤ n
token_weight-le t n = ground arith

next_weight-le : (t : Token) → next_weight (some t) ≤ 1
next_weight-le t = ground arith

next_weight-eof : (t : Token) → t.kind ≡ eof → next_weight (some t) ≡ 0
next_weight-eof t e = ground (arith, same_kind_refl eof)

next_weight-ne_eof : (t : Token) → t.kind ≢ eof → next_weight (some t) ≡ 1
next_weight-ne_eof t h = ground (arith, ne→same_kind t.kind eof h)

lex_next_weight :
    (src : Source) (start : ℕ) (t : Token) (pos : ℕ)
    → NextToken src start (t, pos)
    → size src.body - pos + next_weight (some t) ≤ size src.body - start
lex_next_weight src start t pos h = elim h.4 [
  | inl lt ↦ omega (arith, next_weight-le t)
  | inr e ↦ omega (arith, next_weight-eof t e.0)
]

lex_next-Looking :
    (l : Lexer) (t : Token) (pos : ℕ)
    → IsValid l
    → l.token.kind ≢ eof
    → l.next ≡ none
    → NextToken l.source l.byte_pos (t, pos)
    → Looking l (record l { next = some t; byte_pos = pos })
lex_next-Looking l t pos v ne e h = record {
  valid = record {
    within = omega arith;
    chain = v.chain;
    next_fits = (omega arith, omega (arith, rw e at v.next_fits), omega arith, ne);
  };
  source_same = refl;
  not_eof = ne;
  lighter =
      ground (arith, ne→same_kind l.token.kind eof ne, lex_next_weight l.source l.byte_pos t pos h);
}

-- The token found is the one that Next links to.
abbrev pub Found : Lexer → Token × Lexer → Type 0
Found l (t, s) = Looking l s × (s.next ≡ some t)

pub next_token-Found :
    (o : Option Token) (l : Lexer)
    → l.next ≡ o
    → IsValid l
    → l.token.kind ≢ eof
    → Ensures (Found l) (PointsInto l.source) (next_token o l)
unfolding next_token lex_next
next_token-Found none l e v ne =
    Ensures-bind (NextToken l.source l.byte_pos) (Found l) (PointsInto l.source)
      (lex_token l.source l.byte_pos) _ (lex_token-NextToken l.source l.byte_pos v.within)
      λ r h. (lex_next-Looking l r.0 r.1 v ne e h, refl)
next_token-Found (some t) l e v ne =
    (record { valid = v; source_same = refl; not_eof = ne; lighter = omega arith }, e)

-- Moving on to the token found keeps the invariant, and takes weight off.
pub move_to-IsValid : (l : Lexer) (t : Token) → IsValid l → l.next ≡ some t → IsValid (move_to t l)
move_to-IsValid l t v e =
    let fits = rw e at v.next_fits in
    record { within = v.within; chain = (fits.0, fits.1, fits.3, v.chain); next_fits = fits.2 }

pub move_to-measure :
    (l : Lexer) (t : Token)
    → l.token.kind ≢ eof
    → l.next ≡ some t
    → measure (move_to t l) < measure l
move_to-measure l t ne e = ground (arith, ne→same_kind l.token.kind eof ne)
