-- ===== src/Lexer/Stream.antt =====
-- lexer.go: the Lexer, New, Advance and Lookahead. Tokens are linked by Prev and Next. The chain of
-- Prev links from the current token is the list `prev_tokens`, nearest first. Next is set for the
-- current token alone, before the lexer moves on to it: that is `next`.
pub mod Chain
pub mod Progress
pub mod Drain
use artemis.Prelude.{
  ℕ, suc, Bool, true, false, ◌==◌, if◌then◌else◌, Option, some, none, List, [], ◌∷◌, Bytes,
}
use artemis.Prelude.Outcome.{Outcome, ok, ◌>>=◌}
use artemis.Prelude.Loop.{LoopStep, continue, stop, iterate}
use artemis.Token.{Kind, eof, comment, Token, same_kind, new_sof_token}
use artemis.Token.Source.{Source, size}
use artemis.Lexer.Scan.{lex_token}

pub record Lexer : Type 0 where
  pub source : Source
  pub last_token : Token
  pub token : Token
  pub prev_tokens : List Token
  pub next : Option Token
  pub byte_pos : ℕ

unfoldable pub new : Source → Lexer
unfolding new_sof_token
new source = record {
  source = source;
  last_token = new_sof_token;
  token = new_sof_token;
  prev_tokens = [];
  next = none;
  byte_pos = 0;
}

-- `lexer.token = tok` for the token that Next of the current one links to.
abbrev pub move_to : Token → Lexer → Lexer
move_to t l = record l { token = t; prev_tokens = l.token ∷ l.prev_tokens; next = none }

unfoldable pub lex_next : Lexer → Outcome (Token × Lexer)
lex_next l = do
  (t, pos) ← lex_token l.source l.byte_pos
  ok (t, record l { next = some t; byte_pos = pos })

-- Next of the current token, which is lexed if that was not done yet.
unfoldable pub next_token : Option Token → Lexer → Outcome (Token × Lexer)
next_token none l = lex_next l
next_token (some t) l = ok (t, l)

-- A comment becomes the current token and the search goes on.
unfoldable pub skip_comment : Token × Lexer → LoopStep Lexer (Token × Lexer)
unfolding same_kind
skip_comment (t, l) = if same_kind t.kind comment then continue (move_to t l) else stop (t, l)

-- One round of the loop of `Lookahead`.
unfoldable pub lookahead_body : Lexer → Outcome (LoopStep Lexer (Token × Lexer))
lookahead_body l = do found ← next_token l.next l; ok (skip_comment found)

-- A round takes a token, and a token that is not the end takes a byte.
unfoldable pub lookahead : Lexer → Outcome (Token × Lexer)
unfolding same_kind
lookahead l =
    if same_kind l.token.kind eof
    then ok (l.token, l)
    else iterate (suc (suc (suc (size l.source.body)))) lookahead_body l

-- `lexer.lastToken, lexer.token = lexer.token, nextToken`. At the end of the file the next token is
-- the current one.
unfoldable pub step_to : Token × Lexer → Token × Lexer
unfolding same_kind
step_to (t, l) =
    if same_kind l.token.kind eof
    then (t, record l { last_token = l.token })
    else (t, record (move_to t l) { last_token = l.token })

unfoldable pub advance : Lexer → Outcome (Token × Lexer)
unfolding step_to
advance l = do found ← lookahead l; ok (step_to found)
