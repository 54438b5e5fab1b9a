-- ===== src/Tests/LexerRuns.antt =====
-- Runs of graphql/lexer and graphql/token.
use artemis.Prelude.{◌+◌, arith, codes, Bytes}
use artemis.Prelude.Outcome.{Ensures}
use artemis.Token.Source.{Source, size}
use artemis.Lexer.Cursor.Bounds.{PointsInto}
use artemis.Lexer.Scan.{lex_token}
use artemis.Lexer.Scan.Bounds.{NextToken, lex_token-NextToken}
use artemis.Lexer.Stream.{new, advance}
use artemis.Lexer.Stream.Chain.{new-IsValid}
use artemis.Lexer.Stream.Drain.{Drained, drain, drain-Drained}
use artemis.Lexer.Stream.Progress.{Advances, advance-Advances}

abbrev pub document : Bytes → Source
document b = record { body = b; name = codes "GraphQL request"; line_offset = 0; column_offset = 0 }

abbrev pub query : Source
query = document (codes "# all\n{ hero(id: -1.5e3) { ...f } }")

lex_token-NextToken_example : Ensures (NextToken query 7) (PointsInto query) (lex_token query 7)
lex_token-NextToken_example = lex_token-NextToken query 7 (omega arith)

advance-Advances_example : Ensures (Advances (new query)) (PointsInto query) (advance (new query))
unfolding new
advance-Advances_example = advance-Advances (new query) (new-IsValid query)

drain-Drained_example :
    Ensures (Drained (new query)) (PointsInto query) (drain (size query.body + 3) (new query))
drain-Drained_example = drain-Drained query
