-- ===== src/Tests/ParserRuns.antt =====
-- Runs of graphql/parser.
use artemis.Prelude.{◌≢◌, codes, [], true}
use artemis.Prelude.Outcome.{Ensures}
use artemis.Token.Source.{Source}
use artemis.Lexer.Cursor.Bounds.{PointsInto}
use artemis.Ast.Lexemes.{of_document, of_type, of_value}
use artemis.Parser.Documents.{parse, parse_type_source, parse_value_source}
use artemis.Parser.Documents.Whole.{
  IsTextOf, parse-IsTextOf, parse_type_source-IsTextOf, parse_value_source-IsTextOf,
}
use artemis.Tests.LexerRuns.{document, query}

parse-IsTextOf_example :
    Ensures (λ d. (d ≢ []) × IsTextOf query (of_document d)) (PointsInto query) (parse true query)
parse-IsTextOf_example = parse-IsTextOf query true

abbrev list_type_text : Source
list_type_text = document (codes "[[Int!]]!")

parse_type_source-IsTextOf_example :
    Ensures
      (λ t. IsTextOf list_type_text (of_type t))
      (PointsInto list_type_text)
      (parse_type_source list_type_text)
parse_type_source-IsTextOf_example = parse_type_source-IsTextOf list_type_text

abbrev value_text : Source
value_text = document (codes "{a: [1, $b], c: \"d\"}")

parse_value_source-IsTextOf_example :
    Ensures
      (λ v. IsTextOf value_text (of_value v))
      (PointsInto value_text)
      (parse_value_source value_text)
parse_value_source-IsTextOf_example = parse_value_source-IsTextOf value_text
