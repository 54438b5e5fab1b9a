-- ===== src/Parser/Documents/Whole.antt =====
-- The entry points: parsing always returns, and what it accepts is the text of its result.
use artemis.Prelude.{
  ◌<◌, ◌≡◌, ◌≢◌, refl, sym, subst, Bool, false, arith, List, [], ◌∷◌, Bool-cases, inl, inr,
}
use artemis.Prelude.Outcome.{Ensures, Ensures-bind, Ensures-mono, expected_token}
use artemis.Token.{Token, sof, eof, same_kind}
use artemis.Token.Kinds.{same_kind→eq}
use artemis.Token.Source.{Source}
use artemis.Lexer.Cursor.Bounds.{PointsInto}
use artemis.Lexer.Stream.{Lexer, new, advance}
use artemis.Lexer.Stream.Chain.{measure, new-IsValid}
use artemis.Lexer.Stream.Progress.{Advances, advance-Advances}
use artemis.Ast.{Document}
use artemis.Ast.Lexemes.{Lexeme, lexeme, mark, of_value, of_type, of_definition, of_document}
use artemis.Parser.Tokens.{Parser, skip, take_token, expect, items_until}
use artemis.Parser.Tokens.Reads.{
  Reads, Reads-append, fail_at-PointsInto, Ready, After, Parsed, Parses, Takes, take_token-Takes,
}
use artemis.Parser.Tokens.Lists.{Closing, Listed, items_until-Listed}
use artemis.Parser.Values.{parse_value}
use artemis.Parser.Values.Reads.{parse_value-Parses}
use artemis.Parser.Types.{parse_type}
use artemis.Parser.Types.Reads.{parse_type-Parses}
use artemis.Parser.Directives.Reads.{all-Spelling}
use artemis.Parser.Documents.{
  parse_definition, parse_document, fuel_for, result, parse, whole, parse_value_source,
  parse_type_source,
}
use artemis.Parser.Documents.Reads.{parse_definition-Parses}

module _ (src : Source) where
  -- At the start of a source its first token is taken.
  start-Takes : Ensures (Takes src (new src)) (PointsInto src) (expect sof (new src))
  unfolding new expect same_kind
  start-Takes = take_token-Takes src (new src) (new-IsValid src) refl (λ e. cc)

  -- The search for the end of the file.
  abbrev AtEnd : Lexer → Lexer → Type 0
  AtEnd l m = l.token.kind ≡ eof

  take_token_returns :
      (l : Lexer) → Ready src l → Ensures (λ _. Unit {0}) (PointsInto src) (take_token l)
  unfolding take_token
  take_token_returns l r =
      Ensures-bind (Advances l) (λ _. Unit {0}) (PointsInto src) (advance l) _
        (subst (λ s. Ensures (Advances l) (PointsInto s) (advance l)) r.source_is
          (advance-Advances l r.valid))
        λ x a. tt

  skip_eof-Closing :
      (l : Lexer) → Ready src l → Ensures (Closing AtEnd l) (PointsInto src) (skip eof l)
  unfolding skip
  skip_eof-Closing l r = elim (Bool-cases (same_kind l.token.kind eof)) [
    | inl e ↦ rw e (
        Ensures-bind (λ _. Unit {0}) (Closing AtEnd l) (PointsInto src) (take_token l) _
          (take_token_returns l r) λ x a. same_kind→eq l.token.kind eof e)
    | inr e ↦ rw e refl
  ]

-- From the start of the file to its end, these lexemes and no others are the tokens of a source,
-- comments left out.
abbrev pub IsTextOf : Source → List Lexeme → Type 0
IsTextOf src xs = (m : Lexer) × Reads (new src) (mark sof ∷ xs) m × (m.token.kind ≡ eof)

measure-new : (src : Source) → measure (new src) < fuel_for src
unfolding new same_kind
measure-new src = omega arith

module _ (src : Source) where
  document_text :
      (m : Lexer) (r : Document × Lexer)
      → After src (new src) (mark sof ∷ []) m
      → Listed src (◌∷◌) of_document (AtEnd src) m r
      → (r.0 ≢ []) × IsTextOf src (of_document r.0)
  document_text m r a (d, ds, k, e, b, c) = (
    λ z. cc (e, z),
    (
      k,
      subst (λ x. Reads (new src) (mark sof ∷ of_document x) k) (sym e)
          (Reads-append a.reads b.reads),
      c,
    ),
  )

  -- The first token is spelled as the start of the file.
  start_mark :
      (m : Lexer)
      → After src (new src) (lexeme (new src).token ∷ []) m
      → After src (new src) (mark sof ∷ []) m
  unfolding new
  start_mark m a = a

  abbrev Accepted : Document → Type 0
  Accepted d = (d ≢ []) × IsTextOf src (of_document d)

  parse_document-Accepted :
      (fragment_variables : Bool)
      → Ensures
          (λ r. Accepted r.0)
          (PointsInto src)
          (parse_document fragment_variables (fuel_for src) (new src))
  unfolding parse_document
  parse_document-Accepted fv =
      Ensures-bind (Takes src (new src)) (λ r. Accepted r.0) (PointsInto src) (expect sof (new src))
        _ (start-Takes src)
        λ t a.
          Ensures-mono (Listed src (◌∷◌) of_document (AtEnd src) t.1) (λ r. Accepted r.0)
            (PointsInto src)
            (items_until [] (◌∷◌) (parse_definition fv (fuel_for src)) eof (fuel_for src) t.1)
            (λ y b. document_text t.1 y (start_mark t.1 a.1) b)
            (items_until-Listed src [] (◌∷◌) of_definition of_document (all-Spelling of_definition)
              (parse_definition fv (fuel_for src)) eof (fuel_for src)
              (parse_definition-Parses src (fuel_for src) fv) (AtEnd src) (skip_eof-Closing src)
              (fuel_for src) t.1 a.1.ready (omega (arith, a.2, measure-new src))
              (omega (arith, a.2, measure-new src)))

  -- Parse returns on every source, for either setting of its option: a document with a definition
  -- at least, whose text is that of the source, or a syntax error located in the source. It never
  -- panics and never runs out of fuel.
  pub parse-IsTextOf :
      (fragment_variables : Bool)
      → Ensures
          (λ d. (d ≢ []) × IsTextOf src (of_document d))
          (PointsInto src)
          (parse fragment_variables src)
  unfolding parse
  parse-IsTextOf fv =
      Ensures-bind (λ r. Accepted r.0) Accepted (PointsInto src)
        (parse_document fv (fuel_for src) (new src)) _ (parse_document-Accepted fv) λ r a. a

  -- The end of the file behind a whole node.
  expect_end :
      (l : Lexer) → Ready src l → Ensures (λ _. l.token.kind ≡ eof) (PointsInto src) (expect eof l)
  unfolding expect
  expect_end l r = elim (Bool-cases (same_kind l.token.kind eof)) [
    | inl e ↦ rw e (
        Ensures-mono (λ _. Unit {0}) (λ _. l.token.kind ≡ eof) (PointsInto src) (take_token l)
          (λ _ _. same_kind→eq l.token.kind eof e) (take_token_returns src l r))
    | inr e ↦ rw e (
        fail_at-PointsInto {A = Token} src (λ _. l.token.kind ≡ eof) l
          (expected_token eof l.token.kind l.token.value) r)
  ]

  module _ {A : Type 0} (u : A → List Lexeme) (p : Parser A)
      (parses : Parses src (fuel_for src) u p) where
    pub whole-IsTextOf :
        Ensures (λ a. IsTextOf src (u a)) (PointsInto src) (result (whole p (new src)))
    whole-IsTextOf =
        Ensures-bind (λ r. IsTextOf src (u r.0)) (λ a. IsTextOf src (u a)) (PointsInto src)
          (whole p (new src)) _
          (Ensures-bind (Takes src (new src)) (λ r. IsTextOf src (u r.0)) (PointsInto src)
            (expect sof (new src)) _ (start-Takes src)
            λ t a.
              Ensures-bind (Parsed src t.1 u) (λ r. IsTextOf src (u r.0)) (PointsInto src) (p t.1) _
                (parses t.1 a.1.ready (omega (arith, a.2, measure-new src)))
                λ x b.
                  Ensures-bind (λ _. x.1.token.kind ≡ eof) (λ r. IsTextOf src (u r.0))
                    (PointsInto src) (expect eof x.1) _ (expect_end x.1 b.0.ready)
                    λ y c. (x.1, Reads-append (start_mark t.1 a.1).reads b.0.reads, c))
          λ r a. a

  -- ParseType returns on every source: a type whose text is that of the source, or a syntax error
  -- located in the source; its type assertion never panics.
  pub parse_type_source-IsTextOf :
      Ensures (λ t. IsTextOf src (of_type t)) (PointsInto src) (parse_type_source src)
  unfolding parse_type_source
  parse_type_source-IsTextOf =
      whole-IsTextOf of_type (parse_type (fuel_for src)) (parse_type-Parses src (fuel_for src))

  -- ParseValue returns on every source: a value whose text is that of the source, or a syntax error
  -- located in the source.
  pub parse_value_source-IsTextOf :
      Ensures (λ v. IsTextOf src (of_value v)) (PointsInto src) (parse_value_source src)
  unfolding parse_value_source
  parse_value_source-IsTextOf =
      whole-IsTextOf of_value (parse_value (fuel_for src) false)
        (parse_value-Parses src (fuel_for src) false)
