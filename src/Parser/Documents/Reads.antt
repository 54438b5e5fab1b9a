-- ===== src/Parser/Documents/Reads.antt =====
-- Definitions and documents: the parser reads the lexemes of its result, from the start of the file
-- to the end.
use artemis.Prelude.{
  ℕ, ◌<◌, ◌≡◌, refl, sym, ap, ◌∙◌, Bool, true, false, arith, [], ◌∷◌, Bool-cases, inl, inr, codes,
  bytes_eq, bytes_eq→eq,
}
use artemis.Prelude.Outcome.{Ensures, Ensures-bind, expected_fragment_name}
use artemis.Token.{left_paren, left_brace, at_sign, name, same_kind}
use artemis.Token.Source.{Source}
use artemis.Lexer.Cursor.Bounds.{PointsInto}
use artemis.Lexer.Stream.{Lexer}
use artemis.Lexer.Stream.Chain.{measure}
use artemis.Ast.{Name, no_name}
use artemis.Ast.Lexemes.{
  lexeme, spelling, of_name, of_optional_name, of_directives, of_variable_definitions, of_operation,
  of_fragment, of_definition,
}
use artemis.Parser.Tokens.{choose, pure, expect, is_keyword, parse_name, optional, present}
use artemis.Parser.Tokens.Reads.{
  Ready, After, After-nothing, After-append, After-eq, Parsed, Parses, expect-Takes,
  parse_name-Parsed, present-Parsed, optional-After, fail_at-PointsInto, unexpected-PointsInto,
}
use artemis.Parser.Directives.{parse_directives, parse_variable_definitions}
use artemis.Parser.Directives.Reads.{parse_directives-Parses, parse_variable_definitions-Parses}
use artemis.Parser.Selections.{parse_type_condition, parse_selection_set}
use artemis.Parser.Selections.Reads.{parse_type_condition-Parsed, parse_selection_set-Parses}
use artemis.Parser.Documents.{
  parse_operation_definition, parse_query_shorthand, parse_fragment_name, parse_fragment_definition,
  is_operation_type, parse_named_definition, parse_definition,
}

module _ (src : Source) (n : ℕ) where
  parse_operation_definition-Parses : Parses src n of_operation (parse_operation_definition n)
  unfolding parse_operation_definition
  parse_operation_definition-Parses l r h =
      Ensures-bind _ (Parsed src l of_operation) (PointsInto src) (expect name l) _
        (expect-Takes src name l (λ e. cc) r)
        λ t a.
          Ensures-bind _ (Parsed src l of_operation) (PointsInto src)
            (optional name no_name (present parse_name) t.1) _
            (optional-After src name no_name (present parse_name) of_optional_name n t.1 refl
              (λ k q _.
                present-Parsed src parse_name of_optional_name k (parse_name-Parsed src k q))
              a.0.1.ready (omega (arith, a.0.2)))
            λ x b.
              Ensures-bind _ (Parsed src l of_operation) (PointsInto src)
                (optional left_paren [] (parse_variable_definitions n) x.1) _
                (optional-After src left_paren [] (parse_variable_definitions n)
                  of_variable_definitions n x.1 refl (parse_variable_definitions-Parses src n)
                  b.ready (omega (arith, a.0.2, b.lighter)))
                λ y c.
                  Ensures-bind _ (Parsed src l of_operation) (PointsInto src)
                    (optional at_sign [] (parse_directives n false) y.1) _
                    (optional-After src at_sign [] (parse_directives n false) of_directives n y.1
                      refl (parse_directives-Parses src n false) c.ready
                      (omega (arith, a.0.2, b.lighter, c.lighter)))
                    λ z d.
                      Ensures-bind _ (Parsed src l of_operation) (PointsInto src)
                        (parse_selection_set n z.1) _
                        (parse_selection_set-Parses src n z.1 d.ready
                          (omega (arith, a.0.2, b.lighter, c.lighter, d.lighter)))
                        λ w e. (
                          After-append (After-eq (ap (λ x. lexeme x ∷ []) (sym a.0.0)) a.0.1)
                              (After-append b (After-append c (After-append d e.0))),
                          omega (arith, a.0.2, b.lighter, c.lighter, d.lighter, e.1),
                        )

  parse_query_shorthand-Parses : Parses src n of_operation (parse_query_shorthand n)
  unfolding parse_query_shorthand
  parse_query_shorthand-Parses l r h =
      Ensures-bind _ (Parsed src l of_operation) (PointsInto src) (parse_selection_set n l) _
        (parse_selection_set-Parses src n l r h) λ x a. a

  parse_fragment_name-Parsed :
      (l : Lexer)
      → Ready src l
      → Ensures (Parsed src l of_name) (PointsInto src) (parse_fragment_name l)
  unfolding parse_fragment_name
  parse_fragment_name-Parsed l r = elim (Bool-cases (is_keyword (codes "on") l.token)) [
    | inl e ↦
        rw e (fail_at-PointsInto {A = Name} src (Parsed src l of_name) l expected_fragment_name r)
    | inr e ↦ rw e (parse_name-Parsed src l r)
  ]

  optional_variables :
      (fragment_variables : Bool) (l : Lexer)
      → Ready src l
      → measure l < n
      → Ensures
          (λ r. After src l (of_variable_definitions r.0) r.1)
          (PointsInto src)
          (choose fragment_variables
            (optional left_paren [] (parse_variable_definitions n))
            (pure [])
            l)
  optional_variables true l r h =
      optional-After src left_paren [] (parse_variable_definitions n) of_variable_definitions n l
        refl (parse_variable_definitions-Parses src n) r h
  optional_variables false l r h = After-nothing r

  parse_fragment_definition-Parsed :
      (fragment_variables : Bool) (l : Lexer)
      → Ready src l
      → measure l < n
      → l.token.value ≡ codes "fragment"
      → Ensures
          (Parsed src l of_fragment)
          (PointsInto src)
          (parse_fragment_definition fragment_variables n l)
  unfolding parse_fragment_definition
  parse_fragment_definition-Parsed fv l r h v =
      Ensures-bind _ (Parsed src l of_fragment) (PointsInto src) (expect name l) _
        (expect-Takes src name l (λ e. cc) r)
        λ t a.
          Ensures-bind _ (Parsed src l of_fragment) (PointsInto src) (parse_fragment_name t.1) _
            (parse_fragment_name-Parsed t.1 a.0.1.ready)
            λ x b.
              Ensures-bind _ (Parsed src l of_fragment) (PointsInto src)
                (choose fv (optional left_paren [] (parse_variable_definitions n)) (pure []) x.1) _
                (optional_variables fv x.1 b.0.ready (omega (arith, a.0.2, b.1)))
                λ y c.
                  Ensures-bind _ (Parsed src l of_fragment) (PointsInto src)
                    (parse_type_condition y.1) _ (parse_type_condition-Parsed src y.1 c.ready)
                    λ z d.
                      Ensures-bind _ (Parsed src l of_fragment) (PointsInto src)
                        (optional at_sign [] (parse_directives n false) z.1) _
                        (optional-After src at_sign [] (parse_directives n false) of_directives n
                          z.1 refl (parse_directives-Parses src n false) d.0.ready
                          (omega (arith, a.0.2, b.1, c.lighter, d.1)))
                        λ s e.
                          Ensures-bind _ (Parsed src l of_fragment) (PointsInto src)
                            (parse_selection_set n s.1) _
                            (parse_selection_set-Parses src n s.1 e.ready
                              (omega (arith, a.0.2, b.1, c.lighter, d.1, e.lighter)))
                            λ w f. (
                              After-append (After-eq (ap (λ x. x ∷ []) (keyword a.1)) a.0.1) (
                                  After-append b.0
                                    (After-append c (After-append d.0 (After-append e f.0)))),
                              omega (arith, a.0.2, b.1, c.lighter, d.1, e.lighter, f.1),
                            )
    where
      keyword : l.token.kind ≡ name → lexeme l.token ≡ (name, codes "fragment")
      keyword k = ap (λ j. (j, spelling j l.token.value)) k ∙ ap (λ w. (name, w)) v

  parse_named_definition-Parses :
      (fragment_variables : Bool)
      → Parses src n of_definition (parse_named_definition fragment_variables n)
  unfolding parse_named_definition
  parse_named_definition-Parses fv l r h = elim (Bool-cases (is_operation_type l.token.value)) [
    | inl e ↦ rw e (
        Ensures-bind _ (Parsed src l of_definition) (PointsInto src)
          (parse_operation_definition n l) _ (parse_operation_definition-Parses l r h) λ x a. a)
    | inr e ↦ rw e (elim (Bool-cases (bytes_eq l.token.value (codes "fragment"))) [
      | inl f ↦ rw f (
          Ensures-bind _ (Parsed src l of_definition) (PointsInto src)
            (parse_fragment_definition fv n l) _
            (parse_fragment_definition-Parsed fv l r h (bytes_eq→eq _ _ f)) λ x a. a)
      | inr f ↦ rw f (unexpected-PointsInto src (Parsed src l of_definition) l r)
    ])
  ]

  pub parse_definition-Parses :
      (fragment_variables : Bool)
      → Parses src n of_definition (parse_definition fragment_variables n)
  unfolding parse_definition
  parse_definition-Parses fv l r h = elim (Bool-cases (same_kind l.token.kind name)) [
    | inl e ↦ rw e (parse_named_definition-Parses fv l r h)
    | inr e ↦ rw e (elim (Bool-cases (same_kind l.token.kind left_brace)) [
      | inl f ↦ rw f (
          Ensures-bind _ (Parsed src l of_definition) (PointsInto src) (parse_query_shorthand n l) _
            (parse_query_shorthand-Parses l r h) λ x a. a)
      | inr f ↦ rw f (unexpected-PointsInto src (Parsed src l of_definition) l r)
    ])
  ]
