-- ===== src/Parser/Directives/Reads.antt =====
-- Arguments, directives and variable definitions: each parser reads the lexemes of its result.
use artemis.Prelude.{
  ℕ, zero, suc, ◌<◌, refl, sym, ap, Bool, true, false, arith, List, [], ◌∷◌, append-nil, none,
  Bool-cases, inl, inr,
}
use artemis.Prelude.Outcome
use artemis.Prelude.Outcome.{Outcome, ok, Ensures, Ensures-bind, Ensures-mono}
use artemis.Token.{Kind, left_paren, right_paren, colon, equals, at_sign, same_kind}
use artemis.Token.Source.{Source}
use artemis.Lexer.Cursor.Bounds.{PointsInto}
use artemis.Lexer.Stream.{Lexer}
use artemis.Lexer.Stream.Chain.{measure}
use artemis.Ast.Lexemes.{
  Lexeme, mark, of_argument, of_arguments, of_all, of_directive, of_directives, of_default,
  of_variable_definition, of_variable_definitions, of_group,
}
use artemis.Parser.Tokens.{Parser, skip, expect, parse_name, optional, items_until}
use artemis.Parser.Tokens.Reads.{
  Ready, After, After-append, After-eq, Parsed, Parses, IsMark, Skips, skip-Skips, expect-mark,
  parse_name-Parsed, optional-After,
}
use artemis.Parser.Tokens.Lists.{Spelling, Closing, Listed, items_until-Listed}
use artemis.Parser.Values.{parse_value, parse_variable}
use artemis.Parser.Values.Reads.{colon-IsMark, parse_variable-Parsed, parse_value-Parses}
use artemis.Parser.Types.{parse_type}
use artemis.Parser.Types.Reads.{parse_type-Parses}
use artemis.Parser.Directives.{
  parse_argument, parse_arguments, parse_directive, directives_loop, parse_directives,
  parse_default_value, parse_variable_definition, parse_variable_definitions,
}

abbrev pub all-Spelling : {A : Type 0} (u : A → List Lexeme) → Spelling [] (◌∷◌) u (of_all u)
all-Spelling u = record { all-end = refl; all-add = λ x xs. refl }

left_paren-IsMark : IsMark left_paren
left_paren-IsMark = (λ e. cc, λ v. refl)

right_paren-IsMark : IsMark right_paren
right_paren-IsMark = (λ e. cc, λ v. refl)

at_sign-IsMark : IsMark at_sign
at_sign-IsMark = (λ e. cc, λ v. refl)

module _ (src : Source) where
  -- The search for a closing punctuator, as the list lemmas want it.
  abbrev pub ClosesBy : Kind → Lexer → Lexer → Type 0
  ClosesBy k l m = After src l (mark k ∷ []) m

  pub Closing-mark :
      (k : Kind)
      → IsMark k
      → (l : Lexer) → Ready src l
      → Ensures (Closing (ClosesBy k) l) (PointsInto src) (skip k l)
  Closing-mark k m l r =
      Ensures-mono (Skips src k l) (Closing (ClosesBy k) l) (PointsInto src) (skip k l) go
        (skip-Skips src k l m r)
    where
      go : (y : Bool × Lexer) → Skips src k l y → Closing (ClosesBy k) l y
      go (true, x) h = h.0
      go (false, x) h = h.0

  -- Items in parentheses.
  module _ {A : Type 0} (n : ℕ) (u : A → List Lexeme) (p : Parser A) (item : Parses src n u p) where
    Listed-group :
        (l m : Lexer) (r : List A × Lexer)
        → After src l (mark left_paren ∷ []) m
        → Listed src (◌∷◌) (of_all u) (ClosesBy right_paren) m r
        → Parsed src l (of_group left_paren right_paren u) r
    Listed-group l m r a (x, xs, k, e, b, c) =
        let after = After-append a (After-append b c) in
        (
          After-eq (ap (of_group left_paren right_paren u) (sym e)) after,
          omega (arith, a.lighter, b.lighter, c.lighter),
        )

    pub group-Parsed :
        (l : Lexer)
        → Ready src l
        → measure l < suc n
        → Ensures
            (Parsed src l (of_group left_paren right_paren u))
            (PointsInto src)
            (Outcome.◌>>=◌ (expect left_paren l) λ r. items_until [] (◌∷◌) p right_paren n r.1)
    group-Parsed l r h =
        Ensures-bind _ (Parsed src l (of_group left_paren right_paren u)) (PointsInto src)
          (expect left_paren l) _ (expect-mark src left_paren l left_paren-IsMark r)
          λ x a.
            Ensures-mono (Listed src (◌∷◌) (of_all u) (ClosesBy right_paren) x.1)
              (Parsed src l (of_group left_paren right_paren u)) (PointsInto src)
              (items_until [] (◌∷◌) p right_paren n x.1) (λ y b. Listed-group l x.1 y a.0 b)
              (items_until-Listed src [] (◌∷◌) u (of_all u) (all-Spelling u) p right_paren n item
                (ClosesBy right_paren) (Closing-mark right_paren right_paren-IsMark) n x.1 a.0.ready
                (omega (arith, a.1)) (omega (arith, a.1)))

  module _ (n : ℕ) (is_const : Bool) where
    parse_argument-Parses : Parses src n of_argument (parse_argument n is_const)
    unfolding parse_argument
    parse_argument-Parses l r h =
        Ensures-bind _ _ (PointsInto src) (parse_name l) _ (parse_name-Parsed src l r) λ x a.
          Ensures-bind _ _ (PointsInto src) (expect colon x.1) _
            (expect-mark src colon x.1 colon-IsMark a.0.ready)
            λ y b.
              Ensures-bind _ _ (PointsInto src) (parse_value n is_const y.1) _
                (parse_value-Parses src n is_const y.1 b.0.ready (omega (arith, a.1, b.1)))
                λ z c. (After-append a.0 (After-append b.0 c.0), omega (arith, a.1, b.1, c.1))

    pub parse_arguments-Parses : Parses src n of_arguments (parse_arguments n is_const)
    unfolding parse_arguments
    parse_arguments-Parses l r h =
        group-Parsed n of_argument (parse_argument n is_const) parse_argument-Parses l r
          (omega arith)

    parse_directive-Parses : Parses src n of_directive (parse_directive n is_const)
    unfolding parse_directive
    parse_directive-Parses l r h =
        Ensures-bind _ _ (PointsInto src) (expect at_sign l) _
          (expect-mark src at_sign l at_sign-IsMark r)
          λ x a.
            Ensures-bind _ _ (PointsInto src) (parse_name x.1) _
              (parse_name-Parsed src x.1 a.0.ready)
              λ y b.
                Ensures-bind _ _ (PointsInto src)
                  (optional left_paren [] (parse_arguments n is_const) y.1) _
                  (optional-After src left_paren [] (parse_arguments n is_const) of_arguments n y.1
                    refl parse_arguments-Parses b.0.ready (omega (arith, a.1, b.1)))
                  λ z c. (After-append a.0 (After-append b.0 c), omega (arith, a.1, b.1, c.lighter))

    directives_loop-Parsed :
        (m : ℕ) (l : Lexer)
        → Ready src l
        → measure l < m
        → measure l < n
        → Ensures
            (Parsed src l of_directives)
            (PointsInto src)
            (directives_loop (parse_directive n is_const) m l)
    unfolding directives_loop
    directives_loop-Parsed zero l r h b = elim h [ ]
    directives_loop-Parsed (suc m) l r h b =
        Ensures-bind _ (Parsed src l of_directives) (PointsInto src) (parse_directive n is_const l)
          _ (parse_directive-Parses l r b)
          λ x a. elim (Bool-cases (same_kind x.1.token.kind at_sign)) [
            | inl e ↦ rw e (
                Ensures-bind (Parsed src x.1 of_directives) (Parsed src l of_directives)
                  (PointsInto src) (directives_loop (parse_directive n is_const) m x.1) _
                  (directives_loop-Parsed m x.1 a.0.ready (omega (arith, a.1)) (omega (arith, a.1)))
                  λ y c. (After-append a.0 c.0, omega (arith, a.1, c.1)))
            | inr e ↦ rw e (After-eq (sym (append-nil (of_directive x.0))) a.0, a.1)
          ]

    pub parse_directives-Parses : Parses src n of_directives (parse_directives n is_const)
    unfolding parse_directives
    parse_directives-Parses l r h = directives_loop-Parsed n l r h h

  module _ (n : ℕ) where
    parse_default_value-Parses : Parses src n of_default (parse_default_value n)
    unfolding parse_default_value
    parse_default_value-Parses l r h =
        Ensures-bind _ _ (PointsInto src) (expect equals l) _
          (expect-mark src equals l (λ e. cc, λ v. refl) r)
          λ x a.
            Ensures-bind _ _ (PointsInto src) (parse_value n true x.1) _
              (parse_value-Parses src n true x.1 a.0.ready (omega (arith, a.1)))
              λ y b. (After-append a.0 b.0, omega (arith, a.1, b.1))

    parse_variable_definition-Parses :
        Parses src n of_variable_definition (parse_variable_definition n)
    unfolding parse_variable_definition
    parse_variable_definition-Parses l r h =
        Ensures-bind _ _ (PointsInto src) (parse_variable l) _ (parse_variable-Parsed src l r)
          λ v a.
            Ensures-bind _ _ (PointsInto src) (expect colon v.1) _
              (expect-mark src colon v.1 colon-IsMark a.0.ready)
              λ w b.
                Ensures-bind _ _ (PointsInto src) (parse_type n w.1) _
                  (parse_type-Parses src n w.1 b.0.ready (omega (arith, a.1, b.1)))
                  λ t c.
                    Ensures-bind _ _ (PointsInto src)
                      (optional equals none (parse_default_value n) t.1) _
                      (optional-After src equals none (parse_default_value n) of_default n t.1 refl
                        parse_default_value-Parses c.0.ready (omega (arith, a.1, b.1, c.1)))
                      λ d e.
                        Ensures-bind _ _ (PointsInto src)
                          (optional at_sign [] (parse_directives n true) d.1) _
                          (optional-After src at_sign [] (parse_directives n true) of_directives n
                            d.1 refl (parse_directives-Parses n true) e.ready
                            (omega (arith, a.1, b.1, c.1, e.lighter)))
                          λ s f. (
                            After-append a.0
                                (After-append b.0 (After-append c.0 (After-append e f))),
                            omega (arith, a.1, b.1, c.1, e.lighter, f.lighter),
                          )

    pub parse_variable_definitions-Parses :
        Parses src n of_variable_definitions (parse_variable_definitions n)
    unfolding parse_variable_definitions
    parse_variable_definitions-Parses l r h =
        group-Parsed n of_variable_definition (parse_variable_definition n)
          parse_variable_definition-Parses l r (omega arith)
