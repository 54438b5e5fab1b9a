-- ===== src/Parser/Selections/Reads.antt =====
-- Selections: each parser reads the lexemes of its result.
use artemis.Prelude.{
  ℕ, zero, suc, ◌<◌, refl, sym, ap, subst, Bool, true, false, arith, List, [], ◌∷◌, ◌++◌,
  append_assoc, Bool-cases, inl, inr, codes, bytes_eq, not, ◌||◌, Option, some,
}
use artemis.Prelude.Outcome
use artemis.Prelude.Outcome.{Outcome, ok, Ensures, Ensures-bind, Ensures-mono}
use artemis.Token.{left_paren, left_brace, right_brace, spread, colon, at_sign, name, same_kind}
use artemis.Token.Source.{Source}
use artemis.Lexer.Cursor.Bounds.{PointsInto}
use artemis.Lexer.Stream.{Lexer}
use artemis.Lexer.Stream.Chain.{measure}
use artemis.Ast.{Name, no_name, SelectionSet, no_selections, add_selection}
use artemis.Ast.Lexemes.{
  Lexeme, mark, of_name, of_alias, of_arguments, of_directives, of_field_head, of_type_condition,
  of_selection, of_selection_set, of_selections,
}
use artemis.Parser.Tokens.{
  Parser, skip, choose, pure, expect, expect_keyword, parse_name, optional, present, items_until,
}
use artemis.Parser.Tokens.Reads.{
  Ready, After, After-append, After-eq, Parsed, Parses, IsMark, Skips, skip-Skips, expect-mark,
  parse_name-Parsed, present-Parsed, optional-After, expect_keyword-After,
}
use artemis.Parser.Tokens.Lists.{Spelling, Listed, items_until-Listed}
use artemis.Parser.Directives.{parse_arguments, parse_directives}
use artemis.Parser.Directives.Reads.{
  ClosesBy, Closing-mark, parse_arguments-Parses, parse_directives-Parses,
}
use artemis.Parser.Types.{parse_named_type}
use artemis.Parser.Selections.{
  parse_type_condition, parse_field_name, parse_field_head, parse_field, parse_fragment_spread,
  parse_inline_fragment, parse_fragment, parse_selection, selections_block, parse_selection_set,
}

selections-Spelling : Spelling no_selections add_selection of_selection of_selections
selections-Spelling = record { all-end = refl; all-add = λ s set. refl }

right_brace-IsMark : IsMark right_brace
right_brace-IsMark = (λ e. cc, λ v. refl)

module _ (src : Source) where
  pub parse_type_condition-Parsed :
      (l : Lexer)
      → Ready src l
      → Ensures
          (Parsed src l (λ (n : Name). of_type_condition (some n)))
          (PointsInto src)
          (parse_type_condition l)
  unfolding parse_type_condition parse_named_type
  parse_type_condition-Parsed l r =
      Ensures-bind _ _ (PointsInto src) (expect_keyword (codes "on") l) _
        (expect_keyword-After src (codes "on") l r)
        λ x a.
          Ensures-mono _ _ (PointsInto src) (parse_name x.1)
            (λ y b. (After-append a.0 b.0, omega (arith, a.1, b.1)))
            (parse_name-Parsed src x.1 a.0.ready)

  -- The lexemes of an alias and a name.
  abbrev of_names : Option Name × Name → List Lexeme
  of_names (alias, n) = of_alias alias ++ of_name n

  parse_field_name-Parsed :
      (l : Lexer)
      → Ready src l
      → Ensures (Parsed src l of_names) (PointsInto src) (parse_field_name l)
  unfolding parse_field_name
  parse_field_name-Parsed l r =
      Ensures-bind _ (Parsed src l of_names) (PointsInto src) (parse_name l) _
        (parse_name-Parsed src l r)
        λ x a.
          Ensures-bind (Skips src colon x.1) (Parsed src l of_names) (PointsInto src)
            (skip colon x.1) _ (skip-Skips src colon x.1 (λ e. cc, λ v. refl) a.0.ready) (go x a)
    where
      go :
          (x : Name × Lexer)
          → Parsed src l of_name x
          → (y : Bool × Lexer) → Skips src colon x.1 y
          → Ensures (Parsed src l of_names) (PointsInto src) (
              choose y.0
                (λ k. Outcome.◌>>=◌ (parse_name k) λ r. ok ((some x.0, r.0), r.1))
                (pure (no_name, x.0))
                y.1)
      go x a (true, k) h =
          Ensures-bind _ (Parsed src l of_names) (PointsInto src) (parse_name k) _
            (parse_name-Parsed src k h.0.ready)
            λ z c. (After-append (After-append a.0 h.0) c.0, omega (arith, a.1, h.1, c.1))
      go x a (false, k) h = subst (λ j. Parsed src l of_names ((no_name, x.0), j)) (sym h.0) a

  module _ (n : ℕ) where
    parse_field_head-Parses : Parses src n of_field_head (parse_field_head n)
    unfolding parse_field_head
    parse_field_head-Parses l r h =
        Ensures-bind _ (Parsed src l of_field_head) (PointsInto src) (parse_field_name l) _
          (parse_field_name-Parsed l r)
          λ x a.
            Ensures-bind _ (Parsed src l of_field_head) (PointsInto src)
              (optional left_paren [] (parse_arguments n false) x.1) _
              (optional-After src left_paren [] (parse_arguments n false) of_arguments n x.1 refl
                (parse_arguments-Parses src n false) a.0.ready (omega (arith, a.1)))
              λ y b.
                Ensures-bind _ (Parsed src l of_field_head) (PointsInto src)
                  (optional at_sign [] (parse_directives n false) y.1) _
                  (optional-After src at_sign [] (parse_directives n false) of_directives n y.1 refl
                    (parse_directives-Parses src n false) b.ready (omega (arith, a.1, b.lighter)))
                  λ z c. (
                    After-eq
                        (append_assoc (of_alias x.0.0) (of_name x.0.1)
                          (of_arguments y.0 ++ of_directives z.0))
                        (After-append a.0 (After-append b c)),
                    omega (arith, a.1, b.lighter, c.lighter),
                  )

    module _ (set : Parser SelectionSet) (inner : Parses src n of_selection_set set) where
      parse_field-Parses : Parses src n of_selection (parse_field set n)
      unfolding parse_field
      parse_field-Parses l r h =
          Ensures-bind _ (Parsed src l of_selection) (PointsInto src) (parse_field_head n l) _
            (parse_field_head-Parses l r h)
            λ x a.
              Ensures-bind _ (Parsed src l of_selection) (PointsInto src)
                (optional left_brace no_selections set x.1) _
                (optional-After src left_brace no_selections set of_selection_set n x.1 refl inner
                  a.0.ready (omega (arith, a.1)))
                λ y b. (After-append a.0 b, omega (arith, a.1, b.lighter))

      -- Behind the `...` at which `l` stood.
      module _ (l m : Lexer) (a : After src l (mark spread ∷ []) m) (h : measure l < n) where
        parse_fragment_spread-Parsed :
            Ensures (Parsed src l of_selection) (PointsInto src) (parse_fragment_spread n m)
        unfolding parse_fragment_spread
        parse_fragment_spread-Parsed =
            Ensures-bind _ (Parsed src l of_selection) (PointsInto src) (parse_name m) _
              (parse_name-Parsed src m a.ready)
              λ x b.
                Ensures-bind _ (Parsed src l of_selection) (PointsInto src)
                  (optional at_sign [] (parse_directives n false) x.1) _
                  (optional-After src at_sign [] (parse_directives n false) of_directives n x.1 refl
                    (parse_directives-Parses src n false) b.0.ready (omega (arith, a.lighter, b.1)))
                  λ y c.
                    (After-append a (After-append b.0 c), omega (arith, a.lighter, b.1, c.lighter))

        parse_inline_fragment-Parsed :
            Ensures (Parsed src l of_selection) (PointsInto src) (parse_inline_fragment set n m)
        unfolding parse_inline_fragment
        parse_inline_fragment-Parsed =
            Ensures-bind _ (Parsed src l of_selection) (PointsInto src)
              (optional name no_name (present parse_type_condition) m) _
              (optional-After src name no_name (present parse_type_condition) of_type_condition n m
                refl
                (λ k r _.
                  present-Parsed src parse_type_condition of_type_condition k
                    (parse_type_condition-Parsed k r))
                a.ready (omega (arith, a.lighter)))
              λ x b.
                Ensures-bind _ (Parsed src l of_selection) (PointsInto src)
                  (optional at_sign [] (parse_directives n false) x.1) _
                  (optional-After src at_sign [] (parse_directives n false) of_directives n x.1 refl
                    (parse_directives-Parses src n false) b.ready
                    (omega (arith, a.lighter, b.lighter)))
                  λ y c.
                    Ensures-bind _ (Parsed src l of_selection) (PointsInto src) (set y.1) _
                      (inner y.1 c.ready (omega (arith, a.lighter, b.lighter, c.lighter)))
                      λ z d. (
                        After-append a (After-append b (After-append c d.0)),
                        omega (arith, a.lighter, b.lighter, c.lighter, d.1),
                      )

        parse_fragment-Parsed :
            Ensures (Parsed src l of_selection) (PointsInto src) (parse_fragment set n m)
        unfolding parse_fragment
        parse_fragment-Parsed =
            elim (Bool-cases
              (not (same_kind m.token.kind name) || bytes_eq m.token.value (codes "on"))) [
                | inl e ↦ rw e parse_inline_fragment-Parsed
                | inr e ↦ rw e parse_fragment_spread-Parsed
              ]

      parse_selection-Parses : Parses src n of_selection (parse_selection set n)
      unfolding parse_selection
      parse_selection-Parses l r h =
          Ensures-bind (Skips src spread l) (Parsed src l of_selection) (PointsInto src)
            (skip spread l) _ (skip-Skips src spread l (λ e. cc, λ v. refl) r) go
        where
          go :
              (y : Bool × Lexer)
              → Skips src spread l y
              → Ensures
                  (Parsed src l of_selection)
                  (PointsInto src)
                  (choose y.0 (parse_fragment set n) (parse_field set n) y.1)
          go (true, m) g = parse_fragment-Parsed l m g.0 h
          go (false, m) g =
              subst
                (λ k. Ensures (Parsed src l of_selection) (PointsInto src) (parse_field set n k))
                (sym g.0) (parse_field-Parses l r h)

      Listed-selections :
          (l m : Lexer) (r : SelectionSet × Lexer)
          → After src l (mark left_brace ∷ []) m
          → Listed src add_selection of_selections (ClosesBy src right_brace) m r
          → Parsed src l of_selection_set r
      Listed-selections l m r a (x, xs, k, e, b, c) = (
        After-eq (ap of_selection_set (sym e)) (After-append a (After-append b c)),
        omega (arith, a.lighter, b.lighter, c.lighter),
      )

      selections_block-Parses :
          Parses src (suc n) of_selection_set (selections_block (parse_selection set n) n)
      unfolding selections_block
      selections_block-Parses l r h =
          Ensures-bind _ (Parsed src l of_selection_set) (PointsInto src) (expect left_brace l) _
            (expect-mark src left_brace l (λ e. cc, λ v. refl) r)
            λ x a.
              Ensures-mono (Listed src add_selection of_selections (ClosesBy src right_brace) x.1)
                (Parsed src l of_selection_set) (PointsInto src)
                (items_until no_selections add_selection (parse_selection set n) right_brace n x.1)
                (λ y b. Listed-selections l x.1 y a.0 b)
                (items_until-Listed src no_selections add_selection of_selection of_selections
                  selections-Spelling (parse_selection set n) right_brace n parse_selection-Parses
                  (ClosesBy src right_brace) (Closing-mark src right_brace right_brace-IsMark) n x.1
                  a.0.ready (omega (arith, a.1)) (omega (arith, a.1)))

  pub parse_selection_set-Parses : (n : ℕ) → Parses src n of_selection_set (parse_selection_set n)
  unfolding parse_selection_set
  parse_selection_set-Parses zero l r h = elim h [ ]
  parse_selection_set-Parses (suc n) l r h =
      selections_block-Parses n (parse_selection_set n) (parse_selection_set-Parses n) l r h
