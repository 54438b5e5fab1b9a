-- ===== src/Parser/Values/Reads.antt =====
-- The value parser reads the lexemes of the value that it returns.
use artemis.Prelude.{
  ℕ, zero, suc, ◌<◌, ◌≡◌, ◌≢◌, refl, sym, Bool, true, false, arith, List, [], ◌∷◌, ◌++◌,
}
use artemis.Prelude.Outcome.{Ensures, Ensures-bind, Ensures-mono}
use artemis.Token.{
  Kind, Token, eof, dollar, colon, left_bracket, right_bracket, left_brace, right_brace, name, int,
  float, string, block_string,
}
use artemis.Token.Source.{Source}
use artemis.Lexer.Cursor.Bounds.{PointsInto}
use artemis.Lexer.Stream.{Lexer}
use artemis.Lexer.Stream.Chain.{measure}
use artemis.Ast.{
  Value, Values, ObjectFields, int_value, float_value, string_value, no_values, add_value,
  no_fields, add_field,
}
use artemis.Ast.Lexemes.{Lexeme, lexeme, mark, of_name, of_value, of_values, of_object_fields}
use artemis.Parser.Tokens.{Parser, ◌>>◌, pure, take_token, expect, parse_name, items_to}
use artemis.Parser.Tokens.Reads.{
  Ready, After-append, After-eq, Parsed, Parses, IsMark, take_token-Takes, expect-mark,
  parse_name-Parsed, unexpected-PointsInto,
}
use artemis.Parser.Tokens.Lists.{Spelling, items_to-After}
use artemis.Parser.Values.{
  parse_variable, name_to_value, to_list_value, to_object_value, OpenField, close_field,
  parse_list_value, parse_object_field, parse_object_value, value_switch, parse_value,
}

abbrev of_field : OpenField → List Lexeme
of_field (n, v) = of_name n ++ (mark colon ∷ of_value v)

values-Spelling : Spelling no_values add_value of_value of_values
values-Spelling = record { all-end = refl; all-add = λ v vs. refl }

fields-Spelling : Spelling no_fields close_field of_field of_object_fields
fields-Spelling = record { all-end = refl; all-add = λ (n, v) fs. refl }

pub colon-IsMark : IsMark colon
colon-IsMark = (λ e. cc, λ v. refl)

module _ (src : Source) where
  pub parse_variable-Parsed :
      (l : Lexer)
      → Ready src l
      → Ensures (Parsed src l (λ n. mark dollar ∷ of_name n)) (PointsInto src) (parse_variable l)
  unfolding parse_variable
  parse_variable-Parsed l r =
      Ensures-bind _ _ (PointsInto src) (expect dollar l) _
        (expect-mark src dollar l (λ e. cc, λ v. refl) r)
        λ x a.
          Ensures-mono _ _ (PointsInto src) (parse_name x.1)
            (λ y b. (After-append a.0 b.0, omega (arith, a.1, b.1)))
            (parse_name-Parsed src x.1 a.0.ready)

  module _ (n : ℕ) (p : Parser Value) (item : Parses src n of_value p) where
    parse_object_field-Parsed : Parses src n of_field (parse_object_field p)
    unfolding parse_object_field
    parse_object_field-Parsed l r h =
        Ensures-bind _ _ (PointsInto src) (parse_name l) _ (parse_name-Parsed src l r) λ x a.
          Ensures-bind _ _ (PointsInto src) (expect colon x.1) _
            (expect-mark src colon x.1 colon-IsMark a.0.ready)
            λ y b.
              Ensures-bind _ _ (PointsInto src) (p y.1) _
                (item y.1 b.0.ready (omega (arith, a.1, b.1)))
                λ z c. (After-append a.0 (After-append b.0 c.0), omega (arith, a.1, b.1, c.1))

    to_list_value-eq :
        (t : Token) (vs : Values)
        → mark left_bracket ∷ (of_values vs ++ (mark right_bracket ∷ []))
          ≡ of_value (to_list_value t vs)
    to_list_value-eq t no_values = refl
    to_list_value-eq t (add_value v vs) = refl

    to_object_value-eq :
        (t : Token) (fs : ObjectFields)
        → mark left_brace ∷ (of_object_fields fs ++ (mark right_brace ∷ []))
          ≡ of_value (to_object_value t fs)
    to_object_value-eq t no_fields = refl
    to_object_value-eq t (add_field m v fs) = refl

    parse_list_value-Parsed : Parses src (suc n) of_value (parse_list_value p n)
    unfolding parse_list_value
    parse_list_value-Parsed l r h =
        Ensures-bind _ _ (PointsInto src) (expect left_bracket l) _
          (expect-mark src left_bracket l (λ e. cc, λ v. refl) r)
          λ x a.
            Ensures-bind _ _ (PointsInto src) (items_to no_values add_value p right_bracket n x.1) _
              (items_to-After src no_values add_value of_value of_values values-Spelling p
                right_bracket n item (λ e. cc, λ v. refl) n x.1 a.0.ready (omega (arith, a.1))
                (omega (arith, a.1)))
              λ y b. (
                After-eq (to_list_value-eq x.0 y.0) (After-append a.0 b),
                omega (arith, a.1, b.lighter),
              )

    parse_object_value-Parsed : Parses src (suc n) of_value (parse_object_value p n)
    unfolding parse_object_value
    parse_object_value-Parsed l r h =
        Ensures-bind _ _ (PointsInto src) (expect left_brace l) _
          (expect-mark src left_brace l (λ e. cc, λ v. refl) r)
          λ x a.
            Ensures-bind _ _ (PointsInto src)
              (items_to no_fields close_field (parse_object_field p) right_brace n x.1) _
              (items_to-After src no_fields close_field of_field of_object_fields fields-Spelling
                (parse_object_field p) right_brace n parse_object_field-Parsed (λ e. cc, λ v. refl)
                n x.1 a.0.ready (omega (arith, a.1)) (omega (arith, a.1)))
              λ y b. (
                After-eq (to_object_value-eq x.0 y.0) (After-append a.0 b),
                omega (arith, a.1, b.lighter),
              )

    -- A value that is one token.
    token-Parsed :
        (l : Lexer) (v : Value)
        → of_value v ≡ lexeme l.token ∷ []
        → l.token.kind ≢ eof
        → Ready src l
        → Ensures (Parsed src l of_value) (PointsInto src) ((take_token >> pure v) l)
    token-Parsed l v e ne r =
        Ensures-bind _ _ (PointsInto src) (take_token l) _
          (take_token-Takes src l r.valid r.source_is ne) λ x a. (After-eq (sym e) a.1, a.2)

    name_to_value-eq : (t : Token) → of_value (name_to_value t) ≡ lexeme t ∷ []
    name_to_value-eq t = ground arith

    value_switch-Parsed :
        (is_const : Bool) (k : Kind) (l : Lexer)
        → l.token.kind ≡ k
        → Ready src l
        → measure l < suc n
        → Ensures (Parsed src l of_value) (PointsInto src) (value_switch is_const p n l.token k l)
    value_switch-Parsed false dollar l e r h =
        Ensures-bind _ _ (PointsInto src) (parse_variable l) _ (parse_variable-Parsed l r) λ x a. a
    value_switch-Parsed true dollar l e r h = unexpected-PointsInto src _ l r
    value_switch-Parsed is_const int l e r h =
        token-Parsed l (int_value l.token) refl (λ z. cc (e, z)) r
    value_switch-Parsed is_const float l e r h =
        token-Parsed l (float_value l.token) refl (λ z. cc (e, z)) r
    value_switch-Parsed is_const string l e r h =
        token-Parsed l (string_value l.token) refl (λ z. cc (e, z)) r
    value_switch-Parsed is_const block_string l e r h =
        token-Parsed l (string_value l.token) refl (λ z. cc (e, z)) r
    value_switch-Parsed is_const name l e r h =
        token-Parsed l (name_to_value l.token) (name_to_value-eq l.token) (λ z. cc (e, z)) r
    value_switch-Parsed is_const left_bracket l e r h = parse_list_value-Parsed l r h
    value_switch-Parsed is_const left_brace l e r h = parse_object_value-Parsed l r h
    value_switch-Parsed is_const _ l e r h = unexpected-PointsInto src _ l r

  pub parse_value-Parses :
      (n : ℕ) (is_const : Bool) → Parses src n of_value (parse_value n is_const)
  unfolding parse_value
  parse_value-Parses zero is_const l r h = elim h [ ]
  parse_value-Parses (suc n) is_const l r h =
      value_switch-Parsed n (parse_value n is_const) (parse_value-Parses n is_const) is_const
        l.token.kind l refl r h
