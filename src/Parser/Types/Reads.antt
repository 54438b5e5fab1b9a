-- ===== src/Parser/Types/Reads.antt =====
-- The type parser reads the lexemes of the type that it returns, and its type assertions hold.
use artemis.Prelude.{
  ℕ, zero, suc, ◌+◌, ◌<◌, ◌≡◌, refl, sym, ap, subst, ◌∙◌, Bool, true, false, arith, List, [], ◌∷◌,
  ◌++◌, append_assoc, append-nil,
}
use artemis.Prelude.Outcome
use artemis.Prelude.Outcome.{Outcome, ok, Ensures, Ensures-bind, Ensures-mono}
use artemis.Token.{Kind, left_bracket, right_bracket, bang}
use artemis.Token.Source.{Source}
use artemis.Lexer.Cursor.Bounds.{PointsInto}
use artemis.Lexer.Stream.{Lexer}
use artemis.Lexer.Stream.Chain.{measure}
use artemis.Ast.{Name, AstType, named_type, list_type, non_null_type}
use artemis.Ast.Lexemes.{Lexeme, mark, of_name, of_type}
use artemis.Parser.Tokens.{skip, choose, pure, expect, parse_name}
use artemis.Parser.Tokens.Reads.{
  Ready, After, After-nothing, After-append, After-eq, Parsed, Parses, IsMark, Skips, skip-Skips,
  expect-mark, parse_name-Parsed,
}
use artemis.Parser.Types.{make_non_null, open_lists, non_null_suffix, close_lists, parse_type}

-- `n` brackets.
abbrev brackets : Kind → ℕ → List Lexeme
brackets k zero = []
brackets k (suc n) = mark k ∷ brackets k n

brackets-cons :
    (k : Kind) (n : ℕ) (xs : List Lexeme)
    → brackets k n ++ (mark k ∷ xs) ≡ mark k ∷ (brackets k n ++ xs)
brackets-cons k zero xs = refl
brackets-cons k (suc n) xs = ap (λ ys. mark k ∷ ys) (brackets-cons k n xs)

-- Closing one list more.
closed_once :
    (level : ℕ) (t x z : AstType) (bs xs : List Lexeme)
    → of_type x ≡ of_type t ++ bs
    → of_type z ≡ brackets left_bracket level ++ (of_type (list_type x) ++ xs)
    → of_type z
      ≡ brackets left_bracket (suc level) ++ (of_type t ++ (bs ++ (mark right_bracket ∷ xs)))
closed_once level t x z bs xs e f =
    f
    ∙ brackets-cons left_bracket level ((of_type x ++ (mark right_bracket ∷ [])) ++ xs)
    ∙ simp (e, append_assoc)

-- The lexemes of a whole type, by the three parts that were read.
whole_type :
    (j k : ℕ) (n : Name) (y z : AstType) (bs cs : List Lexeme)
    → j ≡ 0 + k
    → of_type y ≡ brackets left_bracket j ++ (of_name n ++ bs)
    → of_type z ≡ of_type y ++ cs
    → ((brackets left_bracket k ++ of_name n) ++ bs) ++ cs ≡ of_type z
whole_type j k n y z bs cs e f g = let same : j ≡ k = omega arith in simp (g, f, same, append_assoc)

-- The types that `ast.NullableType` admits.
abbrev IsNullable : AstType → Type 0
IsNullable (named_type n) = Unit
IsNullable (list_type t) = Unit
IsNullable (non_null_type t) = ⊥

bang-IsMark : IsMark bang
bang-IsMark = (λ e. cc, λ v. refl)

left_bracket-IsMark : IsMark left_bracket
left_bracket-IsMark = (λ e. cc, λ v. refl)

right_bracket-IsMark : IsMark right_bracket
right_bracket-IsMark = (λ e. cc, λ v. refl)

module _ (src : Source) where
  -- The brackets opened and the name behind them.
  abbrev Opened : ℕ → Lexer → (ℕ × Name) × Lexer → Type 0
  Opened level l r =
      (k : ℕ) × (r.0.0 ≡ level + k)
      × After src l (brackets left_bracket k ++ of_name r.0.1) r.1
      × (measure r.1 < measure l)

  Opened-next :
      (level : ℕ) (l m : Lexer) (r : (ℕ × Name) × Lexer)
      → After src l (mark left_bracket ∷ []) m
      → Opened (suc level) m r
      → Opened level l r
  Opened-next level l m r a (k, e, b, w) =
      (suc k, omega arith, After-append a b, omega (arith, a.lighter))

  open_lists-Opened :
      (n level : ℕ) (l : Lexer)
      → Ready src l
      → measure l < n
      → Ensures (Opened level l) (PointsInto src) (open_lists n level l)
  unfolding open_lists
  open_lists-Opened zero level l r h = elim h [ ]
  open_lists-Opened (suc n) level l r h =
      Ensures-bind (Skips src left_bracket l) (Opened level l) (PointsInto src)
        (skip left_bracket l) _ (skip-Skips src left_bracket l left_bracket-IsMark r)
        λ y g. go y g λ k f w. open_lists-Opened n (suc level) k f (omega (arith, w))
    where
      go :
          (y : Bool × Lexer)
          → Skips src left_bracket l y
          → ((k : Lexer)
              → Ready src k
              → measure k < measure l
              → Ensures (Opened (suc level) k) (PointsInto src) (open_lists n (suc level) k))
          → Ensures (Opened level l) (PointsInto src) (elim y.0 [
            | true ↦ open_lists n (suc level) y.1
            | false ↦ Outcome.◌>>=◌ (parse_name y.1) λ (x, l₂). ok ((level, x), l₂)
          ])
      go (true, k) g ih =
          Ensures-mono (Opened (suc level) k) (Opened level l) (PointsInto src)
            (open_lists n (suc level) k) (λ z d. Opened-next level l k z g.0 d) (ih k g.0.ready g.1)
      go (false, k) g ih =
          subst
            (λ j.
              Ensures (Opened level l) (PointsInto src)
                (Outcome.◌>>=◌ (parse_name j) λ (x, l₂). ok ((level, x), l₂)))
            (sym g.0)
            (Ensures-bind (Parsed src l of_name) (Opened level l) (PointsInto src) (parse_name l) _
              (parse_name-Parsed src l r) λ x a. (0, omega arith, a.0, a.1))

  -- A nullable type with the `!` behind it, if there is one.
  abbrev Suffixed : AstType → Lexer → AstType × Lexer → Type 0
  Suffixed t l r = (xs : List Lexeme) × (of_type r.0 ≡ of_type t ++ xs) × After src l xs r.1

  make_non_null-Suffixed :
      (t : AstType) (l m : Lexer)
      → IsNullable t
      → After src l (mark bang ∷ []) m
      → Ensures (Suffixed t l) (PointsInto src) (make_non_null t m)
  unfolding make_non_null
  make_non_null-Suffixed (named_type n) l m i a = (mark bang ∷ [], refl, a)
  make_non_null-Suffixed (list_type t) l m i a = (mark bang ∷ [], refl, a)
  make_non_null-Suffixed (non_null_type t) l m i a = i

  non_null_suffix-Suffixed :
      (t : AstType) (l : Lexer)
      → IsNullable t
      → Ready src l
      → Ensures (Suffixed t l) (PointsInto src) (non_null_suffix t l)
  unfolding non_null_suffix
  non_null_suffix-Suffixed t l i r =
      Ensures-bind (Skips src bang l) (Suffixed t l) (PointsInto src) (skip bang l) _
        (skip-Skips src bang l bang-IsMark r) go
    where
      go :
          (y : Bool × Lexer)
          → Skips src bang l y
          → Ensures (Suffixed t l) (PointsInto src) (choose y.0 (make_non_null t) (pure t) y.1)
      go (true, m) g = make_non_null-Suffixed t l m i g.0
      go (false, m) g = (
        [],
        sym (append-nil (of_type t)),
        subst (λ k. After src l [] k) (sym g.0) (After-nothing r),
      )

  -- What closes `level` lists around a type whose lexemes were read already.
  abbrev ClosedLists : ℕ → AstType → Lexer → AstType × Lexer → Type 0
  ClosedLists level t l r =
      IsNullable r.0
      × ((xs : List Lexeme) × (of_type r.0 ≡ brackets left_bracket level ++ (of_type t ++ xs))
          × After src l xs r.1)

  close_lists-ClosedLists :
      (level : ℕ) (t : AstType) (l : Lexer)
      → IsNullable t
      → Ready src l
      → Ensures (ClosedLists level t l) (PointsInto src) (close_lists level t l)
  unfolding close_lists
  close_lists-ClosedLists zero t l i r = (i, ([], sym (append-nil (of_type t)), After-nothing r))
  close_lists-ClosedLists (suc level) t l i r =
      Ensures-bind (Suffixed t l) (ClosedLists (suc level) t l) (PointsInto src)
        (non_null_suffix t l) _ (non_null_suffix-Suffixed t l i r)
        λ x a.
          Ensures-bind _ (ClosedLists (suc level) t l) (PointsInto src) (expect right_bracket x.1) _
            (expect-mark src right_bracket x.1 right_bracket-IsMark a.2.ready)
            λ y b.
              Ensures-mono (ClosedLists level (list_type x.0) y.1) (ClosedLists (suc level) t l)
                (PointsInto src) (close_lists level (list_type x.0) y.1)
                (λ z c. (
                  c.0,
                  (
                    a.0 ++ (mark right_bracket ∷ c.1.0),
                    closed_once level t x.0 z.0 a.0 c.1.0 a.1 c.1.1,
                    After-append a.2 (After-append b.0 c.1.2),
                  ),
                ))
                (close_lists-ClosedLists level (list_type x.0) y.1 tt b.0.ready)

  pub parse_type-Parses : (n : ℕ) → Parses src n of_type (parse_type n)
  unfolding parse_type
  parse_type-Parses n l r h =
      Ensures-bind (Opened 0 l) (Parsed src l of_type) (PointsInto src) (open_lists n 0 l) _
        (open_lists-Opened n 0 l r h)
        λ x a.
          Ensures-bind (ClosedLists x.0.0 (named_type x.0.1) x.1) (Parsed src l of_type)
            (PointsInto src) (close_lists x.0.0 (named_type x.0.1) x.1) _
            (close_lists-ClosedLists x.0.0 (named_type x.0.1) x.1 tt a.2.ready)
            λ y b.
              Ensures-mono (Suffixed y.0 y.1) (Parsed src l of_type) (PointsInto src)
                (non_null_suffix y.0 y.1)
                (λ z c. (
                  After-eq (whole_type x.0.0 a.0 x.0.1 y.0 z.0 b.1.0 c.0 a.1 b.1.1 c.1)
                      (After-append (After-append a.2 b.1.2) c.2),
                  omega (arith, a.3, b.1.2.lighter, c.2.lighter),
                ))
                (non_null_suffix-Suffixed y.0 y.1 b.0 b.1.2.ready)
