-- ===== src/Parser/Tokens/Lists.antt =====
-- The loops that read the items of a list: what they read, and that their fuel suffices.
use artemis.Prelude.{
  ℕ, zero, suc, ◌<◌, ◌≡◌, refl, sym, ap, subst, ◌∙◌, Bool, true, false, arith, List, [], ◌∷◌, ◌++◌,
  append_assoc, append-nil,
}
use artemis.Prelude.Outcome
use artemis.Prelude.Outcome.{Outcome, ok, Ensures, Ensures-bind, Ensures-mono}
use artemis.Token.{Kind}
use artemis.Token.Source.{Source}
use artemis.Lexer.Cursor.Bounds.{PointsInto}
use artemis.Lexer.Stream.{Lexer}
use artemis.Lexer.Stream.Chain.{measure}
use artemis.Ast.Lexemes.{Lexeme, mark}
use artemis.Parser.Tokens.{Parser, skip, items_until, items_to}
use artemis.Parser.Tokens.Reads.{
  Ready, After, After-append, After-eq, Parsed, Parses, IsMark, Skips, skip-Skips,
}

-- The lexemes of a list: those of its items in a row.
pub record Spelling {A L : Type 0} (end : L) (add : A → L → L) (u : A → List Lexeme)
    (all : L → List Lexeme) : Type 0 where
  pub all-end : all end ≡ []
  pub all-add : (a : A) (rest : L) → all (add a rest) ≡ u a ++ all rest

-- What a search for the closing token returns: `Closes` if it was there.
abbrev pub Closing : (Lexer → Lexer → Type 0) → Lexer → Bool × Lexer → Type 0
Closing Closes l (true, m) = Closes l m
Closing Closes l (false, m) = m ≡ l

-- A list that is not empty was read up to the closing token.
abbrev pub Listed :
    {A L : Type 0}
    → Source
    → (A → L → L)
    → (L → List Lexeme)
    → (Lexer → Lexer → Type 0)
    → Lexer
    → L × Lexer
    → Type 0
Listed {A} {L} src add all Closes l r =
    (a : A) × (rest : L) × (m : Lexer) × (r.0 ≡ add a rest)
    × After src l (all (add a rest)) m
    × Closes m r.1

module _ {A L : Type 0} (src : Source) (end : L) (add : A → L → L) (u : A → List Lexeme)
    (all : L → List Lexeme) (spelt : Spelling end add u all) (p : Parser A) (close : Kind)
    (bound : ℕ) (item : Parses src bound u p) where
  module _ (Closes : Lexer → Lexer → Type 0)
      (closing : (l : Lexer)
        → Ready src l
        → Ensures (Closing Closes l) (PointsInto src) (skip close l)) where
    last_item :
        (l m n : Lexer) (a : A)
        → After src l (u a) m
        → Closes m n
        → Listed src add all Closes l (add a end, n)
    last_item l m n a h c = (
      a,
      end,
      m,
      refl,
      After-eq (sym (spelt.all-add a end ∙ ap (λ x. u a ++ x) spelt.all-end ∙ append-nil (u a))) h,
      c,
    )

    one_more :
        (l m : Lexer) (a : A) (r : L × Lexer)
        → After src l (u a) m
        → Listed src add all Closes m r
        → Listed src add all Closes l (add a r.0, r.1)
    one_more l m a r h (b, rest, k, e, g, c) = (
      a,
      r.0,
      k,
      refl,
      After-eq (sym (spelt.all-add a r.0)) (After-append h (After-eq (ap all (sym e)) g)),
      c,
    )

    pub items_until-Listed :
        (n : ℕ) (l : Lexer)
        → Ready src l
        → measure l < n
        → measure l < bound
        → Ensures (Listed src add all Closes l) (PointsInto src) (items_until end add p close n l)
    unfolding items_until
    items_until-Listed zero l r h b = elim h [ ]
    items_until-Listed (suc n) l r h b =
        Ensures-bind (Parsed src l u) (Listed src add all Closes l) (PointsInto src) (p l) _
          (item l r b)
          λ x f.
            Ensures-bind (Closing Closes x.1) (Listed src add all Closes l) (PointsInto src)
              (skip close x.1) _ (closing x.1 f.0.ready)
              λ y g.
                go x.0 x.1 f.0 y g
                  (items_until-Listed n x.1 f.0.ready (omega (arith, f.1)) (omega (arith, f.1)))
      where
        go :
            (a : A) (m : Lexer)
            → After src l (u a) m
            → (y : Bool × Lexer) → Closing Closes m y
            → Ensures
                (Listed src add all Closes m)
                (PointsInto src)
                (items_until end add p close n m)
            → Ensures (Listed src add all Closes l) (PointsInto src) (elim y.0 [
              | true ↦ ok (add a end, y.1)
              | false ↦
                  Outcome.◌>>=◌
                    (items_until end add p close n y.1)
                    λ (rest, l₃). ok (add a rest, l₃)
            ])
        go a m f (true, k) g ih = last_item l m k a f g
        go a m f (false, k) g ih =
            subst
              (λ j.
                Ensures (Listed src add all Closes l) (PointsInto src) (
                  Outcome.◌>>=◌ (items_until end add p close n j)
                    λ (rest, l₃). ok (add a rest, l₃)))
              (sym g)
              (Ensures-bind (Listed src add all Closes m) (Listed src add all Closes l)
                (PointsInto src) (items_until end add p close n m) _ ih λ z d. one_more l m a z f d)

module _ {A L : Type 0} (src : Source) (end : L) (add : A → L → L) (u : A → List Lexeme)
    (all : L → List Lexeme) (spelt : Spelling end add u all) (p : Parser A) (close : Kind)
    (bound : ℕ) (item : Parses src bound u p) (m : IsMark close) where
  -- The items and the closing token.
  abbrev Closed : Lexer → L × Lexer → Type 0
  Closed l r = After src l (all r.0 ++ (mark close ∷ [])) r.1

  no_item : (l k : Lexer) → After src l (mark close ∷ []) k → Closed l (end, k)
  no_item l k h = After-eq (ap (λ xs. xs ++ (mark close ∷ [])) (sym spelt.all-end)) h

  another :
      (l k : Lexer) (a : A) (r : L × Lexer)
      → After src l (u a) k
      → Closed k r
      → Closed l (add a r.0, r.1)
  another l k a r h g =
      After-eq
        (sym (append_assoc (u a) (all r.0) (mark close ∷ []))
          ∙ ap (λ xs. xs ++ (mark close ∷ [])) (sym (spelt.all-add a r.0)))
        (After-append h g)

  pub items_to-After :
      (n : ℕ) (l : Lexer)
      → Ready src l
      → measure l < n
      → measure l < bound
      → Ensures
          (λ r. After src l (all r.0 ++ (mark close ∷ [])) r.1)
          (PointsInto src)
          (items_to end add p close n l)
  unfolding items_to
  items_to-After zero l r h b = elim h [ ]
  items_to-After (suc n) l r h b =
      Ensures-bind (Skips src close l) (Closed l) (PointsInto src) (skip close l) _
        (skip-Skips src close l m r)
        λ y g. go y g λ k f w. items_to-After n k f (omega (arith, w)) (omega (arith, w))
    where
      go :
          (y : Bool × Lexer)
          → Skips src close l y
          → ((k : Lexer)
              → Ready src k
              → measure k < measure l
              → Ensures (Closed k) (PointsInto src) (items_to end add p close n k))
          → Ensures (Closed l) (PointsInto src) (elim y.0 [
            | true ↦ ok (end, y.1)
            | false ↦ Outcome.◌>>=◌ (p y.1) λ (a, l₂).
                Outcome.◌>>=◌ (items_to end add p close n l₂) λ (rest, l₃). ok (add a rest, l₃)
          ])
      go (true, k) g ih = no_item l k g.0
      go (false, k) g ih =
          subst
            (λ j. Ensures (Closed l) (PointsInto src) (
              Outcome.◌>>=◌ (p j) λ (a, l₂).
                Outcome.◌>>=◌ (items_to end add p close n l₂) λ (rest, l₃). ok (add a rest, l₃)))
            (sym g.0)
            (Ensures-bind (Parsed src l u) (Closed l) (PointsInto src) (p l) _ (item l r b) λ x f.
              Ensures-bind (Closed x.1) (Closed l) (PointsInto src) (items_to end add p close n x.1)
                _ (ih x.1 f.0.ready f.1) λ z d. another l x.1 x.0 z f.0 d)
