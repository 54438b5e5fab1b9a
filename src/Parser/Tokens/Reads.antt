-- ===== src/Parser/Tokens/Reads.antt =====
-- What the token-level parsers read: the lexemes taken, by steps of the lexer.
use artemis.Prelude.{
  ℕ, ◌+◌, ◌≤◌, ◌<◌, ◌≡◌, ◌≢◌, refl, sym, ap, subst, ◌∙◌, Bool, true, false, arith, inl, inr,
  Bool-cases, Option, some, List, [], ◌∷◌, ◌++◌, length, length-append, Bytes, bytes_eq→eq,
  Option-cases,
}
use artemis.Prelude.Outcome
use artemis.Prelude.Outcome.{
  Outcome, ok, err, panic, out_of_fuel, SyntaxError, unexpected_token, expected_token,
  expected_keyword, Message, Ensures, Ensures-bind, Ensures-mono,
}
use artemis.Token.{Kind, name, eof, Token, same_kind}
use artemis.Token.Kinds.{same_kind→eq, same_kind→ne}
use artemis.Token.Source.{Source, size}
use artemis.Lexer.Cursor.Bounds.{PointsInto}
use artemis.Lexer.Stream.{Lexer, advance}
use artemis.Lexer.Stream.Chain.{IsValid, measure}
use artemis.Lexer.Stream.Progress.{Advances, advance-Advances}
use artemis.Ast.Lexemes.{Lexeme, lexeme, spelling, mark, of_name}
use artemis.Parser.Tokens.{
  Parser, fail_at, unexpected, take_token, choose, pure, skip, is_keyword, skip_keyword,
  expect_keyword, expect, parse_name, optional, present,
}

-- From `l` the lexer advances through the tokens of these lexemes to `m`.
pub data Reads : Lexer → List Lexeme → Lexer → Type 0 where
  nothing : {l m : Lexer} → l ≡ m → Reads l [] m
  token :
      {l m n : Lexer} {x : Lexeme} {t : Token} {xs : List Lexeme}
      → x ≡ lexeme l.token
      → advance l ≡ ok (t, m)
      → Reads m xs n
      → Reads l (x ∷ xs) n

pub Reads-append :
    {l m n : Lexer} {xs ys : List Lexeme} → Reads l xs m → Reads m ys n → Reads l (xs ++ ys) n
Reads-append {n = n} {ys = ys} (nothing e) q = subst (λ k. Reads k ys n) (sym e) q
Reads-append (token e a p) q = token e a (Reads-append p q)

-- The lexer stands at a token of the source.
pub record Ready (src : Source) (l : Lexer) : Type 0 where
  pub valid : IsValid l
  pub source_is : l.source ≡ src
  pub located : 1 ≤ l.token.location

-- From `l` these lexemes were read, and the lexer is ready at `m`.
pub record After (src : Source) (l : Lexer) (xs : List Lexeme) (m : Lexer) : Type 0 where
  pub ready : Ready src m
  pub lighter : measure m + length xs ≤ measure l
  pub reads : Reads l xs m

module _ {src : Source} where
  pub After-nothing : {l : Lexer} → Ready src l → After src l [] l
  After-nothing r = record { ready = r; lighter = omega arith; reads = nothing refl }

  pub After-append :
      {l m n : Lexer} {xs ys : List Lexeme}
      → After src l xs m
      → After src m ys n
      → After src l (xs ++ ys) n
  After-append {xs = xs} {ys = ys} p q = record {
    ready = q.ready;
    lighter = omega (arith, p.lighter, q.lighter, length-append xs ys);
    reads = Reads-append p.reads q.reads;
  }

  pub After-eq : {l m : Lexer} {xs ys : List Lexeme} → xs ≡ ys → After src l xs m → After src l ys m
  After-eq {l} {m} e p = subst (λ zs. After src l zs m) e p

-- The token at which a lexer is ready has a location in the source.
ready_bound : (l : Lexer) → IsValid l → l.token.location ≤ size l.source.body + 1
ready_bound l v = elim (Option-cases l.next) [
  | inl e ↦ omega (arith, rw e at v.next_fits, v.within)
  | inr (t, e) ↦ omega (arith, rw e at v.next_fits, v.within)
]

module _ {ℓ} {A : Type ℓ} (src : Source) where
  pub fail_at-PointsInto :
      (P : A × Lexer → Type 0) (l : Lexer) (m : Message)
      → Ready src l
      → Ensures P (PointsInto src) (fail_at l.token m l)
  unfolding fail_at
  fail_at-PointsInto P l m r =
      subst (λ s. (1 ≤ l.token.location) × (l.token.location ≤ size s.body + 1)) r.source_is
        (r.located, ready_bound l r.valid)

  pub unexpected-PointsInto :
      (P : A × Lexer → Type 0) (l : Lexer) → Ready src l → Ensures P (PointsInto src) (unexpected l)
  unfolding unexpected
  unexpected-PointsInto P l r =
      fail_at-PointsInto P l (unexpected_token l.token.kind l.token.value) r

-- A parser reads the lexemes `u` of its result, and at least one token.
abbrev pub Parsed {ℓ} : {A : Type ℓ} → Source → Lexer → (A → List Lexeme) → A × Lexer → Type 0
Parsed src l u r = After src l (u r.0) r.1 × (measure r.1 < measure l)

abbrev pub Parses {ℓ} : {A : Type ℓ} → Source → ℕ → (A → List Lexeme) → Parser A → Type 0
Parses src n u p =
    (l : Lexer) → Ready src l → measure l < n → Ensures (Parsed src l u) (PointsInto src) (p l)

module _ (src : Source) where
  -- Taking the current token, which is not the end of the file.
  abbrev pub Takes : Lexer → Token × Lexer → Type 0
  Takes l r = (r.0 ≡ l.token) × After src l (lexeme l.token ∷ []) r.1 × (measure r.1 < measure l)

  advanced-Takes :
      (l m : Lexer) (t : Token)
      → l.source ≡ src
      → l.token.kind ≢ eof
      → advance l ≡ ok (t, m)
      → Advances l (t, m)
      → Takes l (l.token, m)
  advanced-Takes l m t s ne e a =
      let near = a.nearer ne in
      (
        refl,
        record {
          ready = record {
            valid = a.valid;
            source_is = a.source_same ∙ s;
            located = rw a.stands_at near.2;
          };
          lighter = omega (arith, near.0);
          reads = token refl e (nothing refl);
        },
        near.0,
      )

  taken :
      (l : Lexer) (o : Outcome (Token × Lexer))
      → l.source ≡ src
      → l.token.kind ≢ eof
      → advance l ≡ o
      → Ensures (Advances l) (PointsInto l.source) o
      → Ensures (Takes l) (PointsInto src) (Outcome.◌>>=◌ o λ r. ok (l.token, r.1))
  taken l (ok (t, m)) s ne e a = advanced-Takes l m t s ne e a
  taken l (err x) s ne e h = subst (λ z. PointsInto z x) s h
  taken l panic s ne e h = h
  taken l out_of_fuel s ne e h = h

  pub take_token-Takes :
      (l : Lexer)
      → IsValid l
      → l.source ≡ src
      → l.token.kind ≢ eof
      → Ensures (Takes l) (PointsInto src) (take_token l)
  unfolding take_token
  take_token-Takes l v s ne = taken l (advance l) s ne refl (advance-Advances l v)

-- A punctuator is spelled by its kind alone.
abbrev pub IsMark : Kind → Type 0
IsMark k = (k ≢ eof) × ((v : Bytes) → spelling k v ≡ [])

lexeme-mark : (t : Token) (k : Kind) → IsMark k → t.kind ≡ k → lexeme t ≡ mark k
lexeme-mark t k m e = ap (λ j. (j, spelling j t.value)) e ∙ ap (λ v. (k, v)) (m.1 t.value)

module _ (src : Source) where
  -- What `skip` returns: whether it has read the punctuator.
  abbrev pub Skips : Kind → Lexer → Bool × Lexer → Type 0
  Skips k l (true, m) = After src l (mark k ∷ []) m × (measure m < measure l)
  Skips k l (false, m) = (m ≡ l) × (l.token.kind ≢ k)

  Takes-mark :
      (l : Lexer) (k : Kind) (r : Token × Lexer)
      → IsMark k
      → l.token.kind ≡ k
      → Takes src l r
      → After src l (mark k ∷ []) r.1 × (measure r.1 < measure l)
  Takes-mark l k r m e t = (After-eq (ap (λ x. x ∷ []) (lexeme-mark l.token k m e)) t.1, t.2)

  pub skip-Skips :
      (k : Kind) (l : Lexer)
      → IsMark k
      → Ready src l
      → Ensures (Skips k l) (PointsInto src) (skip k l)
  unfolding skip
  skip-Skips k l m r = elim (Bool-cases (same_kind l.token.kind k)) [
    | inl e ↦
        rw e
          let q = same_kind→eq l.token.kind k e in
            (Ensures-bind (Takes src l) (Skips k l) (PointsInto src) (take_token l) _
              (take_token-Takes src l r.valid r.source_is (λ z. m.0 (sym q ∙ z)))
              λ t h. Takes-mark l k t m q h)
    | inr e ↦ rw e (refl, same_kind→ne l.token.kind k e)
  ]

  pub expect-Takes :
      (k : Kind) (l : Lexer)
      → k ≢ eof
      → Ready src l
      → Ensures (λ r. Takes src l r × (l.token.kind ≡ k)) (PointsInto src) (expect k l)
  unfolding expect
  expect-Takes k l m r = elim (Bool-cases (same_kind l.token.kind k)) [
    | inl e ↦
        rw e
          let q = same_kind→eq l.token.kind k e in
            (Ensures-mono (Takes src l) _ (PointsInto src) (take_token l) (λ t h. (h, q))
              (take_token-Takes src l r.valid r.source_is (λ z. m (sym q ∙ z))))
    | inr e ↦ rw e (
        fail_at-PointsInto {A = Token} src (λ r. Takes src l r × (l.token.kind ≡ k)) l
          (expected_token k l.token.kind l.token.value) r)
  ]

  pub expect-mark :
      (k : Kind) (l : Lexer)
      → IsMark k
      → Ready src l
      → Ensures
          (λ r. After src l (mark k ∷ []) r.1 × (measure r.1 < measure l))
          (PointsInto src)
          (expect k l)
  expect-mark k l m r =
      Ensures-mono _ _ (PointsInto src) (expect k l) (λ t h. Takes-mark l k t m h.1 h.0)
        (expect-Takes k l m.0 r)

  -- A name token.
  pub parse_name-Parsed :
      (l : Lexer) → Ready src l → Ensures (Parsed src l of_name) (PointsInto src) (parse_name l)
  unfolding parse_name
  parse_name-Parsed l r =
      Ensures-bind _ (Parsed src l of_name) (PointsInto src) (expect name l) _
        (expect-Takes name l (λ e. cc) r)
        λ t h. (After-eq (ap (λ x. lexeme x ∷ []) (sym h.0.0)) h.0.1, h.0.2)

  pub present-Parsed :
      {A : Type 0} (p : Parser A) (u : Option A → List Lexeme) (l : Lexer)
      → Ensures (Parsed src l (λ a. u (some a))) (PointsInto src) (p l)
      → Ensures (Parsed src l u) (PointsInto src) (present p l)
  present-Parsed p u l e = Ensures-bind _ (Parsed src l u) (PointsInto src) (p l) _ e λ x a. a

  lexeme-keyword :
      (t : Token) (keyword : Bytes) → is_keyword keyword t ≡ true → lexeme t ≡ (name, keyword)
  lexeme-keyword t keyword h =
      let k : t.kind ≡ name = same_kind→eq t.kind name (ground arith) in
      let v : t.value ≡ keyword = bytes_eq→eq t.value keyword (ground arith) in
      ap (λ j. (j, spelling j t.value)) k ∙ ap (λ w. (name, w)) v

  abbrev KeywordSkips : Bytes → Lexer → Bool × Lexer → Type 0
  KeywordSkips keyword l (true, m) = After src l ((name, keyword) ∷ []) m × (measure m < measure l)
  KeywordSkips keyword l (false, m) = Ready src m

  skip_keyword-KeywordSkips :
      (keyword : Bytes) (l : Lexer)
      → Ready src l
      → Ensures (KeywordSkips keyword l) (PointsInto src) (skip_keyword keyword l)
  unfolding skip_keyword
  skip_keyword-KeywordSkips keyword l r = elim (Bool-cases (is_keyword keyword l.token)) [
    | inl e ↦
        rw e
          let q : l.token.kind ≡ name = same_kind→eq l.token.kind name (ground arith) in
            (Ensures-bind (Takes src l) (KeywordSkips keyword l) (PointsInto src) (take_token l) _
              (take_token-Takes src l r.valid r.source_is (λ z. cc (q, z)))
              λ t h. (After-eq (ap (λ x. x ∷ []) (lexeme-keyword l.token keyword e)) h.1, h.2))
    | inr e ↦ rw e r
  ]

  -- A keyword found was read; a token in its place is an error at that token.
  keyword_end :
      (keyword : Bytes) (l : Lexer) (r : Bool × Lexer)
      → KeywordSkips keyword l r
      → Ensures
          (λ s. After src l ((name, keyword) ∷ []) s.1 × (measure s.1 < measure l))
          (PointsInto src)
          (choose r.0
            (pure {A = Unit {0}} tt)
            (fail_at r.1.token (expected_keyword keyword r.1.token.kind r.1.token.value))
            r.1)
  keyword_end keyword l (true, m) h = h
  keyword_end keyword l (false, m) h =
      fail_at-PointsInto {A = Unit {0}} src
        (λ s. After src l ((name, keyword) ∷ []) s.1 × (measure s.1 < measure l)) m
        (expected_keyword keyword m.token.kind m.token.value) h

  pub expect_keyword-After :
      (keyword : Bytes) (l : Lexer)
      → Ready src l
      → Ensures
          (λ r. After src l ((name, keyword) ∷ []) r.1 × (measure r.1 < measure l))
          (PointsInto src)
          (expect_keyword keyword l)
  unfolding expect_keyword
  expect_keyword-After keyword l r =
      Ensures-bind (KeywordSkips keyword l) _ (PointsInto src) (skip_keyword keyword l) _
        (skip_keyword-KeywordSkips keyword l r) λ t h. keyword_end keyword l t h

  pub optional-After :
      {A : Type 0} (k : Kind) (default : A) (p : Parser A) (u : A → List Lexeme) (n : ℕ) (l : Lexer)
      → u default ≡ []
      → Parses src n u p
      → Ready src l
      → measure l < n
      → Ensures (λ r. After src l (u r.0) r.1) (PointsInto src) (optional k default p l)
  unfolding optional
  optional-After k default p u n l e h r b = elim (Bool-cases (same_kind l.token.kind k)) [
    | inl q ↦ rw q (Ensures-mono _ _ (PointsInto src) (p l) (λ t x. x.0) (h l r b))
    | inr q ↦ rw q (After-eq (sym e) (After-nothing r))
  ]
