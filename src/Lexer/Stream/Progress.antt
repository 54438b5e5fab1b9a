-- ===== src/Lexer/Stream/Progress.antt =====
-- Lookahead and Advance keep the invariant, end, and bring the lexer nearer to the end of the file.
use artemis.Prelude.{
  suc, ◌≤◌, ◌<◌, ◌≡◌, ◌≢◌, refl, ◌∙◌, ap, subst, true, arith, some, inl, inr, Bool-cases,
  Option-cases, ◌⊎◌,
}
use artemis.Prelude.Outcome.{Outcome, ok, err, panic, out_of_fuel, Ensures, Ensures-bind}
use artemis.Prelude.Loop.{Round, iterate_lem}
use artemis.Token.{Token, eof, comment, same_kind}
use artemis.Token.Kinds.{ne→same_kind, same_kind_refl, same_kind→eq, same_kind→ne}
use artemis.Token.Source.{size}
use artemis.Lexer.Cursor.Bounds.{PointsInto}
use artemis.Lexer.Stream.{
  Lexer, move_to, next_token, skip_comment, lookahead_body, lookahead, step_to, advance,
}
use artemis.Lexer.Stream.Chain.{
  IsValid, Looking, Found, measure, next_token-Found, move_to-IsValid, move_to-measure,
}

-- The result of a search: what was found is no comment.
abbrev Ends : Lexer → Token × Lexer → Type 0
Ends l (t, s) = (l.token.kind ≢ eof) × Looking l s × (s.next ≡ some t) × (t.kind ≢ comment)

Looking-trans : {l s u : Lexer} → Looking l s → Looking s u → Looking l u
Looking-trans p q = record {
  valid = q.valid;
  source_same = q.source_same ∙ p.source_same;
  not_eof = q.not_eof;
  lighter = omega (arith, p.lighter, q.lighter);
}

moved-Looking :
    (l s u : Lexer) (t : Token)
    → Looking l s
    → Found s (t, u)
    → t.kind ≡ comment
    → Looking l (move_to t u)
moved-Looking l s u t p (k, e) c = record {
  valid = move_to-IsValid u t k.valid e;
  source_same = k.source_same ∙ p.source_same;
  not_eof = λ h. cc (h, c);
  lighter = omega (arith, move_to-measure u t k.not_eof e, k.lighter, p.lighter);
}

skip_comment-Round :
    (l s u : Lexer) (t : Token)
    → l.token.kind ≢ eof
    → Looking l s
    → Found s (t, u)
    → Round (Looking l) measure (Ends l) (measure s) (skip_comment (t, u))
unfolding skip_comment
skip_comment-Round l s u t ne p q = elim (Bool-cases (same_kind t.kind comment)) [
  | inl e ↦ rw e (
    moved-Looking l s u t p q (same_kind→eq t.kind comment e),
    omega (arith, move_to-measure u t q.0.not_eof q.1, q.0.lighter),
  )
  | inr e ↦ rw e (ne, Looking-trans p q.0, q.1, same_kind→ne t.kind comment e)
]

lookahead_body-Round :
    (l s : Lexer)
    → l.token.kind ≢ eof
    → Looking l s
    → Ensures
        (Round (Looking l) measure (Ends l) (measure s))
        (PointsInto l.source)
        (lookahead_body s)
unfolding lookahead_body
lookahead_body-Round l s ne p =
    Ensures-bind (Found s) (Round (Looking l) measure (Ends l) (measure s)) (PointsInto l.source)
      (next_token s.next s) _
      (subst (λ x. Ensures (Found s) (PointsInto x) (next_token s.next s)) p.source_same
        (next_token-Found s.next s refl p.valid p.not_eof))
      λ r q. skip_comment-Round l s r.1 r.0 ne p q

start-Looking : (l : Lexer) → IsValid l → l.token.kind ≢ eof → Looking l l
start-Looking l v ne = record { valid = v; source_same = refl; not_eof = ne; lighter = omega arith }

-- What `lookahead` returns: the current token at the end of the file, else the next token.
abbrev pub LooksAhead : Lexer → Token × Lexer → Type 0
LooksAhead l (t, s) = ((l.token.kind ≡ eof) × (t ≡ l.token) × (s ≡ l)) ⊎ Ends l (t, s)

Ends-LooksAhead :
    (l : Lexer) (r : Outcome (Token × Lexer))
    → Ensures (Ends l) (PointsInto l.source) r
    → Ensures (LooksAhead l) (PointsInto l.source) r
Ends-LooksAhead l (ok r) h = inr h
Ends-LooksAhead l (err e) h = h
Ends-LooksAhead l panic h = h
Ends-LooksAhead l out_of_fuel h = h

measure-le : (l : Lexer) → measure l < suc (suc (suc (size l.source.body)))
measure-le l = elim (Option-cases l.next) [ inl e ↦ ground arith | inr (t, e) ↦ ground arith ]

pub lookahead-LooksAhead :
    (l : Lexer) → IsValid l → Ensures (LooksAhead l) (PointsInto l.source) (lookahead l)
unfolding lookahead
lookahead-LooksAhead l v = elim (Bool-cases (same_kind l.token.kind eof)) [
  | inl e ↦ rw e (inl (same_kind→eq l.token.kind eof e, refl, refl))
  | inr e ↦ rw e (
      Ends-LooksAhead l _ (
        iterate_lem (Looking l) measure (Ends l) (PointsInto l.source) lookahead_body
          (λ s p. lookahead_body-Round l s (same_kind→ne l.token.kind eof e) p)
          (suc (suc (suc (size l.source.body)))) l
          (start-Looking l v (same_kind→ne l.token.kind eof e)) (measure-le l)))
]

-- What `advance` returns: the lexer stands at the token returned, which is no comment, its
-- invariant holds, and, unless it stood at the end of the file, it is nearer to that.
pub record Advances (l : Lexer) (r : Token × Lexer) : Type 0 where
  pub valid : IsValid r.1
  pub source_same : r.1.source ≡ l.source
  pub stands_at : r.1.token ≡ r.0
  pub at_end : l.token.kind ≡ eof → r.0 ≡ l.token
  pub nearer :
      l.token.kind ≢ eof → (measure r.1 < measure l) × (r.0.kind ≢ comment) × (1 ≤ r.0.location)

step_to-eof : (l : Lexer) → IsValid l → l.token.kind ≡ eof → Advances l (step_to (l.token, l))
unfolding step_to
step_to-eof l v e =
    let q : same_kind l.token.kind eof ≡ true = ap (λ k. same_kind k eof) e ∙ same_kind_refl eof in
    rw q (record {
      valid = record { within = v.within; chain = v.chain; next_fits = v.next_fits };
      source_same = refl;
      stands_at = refl;
      at_end = λ _. refl;
      nearer = λ ne. absurd (ne e);
    })

step_to-Ends : (l s : Lexer) (t : Token) → Ends l (t, s) → Advances l (step_to (t, s))
unfolding step_to
step_to-Ends l s t (ne, k, e, nc) =
    let moved = move_to-IsValid s t k.valid e in
    rw (ne→same_kind s.token.kind eof k.not_eof) (record {
      valid = record { within = moved.within; chain = moved.chain; next_fits = moved.next_fits };
      source_same = k.source_same;
      stands_at = refl;
      at_end = λ h. absurd (ne h);
      nearer = λ _. (omega (arith, move_to-measure s t k.not_eof e, k.lighter), nc, moved.chain.0);
    })

step_to-Advances :
    (l : Lexer) (r : Token × Lexer) → IsValid l → LooksAhead l r → Advances l (step_to r)
step_to-Advances l (t, s) v (inl (e, te, se)) =
    subst (λ x. Advances l (step_to x)) (cc) (step_to-eof l v e)
step_to-Advances l (t, s) v (inr h) = step_to-Ends l s t h

-- `Advance` on a valid lexer never panics, its loop ends, its errors point into the source, and its
-- result is as `Advances` says.
pub advance-Advances :
    (l : Lexer) → IsValid l → Ensures (Advances l) (PointsInto l.source) (advance l)
unfolding advance
advance-Advances l v =
    Ensures-bind (LooksAhead l) (Advances l) (PointsInto l.source) (lookahead l) _
      (lookahead-LooksAhead l v) λ r h. step_to-Advances l r v h
