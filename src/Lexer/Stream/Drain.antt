-- ===== src/Lexer/Stream/Drain.antt =====
-- A client that advances until it stands at the end of the file.
use artemis.Prelude.{
  ℕ, zero, suc, ◌+◌, ◌<◌, ◌≡◌, ◌≢◌, refl, ◌∙◌, subst, true, false, arith, inl, inr, Bool-cases,
}
use artemis.Prelude.Outcome.{Outcome, ok, out_of_fuel, ◌>>=◌, Ensures, Ensures-bind, Ensures-mono}
use artemis.Token.{eof, same_kind}
use artemis.Token.Kinds.{same_kind→eq, same_kind→ne}
use artemis.Token.Source.{Source, size}
use artemis.Lexer.Cursor.Bounds.{PointsInto}
use artemis.Lexer.Stream.{Lexer, new, advance}
use artemis.Lexer.Stream.Chain.{IsValid, IsChain, measure, new-IsValid}
use artemis.Lexer.Stream.Progress.{Advances, advance-Advances}

abbrev pub drain : ℕ → Lexer → Outcome Lexer
drain zero l = out_of_fuel
drain (suc n) l = elim (same_kind l.token.kind eof) [
  | true ↦ ok l
  | false ↦ advance l >>= λ r. drain n r.1
]

abbrev pub Drained : Lexer → Lexer → Type 0
Drained l m = (m.source ≡ l.source) × (m.token.kind ≡ eof) × IsChain m.token m.prev_tokens

drain_on :
    (n : ℕ) (l : Lexer)
    → ((m : Lexer)
        → IsValid m
        → measure m < n
        → Ensures (Drained m) (PointsInto m.source) (drain n m))
    → IsValid l
    → measure l < suc n
    → l.token.kind ≢ eof
    → Ensures (Drained l) (PointsInto l.source) (advance l >>= λ r. drain n r.1)
drain_on n l ih v h ne =
    Ensures-bind (Advances l) (Drained l) (PointsInto l.source) (advance l) _ (advance-Advances l v)
      λ r a.
        subst (λ s. Ensures (Drained l) (PointsInto s) (drain n r.1)) a.source_same
          (Ensures-mono (Drained r.1) (Drained l) (PointsInto r.1.source) (drain n r.1)
            (λ m d. (d.0 ∙ a.source_same, d.1, d.2))
            (ih r.1 a.valid (omega (arith, (a.nearer ne).0, h))))

drain_fuel :
    (n : ℕ) (l : Lexer)
    → IsValid l
    → measure l < n
    → Ensures (Drained l) (PointsInto l.source) (drain n l)
drain_fuel zero l v h = absurd (omega arith)
drain_fuel (suc n) l v h = elim (Bool-cases (same_kind l.token.kind eof)) [
  | inl e ↦ rw (e, drain) (refl, same_kind→eq l.token.kind eof e, v.chain)
  | inr e ↦ rw (e, drain) (drain_on n l (drain_fuel n) v h (same_kind→ne l.token.kind eof e))
]

-- A client that calls Advance on a new lexer until the end of the file gets there, or to an error
-- that points into the source, in at most two calls more than the source has bytes. At the end, the
-- tokens linked behind the current one are in order and do not overlap, back to the start of the
-- file.
pub drain-Drained :
    (src : Source)
    → Ensures (Drained (new src)) (PointsInto src) (drain (size src.body + 3) (new src))
unfolding new same_kind
drain-Drained src = drain_fuel (size src.body + 3) (new src) (new-IsValid src) (omega arith)
