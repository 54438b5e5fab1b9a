-- ===== src/PairSet/Has.antt =====
-- What the set has is what was added last, in either order of the two names.
use artemis.Prelude.{
  ◌≡◌, refl, sym, ap, ◌∙◌, Bool, true, false, not, ◌&&◌, ◌||◌, if◌then◌else◌, Option, some, none,
  List, Bytes, bytes_eq, bytes_eq→eq, lookup, insert, lookup-insert, Bool-cases, inl, inr,
}
use artemis.PairSet.{lookup, insert, Pairs, or_empty, add_ordered, add, answers, has}

-- What the two maps hold for a pair.
abbrev found : Option (List (Bytes × Bool)) → Bytes → Option Bool
found none b = none
found (some m) b = lookup b m

found-or_empty : (o : Option (List (Bytes × Bool))) (b : Bytes) → lookup b (or_empty o) ≡ found o b
unfolding lookup
found-or_empty none b = refl
found-or_empty (some m) b = refl

has-found :
    (set : Pairs) (a b : Bytes) (q : Bool) → has set a b q ≡ answers (found (lookup a set) b) q
unfolding has
has-found set a b q =
    elim (lookup a set)
      as (λ o. elim o [ none ↦ false | some m ↦ answers (lookup b m) q ] ≡ answers (found o b) q) [
        | none ↦ refl
        | some m ↦ refl
      ]

add_ordered-found :
    (set : Pairs) (a b : Bytes) (m : Bool) (c d : Bytes)
    → found (lookup c (add_ordered set a b m)) d
      ≡ (if bytes_eq c a && bytes_eq d b then some m else found (lookup c set) d)
unfolding add_ordered
add_ordered-found set a b m c d =
    ap (λ o. found o d) (lookup-insert c a (insert b m (or_empty (lookup a set))) set)
    ∙ (elim (Bool-cases (bytes_eq c a)) [
      | inl e ↦ rw e (
          lookup-insert d b m (or_empty (lookup a set))
          ∙ ap (λ x. if bytes_eq d b then some m else x)
              (found-or_empty (lookup a set) d
                ∙ ap (λ x. found (lookup x set) d) (sym (bytes_eq→eq c a e))))
      | inr e ↦ rw e refl
    ])

-- The pair in either order.
abbrev pub is_pair : Bytes → Bytes → Bytes → Bytes → Bool
is_pair a b c d = (bytes_eq c b && bytes_eq d a) || (bytes_eq c a && bytes_eq d b)

answers-pair :
    (s t m q : Bool) (o : Option Bool)
    → answers (if s then some m else if t then some m else o) q
      ≡ (if s || t then q || not m else answers o q)
answers-pair true t m true o = refl
answers-pair true t m false o = refl
answers-pair false true m true o = refl
answers-pair false true m false o = refl
answers-pair false false m q o = refl

-- After Add, Has answers for the pair added, in either order of its names, that it is there, unless
-- it was added as mutually exclusive and is asked for as not; for any other pair its answer is the
-- one of before.
pub has-add :
    (set : Pairs) (a b : Bytes) (m : Bool) (c d : Bytes) (q : Bool)
    → has (add set a b m) c d q ≡ (if is_pair a b c d then q || not m else has set c d q)
unfolding add
has-add set a b m c d q =
    let swapped = bytes_eq c b && bytes_eq d a in
    let given = bytes_eq c a && bytes_eq d b in
    has-found (add set a b m) c d q
    ∙ (ap (λ o. answers o q)
          (add_ordered-found (add_ordered set a b m) b a m c d
            ∙ ap (λ o. if swapped then some m else o) (add_ordered-found set a b m c d))
        ∙ (answers-pair swapped given m q (found (lookup c set) d)
            ∙ ap (λ x. if swapped || given then q || not m else x) (sym (has-found set c d q))))
