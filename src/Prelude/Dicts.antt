-- ===== src/Prelude/Dicts.antt =====
-- Go maps with string keys, as association lists with one entry to a key.
use mathlib.Core.Path.{◌≡◌, refl, sym, ap, subst, ◌∙◌}
use mathlib.Core.Logic.{inl, inr}
use mathlib.Core.Bool.{Bool, true, false, ◌&&◌}
use mathlib.Core.Option.{Option, none, some}
use mathlib.Core.List.{List, [], ◌∷◌}
use artemis.Prelude.Tests.{if◌then◌else◌, Bytes, bytes_eq, bytes_eq→eq, bytes_eq_refl, Bool-cases}

module _ {A : Type 0} where
  unfoldable pub lookup : Bytes → List (Bytes × A) → Option A
  lookup k [] = none
  lookup k ((j, v) ∷ entries) = if bytes_eq k j then some v else lookup k entries

  unfoldable pub insert : Bytes → A → List (Bytes × A) → List (Bytes × A)
  insert k v [] = (k, v) ∷ []
  insert k v ((j, w) ∷ entries) =
      let rest = insert k v entries in if bytes_eq k j then (j, v) ∷ entries else (j, w) ∷ rest

module _ {A : Type 0} where
  if-again : (t : Bool) (x y z : A) → (if t then x else z) ≡ (if t then x else if t then y else z)
  if-again true x y z = refl
  if-again false x y z = refl

  if-swap :
      (s t : Bool) (x y z : A)
      → (s && t) ≡ false
      → (if s then x else if t then y else z) ≡ (if t then y else if s then x else z)
  if-swap true true x y z h = cc
  if-swap true false x y z h = refl
  if-swap false t x y z h = refl

apart : (k i j : Bytes) → bytes_eq j i ≡ false → (bytes_eq k i && bytes_eq k j) ≡ false
apart k i j h = elim (Bool-cases (bytes_eq k i)) [
  | inl e ↦ elim (Bool-cases (bytes_eq k j)) [
    | inl f ↦
        let p : bytes_eq j j ≡ true = bytes_eq_refl j in
        let q : j ≡ i = sym (bytes_eq→eq k j f) ∙ bytes_eq→eq k i e in
        let r : bytes_eq j i ≡ true = subst (λ x. bytes_eq j x ≡ true) q p in cc
    | inr f ↦ rw (e, f) refl
  ]
  | inr e ↦ rw e refl
]

module _ {A : Type 0} where
  pub lookup-insert :
      (k j : Bytes) (v : A) (entries : List (Bytes × A))
      → lookup k (insert j v entries) ≡ (if bytes_eq k j then some v else lookup k entries)
  unfolding lookup insert
  lookup-insert k j v [] = refl
  lookup-insert k j v ((i, w) ∷ entries) = elim (Bool-cases (bytes_eq j i)) [
    | inl e ↦ rw e (
        subst
          (λ x.
            (if bytes_eq k i then some v else lookup k entries)
            ≡ (if bytes_eq k x then some v else if bytes_eq k i then some w else lookup k entries))
          (sym (bytes_eq→eq j i e)) (if-again (bytes_eq k i) (some v) (some w) (lookup k entries)))
    | inr e ↦ rw e (
        ap (λ x. if bytes_eq k i then some w else x) (lookup-insert k j v entries)
        ∙ if-swap (bytes_eq k i) (bytes_eq k j) (some w) (some v) (lookup k entries)
            (apart k i j e))
  ]
