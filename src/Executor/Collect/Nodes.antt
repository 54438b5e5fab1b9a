-- ===== src/Executor/Collect/Nodes.antt =====
-- Proofs on lists of nodes by their response keys.
use artemis.Prelude.{
  ◌≡◌, refl, sym, subst, ◌∙◌, true, false, some, none, List, [], ◌∷◌, ◌++◌, Bytes, bytes_eq,
  bytes_eq→eq, bytes_eq_refl, lookup, inl, inr, Bool-cases,
}
use artemis.Ast.{FieldHead, SelectionSet, response_key}
use artemis.Executor.Collect.{ExecutionNode, coalesce}

abbrev AreOf : Bytes → List (FieldHead × SelectionSet) → Type 0
AreOf k [] = Unit
AreOf k ((head, set) ∷ definitions) = (response_key head ≡ k) × AreOf k definitions

abbrev IsOf : Bytes → List (FieldHead × SelectionSet) → Type 0
IsOf k [] = ⊥
IsOf k ((head, set) ∷ definitions) = (response_key head ≡ k) × AreOf k definitions

-- The nodes have different response keys, and each has a definition, all with its response key.
abbrev pub AreGrouped : {F A : Type 0} → List (Bytes × ExecutionNode F A) → Type 0
AreGrouped [] = Unit
AreGrouped ((k, n) ∷ nodes) = IsOf k n.definitions × (lookup k nodes ≡ none) × AreGrouped nodes

AreOf-append :
    (k : Bytes) (definitions : List (FieldHead × SelectionSet)) (d : FieldHead × SelectionSet)
    → response_key d.0 ≡ k
    → AreOf k definitions
    → AreOf k (definitions ++ (d ∷ []))
AreOf-append k [] d e h = (e, tt)
AreOf-append k (c ∷ definitions) d e h = (h.0, AreOf-append k definitions d e h.1)

IsOf-append :
    (k : Bytes) (definitions : List (FieldHead × SelectionSet)) (d : FieldHead × SelectionSet)
    → response_key d.0 ≡ k
    → IsOf k definitions
    → IsOf k (definitions ++ (d ∷ []))
IsOf-append k [] d e h = absurd h
IsOf-append k (c ∷ definitions) d e h = (h.0, AreOf-append k definitions d e h.1)

absent :
    {B : Type 0} (j i : Bytes) (m : B) (nodes : List (Bytes × B))
    → lookup j ((i, m) ∷ nodes) ≡ none
    → (bytes_eq j i ≡ false) × (lookup j nodes ≡ none)
unfolding lookup
absent j i m nodes h = elim (Bool-cases (bytes_eq j i)) [
  | inl e ↦ let p : some m ≡ none = sym (rw e refl) ∙ h in cc
  | inr e ↦ (e, sym (rw e refl) ∙ h)
]

bytes_eq_flip : (j k : Bytes) → bytes_eq k j ≡ false → bytes_eq j k ≡ false
bytes_eq_flip j k h = elim (Bool-cases (bytes_eq j k)) [
  | inl e ↦
      let p : bytes_eq k j ≡ true =
        subst (λ i. bytes_eq i j ≡ true) (bytes_eq→eq j k e) (bytes_eq_refl j) in
      cc
  | inr e ↦ e
]

module _ {F A : Type 0} where
  lookup-coalesce :
      (j k : Bytes) (d : FieldHead × SelectionSet) (nodes : List (Bytes × ExecutionNode F A))
      → lookup j nodes ≡ none
      → lookup j (coalesce k d nodes) ≡ none
  unfolding lookup
  lookup-coalesce j k d [] h = refl
  lookup-coalesce j k d ((i, n) ∷ nodes) h =
      let (e, g) = absent j i n nodes h in
      elim (Bool-cases (bytes_eq k i)) [
        | inl f ↦ rw f (rw (e, lookup) g)
        | inr f ↦ rw f (rw (e, lookup) (lookup-coalesce j k d nodes g))
      ]

  pub coalesce-AreGrouped :
      (k : Bytes) (d : FieldHead × SelectionSet) (nodes : List (Bytes × ExecutionNode F A))
      → response_key d.0 ≡ k
      → AreGrouped nodes
      → AreGrouped (coalesce k d nodes)
  coalesce-AreGrouped k d [] e h = tt
  coalesce-AreGrouped k d ((j, n) ∷ nodes) e h = elim (Bool-cases (bytes_eq k j)) [
    | inl f ↦ rw f (IsOf-append j n.definitions d (e ∙ bytes_eq→eq k j f) h.0, h.1, h.2)
    | inr f ↦ rw f (h.0, lookup-coalesce j k d nodes h.1, coalesce-AreGrouped k d nodes e h.2)
  ]

  lookup-append :
      (j k : Bytes) (n : ExecutionNode F A) (nodes : List (Bytes × ExecutionNode F A))
      → lookup j nodes ≡ none
      → bytes_eq j k ≡ false
      → lookup j (nodes ++ ((k, n) ∷ [])) ≡ none
  unfolding lookup
  lookup-append j k n [] h e = rw e refl
  lookup-append j k n ((i, m) ∷ nodes) h e =
      let (f, g) = absent j i m nodes h in rw f (lookup-append j k n nodes g e)

  pub append-AreGrouped :
      (k : Bytes) (n : ExecutionNode F A) (nodes : List (Bytes × ExecutionNode F A))
      → IsOf k n.definitions
      → lookup k nodes ≡ none
      → AreGrouped nodes
      → AreGrouped (nodes ++ ((k, n) ∷ []))
  unfolding lookup
  append-AreGrouped k n [] f l h = (f, refl, tt)
  append-AreGrouped k n ((j, m) ∷ nodes) f l h =
      let (e, g) = absent k j m nodes l in
      (
        h.0,
        lookup-append j k n nodes h.1 (bytes_eq_flip j k e),
        append-AreGrouped k n nodes f g h.2,
      )
