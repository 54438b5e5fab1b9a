-- ===== src/Executor/Collect/Spec/Unvisited.antt =====
-- The fragments that are left to be visited.
use artemis.Prelude.{
  ℕ, suc, ◌≤◌, ◌<◌, ◌≡◌, subst, true, false, if◌then◌else◌, some, List, [], ◌∷◌, Bytes, bytes_eq,
  bytes_eq→eq, bytes_eq_refl, lookup, inl, inr, Bool-cases, arith, lookup,
}
use artemis.Ast.{FragmentDefinition}
use artemis.Executor.Collect.{has_name}

-- The fragments whose names are not among the visited.
abbrev pub unvisited : List Bytes → List (Bytes × FragmentDefinition) → ℕ
unvisited v [] = 0
unvisited v ((k, d) ∷ fragments) =
    let rest = unvisited v fragments in if has_name k v then rest else suc rest

pub unvisited-cons :
    (k : Bytes) (v : List Bytes) (fragments : List (Bytes × FragmentDefinition))
    → unvisited (k ∷ v) fragments ≤ unvisited v fragments
unvisited-cons k v [] = omega arith
unvisited-cons k v ((j, d) ∷ fragments) = ground (arith, unvisited-cons k v fragments)

pub unvisited-lookup :
    (k : Bytes) (v : List Bytes) (fragments : List (Bytes × FragmentDefinition))
    (d : FragmentDefinition)
    → has_name k v ≡ false
    → lookup k fragments ≡ some d
    → unvisited (k ∷ v) fragments < unvisited v fragments
unfolding lookup
unvisited-lookup k v [] d h e = cc
unvisited-lookup k v ((j, c) ∷ fragments) d h e = elim (Bool-cases (bytes_eq k j)) [
  | inl f ↦
      let g : k ≡ j = bytes_eq→eq k j f in
      let n : has_name j v ≡ false = subst (λ i. has_name i v ≡ false) g h in
      let o : bytes_eq j k ≡ true = subst (λ i. bytes_eq i k ≡ true) g (bytes_eq_refl k) in
      rw (n, o) (omega (arith, unvisited-cons k v fragments))
  | inr f ↦
      let l : lookup k fragments ≡ some d = ground arith in
      ground (arith, unvisited-lookup k v fragments d h l)
]
