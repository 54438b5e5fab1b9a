-- ===== src/Executor/Prepare/Selects.antt =====
-- The operation that is picked, against GetOperation of the GraphQL specification.
use artemis.Prelude.{
  ℕ, ◌≡◌, refl, ap, fun_ext, ◌∙◌, Bool, true, false, if◌then◌else◌, Option, some, none, List, [],
  ◌∷◌, Bytes, bytes_eq, insert, ◌||◌, Bool-cases, inl, inr,
}
use artemis.Ast.{
  Name, is_nil, name_value, OperationDefinition, FragmentDefinition, operation, fragment, Document,
}
use artemis.Validator.Fragments.{fragment_infos, add_infos}
use artemis.Executor.Prepare.{
  several_operations, no_operation, unknown_operation, invalid, Prepares, ok, err, panics, ◌>>=◌,
  RootTypes, find_operation, value_of, missing, given, root_type_of, prepare,
}

abbrev pub operations_of : Document → List OperationDefinition
operations_of [] = []
operations_of (operation o ∷ definitions) = o ∷ operations_of definitions
operations_of (fragment f ∷ definitions) = operations_of definitions

abbrev otherwise :
    Option OperationDefinition → Option OperationDefinition → Option OperationDefinition
otherwise none o = o
otherwise (some p) o = some p

abbrev pub is_named : Bytes → Option Name → Bool
is_named name none = false
is_named name (some n) = bytes_eq name (name_value n)

-- The last operation with the name.
abbrev pub last_named : Bytes → List OperationDefinition → Option OperationDefinition
last_named name [] = none
last_named name (o ∷ operations) =
    otherwise (last_named name operations) (if is_named name o.name then some o else none)

abbrev pub has_anonymous : List OperationDefinition → Bool
has_anonymous [] = false
has_anonymous (o ∷ operations) = is_nil o.name || has_anonymous operations

otherwise-if :
    (x : Option OperationDefinition) (t : Bool) (o : OperationDefinition)
    (found : Option OperationDefinition)
    → otherwise x (if t then some o else found)
      ≡ otherwise (otherwise x (if t then some o else none)) found
otherwise-if none true o found = refl
otherwise-if none false o found = refl
otherwise-if (some p) t o found = refl

otherwise-none : (x : Option OperationDefinition) → otherwise x none ≡ x
otherwise-none none = refl
otherwise-none (some p) = refl

module _ {E : Type 0} where
  -- Without a name the document must have one operation; with a name, one of that name.
  -- The panic, for a name and an operation without one, is the code's.
  abbrev pub get_operation : Bytes → List OperationDefinition → Prepares E OperationDefinition
  get_operation [] [] = err no_operation
  get_operation [] (o ∷ []) = ok o
  get_operation [] (o ∷ p ∷ operations) = err several_operations
  get_operation (c ∷ name) operations =
      if has_anonymous operations
      then panics
      else given (last_named (c ∷ name) operations) (unknown_operation (c ∷ name))

  -- An operation that was found is the result when there are no others.
  abbrev only_one :
      OperationDefinition
      → List OperationDefinition
      → List (Bytes × FragmentDefinition)
      → Prepares E (Option OperationDefinition × List (Bytes × FragmentDefinition))
  only_one o [] fragments = ok (some o, fragments)
  only_one o (p ∷ operations) fragments = err several_operations

  find-several :
      (document : Document) (o : OperationDefinition)
      (fragments : List (Bytes × FragmentDefinition))
      → find_operation {E = E} [] document (some o) fragments
        ≡ only_one o (operations_of document) (add_infos document fragments)
  unfolding find_operation name_value insert
  find-several [] o fragments = refl
  find-several (operation p ∷ definitions) o fragments = refl
  find-several (fragment f ∷ definitions) o fragments =
      find-several definitions o (insert (name_value f.name) f fragments)

  -- What the loop finds in the end, if no operation without a name makes it panic.
  abbrev finds :
      Bool
      → Option OperationDefinition
      → List (Bytes × FragmentDefinition)
      → Prepares E (Option OperationDefinition × List (Bytes × FragmentDefinition))
  finds anonymous r fragments = if anonymous then panics else ok (r, fragments)

  find-next :
      (name : Bytes) (m : Option Name) (o : OperationDefinition)
      (found last : Option OperationDefinition) (anonymous : Bool)
      (fragments : List (Bytes × FragmentDefinition))
      → (value_of {E = E} m >>= λ v.
          finds anonymous (otherwise last (if bytes_eq name v then some o else found)) fragments)
        ≡ finds
            (is_nil m || anonymous)
            (otherwise (otherwise last (if is_named name m then some o else none)) found)
            fragments
  find-next name none o found last anonymous fragments = refl
  find-next name (some n) o found last anonymous fragments =
      ap (λ x. finds anonymous x fragments)
        (otherwise-if last (bytes_eq name (name_value n)) o found)

  find-named :
      (c : ℕ) (name : Bytes) (document : Document) (found : Option OperationDefinition)
      (fragments : List (Bytes × FragmentDefinition))
      → find_operation {E = E} (c ∷ name) document found fragments
        ≡ finds
            (has_anonymous (operations_of document))
            (otherwise (last_named (c ∷ name) (operations_of document)) found)
            (add_infos document fragments)
  unfolding find_operation name_value insert
  find-named c name [] found fragments = refl
  find-named c name (operation o ∷ definitions) found fragments =
      ap (λ next. value_of {E = E} o.name >>= next)
        (fun_ext λ v.
          find-named c name definitions (if bytes_eq (c ∷ name) v then some o else found) fragments)
      ∙ find-next (c ∷ name) o.name o found (last_named (c ∷ name) (operations_of definitions))
          (has_anonymous (operations_of definitions)) (add_infos definitions fragments)
  find-named c name (fragment f ∷ definitions) found fragments =
      find-named c name definitions found (insert (name_value f.name) f fragments)

  module _ {R : Type 0}
      (k : List (Bytes × FragmentDefinition) → OperationDefinition → Prepares E R) where
    one-or-several :
        (o : OperationDefinition) (operations : List OperationDefinition)
        (fragments : List (Bytes × FragmentDefinition))
        → (only_one o operations fragments >>= λ r. given r.0 no_operation >>= k r.1)
          ≡ (get_operation [] (o ∷ operations) >>= k fragments)
    one-or-several o [] fragments = refl
    one-or-several o (p ∷ rest) fragments = refl

    find-unnamed :
        (document : Document) (fragments : List (Bytes × FragmentDefinition))
        → (find_operation [] document none fragments >>= λ r. given r.0 no_operation >>= k r.1)
          ≡ (get_operation [] (operations_of document) >>= k (add_infos document fragments))
    unfolding find_operation name_value insert
    find-unnamed [] fragments = refl
    find-unnamed (operation o ∷ definitions) fragments =
        rw (find-several definitions o fragments)
          (one-or-several o (operations_of definitions) (add_infos definitions fragments))
    find-unnamed (fragment f ∷ definitions) fragments =
        find-unnamed definitions (insert (name_value f.name) f fragments)

    find-selected :
        (name : Bytes) (document : Document)
        → (find_operation name document none [] >>= λ r. given r.0 (missing name) >>= k r.1)
          ≡ (get_operation name (operations_of document) >>= k (fragment_infos document))
    unfolding fragment_infos
    find-selected [] document = find-unnamed document []
    find-selected (c ∷ name) document =
        rw
          (
            find-named c name document none [],
            otherwise-none (last_named (c ∷ name) (operations_of document)),
          )
          (elim (Bool-cases (has_anonymous (operations_of document))) [
            | inl e ↦ rw e refl
            | inr e ↦ rw e refl
          ])

  -- Prepare answers with the errors of the validator if there are any. Otherwise it panics where a
  -- name is given and an operation of the document has none. Otherwise it takes the document's only
  -- operation, or the last one of the given name, with the root type that the schema has for its kind,
  -- and the map of the fragments is the one that the validator uses; it fails where there is no such
  -- operation, where there are several and no name is given, and where the schema has no root type
  -- for it.
  pub prepare-get_operation :
      {T : Type 0} (types : RootTypes T) (errs : List E) (document : Document) (name : Bytes)
      → prepare types errs document name ≡ (elim errs [
        | e ∷ more ↦ err (invalid e more)
        | [] ↦ get_operation name (operations_of document) >>= λ o. root_type_of types o >>= λ t.
            ok (record { definition = o; root_type = t; fragment_map = fragment_infos document })
      ])
  unfolding prepare
  prepare-get_operation types [] document name =
      find-selected
        (λ fragments o. root_type_of types o >>= λ t.
          ok (record { definition = o; root_type = t; fragment_map = fragments }))
        name document
  prepare-get_operation types (e ∷ more) document name = refl
