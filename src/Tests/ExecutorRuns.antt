-- ===== src/Tests/ExecutorRuns.antt =====
-- Runs of graphql/executor on the result of `{ user { pets { name } } }`.
use artemis.Prelude.{
  ℕ, ◌≡◌, refl, ◌==◌, if◌then◌else◌, some, none, List, [], ◌∷◌, ◌++◌, codes, arith,
}
use artemis.Executor.ResultNode.{
  PathKey, index, field, nil, list, object, leaf, Store, is_nil, set_to_reject_null, path_from,
  path,
}
use artemis.Executor.Errors.{GraphqlError, graphql_error, Executor, handle_node_error}
use artemis.Executor.Errors.Propagation.{
  Ancestors, nearer, topmost, after_error, error_at, handle_node_error-nulled,
}

-- The root is 0, its user 1, the pets 2 of the user, of which there are 3 and 4; 5 is the name of 4.
-- The list of pets, its items and the name reject a null.
abbrev nodes : Store ℕ
nodes q =
    if q == 0
    then record { parent = none; flags = 0; value = object ((codes "user", 1) ∷ []) }
    else if q == 1
    then record { parent = some 0; flags = 0; value = object ((codes "pets", 2) ∷ []) }
    else if q == 2
    then record { parent = some 1; flags = 1; value = list (3 ∷ 4 ∷ []) }
    else if q == 3
    then record { parent = some 2; flags = 1; value = nil }
    else if q == 4
    then set_to_reject_null
        (record { parent = some 2; flags = 0; value = object ((codes "name", 5) ∷ []) })
    else record { parent = some 4; flags = 1; value = leaf 7 }

path_run :
    path 4 nodes 5
    ≡ some (field (codes "user") ∷ field (codes "pets") ∷ index 1 ∷ field (codes "name") ∷ [])
unfolding path path_from
path_run = refl

list-Ancestors : Ancestors nodes 4 (2 ∷ 1 ∷ 0 ∷ [])
list-Ancestors = nearer refl refl (nearer refl refl (nearer refl refl (topmost refl refl)))

-- An error that was recorded with the path of the user.
abbrev no_name_error : GraphqlError ℕ ℕ
no_name_error = record {
  message = codes "no name";
  locations = 3 ∷ [];
  path = field (codes "user") ∷ [];
  rest = none;
}

abbrev executor : Executor ℕ ℕ ℕ
executor = record { nodes = nodes; errs = 0 ∷ []; errors = λ q. no_name_error; next_error = 1 }

abbrev name_path : List PathKey
name_path = field (codes "user") ∷ field (codes "pets") ∷ index 1 ∷ field (codes "name") ∷ []

-- The error that was recorded is returned for the name too.
handle_node_error-nulled_example :
    (x : Executor ℕ ℕ ℕ) × (handle_node_error 4 (17 ∷ []) (graphql_error 0) 5 executor ≡ some x)
    × ((q : ℕ) → x.nodes q ≡ after_error nodes 5 4 (2 ∷ 1 ∷ 0 ∷ []) q)
    × (x.errs ≡ (if is_nil (nodes 4) then 0 ∷ [] else (0 ∷ []) ++ (0 ∷ [])))
    × ((q : ℕ)
        → x.errors q ≡ (
            if q == 0
            then error_at (graphql_error 0) (17 ∷ []) name_path no_name_error
            else no_name_error))
handle_node_error-nulled_example =
    handle_node_error-nulled executor (17 ∷ []) (graphql_error 0) 5 4 (2 ∷ 1 ∷ 0 ∷ []) 4 name_path
      path_run refl refl list-Ancestors (omega arith)
