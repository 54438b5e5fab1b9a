-- ===== src/Executor/Errors.antt =====
-- graphql/executor/executor.go and execute.go: how the error of a node is recorded and what it makes
-- nil. A pointer to a graphql.Error is a number, and the errors are in a store, since a resolver may
-- return one error at several nodes. `L` is the type of locations and `F` that of the other fields
-- of an error.
pub mod Propagation
use artemis.Prelude.{
  ℕ, zero, suc, ◌==◌, Bytes, Bool, true, false, if◌then◌else◌, Option, some, none, List, [], ◌∷◌,
  ◌++◌,
}
use artemis.Executor.ResultNode.{Store, is_nil, should_reject_null, set_nil, PathKey, path}

-- `rest` is none where Extensions, Err, Op and Kind have their zero values.
pub record GraphqlError (L F : Type 0) : Type 0 where
  pub message : Bytes
  pub locations : List L
  pub path : List PathKey
  pub rest : Option F

-- The error that a resolver returns: one of another type, with the message that its Error returns,
-- or a pointer to a graphql.Error.
pub data GoError : Type 0 where
  other_error : Bytes → GoError
  graphql_error : ℕ → GoError

-- The nodes, the errors of the response as pointers, and what the pointers point to. The next error
-- that is allocated stands at `next_error`.
pub record Executor (V L F : Type 0) : Type 0 where
  pub nodes : Store V
  pub errs : List ℕ
  pub errors : ℕ → GraphqlError L F
  pub next_error : ℕ

-- `e.Locations = locations; e.Path = path`
abbrev pub locate : {L F : Type 0} → List L → List PathKey → GraphqlError L F → GraphqlError L F
locate locations keys e = record e { locations = locations; path = keys }

module _ {V : Type 0} where
  -- `propagateExecutionError`; `none` is the panic at a node without a parent. A round goes to the
  -- parent.
  unfoldable pub propagate_execution_error : ℕ → Store V → ℕ → Option (Store V)
  propagate_execution_error zero s r = none
  propagate_execution_error (suc fuel) s r = elim (should_reject_null (s r)) [
    | false ↦ some s
    | true ↦ elim (s r).parent [
      | none ↦ none
      | some p ↦ propagate_execution_error fuel (set_nil p s) p
    ]
  ]

  module _ {L F : Type 0} where
    -- `AppendError`
    unfoldable pub append_error : ℕ → ℕ → ℕ → Executor V L F → Option (Executor V L F)
    append_error fuel e r x = elim (x.nodes r).parent [
      | none ↦ none
      | some p ↦ elim (is_nil (x.nodes p)) [
        | true ↦ some x
        | false ↦ elim (propagate_execution_error fuel x.nodes p) [
          | none ↦ none
          | some s ↦ some (record x { nodes = s; errs = x.errs ++ (e ∷ []) })
        ]
      ]
    ]

    -- The graphql.Error for an error, new if the error is of another type, and the executor then.
    unfoldable pub as_graphql_error :
        GoError → List L → List PathKey → Executor V L F → ℕ × Executor V L F
    as_graphql_error (other_error m) locations keys x = (
      x.next_error,
      record x {
        errors = λ q.
            if q == x.next_error
            then record { message = m; locations = locations; path = keys; rest = none }
            else x.errors q;
        next_error = suc x.next_error;
      },
    )
    as_graphql_error (graphql_error e) locations keys x = (
      e,
      record x { errors = λ q. if q == e then locate locations keys (x.errors q) else x.errors q },
    )

    -- `handleNodeError`, with the locations of the definitions at the node.
    unfoldable pub handle_node_error :
        ℕ → List L → GoError → ℕ → Executor V L F → Option (Executor V L F)
    unfolding append_error as_graphql_error
    handle_node_error fuel locations err r x = elim (path fuel x.nodes r) [
      | none ↦ none
      | some keys ↦
          let (e, y) = as_graphql_error err locations keys x in
          append_error fuel e r (record y { nodes = set_nil r y.nodes })
    ]
