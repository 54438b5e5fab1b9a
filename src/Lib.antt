-- ===== src/Lib.antt =====
-- Verification of artemis, a GraphQL engine in Go.
--
-- The part of the program that reads a document: a source (graphql/token) is split into tokens by
-- the lexer (graphql/lexer, with graphql/internal/lexer for block strings), and the parser
-- (graphql/parser) builds the tree of graphql/ast from them. The parser holds the lexer and calls
-- Lookahead and Advance; the lexer holds the source, and errors carry a location in it. Answers are
-- written by jsonwriter, which stands on an io.Writer. The executor (graphql/executor) runs a
-- document: it collects the fields of a selection set, whose nodes are those of graphql/ast, stores
-- what the resolvers return in result nodes, and records their errors. Resolvers load through
-- dataloader, and tasks may run in the worker pool of concurrent. graphql/handler keeps the operations that it has prepared in a cache.
--
-- Files and the code they model:
--   Prelude         what the others share. Prelude/Dicts: maps. Prelude/Outcome: how a call ends. An error returned by
--                   the code is `err`, a run-time panic is `panic`, and `out_of_fuel` is the model's.
--                   Prelude/Loop: loops on fuel, with a lemma that a falling measure ends them.
--   Utf8            unicode/utf8 as the source uses it: the documented encoding, written out.
--   Token           graphql/token/token.go and location.go. Token/Source: source.go, positions and
--                   locations; the proofs on LocationInfoOf are in Token/Source/Lines and
--                   Token/Source/Locations.
--                   Token/Kinds: the test on kinds decides equality.
--   BlockString     graphql/internal/lexer/block_string_value.go, with the proofs in
--                   BlockString/Lines and Indent.
--   Lexer           graphql/lexer/lexer.go. Lexer/Cursor: peek, consume and the makers of tokens and
--                   errors; Lexer/Whitespace, Number, Text, BlockText, Scan: the routines of a token;
--                   Lexer/Stream: the Lexer with Advance and Lookahead. Each Bounds file has the
--                   proofs on the routines of its parent; Lexer/Stream/Chain, Progress and Drain
--                   those on the chain of tokens and its measure.
--   Ast             the executable part of graphql/ast/ast.go. Ast/Lexemes: the grammar, as the list of
--                   lexemes that spell a node.
--   Parser          graphql/parser/parser.go and interface.go, one file to a group of productions:
--                   Tokens, Values, Types, Directives, Selections, Documents. Each Reads file has
--                   the proofs on its parent; Parser/Documents/Whole those on the entry points.
--   JsonStream      jsonwriter/stream.go: the buffer and the calls. JsonStream/Text: stream_string.go.
--                   JsonStream/Refines, Calls, Text/Escaped and Text/Literal have the proofs. The
--                   io.Writer is a parameter: a state, a function for Write and what io.Writer
--                   documents of it.
--   PairSet         graphql/internal/validator/conflict_fragment_pair_set.go, by which the rule on
--                   overlapping fields remembers the pairs that it compared.
--   OperationCache  graphql/handler/operation_cache.go: the cache of prepared operations with its list of
--                   entries and their allocator. The bit set of another package is a parameter, with
--                   what its documentation says of it. OperationCache/Shared, Refines and Calls have
--                   the proofs.
--   Executor        graphql/executor. Executor/ResultNode: the nodes of the result and Path, with the
--                   proofs in ResultNode/Follow. Executor/Errors: AppendError, propagateExecutionError
--                   and handleNodeError, with the proofs in Errors/Propagation. Executor/Collect:
--                   buildChildExecutionNodesForSelectionSet and what it calls; Collect/Spec is the
--                   CollectFields of the GraphQL specification, Collect/Spec/Simulates, Sets and Returning,
--                   Collect/Build, Nodes and Grouped have the proofs. The values of arguments and the types
--                   that a name stands for are parameters.
--                   Executor/Prepare: Prepare, which picks the operation, with the panic on a name that is left out; the proofs are in Prepare/Selects.
--   DataLoader      dataloader: tasks, futures and wakers, the queue, the cache and the jobs.
--                   DataLoader/Batches: the batches of a queue. DataLoader/Wakes and its children have
--                   the proofs on the wakers. The batch loader is a parameter.
--   StateWord       concurrent/worker_pool_executor.go: the state word of the executor, as 64 bits.
--                   StateWord/Bits and Parts have the proofs.
--   TaskQueue       concurrent/worker_pool_executor.go: the queue of tasks as a circular list. TaskQueue/Calls:
--                   calls in a row, and the list that the queue stands for. TaskQueue/Ring, Members,
--                   Calls/Polls, Removes, Refines and Wakes have the proofs.
--   WorkerPool      concurrent/worker_pool_executor.go: the executor, its workers and the goroutines
--                   that call it, as a step relation over the queue of TaskQueue/Calls. WorkerPool/Invariant:
--                   the invariant; Effects, Covered, Moves, Kept, Stable and Runs have the proofs.
--   Types           graphql/types.go and type_comparators.go. Types/Covariance: types as sets of values.
--   Coercion        graphql/typeutil/coercion_helper.go, and the coercer of Int in graphql/scalars.go.
--                   Floats, their conversions and strconv.ParseInt are parameters. Coercion/Int: the
--                   proofs.
--   Validator       graphql/validator/rules/variables_in_allowed_position.go, which asks
--                   graphql/type_comparators.go, with the proofs in Validator/Positions. Validator/Fragments: the
--                   rule on unused fragments, with the marks of validation_context.go; Fragments/Spec
--                   says which fragments a document leads to, Scans, Sizes, Marks and Unused have the
--                   proofs.
--   Tests           runs at concrete inputs.
--
-- A handler that changes the lexer takes a Lexer and returns the new one; the links Prev and Next
-- between tokens are a list behind the current token and an option ahead of it. Bytes are numbers
-- of ℕ in a list, positions are numbers of ℕ. A source longer than the machine's int is not
-- modelled, so positions do not wrap.
--
-- Fuel: a loop of the lexer over the body takes the bytes that are left, or that and a few more,
-- since each round but the last takes a byte. `Lookahead` takes three more than the size of the
-- body: each round takes a token, and only the start and the end of the file take no byte. The
-- parser takes as much for its loops and its recursion, since each level and each item takes a
-- token.
--
-- The loops of jsonwriter go through the string. The slow path of WriteString takes a round for
-- each byte at most, and has as many as there are bytes left.
--
-- Executor/ResultNode and Executor/Errors: a round goes to the parent, and the fuel is the
-- number of ancestors at least. Executor/Collect: a round of the loops takes a selection; the
-- specification's recursion takes as much fuel as the document has fragments, since it takes
-- each once. The marks of Validator/Fragments take a round for a selection set, and have as many
-- as the fragments have selections. A pointer to a node, an error, a task or an entry of a list is a
-- number, and what it points to is in a store.
--
-- The search of TaskQueue's Remove takes a round for each task. In WorkerPool a step is one access to
-- shared memory, and goroutines take turns in any order; SetRunState's loop is one step, and a task
-- that runs is one too.
--
-- dataloader and graphql/handler are modelled one call after the other: the steps of one call are
-- not interleaved with those of another goroutine.
--
-- Not modelled: the validator but for the files above, schemas and the coercion of values but
-- for Int, the completion of values in the executor, which goes by reflection over the types of
-- Go, and its tasks that wait; the HTTP handler; a data loader's Runner; the
-- results of the worker pool's tasks, and futures but for those of dataloader; the parts of
-- token and ast that print; numbers, floats and values by reflection in jsonwriter; a nil source;
-- memory and the unsafe conversions between strings and bytes.
pub mod Ast
pub mod BlockString
pub mod Coercion
pub mod DataLoader
pub mod Executor
pub mod JsonStream
pub mod Lexer
pub mod OperationCache
pub mod PairSet
pub mod Parser
pub mod Prelude
pub mod StateWord
pub mod TaskQueue
pub mod Tests
pub mod Token
pub mod Types
pub mod Utf8
pub mod Validator
pub mod WorkerPool
