-- ===== src/Executor.antt =====
-- graphql/executor: the execution of an operation.
pub mod ResultNode
pub mod Errors
pub mod Collect
pub mod Prepare
