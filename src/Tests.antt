-- ===== src/Tests.antt =====
-- Runs of the modelled code at concrete inputs, and the theorems applied there.
mod LexerRuns
mod ParserRuns
mod JsonRuns
mod BlockRuns
mod SourceRuns
mod PairRuns
mod QueueRuns
mod CacheRuns
mod ExecutorRuns
mod CollectRuns
mod LoaderRuns
mod TypeRuns
mod CoercionRuns
mod FragmentRuns
