-- ===== src/Pipeline.antt =====
-- analysis/pipeline: steps and their results, the order of a run, and its execution.
pub mod Steps
pub mod Order
pub mod Executor
pub mod Write
pub mod Registry
mod Examples
