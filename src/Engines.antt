-- ===== src/Engines.antt =====
-- blunder_tutor/analysis/engine_pool.py: the engines and the queue of their tasks.
pub mod Pool
mod Examples
