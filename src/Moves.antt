-- ===== src/Moves.antt =====
-- The judgement of single moves: blunder_tutor/analysis/ and its pipeline steps move_quality and phase.
pub mod Floats
pub mod Classifier
pub mod Quality
pub mod Phase
pub mod Filtering
mod Examples
