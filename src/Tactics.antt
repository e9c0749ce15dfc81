-- ===== src/Tactics.antt =====
-- blunder_tutor/analysis/tactics.py: tactical patterns of a move and of a position.
pub mod Board
pub mod Fork
pub mod Pins
pub mod Lines
pub mod Threats
pub mod Blunder
mod Examples
