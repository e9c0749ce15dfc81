-- ===== src/Background.antt =====
-- blunder_tutor/background/scheduler.py: the ticks that ask for synchronisations.
pub mod Scheduler
mod Examples
