-- ===== src/Auth.antt =====
-- The authentication library, blunder_tutor/auth/.
pub mod Types
pub mod Tables
pub mod Policies
pub mod Service
mod Examples
