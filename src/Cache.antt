-- ===== src/Cache.antt =====
-- The response cache, blunder_tutor/cache/.
pub mod Backend
pub mod Decorator
pub mod Invalidation
mod Examples
