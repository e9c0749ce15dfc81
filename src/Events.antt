-- ===== src/Events.antt =====
-- events: event types and their factories, the in-memory bus, and the coalescer before the websocket.
pub mod Types
pub mod Bus
pub mod Coalescing
mod Examples
