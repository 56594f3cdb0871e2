-- ===== src/Stream.antt =====
-- api/v1/stream.py: the WebSocket of the agents.
pub mod Frames
pub mod Session
pub mod Authentication
pub mod Eviction
pub mod Effects
pub mod Flood
mod Tests
