-- ===== src/Agent.antt =====
-- The host-orchestrated agent loop: agent.py.
pub mod Json
pub mod PyInt
pub mod Transcript
pub mod Frames
pub mod Bytes
pub mod Decimal
pub mod Clip
pub mod Turn
pub mod Retry
pub mod Schedules
pub mod Forge
pub mod Tools
pub mod Front
pub mod Memory
