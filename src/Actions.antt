-- ===== src/Actions.antt =====
-- Automatic response: what may be sent to an agent, its life cycle, and the task that sends it.
pub mod Kinds
pub mod Targets
pub mod TargetSafety
pub mod Deployment
pub mod Modes
pub mod Store
pub mod Lifecycle
mod Tests
