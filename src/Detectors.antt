-- ===== src/Detectors.antt =====
-- detectors: what looks for attacks in the events of the agents.
pub mod Ssh
pub mod SshStorm
pub mod Runner
pub mod Web
pub mod WebStorm
pub mod Rows
pub mod Acks
mod Tests
mod WebTests
