-- ===== src/Sigma.antt =====
-- rule_engine: the Sigma rules, their matching and the runner with its sliding window and cooldown.
pub mod Values
pub mod Conditions
pub mod Rule
pub mod Runner
pub mod FailClosed
pub mod Exclusion
pub mod Storm
mod Tests
