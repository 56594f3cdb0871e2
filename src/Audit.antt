-- ===== src/Audit.antt =====
-- audit.py: the trail of the operators' actions, kept in memory and in a file for each day.
pub mod Log
pub mod Ring
pub mod Opening
pub mod Lines
mod Tests
