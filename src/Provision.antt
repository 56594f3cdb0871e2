-- ===== src/Provision.antt =====
-- api/v1/agents_provision.py: configuration files and commands for new agents, and their secrets.
pub mod Quoting
pub mod Template
pub mod DryRun
pub mod Install
pub mod Secrets
pub mod Lines
pub mod Config
pub mod Paste
pub mod HereDocument
pub mod Rotation
pub mod Toml
pub mod Shell
mod Tests
