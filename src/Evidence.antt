-- ===== src/Evidence.antt =====
-- evidence.py: the store of evidence bundles, signed with keys that can be rotated.
pub mod Store
pub mod Signatures
pub mod Rotation
mod Tests
