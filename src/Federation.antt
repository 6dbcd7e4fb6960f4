-- ===== src/Federation.antt =====
-- packages/federation/src/index.ts: whether a signed assertion may log someone in, as whom, and whom
-- a logout ends.
pub mod Types
pub mod Ledger
pub mod Admission
pub mod Identity
pub mod Logout
unfoldable pub use Types.*
