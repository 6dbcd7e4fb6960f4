-- ===== src/Scim.antt =====
-- packages/scim/src/index.ts: what a request of a directory means for the users of a tenant.
pub mod Types
pub mod Create
pub mod Patch
pub mod Roles
pub mod Filter
pub mod Paging
unfoldable pub use Types.*
