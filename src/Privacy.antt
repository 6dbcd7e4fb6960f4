-- ===== src/Privacy.antt =====
-- packages/privacy: the rights of data subjects.
pub mod Response
pub mod Executor
pub mod Coverage
pub mod Lifecycle
