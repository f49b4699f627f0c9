-- ===== src/Models.antt =====
-- The models of the agent: src/models of the repository.
pub mod Manager
