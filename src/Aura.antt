-- ===== src/Aura.antt =====
-- AURA, the agent of the system: src/aura of the repository.
pub mod Memory
