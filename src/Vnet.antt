-- ===== src/Vnet.antt =====
-- The virtual network: src/vnet of the repository.
pub mod PeerRegistry
