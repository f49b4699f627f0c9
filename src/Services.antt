-- ===== src/Services.antt =====
-- The services: src/services of the repository.
pub mod Manager
pub mod HealthMonitor
pub mod JobQueue
pub mod Registry
pub mod Storage
pub mod Logging
pub mod Packages
