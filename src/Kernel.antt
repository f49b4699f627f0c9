-- ===== src/Kernel.antt =====
-- The kernel of AURA-AIOSCPU (kernel/): one module for each of its parts.
pub mod Permissions
pub mod Override
pub mod Api
pub mod Config
pub mod Mirror
pub mod Modes
pub mod Privilege
pub mod EventBus
pub mod Loop
pub mod Watchdog
pub mod Scheduler
