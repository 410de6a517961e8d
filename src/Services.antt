-- ===== src/Services.antt =====
-- The parts of the framework that network services are built from.
pub mod Allocator
pub mod Config
pub mod Core
pub mod Listeners
pub mod Registry
pub mod ThreadPool
