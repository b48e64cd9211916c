-- ===== src/Refinement.antt =====
-- The facade of model/mesi_system.hpp against one flat memory.
pub mod Flat
pub mod Serve
pub mod Locked
pub mod Steps
pub mod Runs
pub mod Guarantees
