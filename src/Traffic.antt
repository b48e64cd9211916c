-- ===== src/Traffic.antt =====
-- The performance counters of the bus: what the operations of model/cache_controller.cpp send over
-- it.
pub mod Counters
mod Accounting
mod Lookups
pub mod Accesses
pub mod Guarantees
