-- ===== src/Primitives.antt =====
-- primitives/: the synchronisation primitives as threads that share the coherent memory.
pub mod TasLock
pub mod TicketLock
pub mod Seqlock
pub mod LockFreeStack
pub mod Barrier
pub mod HazardDomain
