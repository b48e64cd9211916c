-- ===== src/Coherence.antt =====
-- The coherence of the caches: what each operation changes, the invariant, and its preservation.
pub mod Effects
pub mod SnoopEffects
pub mod Defs
pub mod SnoopStep
pub mod Broadcast
pub mod Lines
pub mod Requests
pub mod Processor
