-- ===== src/Demo.antt =====
-- The concurrent programs of model/model_main.cpp, with the threads' calls in any order.
pub mod FalseSharing
pub mod ScStress
pub mod LockCounter
pub mod SbLitmus
