-- ===== src/Examples.antt =====
-- Tests on concrete inputs, and the theorems at inputs that meet their hypotheses.
mod Setup
mod Protocol
mod Consistency
mod Buffers
mod Locks
mod Snapshots
mod Stacks
mod Meetings
mod Counters
mod Driving
mod Counting
mod Litmus
mod Cliff
mod Moves
mod Stress
