-- ===== src/Trace.antt =====
-- model/trace.hpp: the events of the operation trace.
use mesi_cache_coherence.Common.{ℕ, List}

pub data OpType : Type 0 where
  read_op write_op : OpType

pub record TraceEvent : Type 0 where
  pub core_id : ℕ
  pub op : OpType
  pub addr : ℕ
  pub value : ℕ
  pub timestamp : ℕ
  pub program_idx : ℕ

abbrev pub Trace : Type 0
Trace = List TraceEvent
