-- ===== src/Types.antt =====
-- model/mesi_types.hpp: the enumerations, the snoop result and the line geometry.
use mesi_cache_coherence.Common.{ℕ, ◌-◌, ◌%◌, Bool, true, false, ◌||◌}

pub data State : Type 0 where
  I S E M : State

pub data BusTxn : Type 0 where
  no_txn bus_rd bus_rdx bus_upgr bus_wb : BusTxn

pub data PrReq : Type 0 where
  no_req pr_rd pr_wr : PrReq

pub record SnoopResult : Type 0 where
  pub had_copy : Bool
  pub intervened : Bool

abbrev pub no_reply : SnoopResult
no_reply = record { had_copy = false; intervened = false }

-- `operator|=`
abbrev pub or_result : SnoopResult → SnoopResult → SnoopResult
or_result r o = record {
  had_copy = r.had_copy || o.had_copy;
  intervened = r.intervened || o.intervened;
}

abbrev pub line_bytes : ℕ
line_bytes = 64

-- `addr & ~(LINE_BYTES - 1)` clears the six low bits.
unfoldable pub line_of : ℕ → ℕ
line_of addr = addr - addr % line_bytes

-- Tests of a state that the code makes by `==` and `!=`.
abbrev pub is_I : State → Bool
is_I I = true
is_I _ = false

abbrev pub is_M : State → Bool
is_M M = true
is_M _ = false
