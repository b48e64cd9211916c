-- ===== src/Refinement/Steps.antt =====
-- A predicate of the bus after a call, from the predicate after what the core's controller does. It has
-- to hold on when a word is put.
use mesi_cache_coherence.Common.{ℕ, Bool-cases, inl, inr, ◌==◌}
use mesi_cache_coherence.Cache.{put_word}
use mesi_cache_coherence.Bus.{RandomEngine, SnoopingBus, on_controller}
use mesi_cache_coherence.Controller.{processor_read, acquire_exclusive, processor_write}
use mesi_cache_coherence.System.{
  MesiSystem, locked_read, locked_write, locked_acquire, locked_put, locked_cas, locked_add,
}
use mesi_cache_coherence.Refinement.Locked.{bus-log}

module _ ⦃std : RandomEngine⦄ (P : SnoopingBus → Type 0) (core addr : ℕ) (s : MesiSystem) where
  pub after_read : P (processor_read core addr s.bus).0 → P (locked_read core addr s).0.bus
  unfolding locked_read
  after_read h = rw (bus-log core _ addr _ _) h

  module _
      (put : (value : ℕ) (b : SnoopingBus) → P b → P (on_controller core (put_word addr value) b))
      (h : P (acquire_exclusive core addr s.bus).0) where
    pub after_write : (value : ℕ) → P (locked_write core addr value s).bus
    unfolding locked_write processor_write
    after_write value = rw (bus-log core _ addr value _) (put value _ h)

    after_acquire : P (locked_acquire core addr s).0.bus
    unfolding locked_acquire
    after_acquire = rw (bus-log core _ addr _ _) h

    after_put : (value : ℕ) → P (locked_put core addr value (locked_acquire core addr s).0).bus
    unfolding locked_put
    after_put value = rw (bus-log core _ addr value _) (put value _ after_acquire)

    pub after_cas : (expected new_val : ℕ) → P (locked_cas core addr expected new_val s).0.bus
    unfolding locked_cas
    after_cas expected new_val = elim (Bool-cases ((locked_acquire core addr s).1 == expected)) [
      | inl same ↦ simp same (after_put new_val)
      | inr other ↦ simp other after_acquire
    ]

    pub after_add : (delta : ℕ) → P (locked_add core addr delta s).0.bus
    unfolding locked_add
    after_add delta = after_put _
