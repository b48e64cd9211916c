-- ===== src/Examples/Protocol.antt =====
-- The refinement of the flat memory, at concrete calls.
use mesi_cache_coherence.Common.{
  ◌≡◌, refl, true, false, List, [], ◌∷◌, arith, ok, err, out_of_range, pos,
}
use mesi_cache_coherence.Types.{I, S, M}
use mesi_cache_coherence.Memory
use mesi_cache_coherence.Cache.{peek}
use mesi_cache_coherence.System.{enable_race_injection}
use mesi_cache_coherence.Coherence.Defs.{state_at}
use mesi_cache_coherence.Refinement.Flat.{
  Request, read, write, cas, fetch_and_add, done, word, swapped, flat_run,
}
use mesi_cache_coherence.Refinement.Serve.{run}
use mesi_cache_coherence.Refinement.Guarantees.{
  run-refines, run_race, single_writer, copies_agree, memory_agrees,
}
use mesi_cache_coherence.Examples.Setup.{rotating, system_of, after, init_two, init_three}

-- A write, a read by the other core, a swap that succeeds, one that fails, and a core too many.
abbrev pub calls : List Request
calls =
    write (pos 0) 0x100 5
    ∷ read (pos 1) 0x100
    ∷ cas (pos 1) 0x100 5 7
    ∷ cas (pos 0) 0x104 1 2
    ∷ fetch_and_add (pos 0) 0x100 0xffffffff
    ∷ read (pos 2) 0x100
    ∷ []

run-refines_example :
    (run calls (system_of 2)).1
    ≡ ok done
      ∷ ok (word 5)
      ∷ ok (swapped 5 true)
      ∷ ok (swapped 0 false)
      ∷ ok (word 7)
      ∷ err out_of_range
      ∷ []
unfolding flat_run
run-refines_example = run-refines 2 (system_of 2) init_two calls

run_race_example :
    (run calls (enable_race_injection 7 (system_of 2))).1 ≡ (run calls (system_of 2)).1
run_race_example = run_race 2 (system_of 2) init_two calls 7

-- Core 1 shares the line that core 0 has written; core 2 takes it for itself.
abbrev pub sharing : List Request
sharing = write (pos 0) 0x100 5 ∷ read (pos 1) 0x104 ∷ []

abbrev taken : List Request
taken = write (pos 0) 0x100 5 ∷ read (pos 1) 0x104 ∷ write (pos 2) 0x108 9 ∷ []

run_states :
    (state_at (after sharing) 0 0x100 ≡ S)
    × (state_at (after sharing) 1 0x100 ≡ S)
    × (state_at (after taken) 1 0x100 ≡ I)
    × (state_at (after taken) 2 0x100 ≡ M)
unfolding after
run_states = (refl, refl, refl, refl)

single_writer_example : state_at (run taken (system_of 3)).0.bus 1 0x100 ≡ I
unfolding after
single_writer_example = single_writer 3 (system_of 3) init_three taken 2 1 0x100 (omega arith) refl

copies_agree_example :
    peek ((run sharing (system_of 3)).0.bus.controllers 0) 0x100
    ≡ peek ((run sharing (system_of 3)).0.bus.controllers 1) 0x100
unfolding after
copies_agree_example = copies_agree 3 (system_of 3) init_three sharing 0 1 0x100 (λ e. cc) (λ e. cc)

memory_agrees_example :
    Memory.read (run sharing (system_of 3)).0.bus.mem 0x100
    ≡ peek ((run sharing (system_of 3)).0.bus.controllers 0) 0x100
unfolding after
memory_agrees_example = memory_agrees 3 (system_of 3) init_three sharing 0 0x100 (λ e. cc) (λ e. cc)
