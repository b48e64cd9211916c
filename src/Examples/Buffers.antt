-- ===== src/Examples/Buffers.antt =====
-- Store buffers of core 0 on three fresh cores.
use mesi_cache_coherence.Common.{
  ◌≡◌, refl, List, [], ◌∷◌, none, some, ok, err, out_of_range, invalid_argument, pos, negsuc, arith,
  Returns,
}
use mesi_cache_coherence.System
use mesi_cache_coherence.Bus
use mesi_cache_coherence.Refinement.Runs.{init-Represents}
use mesi_cache_coherence.StoreBuffer.{
  DrainMode, fifo, relaxed, StoreBuffer, load, mfence, drain_all, create, checked_depth,
}
use mesi_cache_coherence.StoreBuffer.View.{store_all}
use mesi_cache_coherence.StoreBuffer.Operations.{Ready, Leaves}
use mesi_cache_coherence.StoreBuffer.Guarantees.{load-Returns, mfence-Returns}
use mesi_cache_coherence.StoreBuffer.Drains.{Ends, Emptied, drain_all-Emptied, drain_all-fifo}
use mesi_cache_coherence.StoreBuffer.Programs.{
  Sees, SbOp, store_op, load_op, drain, fence, sb_program, flat_program, sb_program-flat,
}
use mesi_cache_coherence.StoreBuffer.Reorder.{entry, Settled, drain_all-reorders}
use mesi_cache_coherence.Examples.Setup.{rotating, system_of, init_three}

-- Two stores to one address; the engine's next number is 7.
abbrev buffer : DrainMode → StoreBuffer
buffer mode = record {
  core = 0;
  depth = 2;
  mode = mode;
  rng = 7;
  buf = entry 0x100 1 ∷ entry 0x100 2 ∷ [];
  hits = 0;
  drained = 0;
}

ready : (mode : DrainMode) → Ready 3 (λ _. 0) (buffer mode) (system_of 3)
ready mode = record { memory = init-Represents init_three; there = omega arith }

load-Returns_example :
    Returns
      (load 0x100 (buffer fifo) (system_of 3))
      (λ p. Leaves 3 (λ _. 0) (buffer fifo).buf (buffer fifo) (p.0, p.1) × (p.2 ≡ 2))
unfolding store_all
load-Returns_example = load-Returns (ready fifo) 0x100

mfence-Returns_example :
    Returns
      (mfence (buffer relaxed) (system_of 3))
      (Leaves 3 (store_all (buffer relaxed).buf (λ _. 0)) [] (buffer relaxed))
mfence-Returns_example = mfence-Returns (ready relaxed)

drain_all-Emptied_example :
    Ends (drain_all (buffer relaxed) (system_of 3)) (Emptied 3 (buffer relaxed))
drain_all-Emptied_example = drain_all-Emptied (buffer relaxed) (system_of 3) (ready relaxed)

drain_all-fifo_example :
    Ends
      (drain_all (buffer fifo) (system_of 3))
      (Leaves 3 (store_all (buffer fifo).buf (λ _. 0)) [] (buffer fifo))
drain_all-fifo_example = drain_all-fifo (buffer fifo) (system_of 3) (ready fifo) refl

drain_all-reorders_example : Ends (drain_all (buffer relaxed) (system_of 3)) (Settled 3 0x100 1)
drain_all-reorders_example =
    drain_all-reorders (buffer relaxed) (system_of 3) 0x100 1 2 (ready relaxed) refl refl refl

seen : Sees 3 (store_all (buffer fifo).buf (λ _. 0)) (buffer fifo, system_of 3)
seen = record {
  flat = λ _. 0;
  ready = ready fifo;
  view = refl;
  bounded = omega arith;
  in_order = refl;
}

abbrev program : List SbOp
program = load_op 0x100 ∷ store_op 0x104 5 ∷ drain ∷ load_op 0x100 ∷ fence ∷ load_op 0x104 ∷ []

sb_program-flat_example :
    sb_program program (buffer fifo, system_of 3)
    ≡ ok (some 2 ∷ none ∷ none ∷ some 2 ∷ none ∷ some 5 ∷ [])
unfolding flat_program store_all
sb_program-flat_example = sb_program-flat program seen

-- The constructor refuses a null system, a core that is not there, and a depth that is not positive.
create_refuses :
    (create none (pos 0) (pos 8) fifo 0 ≡ err invalid_argument)
    × (create (some (system_of 3)) (pos 3) (pos 8) fifo 0 ≡ err out_of_range)
    × (create (some (system_of 3)) (negsuc 0) (pos 8) fifo 0 ≡ err out_of_range)
    × (create (some (system_of 3)) (pos 2) (pos 0) fifo 0 ≡ err invalid_argument)
unfolding create checked_depth System.validate_core Bus.init
create_refuses = (refl, refl, refl, refl)
