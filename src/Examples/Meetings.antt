-- ===== src/Examples/Meetings.antt =====
-- Three threads at a barrier, and two readers with a reclaimer at hazard pointers.
use mesi_cache_coherence.Common.{
  ℕ, ◌≤◌, ◌≡◌, ◌≢◌, refl, List, [], ◌∷◌, ◌++◌, arith, pos, false, err, negsuc, invalid_argument,
  out_of_range,
}
use mesi_cache_coherence.System.{MesiSystem}
use mesi_cache_coherence.Threads.{Event, turn, other, plays, play}
use mesi_cache_coherence.Threads.Protocol.{all_avoid}
use mesi_cache_coherence.Refinement.Serve.{run}
use mesi_cache_coherence.Refinement.Flat
use mesi_cache_coherence.Primitives.Barrier
use mesi_cache_coherence.Primitives.Barrier.{
  Barrier, BarrierPc, arriving, waiting, resetting, releasing, barrier, flip,
}
use mesi_cache_coherence.Primitives.Barrier.Episodes.{entered, returned}
use mesi_cache_coherence.Primitives.Barrier.Calls
use mesi_cache_coherence.Primitives.Barrier.Guarantees.{nobody_ahead}
use mesi_cache_coherence.Primitives.HazardDomain
use mesi_cache_coherence.Primitives.HazardDomain.{
  HazardDomain, HazardPc, loading, guarding, scanning, scanned, hazard_pointers, slot, scan_on,
  create, validate_tid,
}
use mesi_cache_coherence.Primitives.HazardDomain.Slots
use mesi_cache_coherence.Primitives.HazardDomain.Scan.{guards}
use mesi_cache_coherence.Primitives.HazardDomain.Guarantees.{starting, unhazarded, slots_differ}
use mesi_cache_coherence.Examples.Setup.{rotating, system_of, init_three, after}

abbrev meeting : Barrier
meeting = record { count_addr = 0x100; sense_addr = 0x140; n = 3 }

meeting-IsApart : Calls.IsApart meeting
meeting-IsApart = record { two = λ e. omega arith; small = omega arith }

-- Cores 0 and 1 come and wait; core 2 comes, resets and releases; core 0 sees it and comes again.
abbrev met : List Event
met = turn 0 ∷ turn 1 ∷ turn 0 ∷ turn 2 ∷ turn 2 ∷ turn 2 ∷ turn 2 ∷ turn 0 ∷ turn 0 ∷ []

abbrev opened : MesiSystem
opened = (run (Barrier.init meeting (record { core = 0 })) (system_of 3)).0

unfoldable meeting_after : List Event → ℕ → BarrierPc
unfolding after plays play Barrier.request Barrier.resume Barrier.init flip
meeting_after es = (plays (barrier meeting) es opened (λ _. arriving 0 0)).1

met_states :
    (meeting_after met 0 ≡ waiting 1 0)
    × (meeting_after met 1 ≡ waiting 0 1)
    × (meeting_after met 2 ≡ arriving 1 1)
unfolding meeting_after
met_states = (refl, refl, refl)

nobody_ahead_example :
    let pcs = (plays (barrier meeting) met opened (λ _. arriving 0 0)).1 in
    returned (pcs 0) ≤ entered (pcs 1)
unfolding all_avoid
nobody_ahead_example =
    nobody_ahead meeting meeting-IsApart (system_of 3) init_three 0 (omega arith) met refl 0 1
      (omega arith) (omega arith)

abbrev domain : HazardDomain
domain = record { hazard_base = 0x200; n_threads = 3 }

domain-IsApart : Slots.IsApart domain 0x100
domain-IsApart = record { below = omega arith; outside = refl }

-- The pointer is 0x500 when core 1 protects and releases it; then it is set to 0x600.
abbrev until_unlinked : List Event
until_unlinked =
    other (Flat.write (pos 2) 0x100 0x500)
    ∷ turn 1
    ∷ turn 1
    ∷ turn 1
    ∷ turn 1
    ∷ turn 1
    ∷ other (Flat.write (pos 2) 0x100 0x600)
    ∷ []

-- Core 2 scans for 0x500 while core 1 protects what the pointer is now.
abbrev scan : List Event
scan = turn 2 ∷ turn 1 ∷ turn 1 ∷ turn 2 ∷ turn 1 ∷ turn 1 ∷ turn 2 ∷ []

unfoldable hazards_after : List Event → ℕ → HazardPc
unfolding after plays play HazardDomain.request HazardDomain.resume slot scan_on starting
hazards_after es = (plays (hazard_pointers domain 0x100) es (system_of 3) (starting 2 0x500)).1

hazards_seen :
    (hazards_after (until_unlinked ++ scan) 1 ≡ guarding 1 0x600)
    × (hazards_after (until_unlinked ++ scan) 2 ≡ scanned 0x500 false)
unfolding hazards_after
hazards_seen = (refl, refl)

unhazarded_example :
    let (s, pcs) =
      plays (hazard_pointers domain 0x100) until_unlinked (system_of 3) (starting 2 0x500) in
    guards 0x500 ((plays (hazard_pointers domain 0x100) scan s pcs).1 1) ≡ false
unfolding hazards_after all_avoid
unhazarded_example =
    unhazarded domain 0x100 domain-IsApart (system_of 3) init_three 2 0x500 (omega arith)
      until_unlinked refl scan refl refl (λ e. ground (arith, e)) refl 1 (omega arith)

domain_errors :
    (create 0x200 (pos 0) ≡ err invalid_argument)
    × (validate_tid domain (pos 3) ≡ err out_of_range)
    × (validate_tid domain (negsuc 0) ≡ err out_of_range)
unfolding create validate_tid
domain_errors = (refl, refl, refl)

slots_differ_example : slot domain 1 ≢ slot domain 2
unfolding create validate_tid
slots_differ_example =
    slots_differ 0x200 (pos 3) {h = domain} (pos 1) (pos 2) refl (omega arith) refl refl (λ e. cc)
