-- ===== src/Primitives/HazardDomain/Guarantees.antt =====
-- What hazard pointers promise to a thread that is about to free an object.
use mesi_cache_coherence.Common.{
  ℕ, ◌<◌, ◌≤◌, ◌≡◌, ◌≢◌, refl, sym, ap, ◌∙◌, true, false, ◌==◌, if◌then◌else◌, arith, List, length,
  pos, ok, subst, Bool-cases, inl, inr, ℤ, negsuc, ◌+◌, ◌*◌, ◌^◌,
}
use mesi_cache_coherence.Bus.{RandomEngine}
use mesi_cache_coherence.System.{MesiSystem}
use mesi_cache_coherence.System
use mesi_cache_coherence.Refinement.Runs.{init-Represents}
use mesi_cache_coherence.Refinement.Locked.{read-Represents}
use mesi_cache_coherence.Threads.{Event, plays}
use mesi_cache_coherence.Threads.Protocol.{Reached, plays-Reached, all_avoid}
use mesi_cache_coherence.Primitives.HazardDomain.{
  HazardDomain, HazardPc, loading, scanning, scanned, hazard_pointers, create, validate_tid, slot,
}
use mesi_cache_coherence.Primitives.HazardDomain.Slots.{IsApart, SlotInv, slot-Protocol}
use mesi_cache_coherence.Primitives.HazardDomain.Slots
use mesi_cache_coherence.Primitives.HazardDomain.Scan
use mesi_cache_coherence.Primitives.HazardDomain.Scan.{guards, ScanOk, ScanInv, scan-Protocol}

-- Thread `w` scans for `p`, all others are readers.
unfoldable pub starting : ℕ → ℕ → ℕ → HazardPc
starting w p c = if c == w then scanning p 0 else loading c

starting-SlotInv : (h : HazardDomain) (w p : ℕ) → SlotInv h 0 (λ _. 0) (starting w p)
unfolding starting
starting-SlotInv h w p = record {
  slotted = λ c lt. elim (Bool-cases (c == w)) [
    | inl scans ↦ rw scans (omega (arith, lt))
    | inr reads ↦ rw reads refl
  ];
}

module _ ⦃std : RandomEngine⦄ (h : HazardDomain) (ptr_addr : ℕ) (apart : IsApart h ptr_addr)
    (s : MesiSystem) (fresh : System.init (pos h.n_threads) ≡ ok s) (w p : ℕ)
    (there : w < h.n_threads) (es : List Event)
    (slots_avoided : all_avoid (Slots.region h) es ≡ true) where
  abbrev unlinked : MesiSystem × (ℕ → HazardPc)
  unlinked = plays (hazard_pointers h ptr_addr) es s (starting w p)

  unlinked-SlotInv :
      (t' : ℕ) × Reached (slot-Protocol h ptr_addr apart (length es)) t' unlinked.0 unlinked.1
  unlinked-SlotInv =
      plays-Reached (slot-Protocol h ptr_addr apart (length es)) es 0 s (starting w p) (omega arith)
        slots_avoided
        (record { flat = λ _. 0; memory = init-Represents fresh; inv = starting-SlotInv h w p })

  -- Readers on a fresh system protect and release in any schedule, and other calls, that write no
  -- slot, change the shared pointer as they like; the slots do not wrap around the address space,
  -- and the pointer is none of them. From a moment at which the pointer is not `p` and thread `w`
  -- starts to scan for `p`, no other call writes the pointer or a slot. If the scan then finds `p`
  -- not hazarded, no reader has `p` from `protect` without having released it.
  pub unhazarded :
      (later : List Event)
      → all_avoid (Scan.region h ptr_addr) later ≡ true
      → unlinked.1 w ≡ scanning p 0
      → (System.locked_read w ptr_addr unlinked.0).1 ≢ p
      → (plays (hazard_pointers h ptr_addr) later unlinked.0 unlinked.1).1 w ≡ scanned p false
      → (c : ℕ) → c < h.n_threads
      → guards p ((plays (hazard_pointers h ptr_addr) later unlinked.0 unlinked.1).1 c) ≡ false
  unhazarded later avoided begins gone ends c lt =
      let (_, r) = unlinked-SlotInv in
      let start : ScanInv h ptr_addr p w 0 r.flat unlinked.1 = record {
        slots = record { slotted = r.inv.slotted };
        gone = λ e. gone ((read-Represents r.memory w ptr_addr there).1 ∙ e);
        scan = rw begins (λ e i low. absurd (omega (arith, low)));
      } in
      let (_, r') =
        plays-Reached (scan-Protocol h ptr_addr apart p w there (length later)) later 0 unlinked.0
          unlinked.1 (omega arith) avoided
          (record { flat = r.flat; memory = r.memory; inv = start }) in
      let found : ScanOk h p _ (scanned p false) = subst (ScanOk h p _) ends r'.inv.scan in
      found refl c lt

validate_tid-ok :
    (h : HazardDomain) (tid : ℤ) (k : ℕ)
    → validate_tid h tid ≡ ok k
    → (tid ≡ pos k) × (k < h.n_threads)
unfolding validate_tid
validate_tid-ok h (negsuc j) k e = absurd (ground (arith, e))
validate_tid-ok h (pos j) k e = (ground (arith, e), ground (arith, e))

-- In a domain that the constructor accepts, whose slots do not wrap around the address space, two
-- different thread ids that pass validation have different slots.
pub slots_differ :
    (base : ℕ) (threads : ℤ) {h : HazardDomain} (i j : ℤ) {k k' : ℕ}
    → create base threads ≡ ok h
    → h.hazard_base + 4 * h.n_threads ≤ 2 ^ 32
    → validate_tid h i ≡ ok k
    → validate_tid h j ≡ ok k'
    → i ≢ j
    → slot h k ≢ slot h k'
unfolding slot
slots_differ base threads {h} i j {k} {k'} made below hi hj differ same =
    let (ei, li) = validate_tid-ok h i k hi in
    let (ej, lj) = validate_tid-ok h j k' hj in
    let equal : k ≡ k' = omega (arith, same, below, li, lj) in differ (ei ∙ ap pos equal ∙ sym ej)
