-- ===== src/Primitives/HazardDomain/Scan.antt =====
-- A scan for a pointer that is no longer shared.
use mesi_cache_coherence.Common.{
  ℕ, ◌+◌, ◌<◌, ◌≡◌, ◌≢◌, refl, sym, ◌∙◌, Bool, true, false, ◌==◌, ◌||◌, ltb, arith, update,
  Bool-cases, inl, inr, ne→beq, beq→eq, subst,
}
use mesi_cache_coherence.Dut.{Dut}
use mesi_cache_coherence.Refinement.Flat.{apply}
use mesi_cache_coherence.Threads.Protocol.{Protocol}
use mesi_cache_coherence.Primitives.HazardDomain.{
  HazardDomain, HazardPc, loading, publishing, fencing, checking, guarding, scanning, scanned, slot,
  request, resume, scan_on, hazard_pointers,
}
use mesi_cache_coherence.Primitives.HazardDomain.Slots.{
  IsApart, Slotted, SlotInv, Slotted-next, move-SlotInv, frame-SlotInv, own,
}
use mesi_cache_coherence.Primitives.HazardDomain.Slots

-- The slots and the shared pointer.
abbrev pub region : HazardDomain → ℕ → ℕ → Bool
region h ptr_addr a = a == ptr_addr || Slots.region h a

-- The thread has `p` from `protect` and has not released it.
abbrev pub guards : ℕ → HazardPc → Bool
guards p (loading tid) = false
guards p (publishing tid q) = false
guards p (fencing tid q) = false
guards p (checking tid q) = false
guards p (guarding tid q) = q == p
guards p (scanning ptr t) = false
guards p (scanned ptr hazarded) = false

abbrev pub Clear : ℕ → ℕ → (ℕ → HazardPc) → Type 0
Clear p k pcs = (c : ℕ) → c < k → guards p (pcs c) ≡ false

-- What a scan for `p` has found out.
abbrev pub ScanOk : HazardDomain → ℕ → (ℕ → HazardPc) → HazardPc → Type 0
ScanOk h p pcs (scanning ptr t) = ptr ≡ p → Clear p t pcs
ScanOk h p pcs (scanned ptr false) = ptr ≡ p → Clear p h.n_threads pcs
ScanOk h p pcs (scanned ptr true) = Unit
ScanOk h p pcs (loading tid) = Unit
ScanOk h p pcs (publishing tid q) = Unit
ScanOk h p pcs (fencing tid q) = Unit
ScanOk h p pcs (checking tid q) = Unit
ScanOk h p pcs (guarding tid q) = Unit

-- `p` is no longer shared, and thread `w` scans.
pub record ScanInv (h : HazardDomain) (ptr_addr p w t : ℕ) (m : ℕ → ℕ) (pcs : ℕ → HazardPc)
    : Type 0 where
  pub slots : SlotInv h t m pcs
  pub gone : m ptr_addr ≢ p
  pub scan : ScanOk h p pcs (pcs w)

pub ScanOk-map :
    (h : HazardDomain) (p : ℕ) (pcs pcs' : ℕ → HazardPc) (q : HazardPc)
    → ((c : ℕ) → guards p (pcs c) ≡ false → guards p (pcs' c) ≡ false)
    → ScanOk h p pcs q
    → ScanOk h p pcs' q
ScanOk-map h p pcs pcs' (scanning ptr t) f s = λ e c lt. f c (s e c lt)
ScanOk-map h p pcs pcs' (scanned ptr false) f s = λ e c lt. f c (s e c lt)
ScanOk-map h p pcs pcs' (scanned ptr true) f s = tt
ScanOk-map h p pcs pcs' (loading tid) f s = tt
ScanOk-map h p pcs pcs' (publishing tid q) f s = tt
ScanOk-map h p pcs pcs' (fencing tid q) f s = tt
ScanOk-map h p pcs pcs' (checking tid q) f s = tt
ScanOk-map h p pcs pcs' (guarding tid q) f s = tt

-- A slot that does not hold `p` belongs to a thread that does not guard it.
slot-guards :
    (h : HazardDomain) (m : ℕ → ℕ) (c p : ℕ) (q : HazardPc)
    → Slotted h m c q
    → m (slot h c) ≢ p
    → guards p q ≡ false
slot-guards h m c p (loading tid) s out = refl
slot-guards h m c p (publishing tid q) s out = refl
slot-guards h m c p (fencing tid q) s out = refl
slot-guards h m c p (checking tid q) s out = refl
slot-guards h m c p (guarding tid q) s out = ne→beq q p (λ e. out (s.1 ∙ e))
slot-guards h m c p (scanning ptr t) s out = refl
slot-guards h m c p (scanned ptr hazarded) s out = refl

module _ (h : HazardDomain) (ptr_addr p : ℕ) (m : ℕ → ℕ) (d : Dut) (gone : m ptr_addr ≢ p) where
  scan_on-guards : (ptr t v : ℕ) → guards p (scan_on h ptr_addr ptr t v) ≡ false
  unfolding scan_on
  scan_on-guards ptr t v = ground arith

  -- Nobody comes to guard `p`.
  pub guards-next :
      (q : HazardPc)
      → guards p q ≡ false
      → guards p (resume h ptr_addr q (apply (request h ptr_addr d q) m).1) ≡ false
  unfolding request resume apply
  guards-next (loading tid) out = refl
  guards-next (publishing tid q) out = refl
  guards-next (fencing tid q) out = refl
  guards-next (checking tid q) out = ground arith
  guards-next (guarding tid q) out = refl
  guards-next (scanning ptr t) out = scan_on-guards ptr t _
  guards-next (scanned ptr hazarded) out = scan_on-guards ptr 0 _

  module _ (pcs : ℕ → HazardPc) (slotted : (c : ℕ) → c < h.n_threads → Slotted h m c (pcs c)) where
    scan_on-ScanOk :
        (ptr t : ℕ)
        → t < h.n_threads
        → (ptr ≡ p → Clear p t pcs)
        → ScanOk h p pcs (scan_on h ptr_addr ptr t (m (slot h t)))
    unfolding scan_on
    scan_on-ScanOk ptr t lt clear = elim (Bool-cases (m (slot h t) == ptr)) [
      | inl found ↦ rw found tt
      | inr other ↦
          let next : ptr ≡ p → Clear p (t + 1) pcs = λ e c low. elim (Bool-cases (c == t)) [
            | inl last ↦
                rw (beq→eq c t last)
                  (slot-guards h m t p (pcs t) (slotted t lt) (λ k. ground (arith, k, e)))
            | inr before ↦ clear e c (ground arith)
          ] in
          rw other (elim (Bool-cases (ltb (t + 1) h.n_threads)) [
            | inl more ↦ rw more next
            | inr end ↦ rw end (λ e c low. next e c (ground arith))
          ])
    ]

    -- The scanner's own call.
    pub scan-next :
        (q : HazardPc) (w : ℕ)
        → 0 < h.n_threads
        → Slotted h m w q
        → ScanOk h p pcs q
        → ScanOk h p pcs (resume h ptr_addr q (apply (request h ptr_addr d q) m).1)
    unfolding request resume apply
    scan-next (loading tid) w some slot s = tt
    scan-next (publishing tid q) w some slot s = tt
    scan-next (fencing tid q) w some slot s = tt
    scan-next (checking tid q) w some slot s = elim (Bool-cases (m ptr_addr == q)) [
      | inl same ↦ rw same tt
      | inr other ↦ rw other tt
    ]
    scan-next (guarding tid q) w some slot s = tt
    scan-next (scanning ptr t) w some slot s = scan_on-ScanOk ptr t slot s
    scan-next (scanned ptr hazarded) w some slot s =
        scan_on-ScanOk ptr 0 some (λ e c low. absurd (omega (arith, low)))

module _ (h : HazardDomain) (ptr_addr : ℕ) (apart : IsApart h ptr_addr) (p w : ℕ)
    (there : w < h.n_threads) where
  pub move-ScanInv :
      (t : ℕ) (m : ℕ → ℕ) (pcs : ℕ → HazardPc) (c : ℕ)
      → c < h.n_threads
      → ScanInv h ptr_addr p w t m pcs
      → let (m', a) = apply (request h ptr_addr (record { core = c }) (pcs c)) m in
        ScanInv h ptr_addr p w (t + 1) m' (update pcs c (resume h ptr_addr (pcs c) a))
  move-ScanInv t m pcs c lt inv =
      let d : Dut = record { core = c } in
      let p' = resume h ptr_addr (pcs c) (apply (request h ptr_addr d (pcs c)) m).1 in
      let slotted = inv.slots.slotted in
      let (_, _, same) = Slotted-next h ptr_addr apart m c d (pcs c) lt (slotted c lt) in
      let fewer : (e : ℕ) → guards p (pcs e) ≡ false → guards p (update pcs c p' e) ≡ false =
        λ e out. elim (Bool-cases (e == c)) [
          | inl mine ↦
              rw mine (guards-next h ptr_addr p m d inv.gone (pcs c) (rw (beq→eq e c mine) at out))
          | inr other ↦ rw other out
        ] in
      record {
        slots = move-SlotInv h ptr_addr apart t m pcs c lt inv.slots;
        gone = λ e. inv.gone (sym same ∙ e);
        scan = elim (Bool-cases (w == c)) [
          | inl mine ↦ rw mine (
              ScanOk-map h p pcs (update pcs c p') p' fewer (
                scan-next h ptr_addr p m d inv.gone pcs slotted (pcs c) c (omega (arith, there))
                  (slotted c lt) (subst (λ i. ScanOk h p pcs (pcs i)) (beq→eq w c mine) inv.scan)))
          | inr other ↦ rw other (ScanOk-map h p pcs (update pcs c p') (pcs w) fewer inv.scan)
        ];
      }

  pub scan-Protocol :
      (limit : ℕ)
      → Protocol
          (hazard_pointers h ptr_addr)
          h.n_threads
          limit
          (region h ptr_addr)
          (ScanInv h ptr_addr p w)
  scan-Protocol limit = record {
    own = own h ptr_addr apart;
    frame = λ t m m' pcs same inv. record {
      slots =
          frame-SlotInv h ptr_addr apart t m m' pcs (λ a inside. same a (ground (arith, inside)))
            inv.slots;
      gone = λ e. inv.gone (sym (same ptr_addr (ground arith)) ∙ e);
      scan = inv.scan;
    };
    move = λ t m pcs c room lt inv. move-ScanInv t m pcs c lt inv;
  }
