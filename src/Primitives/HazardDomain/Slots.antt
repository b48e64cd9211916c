-- ===== src/Primitives/HazardDomain/Slots.antt =====
-- The slots of the hazard domain say what its threads guard.
use mesi_cache_coherence.Common.{
  ℕ, ◌+◌, ◌*◌, ◌^◌, ◌≤◌, ◌<◌, ◌≡◌, ◌≢◌, refl, sym, ap, ◌∙◌, Bool, true, false, ◌==◌, ◌&&◌, leb, ltb,
  arith, update, Bool-cases, inl, inr, eq→beq, ne→beq, beq→eq, pos,
}
use mesi_cache_coherence.Dut.{Dut}
use mesi_cache_coherence.Refinement.Flat.{apply, core_of}
use mesi_cache_coherence.Threads.Protocol.{Protocol, SameOn}
use mesi_cache_coherence.Primitives.HazardDomain.{
  HazardDomain, HazardPc, loading, publishing, fencing, checking, guarding, scanning, scanned, slot,
  request, resume, scan_on, hazard_pointers,
}

-- The slots.
abbrev pub region : HazardDomain → ℕ → Bool
region h a = leb h.hazard_base a && ltb a (h.hazard_base + 4 * h.n_threads)

-- The slots do not wrap around the address space, and the shared pointer is none of them.
pub record IsApart (h : HazardDomain) (ptr_addr : ℕ) : Type 0 where
  pub below : h.hazard_base + 4 * h.n_threads ≤ 2 ^ 32
  pub outside : region h ptr_addr ≡ false

-- Thread `c` uses slot `c`, and what it has published and not released stands there.
abbrev pub Slotted : HazardDomain → (ℕ → ℕ) → ℕ → HazardPc → Type 0
Slotted h m c (loading tid) = tid ≡ c
Slotted h m c (publishing tid p) = tid ≡ c
Slotted h m c (fencing tid p) = (tid ≡ c) × (m (slot h c) ≡ p)
Slotted h m c (checking tid p) = (tid ≡ c) × (m (slot h c) ≡ p)
Slotted h m c (guarding tid p) = (tid ≡ c) × (m (slot h c) ≡ p)
Slotted h m c (scanning ptr t) = t < h.n_threads
Slotted h m c (scanned ptr hazarded) = Unit

pub record SlotInv (h : HazardDomain) (t : ℕ) (m : ℕ → ℕ) (pcs : ℕ → HazardPc) : Type 0 where
  pub slotted : (c : ℕ) → c < h.n_threads → Slotted h m c (pcs c)

pub Slotted-frame :
    (h : HazardDomain) (m m' : ℕ → ℕ) (c : ℕ) (p : HazardPc)
    → m' (slot h c) ≡ m (slot h c)
    → Slotted h m c p
    → Slotted h m' c p
Slotted-frame h m m' c (loading tid) same s = s
Slotted-frame h m m' c (publishing tid p) same s = s
Slotted-frame h m m' c (fencing tid p) same s = (s.0, same ∙ s.1)
Slotted-frame h m m' c (checking tid p) same s = (s.0, same ∙ s.1)
Slotted-frame h m m' c (guarding tid p) same s = (s.0, same ∙ s.1)
Slotted-frame h m m' c (scanning ptr t) same s = s
Slotted-frame h m m' c (scanned ptr hazarded) same s = s

module _ (h : HazardDomain) (ptr_addr : ℕ) (apart : IsApart h ptr_addr) where
  pub slot_lem : (c : ℕ) → c < h.n_threads → slot h c ≡ h.hazard_base + 4 * c
  unfolding slot
  slot_lem c lt = omega (arith, apart.below)

  pub slot-ne : (c d : ℕ) → c < h.n_threads → d < h.n_threads → c ≢ d → slot h c ≢ slot h d
  slot-ne c d lc ld differ e = differ (omega (arith, sym (slot_lem c lc) ∙ e ∙ slot_lem d ld))

  pub slot-region : (c : ℕ) → c < h.n_threads → region h (slot h c) ≡ true
  slot-region c lt = rw (slot_lem c lt) (ground arith)

  ptr-ne : (c : ℕ) → c < h.n_threads → ptr_addr ≢ slot h c
  ptr-ne c lt e = ground (arith, apart.outside, ap (region h) e, slot-region c lt)

  scan_on-Slotted : (m : ℕ → ℕ) (c ptr t v : ℕ) → Slotted h m c (scan_on h ptr_addr ptr t v)
  unfolding scan_on
  scan_on-Slotted m c ptr t v = elim (Bool-cases (v == ptr)) [
    | inl found ↦ rw found tt
    | inr other ↦ rw other (elim (Bool-cases (ltb (t + 1) h.n_threads)) [
      | inl more ↦ rw more (ground arith)
      | inr last ↦ rw last tt
    ])
  ]

  -- A thread's call keeps its slot, and touches no other.
  pub Slotted-next :
      (m : ℕ → ℕ) (c : ℕ) (d : Dut) (p : HazardPc)
      → c < h.n_threads
      → Slotted h m c p
      → let (m', a) = apply (request h ptr_addr d p) m in
        Slotted h m' c (resume h ptr_addr p a)
        × ((e : ℕ) → e < h.n_threads → e ≢ c → m' (slot h e) ≡ m (slot h e))
        × (m' ptr_addr ≡ m ptr_addr)
  unfolding request resume apply
  Slotted-next m c d (loading tid) lt s = (s, λ e le other. refl, refl)
  Slotted-next m c d (publishing tid p) lt s = rw s (
    (refl, rw (eq→beq (slot h c) (slot h c) refl) refl),
    λ e le other. rw (ne→beq (slot h e) (slot h c) (slot-ne e c le lt other)) refl,
    rw (ne→beq ptr_addr (slot h c) (ptr-ne c lt)) refl,
  )
  Slotted-next m c d (fencing tid p) lt s = (s, λ e le other. refl, refl)
  Slotted-next m c d (checking tid p) lt s = (
    elim (Bool-cases (m ptr_addr == p)) [ inl same ↦ rw same s | inr other ↦ rw other s.0 ],
    λ e le other. refl,
    refl,
  )
  Slotted-next m c d (guarding tid p) lt s = rw s.0 (
    refl,
    λ e le other. rw (ne→beq (slot h e) (slot h c) (slot-ne e c le lt other)) refl,
    rw (ne→beq ptr_addr (slot h c) (ptr-ne c lt)) refl,
  )
  Slotted-next m c d (scanning ptr t) lt s = (scan_on-Slotted m c ptr t _, λ e le other. refl, refl)
  Slotted-next m c d (scanned ptr hazarded) lt s =
      (scan_on-Slotted m c ptr 0 _, λ e le other. refl, refl)

  pub move-SlotInv :
      (t : ℕ) (m : ℕ → ℕ) (pcs : ℕ → HazardPc) (c : ℕ)
      → c < h.n_threads
      → SlotInv h t m pcs
      → let (m', a) = apply (request h ptr_addr (record { core = c }) (pcs c)) m in
        SlotInv h (t + 1) m' (update pcs c (resume h ptr_addr (pcs c) a))
  move-SlotInv t m pcs c lt inv =
      let d : Dut = record { core = c } in
      let (mine, others, _) = Slotted-next m c d (pcs c) lt (inv.slotted c lt) in
      record {
        slotted = λ e le. elim (Bool-cases (e == c)) [
          | inl same ↦ rw (same, beq→eq e c same) mine
          | inr other ↦ rw other (
              Slotted-frame h m (apply (request h ptr_addr d (pcs c)) m).0 e (pcs e)
                (others e le (λ k. ground (arith, k))) (inv.slotted e le))
        ];
      }

  pub frame-SlotInv :
      (t : ℕ) (m m' : ℕ → ℕ) (pcs : ℕ → HazardPc)
      → SameOn (region h) m m'
      → SlotInv h t m pcs
      → SlotInv h (t + 1) m' pcs
  frame-SlotInv t m m' pcs same inv = record {
    slotted = λ c lt.
        Slotted-frame h m m' c (pcs c) (same (slot h c) (slot-region c lt)) (inv.slotted c lt);
  }

  pub own : (d : Dut) (p : HazardPc) → core_of (request h ptr_addr d p) ≡ pos d.core
  unfolding request
  own d (loading tid) = refl
  own d (publishing tid p) = refl
  own d (fencing tid p) = refl
  own d (checking tid p) = refl
  own d (guarding tid p) = refl
  own d (scanning ptr t) = refl
  own d (scanned ptr hazarded) = refl

  pub slot-Protocol :
      (limit : ℕ) → Protocol (hazard_pointers h ptr_addr) h.n_threads limit (region h) (SlotInv h)
  slot-Protocol limit = record {
    own = own;
    frame = frame-SlotInv;
    move = λ t m pcs c room lt inv. move-SlotInv t m pcs c lt inv;
  }
