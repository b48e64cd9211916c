-- ===== src/Threads/Protocol.antt =====
-- The interface between a primitive and its guarantees: an invariant that the primitive's own calls
-- and all calls that spare its words keep. It then holds after every schedule, on the caches too.
use mesi_cache_coherence.Common.{
  ℕ, ◌+◌, ◌≤◌, ◌<◌, ◌≡◌, refl, sym, subst, ap, Bool, true, false, not, ◌&&◌, ltb, Bool-cases, inl,
  inr, List, [], ◌∷◌, length, update, pos, arith, ◌==◌, beq→eq,
}
use mesi_cache_coherence.Bus.{RandomEngine}
use mesi_cache_coherence.System.{MesiSystem}
use mesi_cache_coherence.Dut.{Dut}
use mesi_cache_coherence.Refinement.Flat.{
  Request, read, write, cas, fetch_and_add, fence, core_of, apply, flat_step,
}
use mesi_cache_coherence.Refinement.Locked.{Represents}
use mesi_cache_coherence.Threads.{
  Client, Event, turn, other, next_call, flat_play, play, plays, play-Agrees,
}

-- The request writes no word of a region.
abbrev pub avoids : (ℕ → Bool) → Request → Bool
avoids region (read core a) = true
avoids region (write core a value) = not (region a)
avoids region (cas core a expected new_val) = not (region a)
avoids region (fetch_and_add core a delta) = not (region a)
avoids region (fence core) = true

-- No other call of a schedule writes a word of a region.
unfoldable pub all_avoid : (ℕ → Bool) → List Event → Bool
all_avoid region [] = true
all_avoid region (turn core ∷ es) = all_avoid region es
all_avoid region (other q ∷ es) = avoids region q && all_avoid region es

-- `m'` has the words of the region as `m` has them.
abbrev pub SameOn : (ℕ → Bool) → (ℕ → ℕ) → (ℕ → ℕ) → Type 0
SameOn region m m' = (a : ℕ) → region a ≡ true → m' a ≡ m a

update-SameOn :
    (region : ℕ → Bool) (m : ℕ → ℕ) (a v : ℕ) → region a ≡ false → SameOn region m (update m a v)
update-SameOn region m a v out b inside = elim (Bool-cases (b == a)) [
  | inl same ↦ absurd (ground (arith, ap region (beq→eq b a same)))
  | inr apart ↦ rw apart refl
]

apply-SameOn :
    (region : ℕ → Bool) (q : Request) (m : ℕ → ℕ)
    → avoids region q ≡ true
    → SameOn region m (apply q m).0
unfolding apply
apply-SameOn region (read core a) m h b inside = refl
apply-SameOn region (write core a value) m h b inside =
    update-SameOn region m a value (ground arith) b inside
apply-SameOn region (cas core a expected new_val) m h b inside =
    ground (arith, update-SameOn region m a new_val (ground arith) b inside)
apply-SameOn region (fetch_and_add core a delta) m h b inside =
    update-SameOn region m a _ (ground arith) b inside
apply-SameOn region (fence core) m h b inside = refl

flat_step-SameOn :
    (region : ℕ → Bool) (n : ℕ) (q : Request) (m : ℕ → ℕ)
    → avoids region q ≡ true
    → SameOn region m (flat_step n q m).0
unfolding flat_step
flat_step-SameOn region n q m h b inside = ground (arith, apply-SameOn region q m h b inside)

module _ {Pc : Type 0} where
  -- A thread's call, carried out on the flat memory.
  abbrev pub moved : Client Pc → ℕ → (ℕ → ℕ) → (ℕ → Pc) → (ℕ → ℕ) × (ℕ → Pc)
  moved client c m pcs =
      let (m', a) = apply (next_call client c pcs) m in (m', update pcs c (client.resume (pcs c) a))

  -- The invariant also knows how many events have passed, which are fewer than `limit`.
  pub record Protocol (client : Client Pc) (n limit : ℕ) (region : ℕ → Bool)
      (Inv : ℕ → (ℕ → ℕ) → (ℕ → Pc) → Type 0) : Type 0 where
    pub own : (d : Dut) (p : Pc) → core_of (client.request d p) ≡ pos d.core
    pub frame :
        (t : ℕ) (m m' : ℕ → ℕ) (pcs : ℕ → Pc)
        → SameOn region m m'
        → Inv t m pcs
        → Inv (t + 1) m' pcs
    pub move :
        (t : ℕ) (m : ℕ → ℕ) (pcs : ℕ → Pc) (c : ℕ)
        → t < limit
        → c < n
        → Inv t m pcs
        → Inv (t + 1) (moved client c m pcs).0 (moved client c m pcs).1

  module _ {client : Client Pc} {n limit : ℕ} {region : ℕ → Bool}
      {Inv : ℕ → (ℕ → ℕ) → (ℕ → Pc) → Type 0} (p : Protocol client n limit region Inv) where
    abbrev Kept : ℕ → (ℕ → ℕ) × (ℕ → Pc) → Type 0
    Kept t q = Inv t q.0 q.1

    turn-Kept :
        (t : ℕ) (m : ℕ → ℕ) (pcs : ℕ → Pc) (c : ℕ)
        → t < limit
        → Inv t m pcs
        → Kept (t + 1) (flat_play client n (turn c) m pcs)
    unfolding flat_play flat_step
    turn-Kept t m pcs c small inv = elim (Bool-cases (ltb c n)) [
      | inl there ↦ simp (p.own, there) (p.move t m pcs c small (ground arith) inv)
      | inr missing ↦ simp (p.own, missing) (p.frame t m m pcs (λ a inside. refl) inv)
    ]

    other-Kept :
        (t : ℕ) (m : ℕ → ℕ) (pcs : ℕ → Pc) (q : Request)
        → avoids region q ≡ true
        → Inv t m pcs
        → Kept (t + 1) (flat_play client n (other q) m pcs)
    unfolding flat_play
    other-Kept t m pcs q h inv = p.frame t m _ pcs (flat_step-SameOn region n q m h) inv

    module _ ⦃std : RandomEngine⦄ where
      -- The flat memory that the caches stand for, and the invariant of it and the threads.
      pub record Reached (t : ℕ) (s : MesiSystem) (pcs : ℕ → Pc) : Type 0 where
        pub flat : ℕ → ℕ
        pub memory : Represents n flat s
        pub inv : Inv t flat pcs

      step-Reached :
          (e : Event) (t : ℕ) (s : MesiSystem) (pcs : ℕ → Pc) (r : Reached t s pcs)
          → Kept (t + 1) (flat_play client n e r.flat pcs)
          → Reached (t + 1) (play client e s pcs).0 (play client e s pcs).1
      step-Reached e t s pcs r kept =
          let (memory, same) = play-Agrees client e pcs r.memory in
          record {
            flat = (flat_play client n e r.flat pcs).0;
            memory = memory;
            inv = subst (Inv (t + 1) (flat_play client n e r.flat pcs).0) (sym same) kept;
          }

      pub plays-Reached :
          (es : List Event) (t : ℕ) (s : MesiSystem) (pcs : ℕ → Pc)
          → t + length es ≤ limit
          → all_avoid region es ≡ true
          → Reached t s pcs
          → (t' : ℕ) × Reached t' (plays client es s pcs).0 (plays client es s pcs).1
      unfolding plays all_avoid
      plays-Reached [] t s pcs small h r = (t, r)
      plays-Reached (turn c ∷ es) t s pcs small h r =
          plays-Reached es (t + 1) _ _ (omega arith) h
            (step-Reached (turn c) t s pcs r (turn-Kept t r.flat pcs c (omega arith) r.inv))
      plays-Reached (other q ∷ es) t s pcs small h r =
          plays-Reached es (t + 1) _ _ (omega arith) (ground arith)
            (step-Reached (other q) t s pcs r (other-Kept t r.flat pcs q (ground arith) r.inv))
