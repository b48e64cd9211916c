-- ===== src/Primitives/Barrier/Episodes.antt =====
-- Where the threads of the barrier stand in its current episode.
use mesi_cache_coherence.Common.{
  ℕ, ◌+◌, ◌%◌, ◌≤◌, ◌<◌, ◌≡◌, ◌≢◌, ◌⊎◌, Bool, true, false, ◌==◌, ◌||◌, tally, arith,
}
use mesi_cache_coherence.Primitives.Barrier.{
  Barrier, BarrierPc, arriving, waiting, resetting, fencing, releasing,
}

abbrev pub region : Barrier → ℕ → Bool
region b a = a == b.count_addr || a == b.sense_addr

-- How many calls of `wait` a thread has entered, by its fetch-and-add, and returned from.
abbrev pub entered : BarrierPc → ℕ
entered (arriving episode local_sense) = episode
entered (waiting episode local_sense) = episode + 1
entered (resetting episode local_sense) = episode + 1
entered (fencing episode local_sense) = episode + 1
entered (releasing episode local_sense) = episode + 1

abbrev pub returned : BarrierPc → ℕ
returned (arriving episode local_sense) = episode
returned (waiting episode local_sense) = episode
returned (resetting episode local_sense) = episode
returned (fencing episode local_sense) = episode
returned (releasing episode local_sense) = episode

-- The last to arrive, who resets and releases.
abbrev pub leads : BarrierPc → Bool
leads (arriving episode local_sense) = false
leads (waiting episode local_sense) = false
leads (resetting episode local_sense) = true
leads (fencing episode local_sense) = true
leads (releasing episode local_sense) = true

-- Waits in the episode `g`, not in an earlier one.
abbrev pub waits_in : ℕ → BarrierPc → Bool
waits_in g (arriving episode local_sense) = false
waits_in g (waiting episode local_sense) = episode == g
waits_in g (resetting episode local_sense) = false
waits_in g (fencing episode local_sense) = false
waits_in g (releasing episode local_sense) = false

-- In episode `g` a thread comes, waits, waits still in the episode before, or leads.
abbrev pub Stands : ℕ → BarrierPc → Type 0
Stands g (arriving episode local_sense) = (episode ≡ g) × (local_sense ≡ g % 2)
Stands g (waiting episode local_sense) =
    ((episode ≡ g) × (local_sense ≡ (g + 1) % 2)) ⊎ ((episode + 1 ≡ g) × (local_sense ≡ g % 2))
Stands g (resetting episode local_sense) = (episode ≡ g) × (local_sense ≡ (g + 1) % 2)
Stands g (fencing episode local_sense) = (episode ≡ g) × (local_sense ≡ (g + 1) % 2)
Stands g (releasing episode local_sense) = (episode ≡ g) × (local_sense ≡ (g + 1) % 2)

-- The counter while a thread leads.
abbrev pub counter_of : ℕ → BarrierPc → ℕ
counter_of n (arriving episode local_sense) = n
counter_of n (waiting episode local_sense) = n
counter_of n (resetting episode local_sense) = 0
counter_of n (fencing episode local_sense) = n
counter_of n (releasing episode local_sense) = n

-- Nobody leads, and the counter counts who has not come; or one leads, and all others wait.
pub data Phase (n g count : ℕ) (pcs : ℕ → BarrierPc) : Type 0 where
  collecting :
      ((i : ℕ) → i < n → leads (pcs i) ≡ false)
      → count + tally n (λ i. waits_in g (pcs i)) ≡ n
      → 1 ≤ count
      → Phase n g count pcs
  led :
      (k : ℕ)
      → k < n
      → leads (pcs k) ≡ true
      → count ≡ counter_of n (pcs k)
      → ((i : ℕ) → i < n → i ≢ k → waits_in g (pcs i) ≡ true)
      → Phase n g count pcs

pub record BarrierInv (b : Barrier) (t : ℕ) (m : ℕ → ℕ) (pcs : ℕ → BarrierPc) : Type 0 where
  pub episode : ℕ
  pub sense : m b.sense_addr ≡ episode % 2
  pub stands : (i : ℕ) → i < b.n → Stands episode (pcs i)
  pub phase : Phase b.n episode (m b.count_addr) pcs

returned-le : (g : ℕ) (p : BarrierPc) → Stands g p → returned p ≤ g
returned-le g (arriving episode local_sense) h = omega arith
returned-le g (waiting episode local_sense) h = ground arith
returned-le g (resetting episode local_sense) h = omega arith
returned-le g (fencing episode local_sense) h = omega arith
returned-le g (releasing episode local_sense) h = omega arith

entered-ge : (g : ℕ) (p : BarrierPc) → Stands g p → g ≤ entered p
entered-ge g (arriving episode local_sense) h = omega arith
entered-ge g (waiting episode local_sense) h = ground arith
entered-ge g (resetting episode local_sense) h = omega arith
entered-ge g (fencing episode local_sense) h = omega arith
entered-ge g (releasing episode local_sense) h = omega arith

-- No thread leaves a call of `wait` that another has not entered.
pub returned-le-entered :
    (g : ℕ) (p q : BarrierPc) → Stands g p → Stands g q → returned p ≤ entered q
returned-le-entered g p q hp hq = omega (arith, returned-le g p hp, entered-ge g q hq)
