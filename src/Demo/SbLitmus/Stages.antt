-- ===== src/Demo/SbLitmus/Stages.antt =====
-- What holds at each place of the two threads.
use mesi_cache_coherence.Common.{ℕ, ◌≤◌, ◌<◌, ◌≡◌, ◌≢◌, ◌⊎◌, Bool, true, false, List, [], ◌∷◌}
use mesi_cache_coherence.System.{MesiSystem}
use mesi_cache_coherence.Refinement.Locked.{Represents}
use mesi_cache_coherence.StoreBuffer.{StoreBuffer, SbEntry}
use mesi_cache_coherence.StoreBuffer.Operations.{Ready}
use mesi_cache_coherence.Demo.SbLitmus.{
  Side, left, right, other, LitmusPc, storing, fencing, loading, loaded, Litmus, go_on,
}

pub by_side {ℓ} : (P : Side → Type ℓ) → P left → P right → (c : Side) → P c
by_side P l r left = l
by_side P l r right = r

-- The one store of a thread.
abbrev pub entry : ℕ → SbEntry
entry a = record { addr = a; val = 1 }

-- Of a thread with flag `a`, the word there, the buffer, and the place: with the fence the word is 1
-- once the thread is past it; without, the store stays in the buffer and the word is 0.
unfoldable pub Stage : Bool → ℕ → ℕ → List SbEntry → LitmusPc → Type 0
Stage true a x buf storing = buf ≡ []
Stage true a x buf fencing = (buf ≡ entry a ∷ []) ⊎ ((buf ≡ []) × (x ≡ 1))
Stage true a x buf loading = (buf ≡ []) × (x ≡ 1)
Stage true a x buf (loaded v) = x ≡ 1
Stage false a x buf storing = (buf ≡ []) × (x ≡ 0)
Stage false a x buf fencing = ⊥
Stage false a x buf loading = (buf ≡ entry a ∷ []) × (x ≡ 0)
Stage false a x buf (loaded v) = (v ≡ 0) × (x ≡ 0)

pub record LitmusInv (fenced : Bool) (flag : Side → ℕ) (n : ℕ) (m : ℕ → ℕ) (st : Litmus)
    : Type 0 where
  pub memory : Represents n m st.sys
  pub there : (c : Side) → (st.sb c).core < n
  pub room : (c : Side) → 1 ≤ (st.sb c).depth
  pub stage : (c : Side) → Stage fenced (flag c) (m (flag c)) (st.sb c).buf (st.pcs c)
  -- with the fence, not both have loaded 0
  pub not_both :
      (c : Side) (v w : ℕ)
      → fenced ≡ true
      → st.pcs c ≡ loaded v
      → st.pcs (other c) ≡ loaded w
      → v ≡ 0
      → w ≢ 0

abbrev pub Reaches : Bool → (Side → ℕ) → ℕ → Litmus → Type 0
Reaches fenced flag n st = (m : ℕ → ℕ) × LitmusInv fenced flag n m st

module _ {fenced : Bool} {flag : Side → ℕ} {n : ℕ} {m : ℕ → ℕ} {st : Litmus}
    (inv : LitmusInv fenced flag n m st) where
  -- A thread goes on to `p`; the word of the other is as before.
  pub arrive :
      (c : Side) (p : LitmusPc) (sb : StoreBuffer) (s : MesiSystem) (m' : ℕ → ℕ)
      → Ready n m' sb s
      → sb.depth ≡ (st.sb c).depth
      → Stage fenced (flag c) (m' (flag c)) sb.buf p
      → m' (flag (other c)) ≡ m (flag (other c))
      → ((v w : ℕ) → fenced ≡ true → p ≡ loaded v → st.pcs (other c) ≡ loaded w → v ≡ 0 → w ≢ 0)
      → LitmusInv fenced flag n m' (go_on c p sb s st)
  arrive left p sb s m' r deep stage same apart = record {
    memory = r.memory;
    there = by_side _ (r.there) (inv.there right);
    room = by_side _ (simp deep (inv.room left)) (inv.room right);
    stage = by_side _ (stage) (simp same (inv.stage right));
    not_both = by_side _ apart (λ v w f e e' zv zw. apart w v f e' e zw zv);
  }
  arrive right p sb s m' r deep stage same apart = record {
    memory = r.memory;
    there = by_side _ (inv.there left) (r.there);
    room = by_side _ (inv.room left) (simp deep (inv.room right));
    stage = by_side _ (simp same (inv.stage left)) (stage);
    not_both = by_side _ (λ v w f e e' zv zw. apart w v f e' e zw zv) apart;
  }

pub zero_word : (a x : ℕ) (buf : List SbEntry) (p : LitmusPc) → Stage false a x buf p → x ≡ 0
unfolding Stage
zero_word a x buf storing h = h.1
zero_word a x buf fencing h = absurd h
zero_word a x buf loading h = h.1
zero_word a x buf (loaded v) h = h.1
