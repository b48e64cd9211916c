-- ===== src/Demo/SbLitmus.antt =====
-- The store-buffering litmus test of `emit_tso_litmus_csv`: each of two threads stores 1 to its own
-- flag through its store buffer, fences in half of the trials, and loads the flag of the other. What
-- a thread does between two waits for the bus mutex is one step; a fence is a step for each entry.
pub mod Stages
pub mod Turns
pub mod Progress
pub mod Guarantees
use mesi_cache_coherence.Common.{
  ℕ, Bool, if◌then◌else◌, List, [], ◌∷◌, ◌++◌, some, pos, Result, ok, ◌>>=◌,
}
use mesi_cache_coherence.Bus.{RandomEngine}
use mesi_cache_coherence.System.{MesiSystem}
use mesi_cache_coherence.StoreBuffer.{StoreBuffer, SbEntry, fifo, create, store, load, fence_round}
use mesi_cache_coherence.Refinement.Flat.{Request, write}

-- The threads th0 and th1.
pub data Side : Type 0 where
  left right : Side

abbrev pub other : Side → Side
other left = right
other right = left

abbrev pub core : Side → ℕ
core left = 0
core right = 1

abbrev pub put {ℓ} : {A : Type ℓ} → Side → A → (Side → A) → Side → A
put left a f left = a
put left a f right = f right
put right a f left = f left
put right a f right = a

pub data LitmusPc : Type 0 where
  storing fencing loading : LitmusPc
  loaded : ℕ → LitmusPc

pub record Litmus : Type 0 where
  pub sys : MesiSystem
  pub sb : Side → StoreBuffer
  pub pcs : Side → LitmusPc

abbrev pub go_on : Side → LitmusPc → StoreBuffer → MesiSystem → Litmus → Litmus
go_on c p sb s st = record { sys = s; sb = put c sb st.sb; pcs = put c p st.pcs }

module _ ⦃std : RandomEngine⦄ where
  -- The stores before each trial, and its buffers.
  abbrev pub clear_flags : (Side → ℕ) → List Request
  clear_flags flag = write (pos 0) (flag left) 0 ∷ write (pos 0) (flag right) 0 ∷ []

  unfoldable pub begin : MesiSystem → Result Litmus
  begin s = do
    sb0 ← create (some s) (pos 0) (pos 8) fifo 0
    sb1 ← create (some s) (pos 1) (pos 8) fifo 0
    ok (record { sys = s; sb = put left sb0 (λ _. sb1); pcs = λ _. storing })

  -- The fence, with the entries that are left: without any, it has returned.
  unfoldable pub fence_step : Side → List SbEntry → Litmus → Result Litmus
  fence_step c [] st = ok (go_on c loading (st.sb c) st.sys st)
  fence_step c (e ∷ rest) st = do
    (sb, s) ← fence_round e rest (st.sb c) st.sys
    ok (go_on c fencing sb s st)

  unfoldable pub advance : Bool → (Side → ℕ) → Side → LitmusPc → Litmus → Result Litmus
  unfolding fence_step
  advance fenced flag c storing st = do
    (sb, s) ← store (flag c) 1 (st.sb c) st.sys
    ok (go_on c (if fenced then fencing else loading) sb s st)
  advance fenced flag c fencing st = fence_step c (st.sb c).buf st
  advance fenced flag c loading st = do
    (sb, s, v) ← load (flag (other c)) (st.sb c) st.sys
    ok (go_on c (loaded v) sb s st)
  advance fenced flag c (loaded v) st = ok st

  -- The threads take turns as a schedule says.
  unfoldable pub trial : Bool → (Side → ℕ) → List Side → Litmus → Result Litmus
  trial fenced flag [] st = ok st
  trial fenced flag (c ∷ cs) st = do
    st' ← advance fenced flag c (st.pcs c) st
    trial fenced flag cs st'

  unfoldable pub litmus : Bool → (Side → ℕ) → List Side → MesiSystem → Result Litmus
  unfolding begin trial
  litmus fenced flag cs s = do st ← begin s; trial fenced flag cs st
