-- ===== src/Threads.antt =====
-- Threads that run a primitive of primitives/ at the same time, one for each core. A thread is its
-- program counter: the call it makes next. A schedule says whose call gets the bus mutex next.
pub mod Protocol
use mesi_cache_coherence.Common.{
  ℕ, ◌≡◌, refl, ap, subst, Bool, true, not, ◌&&◌, ◌==◌, List, [], ◌∷◌, update, arith, Result, ok,
  err,
}
use mesi_cache_coherence.Bus.{RandomEngine}
use mesi_cache_coherence.System.{MesiSystem}
use mesi_cache_coherence.Dut.{Dut}
use mesi_cache_coherence.Refinement.Flat.{
  Request, read, write, cas, fetch_and_add, fence, Answer, apply, flat_step,
}
use mesi_cache_coherence.Refinement.Serve.{serve, settle}
use mesi_cache_coherence.Refinement.Locked.{Represents}
use mesi_cache_coherence.Refinement.Runs.{serve-refines}

-- The code of a thread: its next call, and where it goes on with the answer.
pub record Client (Pc : Type 0) : Type 0 where
  pub request : Dut → Pc → Request
  pub resume : Pc → Answer → Pc

-- The turn of a thread of the primitive, or any other call.
pub data Event : Type 0 where
  turn : (core : ℕ) → Event
  other : Request → Event

-- The request writes no word at an address.
abbrev pub spares : ℕ → Request → Bool
spares addr (read core a) = true
spares addr (write core a value) = not (a == addr)
spares addr (cas core a expected new_val) = not (a == addr)
spares addr (fetch_and_add core a delta) = not (a == addr)
spares addr (fence core) = true

-- No other call of a schedule writes an address.
unfoldable pub all_spare : ℕ → List Event → Bool
all_spare addr [] = true
all_spare addr (turn core ∷ es) = all_spare addr es
all_spare addr (other q ∷ es) = spares addr q && all_spare addr es

pub flat_step-spares :
    (n : ℕ) (q : Request) (m : ℕ → ℕ) {addr : ℕ}
    → spares addr q ≡ true
    → (flat_step n q m).0 addr ≡ m addr
unfolding flat_step apply
flat_step-spares n (read core a) m h = ground arith
flat_step-spares n (write core a value) m h = ground arith
flat_step-spares n (cas core a expected new_val) m h = ground arith
flat_step-spares n (fetch_and_add core a delta) m h = ground arith
flat_step-spares n (fence core) m h = ground arith

module _ {Pc : Type 0} (client : Client Pc) where
  -- A call that throws leaves the thread where it is.
  abbrev pub proceed : ℕ → (ℕ → Pc) → Result Answer → ℕ → Pc
  proceed core pcs (ok a) = update pcs core (client.resume (pcs core) a)
  proceed core pcs (err e) = pcs

  abbrev pub next_call : ℕ → (ℕ → Pc) → Request
  next_call core pcs = client.request (record { core = core }) (pcs core)

  unfoldable pub flat_play : ℕ → Event → (ℕ → ℕ) → (ℕ → Pc) → (ℕ → ℕ) × (ℕ → Pc)
  unfolding flat_step
  flat_play n (turn core) m pcs =
      let (m', a) = flat_step n (next_call core pcs) m in (m', proceed core pcs a)
  flat_play n (other q) m pcs = ((flat_step n q m).0, pcs)

  unfoldable pub flat_plays : ℕ → List Event → (ℕ → ℕ) → (ℕ → Pc) → (ℕ → ℕ) × (ℕ → Pc)
  flat_plays n [] m pcs = (m, pcs)
  flat_plays n (e ∷ es) m pcs = let (m', pcs') = flat_play n e m pcs in flat_plays n es m' pcs'

  module _ ⦃std : RandomEngine⦄ where
    unfoldable pub play : Event → MesiSystem → (ℕ → Pc) → MesiSystem × (ℕ → Pc)
    play (turn core) s pcs =
        let (s', a) = settle s (serve (next_call core pcs) s) in (s', proceed core pcs a)
    play (other q) s pcs = ((settle s (serve q s)).0, pcs)

    unfoldable pub plays : List Event → MesiSystem → (ℕ → Pc) → MesiSystem × (ℕ → Pc)
    plays [] s pcs = (s, pcs)
    plays (e ∷ es) s pcs = let (s', pcs') = play e s pcs in plays es s' pcs'

    -- The threads go the same way on the caches as on the flat memory.
    abbrev Agrees : ℕ → MesiSystem × (ℕ → Pc) → (ℕ → ℕ) × (ℕ → Pc) → Type 0
    Agrees n p q = Represents n q.0 p.0 × (p.1 ≡ q.1)

    pub play-Agrees :
        (e : Event) {n : ℕ} {m : ℕ → ℕ} {s : MesiSystem} (pcs : ℕ → Pc)
        → Represents n m s
        → Agrees n (play e s pcs) (flat_play n e m pcs)
    unfolding play flat_play
    play-Agrees (turn core) pcs r =
        let (r', e) = serve-refines r (next_call core pcs) in (r', ap (proceed core pcs) e)
    play-Agrees (other q) pcs r = ((serve-refines r q).0, refl)

    pub plays-Agrees :
        (es : List Event) {n : ℕ} {m : ℕ → ℕ} {s : MesiSystem} (pcs : ℕ → Pc)
        → Represents n m s
        → Agrees n (plays es s pcs) (flat_plays n es m pcs)
    unfolding plays flat_plays
    plays-Agrees [] pcs r = (r, refl)
    plays-Agrees (e ∷ es) {n} {m} {s} pcs r =
        let (r', p) = play-Agrees e pcs r in
        let (s', pcs') = play e s pcs in
        subst (λ w. Agrees n (plays es s' pcs') (flat_plays n es (flat_play n e m pcs).0 w)) p
          (plays-Agrees es pcs' r')
