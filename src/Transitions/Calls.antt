-- ===== src/Transitions/Calls.antt =====
-- The calls of the facade do as the table says.
use mesi_cache_coherence.Common.{ℕ, ◌<◌, ◌≡◌, pos, arith}
use mesi_cache_coherence.Types.{PrReq, no_req, pr_rd, pr_wr, line_of}
use mesi_cache_coherence.Cache.{put_word}
use mesi_cache_coherence.Bus.{RandomEngine, SnoopingBus, on_controller}
use mesi_cache_coherence.System.{
  MesiSystem, locked_read, locked_write, locked_acquire, locked_put, locked_cas, locked_add, log,
}
use mesi_cache_coherence.System
use mesi_cache_coherence.Refinement.Flat.{Request, read, write, cas, fetch_and_add, fence, core_of}
use mesi_cache_coherence.Refinement.Serve.{serve, settle}
use mesi_cache_coherence.Refinement.Locked.{Represents}
use mesi_cache_coherence.Refinement.Steps.{after_read, after_write, after_cas, after_add}
use mesi_cache_coherence.Refinement.Runs.{admitted}
use mesi_cache_coherence.Transitions.{Follows, pr_of, addr_of}
use mesi_cache_coherence.Transitions.Bus.{read-Follows, acquire-Follows}

-- To put a word changes no state and no counter.
put-Follows :
    (addr value : ℕ) {b b' : SnoopingBus} {id line : ℕ} {pr : PrReq}
    → Follows b id line pr b'
    → Follows b id line pr (on_controller id (put_word addr value) b')
put-Follows addr value {b} {b'} {id} f = record {
  states = λ j l. ground (arith, f.states j l);
  traffic = f.traffic;
}

module _ ⦃std : RandomEngine⦄ {n : ℕ} {m : ℕ → ℕ} {s : MesiSystem} (r : Represents n m s)
    (core addr : ℕ) where
  locked_read-Follows : Follows s.bus core (line_of addr) pr_rd (locked_read core addr s).0.bus
  locked_read-Follows =
      after_read (Follows s.bus core (line_of addr) pr_rd) core addr s
        (read-Follows core addr r.coherent)

  locked_write-Follows :
      (value : ℕ) → Follows s.bus core (line_of addr) pr_wr (locked_write core addr value s).bus
  locked_write-Follows =
      after_write (Follows s.bus core (line_of addr) pr_wr) core addr s (λ v b. put-Follows addr v)
        (acquire-Follows core addr r.coherent)

  locked_cas-Follows :
      (expected new_val : ℕ)
      → Follows s.bus core (line_of addr) pr_wr (locked_cas core addr expected new_val s).0.bus
  locked_cas-Follows =
      after_cas (Follows s.bus core (line_of addr) pr_wr) core addr s (λ v b. put-Follows addr v)
        (acquire-Follows core addr r.coherent)

  locked_add-Follows :
      (delta : ℕ) → Follows s.bus core (line_of addr) pr_wr (locked_add core addr delta s).0.bus
  locked_add-Follows =
      after_add (Follows s.bus core (line_of addr) pr_wr) core addr s (λ v b. put-Follows addr v)
        (acquire-Follows core addr r.coherent)

fence-Follows : (b : SnoopingBus) (id line : ℕ) → Follows b id line no_req b
fence-Follows b id line = record { states = λ j l. ground arith; traffic = ground arith }

module _ ⦃std : RandomEngine⦄ {n : ℕ} {m : ℕ → ℕ} {s : MesiSystem} (r : Represents n m s) (core : ℕ)
    (there : core < n) where
  pub serve-Follows :
      (q : Request)
      → core_of q ≡ pos core
      → Follows s.bus core (line_of (addr_of q)) (pr_of q) (settle s (serve q s)).0.bus
  unfolding serve System.read System.write System.cas System.fetch_and_add System.fence
  serve-Follows (read c addr) e =
      simp (e, admitted r core (ground arith)) (locked_read-Follows r core addr)
  serve-Follows (write c addr value) e =
      simp (e, admitted r core (ground arith)) (locked_write-Follows r core addr value)
  serve-Follows (cas c addr expected new_val) e =
      simp (e, admitted r core (ground arith)) (locked_cas-Follows r core addr expected new_val)
  serve-Follows (fetch_and_add c addr delta) e =
      simp (e, admitted r core (ground arith)) (locked_add-Follows r core addr delta)
  serve-Follows (fence c) e =
      simp (e, admitted r core (ground arith)) (fence-Follows s.bus core (line_of 0))
