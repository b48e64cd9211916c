-- ===== src/Workloads/Padding.antt =====
-- Two cores that write different lines in turn: after the first round each has its own.
use mesi_cache_coherence.Common.{
  ℕ, zero, suc, ◌+◌, ◌≤◌, ◌<◌, ◌≡◌, ◌≢◌, ◌∙◌, refl, sym, arith, u32, pos, List, ◌∷◌, update,
}
use mesi_cache_coherence.Types.{I, M, bus_rdx, line_of}
use mesi_cache_coherence.Bus.{RandomEngine, SnoopingBus, account, register_addr, on_controller}
use mesi_cache_coherence.Cache.{put_word}
use mesi_cache_coherence.Controller.{own_line, acquire_exclusive, processor_write, fill_line}
use mesi_cache_coherence.System.{MesiSystem, locked_write, validate_core}
use mesi_cache_coherence.System
use mesi_cache_coherence.Coherence.Defs.{Coherent, state_at}
use mesi_cache_coherence.Coherence.Lines.{count_miss-Coherent, register-Coherent}
use mesi_cache_coherence.Coherence.Requests.{state-broadcast}
use mesi_cache_coherence.Refinement.Flat.{Request, write}
use mesi_cache_coherence.Refinement.Serve.{serve, run}
use mesi_cache_coherence.Refinement.Locked.{write-Represents, Represents, bus-log}
use mesi_cache_coherence.Refinement.Runs.{admitted}
use mesi_cache_coherence.Workloads.{false_sharing_from}
use mesi_cache_coherence.Workloads.Alternation.{OnlyRdx, Turn, turn-OnlyRdx, turn-dirty}

-- A write to a line that the core has dirty changes no state and sends nothing.
module _ ⦃std : RandomEngine⦄ (c addr value : ℕ) (s : MesiSystem)
    (dirty : state_at s.bus c (line_of addr) ≡ M) where
  state-hit : (j l : ℕ) → state_at (locked_write c addr value s).bus j l ≡ state_at s.bus j l
  unfolding locked_write processor_write acquire_exclusive register_addr own_line
  state-hit j l = rw (bus-log c _ addr value _, dirty) (ground arith)

  hit-OnlyRdx : (k : ℕ) → OnlyRdx k s.bus → OnlyRdx k (locked_write c addr value s).bus
  unfolding locked_write processor_write acquire_exclusive register_addr own_line
  hit-OnlyRdx k h = rw (bus-log c _ addr value _, dirty) h

-- A write that misses leaves the other cores' states of all other lines.
state-own_miss :
    ⦃std : RandomEngine⦄ (addr id : ℕ) (b : SnoopingBus) {m : ℕ → ℕ} (j l : ℕ)
    → Coherent m b
    → j ≢ id
    → l ≢ line_of addr
    → state_at (own_line I id addr b) j l ≡ state_at b j l
unfolding own_line fill_line account
state-own_miss addr id b j l c differs other =
    ground (arith, state-broadcast bus_rdx addr id (count_miss-Coherent c id) j l)

state-put :
    (id addr value j l : ℕ) (b : SnoopingBus)
    → state_at (on_controller id (put_word addr value) b) j l ≡ state_at b j l
state-put id addr value j l b = ground arith

state-miss :
    ⦃std : RandomEngine⦄ (c addr value : ℕ) (s : MesiSystem) {m : ℕ → ℕ} (j l : ℕ)
    → Coherent m s.bus
    → state_at s.bus c (line_of addr) ≡ I
    → j ≢ c
    → l ≢ line_of addr
    → state_at (locked_write c addr value s).bus j l ≡ state_at s.bus j l
unfolding locked_write processor_write acquire_exclusive register_addr
state-miss c addr value s j l coherent gone differs other =
    rw (bus-log c _ addr value _, gone)
      (state-put c addr value j l (own_line I c addr (register_addr addr s.bus))
        ∙ state-own_miss addr c (register_addr addr s.bus) j l (register-Coherent coherent addr)
            differs other)

-- Core 0 has the one line dirty and core 1 the other.
pub record Apart (n : ℕ) (m : ℕ → ℕ) (a0 a1 k : ℕ) (s : MesiSystem) : Type 0 where
  pub represents : Represents n m s
  pub first : state_at s.bus 0 (line_of a0) ≡ M
  pub second : state_at s.bus 1 (line_of a1) ≡ M
  pub only_rdx : OnlyRdx k s.bus

module _ ⦃std : RandomEngine⦄ {n : ℕ} {m : ℕ → ℕ} {a0 a1 k : ℕ} {s : MesiSystem}
    (t : Apart n m a0 a1 k s) (two : 2 ≤ n) (v : ℕ) where
  write_first : Apart n (update m a0 v) a0 a1 k (locked_write 0 a0 v s)
  write_first = record {
    represents = write-Represents t.represents 0 a0 (omega (arith, two)) v;
    first = state-hit 0 a0 v s t.first 0 (line_of a0) ∙ t.first;
    second = state-hit 0 a0 v s t.first 1 (line_of a1) ∙ t.second;
    only_rdx = hit-OnlyRdx 0 a0 v s t.first k t.only_rdx;
  }

  write_second : Apart n (update m a1 v) a0 a1 k (locked_write 1 a1 v s)
  write_second = record {
    represents = write-Represents t.represents 1 a1 (omega (arith, two)) v;
    first = state-hit 1 a1 v s t.second 0 (line_of a0) ∙ t.first;
    second = state-hit 1 a1 v s t.second 1 (line_of a1) ∙ t.second;
    only_rdx = hit-OnlyRdx 1 a1 v s t.second k t.only_rdx;
  }

module _ ⦃std : RandomEngine⦄ (c addr value : ℕ) {n : ℕ} {m : ℕ → ℕ} {s : MesiSystem}
    (r : Represents n m s) (lt : c < n) where
  pub run-write :
      (qs : List Request)
      → (run (write (pos c) addr value ∷ qs) s).0 ≡ (run qs (locked_write c addr value s)).0
  unfolding run serve System.write
  run-write qs = rw (admitted r c (ground arith)) refl

pub apart :
    ⦃std : RandomEngine⦄ {n : ℕ} (two : 2 ≤ n) (a0 a1 iters i k : ℕ) {m : ℕ → ℕ} {s : MesiSystem}
    → Apart n m a0 a1 k s
    → OnlyRdx k (run (false_sharing_from a0 a1 iters i) s).0.bus
unfolding run false_sharing_from
apart two a0 a1 zero i k t = t.only_rdx
apart two a0 a1 (suc iters) i k t =
    let t' = write_first t two (u32 i) in
    let rest = false_sharing_from a0 a1 iters (i + 1) in
    rw
      (
        run-write 0 a0 (u32 i) t.represents (omega (arith, two)) (write (pos 1) a1 (u32 i) ∷ rest),
        run-write 1 a1 (u32 i) t'.represents (omega (arith, two)) rest,
      )
      (apart two a0 a1 iters (i + 1) k (write_second t' two (u32 i)))

-- The first round, on lines that no core holds.
module _ ⦃std : RandomEngine⦄ {n : ℕ} {m : ℕ → ℕ} (a0 a1 i : ℕ) {s : MesiSystem} (two : 2 ≤ n)
    (differ : line_of a0 ≢ line_of a1) (t : Turn n m 0 (line_of a0) 0 s)
    (gone : state_at s.bus 1 (line_of a1) ≡ I) where
  abbrev v : ℕ
  v = u32 i

  abbrev s' : MesiSystem
  s' = locked_write 0 a0 v s

  first : Turn n (update m a0 v) 1 (line_of a1) 1 s'
  first = record {
    represents = write-Represents t.represents 0 a0 (omega (arith, two)) v;
    gone =
        state-miss 0 a0 v s 1 (line_of a1) t.represents.coherent t.gone (λ e. omega (arith, e))
          (λ e. differ (sym e))
        ∙ gone;
    only_rdx = turn-OnlyRdx t (omega (arith, two)) a0 v refl;
  }

  pub round-Apart : Apart n (update (update m a0 v) a1 v) a0 a1 2 (locked_write 1 a1 v s')
  round-Apart = record {
    represents = write-Represents first.represents 1 a1 (omega (arith, two)) v;
    first =
        state-miss 1 a1 v s' 0 (line_of a0) first.represents.coherent first.gone
          (λ e. omega (arith, e)) differ
        ∙ turn-dirty t (omega (arith, two)) a0 v refl;
    second = turn-dirty first (omega (arith, two)) a1 v refl;
    only_rdx = turn-OnlyRdx first (omega (arith, two)) a1 v refl;
  }

  pub padded : (iters : ℕ) → OnlyRdx 2 (run (false_sharing_from a0 a1 (suc iters) i) s).0.bus
  unfolding false_sharing_from
  padded iters =
      let rest = false_sharing_from a0 a1 iters (i + 1) in
      rw
        (
          run-write 0 a0 v t.represents (omega (arith, two)) (write (pos 1) a1 v ∷ rest),
          run-write 1 a1 v first.represents (omega (arith, two)) rest,
        )
        (apart two a0 a1 iters (i + 1) 2 round-Apart)
