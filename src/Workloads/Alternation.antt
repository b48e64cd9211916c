-- ===== src/Workloads/Alternation.antt =====
-- Two cores that write one line in turn: each finds its copy gone.
use mesi_cache_coherence.Common.{
  ℕ, suc, ◌+◌, ◌*◌, ◌≤◌, ◌<◌, List, [], ◌∷◌, subst, ◌≡◌, ◌≢◌, ◌∙◌, refl, ap, arith, u64, pos,
  update, sym,
}
use mesi_cache_coherence.Types.{I, M, bus_rdx, line_of}
use mesi_cache_coherence.Bus.{RandomEngine, SnoopingBus, account, register_addr}
use mesi_cache_coherence.Controller.{
  own_line, acquire_exclusive, processor_write, count_miss, count_stall, fill_line,
}
use mesi_cache_coherence.System.{MesiSystem, locked_write, validate_core}
use mesi_cache_coherence.System
use mesi_cache_coherence.Coherence.Defs.{state_at}
use mesi_cache_coherence.Refinement.Flat.{Request, write}
use mesi_cache_coherence.Refinement.Serve.{serve, settle, run}
use mesi_cache_coherence.Coherence.Processor.{acquire-dirty}
use mesi_cache_coherence.Refinement.Locked.{write-Represents, Represents, bus-log}
use mesi_cache_coherence.Refinement.Runs.{admitted}
use mesi_cache_coherence.Traffic.Counters.{requests-broadcast}

-- Only reads for ownership have been counted, `k` of them.
abbrev pub OnlyRdx : ℕ → SnoopingBus → Type 0
OnlyRdx k b =
    (b.perf.bus_rd_count ≡ 0) × (b.perf.bus_rdx_count ≡ u64 k) × (b.perf.bus_upgr_count ≡ 0)

module _ ⦃std : RandomEngine⦄ (addr id : ℕ) (b : SnoopingBus) (k : ℕ) (h : OnlyRdx k b) where
  write_miss-OnlyRdx : OnlyRdx (k + 1) (own_line I id addr b)
  unfolding own_line fill_line account
  write_miss-OnlyRdx =
      let same = requests-broadcast bus_rdx addr id (count_stall id (count_miss id b)) in
      (ap (λ t. t.0) same ∙ h.0, omega (arith, ap (λ t. t.1) same, h.1), ap (λ t. t.2) same ∙ h.2)

-- Core `c` is about to write a line that it does not hold.
pub record Turn (n : ℕ) (m : ℕ → ℕ) (c line k : ℕ) (s : MesiSystem) : Type 0 where
  pub represents : Represents n m s
  pub gone : state_at s.bus c line ≡ I
  pub only_rdx : OnlyRdx k s.bus

module _ ⦃std : RandomEngine⦄ {n : ℕ} {m : ℕ → ℕ} {c line k : ℕ} {s : MesiSystem}
    (t : Turn n m c line k s) (lt : c < n) (addr value : ℕ) (on_line : line_of addr ≡ line) where
  abbrev there : c < s.bus.n_cores
  there = rw t.represents.n_cores lt

  pub turn-OnlyRdx : OnlyRdx (k + 1) (locked_write c addr value s).bus
  unfolding locked_write processor_write acquire_exclusive register_addr
  turn-OnlyRdx =
      rw (bus-log c _ addr value _, gone_here)
        (write_miss-OnlyRdx addr c (register_addr addr s.bus) k t.only_rdx)
    where
      gone_here : state_at s.bus c (line_of addr) ≡ I
      gone_here = rw on_line t.gone

  pub turn-dirty : state_at (locked_write c addr value s).bus c line ≡ M
  unfolding locked_write processor_write
  turn-dirty =
      rw (bus-log c _ addr value _, sym on_line)
        (ground (arith, acquire-dirty addr c t.represents.coherent there))

  -- The write of one core makes it the other's turn.
  pub turn :
      (other : ℕ)
      → other ≢ c
      → Turn n (update m addr value) other line (k + 1) (locked_write c addr value s)
  turn other differs =
      let r = write-Represents t.represents c addr lt value in
      record {
        represents = r;
        gone = r.coherent.exclusive c other line (λ e. differs (sym e)) (rw turn-dirty refl);
        only_rdx = turn-OnlyRdx;
      }

  pub serve-write : (settle s (serve (write (pos c) addr value) s)).0 ≡ locked_write c addr value s
  unfolding serve System.write
  serve-write = rw (admitted t.represents c (ground arith)) refl

-- The two writes of a round, and the rounds after it.
module _ ⦃std : RandomEngine⦄ {n : ℕ} {m : ℕ → ℕ} {line k : ℕ} {s : MesiSystem}
    (t : Turn n m 0 line k s) (two : 2 ≤ n) (a0 a1 v0 v1 : ℕ) (on_line : line_of a0 ≡ line)
    (same_line : line_of a1 ≡ line) where
  abbrev halfway : MesiSystem
  halfway = locked_write 0 a0 v0 s

  abbrev pub round : MesiSystem
  round = locked_write 1 a1 v1 halfway

  second : Turn n (update m a0 v0) 1 line (k + 1) halfway
  second = turn t (omega (arith, two)) a0 v0 on_line 1 (λ e. omega (arith, e))

  pub next_round : Turn n (update (update m a0 v0) a1 v1) 0 line (k + 2) round
  next_round =
      subst (λ j. Turn n (update (update m a0 v0) a1 v1) 0 line j round) (omega arith)
        (turn second (omega (arith, two)) a1 v1 same_line 0 (λ e. omega (arith, e)))

  pub run-round :
      (qs : List Request)
      → (run (write (pos 0) a0 v0 ∷ write (pos 1) a1 v1 ∷ qs) s).0 ≡ (run qs round).0
  unfolding run
  run-round qs =
      rw
        (
          serve-write t (omega (arith, two)) a0 v0 on_line,
          serve-write second (omega (arith, two)) a1 v1 same_line,
        )
        refl

-- Calls in which core 0 and core 1 write one line in turn, for so many rounds.
pub data Alternating (line : ℕ) : ℕ → List Request → Type 0 where
  over : Alternating line 0 []
  round_of :
      {k : ℕ} {qs : List Request} (a0 a1 v0 v1 : ℕ)
      → line_of a0 ≡ line
      → line_of a1 ≡ line
      → Alternating line k qs
      → Alternating line (suc k) (write (pos 0) a0 v0 ∷ write (pos 1) a1 v1 ∷ qs)

pub alternation :
    ⦃std : RandomEngine⦄ {n : ℕ} (two : 2 ≤ n) {line rounds : ℕ} {qs : List Request}
    → Alternating line rounds qs
    → (k : ℕ) {m : ℕ → ℕ} {s : MesiSystem} → Turn n m 0 line k s
    → OnlyRdx (k + 2 * rounds) (run qs s).0.bus
unfolding run
alternation two over k {s = s} t = subst (λ j. OnlyRdx j s.bus) (omega arith) t.only_rdx
alternation two (round_of {k = rounds} {qs} a0 a1 v0 v1 e0 e1 rest) k t =
    rw (run-round t two a0 a1 v0 v1 e0 e1 qs) (
      subst (λ j. OnlyRdx j (run qs (round t two a0 a1 v0 v1 e0 e1)).0.bus) (omega arith)
        (alternation two rest (k + 2) (next_round t two a0 a1 v0 v1 e0 e1)))
