-- ===== src/Workloads/Sharing.antt =====
-- Cores that read one line in turn: each misses, and takes nothing from the cores still to come.
use mesi_cache_coherence.Common.{
  ℕ, zero, suc, ◌∷◌, ◌+◌, ◌≤◌, ◌<◌, ◌≡◌, ◌≢◌, ◌∙◌, refl, ap, arith, u64, pos, subst, List,
}
use mesi_cache_coherence.Types.{I, bus_rd, line_of}
use mesi_cache_coherence.Bus.{RandomEngine, SnoopingBus, account, register_addr}
use mesi_cache_coherence.Controller.{
  read_miss, processor_read, install, count_miss, count_stall, fill_line,
}
use mesi_cache_coherence.System.{MesiSystem, locked_read}
use mesi_cache_coherence.System
use mesi_cache_coherence.Coherence.Defs.{Coherent, state_at}
use mesi_cache_coherence.Coherence.Lines.{count_miss-Coherent, register-Coherent}
use mesi_cache_coherence.Coherence.Requests.{state-broadcast}
use mesi_cache_coherence.Refinement.Flat.{Request, read}
use mesi_cache_coherence.Refinement.Serve.{serve, settle, run}
use mesi_cache_coherence.Refinement.Locked.{read-Represents, Represents, bus-log}
use mesi_cache_coherence.Refinement.Runs.{admitted}
use mesi_cache_coherence.Traffic.Counters.{requests-broadcast}
use mesi_cache_coherence.Workloads.{reader_storm_from}

-- Only reads have been counted, `k` of them.
abbrev pub OnlyRd : ℕ → SnoopingBus → Type 0
OnlyRd k b =
    (b.perf.bus_rd_count ≡ u64 k) × (b.perf.bus_rdx_count ≡ 0) × (b.perf.bus_upgr_count ≡ 0)

module _ ⦃std : RandomEngine⦄ (addr id : ℕ) (b : SnoopingBus) (k : ℕ) where
  read_miss-OnlyRd : OnlyRd k b → OnlyRd (k + 1) (read_miss id addr b)
  unfolding read_miss install fill_line account
  read_miss-OnlyRd h =
      let same = requests-broadcast bus_rd addr id (count_stall id (count_miss id b)) in
      (omega (arith, ap (λ t. t.0) same, h.0), ap (λ t. t.1) same ∙ h.1, ap (λ t. t.2) same ∙ h.2)

  state-read_miss :
      {m : ℕ → ℕ} (j : ℕ)
      → Coherent m b
      → state_at b j (line_of addr) ≡ I
      → j ≢ id
      → state_at (read_miss id addr b) j (line_of addr) ≡ I
  unfolding read_miss install fill_line account
  state-read_miss j c gone differs =
      ground (arith, state-broadcast bus_rd addr id (count_miss-Coherent c id) j (line_of addr))

-- The cores from `c` on have still to read a line that they do not hold.
pub record Storm (n : ℕ) (m : ℕ → ℕ) (line c : ℕ) (s : MesiSystem) : Type 0 where
  pub represents : Represents n m s
  pub gone : (j : ℕ) → c ≤ j → state_at s.bus j line ≡ I
  pub only_rd : OnlyRd c s.bus

module _ ⦃std : RandomEngine⦄ (addr : ℕ) {n : ℕ} {m : ℕ → ℕ} {c : ℕ} {s : MesiSystem}
    (t : Storm n m (line_of addr) c s) (lt : c < n) where
  empty : state_at s.bus c (line_of addr) ≡ I
  empty = t.gone c (omega arith)

  registered : Coherent m (register_addr addr s.bus)
  registered = register-Coherent t.represents.coherent addr

  pub next_read : Storm n m (line_of addr) (c + 1) (locked_read c addr s).0
  unfolding locked_read processor_read register_addr
  next_read = record {
    represents = (read-Represents t.represents c addr lt).0;
    gone = λ j later.
        rw (bus-log c _ addr _ _, empty)
          (state-read_miss addr c (register_addr addr s.bus) c j registered
            (t.gone j (omega (arith, later))) (λ e. omega (arith, e, later)));
    only_rd =
        rw (bus-log c _ addr _ _, empty)
          (read_miss-OnlyRd addr c (register_addr addr s.bus) c t.only_rd);
  }

  pub serve-read : (settle s (serve (read (pos c) addr) s)).0 ≡ (locked_read c addr s).0
  unfolding serve System.read
  serve-read = rw (admitted t.represents c (ground arith)) refl

  pub run-read :
      (qs : List Request) → (run (read (pos c) addr ∷ qs) s).0 ≡ (run qs (locked_read c addr s).0).0
  unfolding run
  run-read qs = rw serve-read refl

pub storm :
    ⦃std : RandomEngine⦄ {n : ℕ} {m : ℕ → ℕ} (addr k c : ℕ) {s : MesiSystem}
    → c + k ≡ n
    → Storm n m (line_of addr) c s
    → OnlyRd n (run (reader_storm_from addr k c) s).0.bus
unfolding run reader_storm_from
storm addr zero c {s} all t = subst (λ j. OnlyRd j s.bus) {x = c} (omega (arith, all)) t.only_rd
storm {n = n} addr (suc k) c all t =
    let lt : c < n = omega (arith, all) in
    let rest : c + 1 + k ≡ n = omega (arith, all) in
    rw (run-read addr t lt (reader_storm_from addr k (c + 1)))
      (storm addr k (c + 1) rest (next_read addr t lt))
