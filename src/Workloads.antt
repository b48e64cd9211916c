-- ===== src/Workloads.antt =====
-- sim/workloads.hpp: the stimulus patterns, as the calls that they make while none throws.
mod Alternation
mod Sharing
mod Padding
pub mod Delivery
pub mod Guarantees
use mesi_cache_coherence.Common.{ℕ, zero, suc, ◌+◌, ◌*◌, u32, ◌++◌, List, [], ◌∷◌, pos}
use mesi_cache_coherence.Refinement.Flat.{Request, read, write}

-- The loop of `ping_pong`, `k` rounds from round `i`.
unfoldable pub ping_pong_from : ℕ → ℕ → ℕ → List Request
ping_pong_from addr zero i = []
ping_pong_from addr (suc k) i =
    write (pos 0) addr (u32 (2 * i))
    ∷ write (pos 1) addr (u32 (2 * i + 1))
    ∷ ping_pong_from addr k (i + 1)

abbrev pub ping_pong : ℕ → ℕ → List Request
ping_pong addr iters = ping_pong_from addr iters 0

-- The loop of `false_sharing`, `k` rounds from round `i`.
unfoldable pub false_sharing_from : ℕ → ℕ → ℕ → ℕ → List Request
false_sharing_from a0 a1 zero i = []
false_sharing_from a0 a1 (suc k) i =
    write (pos 0) a0 (u32 i) ∷ write (pos 1) a1 (u32 i) ∷ false_sharing_from a0 a1 k (i + 1)

abbrev pub false_sharing : ℕ → ℕ → ℕ → List Request
false_sharing a0 a1 iters = false_sharing_from a0 a1 iters 0

-- The loop of `reader_storm`, `k` rounds from core `c`.
unfoldable pub reader_storm_from : ℕ → ℕ → ℕ → List Request
reader_storm_from addr zero c = []
reader_storm_from addr (suc k) c = read (pos c) addr ∷ reader_storm_from addr k (c + 1)

abbrev pub reader_storm : ℕ → ℕ → List Request
reader_storm n_cores addr = reader_storm_from addr n_cores 0

-- The address and the value of word `i` of the buffer.
abbrev pub slot : ℕ → ℕ → ℕ
slot buf_base i = u32 (buf_base + 4 * i)

abbrev pub payload : ℕ → ℕ
payload i = u32 (0xC0DE0000 + i)

-- The loops of `producer_consumer`, `k` rounds from round `i`.
unfoldable pub produce_from : ℕ → ℕ → ℕ → List Request
produce_from buf_base zero i = []
produce_from buf_base (suc k) i =
    write (pos 0) (slot buf_base i) (payload i) ∷ produce_from buf_base k (i + 1)

unfoldable pub consume_from : ℕ → ℕ → ℕ → List Request
consume_from buf_base zero i = []
consume_from buf_base (suc k) i = read (pos 1) (slot buf_base i) ∷ consume_from buf_base k (i + 1)

abbrev pub producer_consumer : ℕ → ℕ → ℕ → List Request
producer_consumer buf_base words flag_addr =
    produce_from buf_base words 0
    ++ write (pos 0) flag_addr 1 ∷ read (pos 1) flag_addr ∷ consume_from buf_base words 0
