-- ===== src/Primitives/Seqlock.antt =====
-- primitives/seqlock.hpp: the sequence lock, as the calls that its threads make.
pub mod Versions
pub mod Steps
pub mod Writer
pub mod Guarantees
use mesi_cache_coherence.Common.{
  ℕ, ◌+◌, ◌*◌, ◌%◌, List, [], ◌∷◌, ◌++◌, u32, if◌then◌else◌, ◌==◌, ltb,
}
use mesi_cache_coherence.Dut.{Dut}
use mesi_cache_coherence.Dut
use mesi_cache_coherence.Refinement.Flat.{Request, Answer, done, word}
use mesi_cache_coherence.Threads.{Client}

pub record Seqlock : Type 0 where
  pub seq_addr : ℕ
  pub data_base : ℕ
  pub n_words : ℕ

unfoldable pub word_addr : Seqlock → ℕ → ℕ
word_addr l i = u32 (l.data_base + 4 * i)

-- A writer calls `write` again and again, a reader `read_retry`. A program counter is named for the
-- call that comes next; it carries the local variables of the source: the sequence number read
-- first, the loop's `i`, the words copied so far. `round` counts the calls of `write`.
pub data WriterPc : Type 0 where
  read_seq : (round : ℕ) → WriterPc
  write_odd : (round s : ℕ) → WriterPc
  fence_odd : (round s : ℕ) → WriterPc
  write_word : (round s i : ℕ) → WriterPc
  fence_even : (round s : ℕ) → WriterPc
  write_even : (round s : ℕ) → WriterPc

pub data ReaderPc : Type 0 where
  read_first : ReaderPc
  fence_first : (s1 : ℕ) → ReaderPc
  read_word : (s1 i : ℕ) (out : List ℕ) → ReaderPc
  fence_second : (s1 : ℕ) (out : List ℕ) → ReaderPc
  read_second : (s1 : ℕ) (out : List ℕ) → ReaderPc
  -- `read_retry` has returned; the thread reads again.
  snapshot : (out : List ℕ) → ReaderPc

pub data SeqPc : Type 0 where
  writing : WriterPc → SeqPc
  reading : ReaderPc → SeqPc

module _ (l : Seqlock) (vals : ℕ → ℕ → ℕ) where
  -- The calls of `write`; `vals round i` is its `vals[i]`.
  unfoldable pub write_request : Dut → WriterPc → Request
  unfolding word_addr
  write_request d (read_seq round) = Dut.read d l.seq_addr
  write_request d (write_odd round s) = Dut.write d l.seq_addr (u32 (s + 1))
  write_request d (fence_odd round s) = Dut.fence d
  write_request d (write_word round s i) = Dut.write d (word_addr l i) (vals round i)
  write_request d (fence_even round s) = Dut.fence d
  write_request d (write_even round s) = Dut.write d l.seq_addr (u32 (s + 2))

  -- The test of the loop in `write`.
  unfoldable pub write_from : ℕ → ℕ → ℕ → WriterPc
  write_from round s i = if ltb i l.n_words then write_word round s i else fence_even round s

  -- A read answers with a word, a write or a fence with `done`; no other answer comes.
  unfoldable pub write_resume : WriterPc → Answer → WriterPc
  unfolding write_from
  write_resume (read_seq round) (word v) = write_odd round v
  write_resume (write_odd round s) done = fence_odd round s
  write_resume (fence_odd round s) done = write_from round s 0
  write_resume (write_word round s i) done = write_from round s (i + 1)
  write_resume (fence_even round s) done = write_even round s
  write_resume (write_even round s) done = read_seq (round + 1)
  write_resume p _ = p

module _ (l : Seqlock) where
  -- The calls of `try_read`.
  unfoldable pub read_request : Dut → ReaderPc → Request
  unfolding word_addr
  read_request d read_first = Dut.read d l.seq_addr
  read_request d (fence_first s1) = Dut.fence d
  read_request d (read_word s1 i out) = Dut.read d (word_addr l i)
  read_request d (fence_second s1 out) = Dut.fence d
  read_request d (read_second s1 out) = Dut.read d l.seq_addr
  read_request d (snapshot out) = Dut.read d l.seq_addr

  -- The test of the loop in `try_read`.
  unfoldable pub copy_from : ℕ → ℕ → List ℕ → ReaderPc
  copy_from s1 i out = if ltb i l.n_words then read_word s1 i out else fence_second s1 out

  -- `try_read` after its first read: it gives up while a writer is active.
  unfoldable pub begin_read : ℕ → ReaderPc
  begin_read s1 = if s1 % 2 == 1 then read_first else fence_first s1

  -- `try_read` in the loop of `read_retry`. A read answers with a word, a fence with `done`; no
  -- other answer comes.
  unfoldable pub read_resume : ReaderPc → Answer → ReaderPc
  unfolding copy_from begin_read
  read_resume read_first (word v) = begin_read v
  read_resume (fence_first s1) done = copy_from s1 0 []
  read_resume (read_word s1 i out) (word v) = copy_from s1 (i + 1) (out ++ v ∷ [])
  read_resume (fence_second s1 out) done = read_second s1 out
  read_resume (read_second s1 out) (word v) = if s1 == v then snapshot out else read_first
  read_resume (snapshot out) (word v) = begin_read v
  read_resume p _ = p

unfoldable pub request : Seqlock → (ℕ → ℕ → ℕ) → Dut → SeqPc → Request
request l vals d (writing p) = write_request l vals d p
request l vals d (reading p) = read_request l d p

unfoldable pub resume : Seqlock → (ℕ → ℕ → ℕ) → SeqPc → Answer → SeqPc
resume l vals (writing p) a = writing (write_resume l vals p a)
resume l vals (reading p) a = reading (read_resume l p a)

abbrev pub seqlock : Seqlock → (ℕ → ℕ → ℕ) → Client SeqPc
seqlock l vals = record { request = request l vals; resume = resume l vals }
