-- ===== src/Primitives/Seqlock/Versions.antt =====
-- Which write each word of the sequence lock's data comes from, and what a reader knows of it.
use mesi_cache_coherence.Common.{
  ℕ, zero, suc, ◌+◌, ◌*◌, ◌/◌, ◌%◌, ◌^◌, ◌≤◌, ◌<◌, ◌≡◌, ◌≢◌, Bool, List, [], ◌∷◌, ◌++◌,
  if◌then◌else◌, ◌==◌, ltb, leb, ◌&&◌, ◌||◌,
}
use mesi_cache_coherence.Primitives.Seqlock.{
  Seqlock, SeqPc, writing, reading, WriterPc, read_seq, write_odd, fence_odd, write_word,
  fence_even, write_even, ReaderPc, read_first, fence_first, read_word, fence_second, read_second,
  snapshot,
}

-- The words of the lock.
abbrev pub region : Seqlock → ℕ → Bool
region l a = a == l.seq_addr || (leb l.data_base a && ltb a (l.data_base + 4 * l.n_words))

-- The words do not wrap around the address space, and the sequence number is none of them.
pub record IsApart (l : Seqlock) : Type 0 where
  pub below : l.data_base + 4 * l.n_words ≤ 2 ^ 32
  pub outside : (i : ℕ) → i < l.n_words → l.seq_addr ≢ l.data_base + 4 * i

module _ (vals : ℕ → ℕ → ℕ) where
  -- Word `i` after `k` writes.
  unfoldable pub content : ℕ → ℕ → ℕ
  content zero i = 0
  content (suc k) i = vals k i

  -- The first `n` words after `k` writes.
  unfoldable pub contents : ℕ → ℕ → List ℕ
  contents k zero = []
  contents k (suc n) = contents k n ++ content k n ∷ []

-- The sequence number, as the writer's place says what it is.
abbrev pub seq_of : WriterPc → ℕ
seq_of (read_seq round) = 2 * round
seq_of (write_odd round s) = 2 * round
seq_of (fence_odd round s) = 2 * round + 1
seq_of (write_word round s i) = 2 * round + 1
seq_of (fence_even round s) = 2 * round + 1
seq_of (write_even round s) = 2 * round + 1

-- How many writes a word has seen.
abbrev pub version : WriterPc → ℕ → ℕ
version (read_seq round) j = round
version (write_odd round s) j = round
version (fence_odd round s) j = round
version (write_word round s i) j = if ltb j i then round + 1 else round
version (fence_even round s) j = round + 1
version (write_even round s) j = round + 1

-- The writer's variables.
abbrev pub WriterOk : Seqlock → WriterPc → Type 0
WriterOk l (read_seq round) = Unit
WriterOk l (write_odd round s) = s ≡ 2 * round
WriterOk l (fence_odd round s) = s ≡ 2 * round
WriterOk l (write_word round s i) = (s ≡ 2 * round) × (i < l.n_words)
WriterOk l (fence_even round s) = s ≡ 2 * round
WriterOk l (write_even round s) = s ≡ 2 * round

-- What a reader has copied, while the sequence number is `q`: if it is still the one read first,
-- the copied words are those of one write.
abbrev pub ReaderOk : Seqlock → (ℕ → ℕ → ℕ) → ℕ → ReaderPc → Type 0
ReaderOk l vals q read_first = Unit
ReaderOk l vals q (fence_first s1) = (s1 ≤ q) × (s1 % 2 ≡ 0)
ReaderOk l vals q (read_word s1 i out) =
    (s1 ≤ q) × (s1 % 2 ≡ 0) × (i < l.n_words) × (s1 ≡ q → out ≡ contents vals (s1 / 2) i)
ReaderOk l vals q (fence_second s1 out) =
    (s1 ≤ q) × (s1 % 2 ≡ 0) × (s1 ≡ q → out ≡ contents vals (s1 / 2) l.n_words)
ReaderOk l vals q (read_second s1 out) =
    (s1 ≤ q) × (s1 % 2 ≡ 0) × (s1 ≡ q → out ≡ contents vals (s1 / 2) l.n_words)
ReaderOk l vals q (snapshot out) = (k : ℕ) × (2 * k ≤ q) × (out ≡ contents vals k l.n_words)

-- The memory, as the writer's place says what it is after at most `t` changes of the sequence.
pub record Stored (l : Seqlock) (vals : ℕ → ℕ → ℕ) (t : ℕ) (m : ℕ → ℕ) (p : WriterPc) : Type 0 where
  pub variables : WriterOk l p
  pub sequence : m l.seq_addr ≡ seq_of p
  pub steps : seq_of p ≤ t
  pub words : (j : ℕ) → j < l.n_words → m (l.data_base + 4 * j) ≡ content vals (version p j) j

-- Thread `w` is the writer, all others are readers; `t` events have passed.
pub record SeqInv (l : Seqlock) (vals : ℕ → ℕ → ℕ) (w t : ℕ) (m : ℕ → ℕ) (pcs : ℕ → SeqPc)
    : Type 0 where
  pub place : WriterPc
  pub at_place : pcs w ≡ writing place
  pub stored : Stored l vals t m place
  pub readers :
      (c : ℕ) → c ≢ w → (p : ReaderPc) × (pcs c ≡ reading p) × ReaderOk l vals (seq_of place) p
