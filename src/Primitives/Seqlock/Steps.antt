-- ===== src/Primitives/Seqlock/Steps.antt =====
-- One call of a thread of the sequence lock, by its place alone.
use mesi_cache_coherence.Common.{
  ℕ, suc, ◌+◌, ◌*◌, ◌/◌, ◌%◌, ◌≤◌, ◌<◌, ◌≡◌, refl, ap, List, [], ◌∷◌, ◌++◌, ◌==◌, ltb, arith,
  Bool-cases, inl, inr, ◌∙◌,
}
use mesi_cache_coherence.Dut.{Dut}
use mesi_cache_coherence.Refinement.Flat.{apply}
use mesi_cache_coherence.Primitives.Seqlock.{
  Seqlock, word_addr, WriterPc, read_seq, write_odd, fence_odd, write_word, fence_even, write_even,
  ReaderPc, read_first, fence_first, read_word, fence_second, read_second, snapshot, read_request,
  read_resume, copy_from, begin_read,
}
use mesi_cache_coherence.Primitives.Seqlock.Versions.{
  IsApart, content, contents, seq_of, ReaderOk, Stored,
}

pub word_addr_lem :
    (l : Seqlock) (i : ℕ) → IsApart l → i < l.n_words → word_addr l i ≡ l.data_base + 4 * i
unfolding word_addr
word_addr_lem l i apart lt = omega (arith, apart.below)

contents_next :
    (vals : ℕ → ℕ → ℕ) (k i : ℕ)
    → contents vals k i ++ content vals k i ∷ [] ≡ contents vals k (i + 1)
unfolding contents
contents_next vals k i = let next : suc i ≡ i + 1 = omega arith in ap (contents vals k) next

-- A reader that was right stays right while the sequence number grows.
pub ReaderOk-later :
    (l : Seqlock) (vals : ℕ → ℕ → ℕ) (q q' : ℕ) (p : ReaderPc)
    → q ≤ q'
    → ReaderOk l vals q p
    → ReaderOk l vals q' p
ReaderOk-later l vals q q' read_first h r = r
ReaderOk-later l vals q q' (fence_first s1) h r = (omega arith, r.1)
ReaderOk-later l vals q q' (read_word s1 i out) h r =
    (omega arith, r.1, r.2, λ e. r.3 (omega arith))
ReaderOk-later l vals q q' (fence_second s1 out) h r = (omega arith, r.1, λ e. r.2 (omega arith))
ReaderOk-later l vals q q' (read_second s1 out) h r = (omega arith, r.1, λ e. r.2 (omega arith))
ReaderOk-later l vals q q' (snapshot out) h r = (r.0, omega arith, r.2)

module _ (l : Seqlock) (vals : ℕ → ℕ → ℕ) (apart : IsApart l) (d : Dut) (m : ℕ → ℕ) (q : ℕ)
    (sequence : m l.seq_addr ≡ q) where
  begin_read-ReaderOk : ReaderOk l vals q (begin_read l (m l.seq_addr))
  unfolding begin_read
  begin_read-ReaderOk = elim (Bool-cases (m l.seq_addr % 2 == 1)) [
    | inl odd ↦ rw odd tt
    | inr even ↦ rw even (omega arith, ground arith)
  ]

  copy_from-ReaderOk :
      (s1 i : ℕ) (out : List ℕ)
      → s1 ≤ q
      → s1 % 2 ≡ 0
      → i ≤ l.n_words
      → (s1 ≡ q → out ≡ contents vals (s1 / 2) i)
      → ReaderOk l vals q (copy_from l s1 i out)
  unfolding copy_from
  copy_from-ReaderOk s1 i out le even small same = elim (Bool-cases (ltb i l.n_words)) [
    | inl more ↦ rw more (le, even, ground arith, same)
    | inr last ↦
        let all : i ≡ l.n_words = ground arith in
        rw last (le, even, λ e. same e ∙ ap (contents vals (s1 / 2)) all)
  ]

  -- A reader's call changes no word, and the reader stays right.
  pub reader-next :
      (p : ReaderPc)
      → ((k j : ℕ) → q ≡ 2 * k → j < l.n_words → m (l.data_base + 4 * j) ≡ content vals k j)
      → ReaderOk l vals q p
      → let (m', a) = apply (read_request l d p) m in
        (m' ≡ m) × ReaderOk l vals q (read_resume l p a)
  unfolding read_request read_resume apply
  reader-next read_first words r = (refl, begin_read-ReaderOk)
  reader-next (fence_first s1) words r =
      (refl, copy_from-ReaderOk s1 0 [] r.0 r.1 (omega arith) (λ e. unfold contents in refl))
  reader-next (read_word s1 i out) words r =
      let new : s1 ≡ q → m (word_addr l i) ≡ content vals (s1 / 2) i =
        λ e. ap m (word_addr_lem l i apart r.2) ∙ words (s1 / 2) i (omega (arith, r.1)) r.2 in
      (
        refl,
        copy_from-ReaderOk s1 (i + 1) _ r.0 r.1 (omega (arith, r.2))
            (λ e. rw (r.3 e, new e) (contents_next vals (s1 / 2) i)),
      )
  reader-next (fence_second s1 out) words r = (refl, r)
  reader-next (read_second s1 out) words r = (
    refl,
    elim (Bool-cases (s1 == m l.seq_addr)) [
      | inl same ↦ rw same (s1 / 2, omega arith, r.2 (ground arith))
      | inr other ↦ rw other tt
    ],
  )
  reader-next (snapshot out) words r = (refl, begin_read-ReaderOk)

-- While the sequence number is even, all words are from the same write.
pub words_settled :
    {l : Seqlock} {vals : ℕ → ℕ → ℕ} {t : ℕ} {m : ℕ → ℕ} (p : WriterPc)
    → Stored l vals t m p
    → (k j : ℕ) → seq_of p ≡ 2 * k
    → j < l.n_words
    → m (l.data_base + 4 * j) ≡ content vals k j
words_settled {vals = vals} (read_seq round) s k j e lt =
    s.words j lt ∙ ap (λ r. content vals r j) (omega arith)
words_settled {vals = vals} (write_odd round s0) s k j e lt =
    s.words j lt ∙ ap (λ r. content vals r j) (omega arith)
words_settled (fence_odd round s0) s k j e lt = absurd (omega arith)
words_settled (write_word round s0 i) s k j e lt = absurd (omega arith)
words_settled (fence_even round s0) s k j e lt = absurd (omega arith)
words_settled (write_even round s0) s k j e lt = absurd (omega arith)
