-- ===== src/Primitives/Seqlock/Writer.antt =====
-- One call of the writer of the sequence lock.
use mesi_cache_coherence.Common.{
  ℕ, suc, ◌+◌, ◌-◌, ◌*◌, ◌^◌, ◌≤◌, ◌<◌, ◌≡◌, refl, ap, true, false, if◌then◌else◌, ◌==◌, ltb, arith,
  update, Bool-cases, inl, inr, ◌∙◌,
}
use mesi_cache_coherence.Dut.{Dut}
use mesi_cache_coherence.Refinement.Flat.{apply}
use mesi_cache_coherence.Primitives.Seqlock.{
  Seqlock, WriterPc, read_seq, write_odd, fence_odd, write_word, fence_even, write_even,
  write_request, write_resume, write_from,
}
use mesi_cache_coherence.Primitives.Seqlock.Versions.{IsApart, content, seq_of, Stored}
use mesi_cache_coherence.Primitives.Seqlock.Steps.{word_addr_lem}

-- A write of the sequence number leaves the data.
bump :
    {l : Seqlock} (apart : IsApart l) (m : ℕ → ℕ) (v j : ℕ)
    → j < l.n_words
    → update m l.seq_addr v (l.data_base + 4 * j) ≡ m (l.data_base + 4 * j)
bump apart m v j lt = ground (arith, apart.outside j)

update_at : (m : ℕ → ℕ) (a v : ℕ) → update m a v a ≡ v
update_at m a v = ground arith

content_next : (vals : ℕ → ℕ → ℕ) (k i : ℕ) → content vals (k + 1) i ≡ vals k i
unfolding content
content_next vals k i = let next : k + 1 ≡ suc k = omega arith in ap (λ n. content vals n i) next

-- The write of word `i` brings it to the next version.
word_written :
    {l : Seqlock} (vals : ℕ → ℕ → ℕ) (apart : IsApart l) (m : ℕ → ℕ) (round i j : ℕ)
    → i < l.n_words
    → m (l.data_base + 4 * j) ≡ content vals (if ltb j i then round + 1 else round) j
    → update m (l.data_base + 4 * i) (vals round i) (l.data_base + 4 * j)
      ≡ content vals (if ltb j (i + 1) then round + 1 else round) j
word_written vals apart m round i j li old = elim (Bool-cases (j == i)) [
  | inl same ↦ ground (arith, content_next vals round i)
  | inr other ↦ ground (arith, content_next vals round i)
]

module _ {l : Seqlock} {vals : ℕ → ℕ → ℕ} where
  write_from-Stored :
      (t : ℕ) (m : ℕ → ℕ) (round i : ℕ)
      → i ≤ l.n_words
      → m l.seq_addr ≡ 2 * round + 1
      → 2 * round + 1 ≤ t
      → ((j : ℕ)
          → j < l.n_words
          → m (l.data_base + 4 * j) ≡ content vals (if ltb j i then round + 1 else round) j)
      → Stored l vals t m (write_from l vals round (2 * round) i)
        × (seq_of (write_from l vals round (2 * round) i) ≡ 2 * round + 1)
  unfolding write_from
  write_from-Stored t m round i small sequence steps words = elim (Bool-cases (ltb i l.n_words)) [
    | inl more ↦ rw more (
      record {
        variables = (refl, ground arith);
        sequence = sequence;
        steps = steps;
        words = words;
      },
      refl,
    )
    | inr last ↦ rw last (
      record {
        variables = refl;
        sequence = sequence;
        steps = steps;
        words = λ j lt. let new : ltb j i ≡ true = ground arith in words j lt ∙ rw new refl;
      },
      refl,
    )
  ]

  -- The writer's call keeps the memory as its next place says, and the sequence number grows.
  pub writer-next :
      (apart : IsApart l) (d : Dut) (t : ℕ) (m : ℕ → ℕ) (p : WriterPc)
      → t < 2 ^ 32 - 1
      → Stored l vals t m p
      → let (m', a) = apply (write_request l vals d p) m in
        Stored l vals (t + 1) m' (write_resume l vals p a)
        × (seq_of p ≤ seq_of (write_resume l vals p a))
  unfolding write_request write_resume apply
  writer-next apart d t m (read_seq round) small s = (
    record {
      variables = s.sequence;
      sequence = s.sequence;
      steps = omega (arith, s.steps);
      words = s.words;
    },
    omega arith,
  )
  writer-next apart d t m (write_odd round s0) small s = (
    record {
      variables = s.variables;
      sequence = update_at m l.seq_addr _ ∙ omega (arith, s.variables, s.steps, small);
      steps = omega (arith, s.steps);
      words = λ j lt. bump apart m _ j lt ∙ s.words j lt;
    },
    omega arith,
  )
  writer-next apart d t m (fence_odd round s0) small s =
      let (kept, same) =
        write_from-Stored (t + 1) m round 0 (omega arith) s.sequence (omega (arith, s.steps))
          (λ j lt. let fresh : ltb j 0 ≡ false = ground arith in rw fresh (s.words j lt)) in
      rw s.variables (kept, rw same (omega arith))
  writer-next apart d t m (write_word round s0 i) small s =
      let m' = update m (l.data_base + 4 * i) (vals round i) in
      let (kept, same) =
        write_from-Stored (t + 1) m' round (i + 1) (omega (arith, s.variables))
          (ground (arith, apart.outside i, s.sequence, s.variables)) (omega (arith, s.steps))
          (λ j lt. word_written vals apart m round i j s.variables.1 (s.words j lt)) in
      rw (s.variables.0, word_addr_lem l i apart s.variables.1) (kept, rw same (omega arith))
  writer-next apart d t m (fence_even round s0) small s = (
    record {
      variables = s.variables;
      sequence = s.sequence;
      steps = omega (arith, s.steps);
      words = s.words;
    },
    omega arith,
  )
  writer-next apart d t m (write_even round s0) small s = (
    record {
      variables = tt;
      sequence = update_at m l.seq_addr _ ∙ omega (arith, s.variables, s.steps, small);
      steps = omega (arith, s.steps);
      words = λ j lt. bump apart m _ j lt ∙ s.words j lt;
    },
    omega arith,
  )
