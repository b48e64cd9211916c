-- ===== src/Primitives/Seqlock/Guarantees.antt =====
-- What the sequence lock promises to its readers.
use mesi_cache_coherence.Common.{
  ℕ, ◌+◌, ◌-◌, ◌^◌, ◌<◌, ◌≡◌, ◌≢◌, refl, sym, ap, true, ◌∙◌, subst, if◌then◌else◌, ◌==◌, arith,
  Bool-cases, inl, inr, List, length, pos, ok, eq→beq, beq→eq, ne→beq,
}
use mesi_cache_coherence.Bus.{RandomEngine}
use mesi_cache_coherence.System.{MesiSystem}
use mesi_cache_coherence.System
use mesi_cache_coherence.Dut.{Dut}
use mesi_cache_coherence.Refinement.Flat.{core_of}
use mesi_cache_coherence.Refinement.Runs.{init-Represents}
use mesi_cache_coherence.Threads.{Event, plays}
use mesi_cache_coherence.Threads.Protocol.{
  Protocol, Reached, plays-Reached, all_avoid, SameOn, moved,
}
use mesi_cache_coherence.Primitives.Seqlock.{
  Seqlock, SeqPc, writing, reading, WriterPc, read_seq, write_odd, fence_odd, write_word,
  fence_even, write_even, ReaderPc, read_first, fence_first, read_word, fence_second, read_second,
  snapshot, write_request, read_request, request, resume, seqlock,
}
use mesi_cache_coherence.Primitives.Seqlock.Versions.{
  region, IsApart, content, contents, seq_of, ReaderOk, Stored, SeqInv,
}
use mesi_cache_coherence.Primitives.Seqlock.Steps.{ReaderOk-later, reader-next, words_settled}
use mesi_cache_coherence.Primitives.Seqlock.Writer.{writer-next}

own_write :
    (l : Seqlock) (vals : ℕ → ℕ → ℕ) (d : Dut) (p : WriterPc)
    → core_of (write_request l vals d p) ≡ pos d.core
unfolding write_request
own_write l vals d (read_seq round) = refl
own_write l vals d (write_odd round s) = refl
own_write l vals d (fence_odd round s) = refl
own_write l vals d (write_word round s i) = refl
own_write l vals d (fence_even round s) = refl
own_write l vals d (write_even round s) = refl

own_read : (l : Seqlock) (d : Dut) (p : ReaderPc) → core_of (read_request l d p) ≡ pos d.core
unfolding read_request
own_read l d read_first = refl
own_read l d (fence_first s1) = refl
own_read l d (read_word s1 i out) = refl
own_read l d (fence_second s1 out) = refl
own_read l d (read_second s1 out) = refl
own_read l d (snapshot out) = refl

own :
    (l : Seqlock) (vals : ℕ → ℕ → ℕ) (d : Dut) (p : SeqPc)
    → core_of (request l vals d p) ≡ pos d.core
unfolding request
own l vals d (writing p) = own_write l vals d p
own l vals d (reading p) = own_read l d p

Stored-frame :
    {l : Seqlock} {vals : ℕ → ℕ → ℕ} {t : ℕ} {m : ℕ → ℕ} (m' : ℕ → ℕ) {p : WriterPc}
    → SameOn (region l) m m'
    → Stored l vals t m p
    → Stored l vals (t + 1) m' p
Stored-frame m' same s = record {
  variables = s.variables;
  sequence = same _ (ground arith) ∙ s.sequence;
  steps = omega (arith, s.steps);
  words = λ j lt. same _ (ground arith) ∙ s.words j lt;
}

module _ (l : Seqlock) (vals : ℕ → ℕ → ℕ) (apart : IsApart l) (w t : ℕ) (m : ℕ → ℕ)
    (pcs : ℕ → SeqPc) (inv : SeqInv l vals w t m pcs) where
  abbrev After : ℕ → Type 0
  After c =
      SeqInv l vals w (t + 1) (moved (seqlock l vals) c m pcs).0 (moved (seqlock l vals) c m pcs).1

  writer_moves : t < 2 ^ 32 - 1 → After w
  unfolding request resume
  writer_moves small =
      let (stored, grows) =
        writer-next apart (record { core = w }) t m inv.place small inv.stored in
      simp inv.at_place (record {
        place = _;
        at_place = rw (eq→beq w w refl) refl;
        stored = stored;
        readers = λ c other.
            let (p, at, good) = inv.readers c other in
            (p, rw (ne→beq c w other) at, ReaderOk-later l vals _ _ p grows good);
      })

  reader_moves : (c : ℕ) → c ≢ w → After c
  unfolding request resume
  reader_moves c other =
      let (p, at, good) = inv.readers c other in
      let (same, good') =
        reader-next l vals apart (record { core = c }) m (seq_of inv.place) inv.stored.sequence p
          (words_settled inv.place inv.stored) good in
      simp at (record {
        place = inv.place;
        at_place = rw (ne→beq w c (λ e. other (sym e))) inv.at_place;
        stored = Stored-frame _ (λ a inside. ap (λ f. f a) same) inv.stored;
        readers = λ c' other'. elim (Bool-cases (c' == c)) [
          | inl it ↦ (_, rw it refl, good')
          | inr apart' ↦
              let (p', at', good'') = inv.readers c' other' in (p', rw apart' at', good'')
        ];
      })

seqlock-Protocol :
    (l : Seqlock) (vals : ℕ → ℕ → ℕ) (w n : ℕ)
    → IsApart l
    → Protocol (seqlock l vals) n (2 ^ 32 - 1) (region l) (SeqInv l vals w)
seqlock-Protocol l vals w n apart = record {
  own = own l vals;
  frame = λ t m m' pcs same inv. record {
    place = inv.place;
    at_place = inv.at_place;
    stored = Stored-frame m' same inv.stored;
    readers = inv.readers;
  };
  move = λ t m pcs c small lt inv. elim (Bool-cases (c == w)) [
    | inl it ↦ rw (beq→eq c w it) (writer_moves l vals apart w t m pcs inv small)
    | inr other ↦ reader_moves l vals apart w t m pcs inv c (λ e. ground (arith, eq→beq c w e))
  ];
}

-- The writer and the readers at the start.
unfoldable pub starting : ℕ → ℕ → SeqPc
starting w c = if c == w then writing (read_seq 0) else reading read_first

starting-SeqInv : (l : Seqlock) (vals : ℕ → ℕ → ℕ) (w : ℕ) → SeqInv l vals w 0 (λ _. 0) (starting w)
unfolding starting content
starting-SeqInv l vals w = record {
  place = read_seq 0;
  at_place = rw (eq→beq w w refl) refl;
  stored = record {
    variables = tt;
    sequence = omega arith;
    steps = omega arith;
    words = λ j lt. refl;
  };
  readers = λ c other. (read_first, rw (ne→beq c w other) refl, tt);
}

module _ ⦃std : RandomEngine⦄ (l : Seqlock) (apart : IsApart l) (vals : ℕ → ℕ → ℕ) (w count : ℕ)
    (s : MesiSystem) (fresh : System.init (pos count) ≡ ok s) (es : List Event)
    (short : length es < 2 ^ 32) (avoided : all_avoid (region l) es ≡ true) where
  abbrev reached : MesiSystem × (ℕ → SeqPc)
  reached = plays (seqlock l vals) es s (starting w)

  final-SeqInv : (t' : ℕ) × Reached (seqlock-Protocol l vals w count apart) t' reached.0 reached.1
  final-SeqInv =
      plays-Reached (seqlock-Protocol l vals w count apart) es 0 s (starting w)
        (omega (arith, short)) avoided
        (record { flat = λ _. 0; memory = init-Represents fresh; inv = starting-SeqInv l vals w })

  -- One writer and any number of readers on a fresh system, in any schedule of fewer than 2^32
  -- events whose other calls write no word of the lock, whose words are different and do not wrap
  -- around the address space: the words that `read_retry` returns are all from the same call of
  -- `write`, or are the zeros from before the first.
  pub consistent_snapshot :
      (c : ℕ) (out : List ℕ)
      → c ≢ w
      → reached.1 c ≡ reading (snapshot out)
      → (k : ℕ) × (out ≡ contents vals k l.n_words)
  consistent_snapshot c out other at =
      let (_, r) = final-SeqInv in
      let (p, place, good) = r.inv.readers c other in
      let same : p ≡ snapshot out = cc in
      let found = subst (ReaderOk l vals (seq_of r.inv.place)) same good in (found.0, found.2)
