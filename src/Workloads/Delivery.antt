-- ===== src/Workloads/Delivery.antt =====
-- What the consumer reads is what the producer wrote.
use mesi_cache_coherence.Common.{
  ℕ, zero, suc, ◌+◌, ◌^◌, ◌≤◌, ◌<◌, ◌≡◌, ◌≢◌, ◌∙◌, refl, ap, ap₂, arith, pos, List, [], ◌∷◌, ◌++◌,
  Result, ok, update, ◌==◌, Bool-cases, inl, inr,
}
use mesi_cache_coherence.Refinement.Flat.{
  Request, read, write, Answer, done, word, flat_run, flat_step,
}
use mesi_cache_coherence.Workloads.{slot, payload, produce_from, consume_from, producer_consumer}

-- The answers to the first calls, and to all.
flat_run-append :
    (n : ℕ) (qs qs' : List Request) (m : ℕ → ℕ)
    → (flat_run n (qs ++ qs') m).1 ≡ (flat_run n qs m).1 ++ (flat_run n qs' (flat_run n qs m).0).1
unfolding flat_run
flat_run-append n [] qs' m = refl
flat_run-append n (q ∷ qs) qs' m =
    ap (λ rest. (flat_step n q m).1 ∷ rest) (flat_run-append n qs qs' (flat_step n q m).0)

unfoldable pub written : ℕ → List (Result Answer)
written zero = []
written (suc k) = ok done ∷ written k

unfoldable pub delivered_from : ℕ → ℕ → List (Result Answer)
delivered_from zero i = []
delivered_from (suc k) i = ok (word (payload i)) ∷ delivered_from k (i + 1)

module _ (n : ℕ) (two : 2 ≤ n) (buf : ℕ) where
  store : (a v : ℕ) (m : ℕ → ℕ) → flat_step n (write (pos 0) a v) m ≡ (update m a v, ok done)
  unfolding flat_step
  store a v m = ground arith

  load : (a : ℕ) (m : ℕ → ℕ) → flat_step n (read (pos 1) a) m ≡ (m, ok (word (m a)))
  unfolding flat_step
  load a m = ground arith

  abbrev after_producing : ℕ → ℕ → (ℕ → ℕ) → ℕ → ℕ
  after_producing k i m = (flat_run n (produce_from buf k i) m).0

  one_more :
      (k i : ℕ) (m : ℕ → ℕ) (a : ℕ)
      → after_producing (suc k) i m a
        ≡ after_producing k (i + 1) (update m (slot buf i) (payload i)) a
  unfolding flat_run produce_from
  one_more k i m a =
      ap (λ (m', _). (flat_run n (produce_from buf k (i + 1)) m').0 a)
        (store (slot buf i) (payload i) m)

  untouched :
      (k i : ℕ) (m : ℕ → ℕ) (a : ℕ)
      → ((j : ℕ) → i ≤ j → j < i + k → slot buf j ≢ a)
      → after_producing k i m a ≡ m a
  unfolding flat_run produce_from
  untouched zero i m a far = refl
  untouched (suc k) i m a far =
      one_more k i m a
      ∙ untouched k (i + 1) (update m (slot buf i) (payload i)) a
          (λ j le lt. far j (omega (arith, le)) (omega (arith, lt)))
      ∙ ground (arith, far i (omega arith) (omega arith))

  produced :
      (k i : ℕ) (m : ℕ → ℕ) (j : ℕ)
      → i + k ≤ 2 ^ 30
      → i ≤ j
      → j < i + k
      → after_producing k i m (slot buf j) ≡ payload j
  produced zero i m j small le lt = absurd (omega (arith, le, lt))
  produced (suc k) i m j small le lt = one_more k i m (slot buf j) ∙ elim (Bool-cases (i == j)) [
    | inl here ↦
        let same : i ≡ j = ground (arith, here) in
        untouched k (i + 1) (update m (slot buf i) (payload i)) (slot buf j)
          (λ l le' lt' e. omega (arith, e, le', lt', small, same))
        ∙ ground (arith, same)
    | inr there ↦
        let later : i + 1 ≤ j = ground (arith, there, le) in
        produced k (i + 1) (update m (slot buf i) (payload i)) j (omega (arith, small)) later
          (omega (arith, lt))
  ]

  answers-produce : (k i : ℕ) (m : ℕ → ℕ) → (flat_run n (produce_from buf k i) m).1 ≡ written k
  unfolding flat_run produce_from written
  answers-produce zero i m = refl
  answers-produce (suc k) i m =
      rw (store (slot buf i) (payload i) m)
        (ap (λ rest. ok done ∷ rest) (answers-produce k (i + 1) _))

  answers-consume :
      (k i : ℕ) (m : ℕ → ℕ)
      → ((j : ℕ) → i ≤ j → j < i + k → m (slot buf j) ≡ payload j)
      → (flat_run n (consume_from buf k i) m).1 ≡ delivered_from k i
  unfolding flat_run consume_from delivered_from
  answers-consume zero i m there = refl
  answers-consume (suc k) i m there = rw (load (slot buf i) m) (
      ap₂ (λ v rest. ok (word v) ∷ rest) (there i (omega arith) (omega arith))
        (answers-consume k (i + 1) m (λ j le lt. there j (omega (arith, le)) (omega (arith, lt)))))

  -- The flag is no word of the buffer.
  pub delivery :
      (words flag : ℕ) (m : ℕ → ℕ)
      → words ≤ 2 ^ 30
      → ((j : ℕ) → j < words → slot buf j ≢ flag)
      → (flat_run n (producer_consumer buf words flag) m).1
        ≡ written words ++ ok done ∷ ok (word 1) ∷ delivered_from words 0
  unfolding flat_run
  delivery words flag m small apart =
      flat_run-append n (produce_from buf words 0) _ m
      ∙ ap₂ ◌++◌ (answers-produce words 0 m) (
          rw (store flag 1 filled, load flag flagged)
            (ap₂ (λ v rest. ok done ∷ ok (word v) ∷ rest) (ground arith)
              (answers-consume words 0 flagged (λ j le lt. ground (
                arith,
                apart j (omega (arith, lt)),
                produced words 0 m j (omega (arith, small)) le lt,
              )))))
    where
      filled : ℕ → ℕ
      filled = after_producing words 0 m

      flagged : ℕ → ℕ
      flagged = update filled flag 1
