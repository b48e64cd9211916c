-- ===== src/ScChecker/Buckets.antt =====
-- Lists with one entry for each core: an interleaving of them is a trace that each core sees as its
-- own entry.
use mathlib.Core.List.{Mem, mem-cons_self, mem-cons_of_mem}
use mesi_cache_coherence.Common.{
  false, ℕ, zero, suc, ◌+◌, ◌≤◌, ◌<◌, ◌≡◌, refl, sym, ap, ap₂, ◌∙◌, subst, List, [], ◌∷◌, ◌++◌,
  update, ◌==◌, ltb, Bool-cases, inl, inr, arith, beq→eq,
}
use mesi_cache_coherence.Trace.{TraceEvent, Trace}
use mesi_cache_coherence.ScChecker.Search.{events_of}
use mesi_cache_coherence.ScChecker.Orders.{AllDone, Interleaving, finished, place}

-- The entries of `k` cores from `c` on.
unfoldable pub entries : ℕ → ℕ → (ℕ → Trace) → List Trace
entries zero c f = []
entries (suc k) c f = f c ∷ entries k (c + 1) f

-- The entry of core `d`, with what stands before and after it, whatever the entry is.
record Located (cores : List Trace) (k c : ℕ) (f : ℕ → Trace) (d : ℕ) : Type 0 where
  before : List Trace
  after : List Trace
  here : cores ≡ before ++ f d ∷ after
  replaced : (v : Trace) → entries k c (update f d v) ≡ before ++ v ∷ after

entries-same :
    (k c : ℕ) (f g : ℕ → Trace) → ((j : ℕ) → c ≤ j → f j ≡ g j) → entries k c f ≡ entries k c g
unfolding entries
entries-same zero c f g h = refl
entries-same (suc k) c f g h =
    ap₂ ◌∷◌ (h c (omega arith)) (entries-same k (c + 1) f g (λ j le. h j (omega arith)))

locate : (k c : ℕ) (f : ℕ → Trace) (d : ℕ) → c ≤ d → d < c + k → Located (entries k c f) k c f d
unfolding entries
locate zero c f d le lt = absurd (omega (arith, le, lt))
locate (suc k) c f d le lt = elim (Bool-cases (d == c)) [
  | inl first ↦ record {
    before = [];
    after = entries k (c + 1) f;
    here = rw (beq→eq d c first) refl;
    replaced = λ v.
        ap₂ ◌∷◌ (ground (arith, first))
          (entries-same k (c + 1) (update f d v) f (λ j below. ground (arith, first)));
  }
  | inr later ↦
      let l = locate k (c + 1) f d (ground arith) (ground arith) in
      record {
        before = f c ∷ l.before;
        after = l.after;
        here = ap (◌∷◌ (f c)) l.here;
        replaced = λ v. ap₂ ◌∷◌ (ground arith) (l.replaced v);
      }
]

-- The core whose entry stands at a place of the list.
located :
    (k c : ℕ) (f : ℕ → Trace) (before : List Trace) (x : Trace) (after : List Trace)
    → entries k c f ≡ before ++ x ∷ after
    → (d : ℕ) × (c ≤ d)
      × (d < c + k)
      × (f d ≡ x)
      × ((v : Trace) → entries k c (update f d v) ≡ before ++ v ∷ after)
unfolding entries
located zero c f [] x after e = cc
located zero c f (y ∷ before) x after e = cc
located (suc k) c f [] x after e =
    let head : f c ≡ x = cc in
    let tail : entries k (c + 1) f ≡ after = cc in
    (
      c,
      omega arith,
      omega arith,
      head,
      λ v.
          ap₂ ◌∷◌ (ground arith)
            (entries-same k (c + 1) (update f c v) f (λ j le. ground arith) ∙ tail),
    )
located (suc k) c f (y ∷ before) x after e =
    let head : f c ≡ y = cc in
    let tail : entries k (c + 1) f ≡ before ++ x ∷ after = cc in
    let (d, le, lt, here, replaced) = located k (c + 1) f before x after tail in
    (
      d,
      omega (arith, le),
      omega (arith, lt),
      here,
      λ v. ap₂ ◌∷◌ (ground (arith, le) ∙ head) (replaced v),
    )

entries_done : (k c : ℕ) (f : ℕ → Trace) → ((d : ℕ) → f d ≡ []) → AllDone (entries k c f)
unfolding entries
entries_done zero c f h = tt
entries_done (suc k) c f h = rw (h c) (entries_done k (c + 1) f h)

AllDone-cons : (x : Trace) (rest : List Trace) → AllDone (x ∷ rest) → (x ≡ []) × AllDone rest
AllDone-cons [] rest h = (refl, h)
AllDone-cons (e ∷ es) rest h = absurd h

done_entries :
    (k c : ℕ) (f : ℕ → Trace) → AllDone (entries k c f) → (d : ℕ) → c ≤ d → d < c + k → f d ≡ []
unfolding entries
done_entries zero c f h d le lt = absurd (omega (arith, le, lt))
done_entries (suc k) c f h d le lt =
    let (none_here, rest) = AllDone-cons (f c) (entries k (c + 1) f) h in
    elim (Bool-cases (d == c)) [
      | inl first ↦ rw (beq→eq d c first) none_here
      | inr later ↦ done_entries k (c + 1) f rest d (ground arith) (ground arith)
    ]

-- Each entry holds events of its core only, and cores from `k` on have none.
pub record Bucketed (k : ℕ) (f : ℕ → Trace) : Type 0 where
  pub own : (d : ℕ) (x : TraceEvent) → Mem x (f d) → x.core_id ≡ d
  pub bound : (d : ℕ) → k ≤ d → f d ≡ []

update-Bucketed :
    {k : ℕ} {f : ℕ → Trace} (d : ℕ) (e : TraceEvent) (es : Trace)
    → Bucketed k f
    → f d ≡ e ∷ es
    → Bucketed k (update f d es)
update-Bucketed {k} {f} d e es b here = record {
  own = λ j x m. elim (Bool-cases (j == d)) [
    | inl same ↦
        rw (beq→eq j d same)
          (b.own d x (subst (Mem x) (sym here) (mem-cons_of_mem e (simp same at m))))
    | inr apart ↦ b.own j x (simp apart at m)
  ];
  bound = λ j le. elim (Bool-cases (j == d)) [
    | inl same ↦ let none_here : f d ≡ [] = b.bound d (ground (arith, le, same)) in cc
    | inr apart ↦ simp apart (b.bound j le)
  ];
}

pub events_of_own :
    (d : ℕ) (x : TraceEvent) (t : Trace) → x.core_id ≡ d → events_of d (x ∷ t) ≡ x ∷ events_of d t
unfolding events_of
events_of_own d x t e = ground (arith, e)

pub events_of_other :
    (d : ℕ) (x : TraceEvent) (t : Trace)
    → (x.core_id == d) ≡ false
    → events_of d (x ∷ t) ≡ events_of d t
unfolding events_of
events_of_other d x t e = simp e refl

-- An interleaving of the entries shows each core its entry.
pub Interleaving-events_of :
    (k : ℕ) {cores : List Trace} {t : Trace} (f : ℕ → Trace)
    → Bucketed k f
    → cores ≡ entries k 0 f
    → Interleaving cores t
    → (d : ℕ) → events_of d t ≡ f d
unfolding events_of
Interleaving-events_of k f b e (finished done) d = elim (Bool-cases (ltb d k)) [
  | inl lt ↦ sym (done_entries k 0 f (subst AllDone e done) d (omega arith) (ground (arith, lt)))
  | inr le ↦ sym (b.bound d (ground (arith, le)))
]
Interleaving-events_of k f b e (place before x es after split order) d =
    let (c, _, _, here, replaced) = located k 0 f before (x ∷ es) after (sym e ∙ split) in
    let own : x.core_id ≡ c = b.own c x (subst (Mem x) (sym here) mem-cons_self) in
    let rest : events_of d _ ≡ update f c es d =
      Interleaving-events_of k (update f c es) (update-Bucketed c x es b here) (sym (replaced es))
        order d in
    elim (Bool-cases (d == c)) [
      | inl same ↦
          let at_core : d ≡ c = beq→eq d c same in
          events_of_own d x _ (own ∙ sym at_core)
          ∙ ap (◌∷◌ x) (simp same at rest)
          ∙ sym here
          ∙ ap f (sym at_core)
      | inr apart ↦ events_of_other d x _ (ground (arith, own, apart)) ∙ simp apart at rest
    ]

-- Conversely, a trace that shows each core its entry is an interleaving.
pub events_of-Interleaving :
    (k : ℕ) (f : ℕ → Trace) (t : Trace)
    → Bucketed k f
    → ((d : ℕ) → events_of d t ≡ f d)
    → Interleaving (entries k 0 f) t
unfolding events_of
events_of-Interleaving k f [] b h = finished (entries_done k 0 f (λ d. sym (h d)))
events_of-Interleaving k f (x ∷ t) b h =
    let d = x.core_id in
    let es = events_of d t in
    let here : f d ≡ x ∷ es = sym (h d) ∙ events_of_own d x t refl in
    elim (Bool-cases (ltb d k)) [
      | inl lt ↦
          let l = locate k 0 f d (omega arith) (ground (arith, lt)) in
          let rest =
            events_of-Interleaving k (update f d es) t (update-Bucketed d x es b here) (λ j.
              elim (Bool-cases (j == d)) [
                | inl same ↦ simp same (ap (λ i. events_of i t) (beq→eq j d same))
                | inr apart ↦ simp apart (sym (events_of_other j x t (ground (arith, apart))) ∙ h j)
              ]) in
          place l.before x es l.after (l.here ∙ ap (λ v. l.before ++ v ∷ l.after) here)
            (subst (λ cores. Interleaving cores t) (l.replaced es) rest)
      | inr le ↦ let none_here : f d ≡ [] = b.bound d (ground (arith, le)) in cc
    ]
