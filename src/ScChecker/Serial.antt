-- ===== src/ScChecker/Serial.antt =====
-- The check passes exactly the traces in which every read returns the latest write.
use mesi_cache_coherence.Common.{
  ℕ, ◌≡◌, ◌≢◌, ◌↔◌, inl, inr, refl, ap, sym, ◌∙◌, true, [], ◌∷◌, ◌++◌, Option, none, some, Map,
  arith, if◌then◌else◌, ◌==◌, Bool-cases,
}
use mesi_cache_coherence.Trace.{read_op, write_op, TraceEvent, Trace}
use mesi_cache_coherence.ScChecker.{
  sort_by, current_value, after_event, violates, check_events, report, check_serial_order,
}

-- The value of the last write to an address in a trace, or 0.
unfoldable pub latest : Trace → ℕ → ℕ → ℕ
latest [] addr v = v
latest (e ∷ rest) addr v =
    latest rest addr (elim e.op [ write_op ↦ if e.addr == addr then e.value else v | read_op ↦ v ])

-- Every read returns the value of the last write before it to its address, or 0.
abbrev pub ReadsLatest : Trace → Type 0
ReadsLatest t =
    (before after : Trace) (e : TraceEvent)
    → t ≡ before ++ e ∷ after
    → e.op ≡ read_op
    → e.value ≡ latest before e.addr 0

-- The values after a trace.
unfoldable pub after_events : Trace → Map ℕ → Map ℕ
after_events [] mem = mem
after_events (e ∷ rest) mem = after_events rest (after_event e mem)

after_event_latest :
    (e : TraceEvent) (mem : Map ℕ) (addr : ℕ)
    → current_value (after_event e mem) addr ≡ (elim e.op [
      | write_op ↦ if e.addr == addr then e.value else current_value mem addr
      | read_op ↦ current_value mem addr
    ])
unfolding after_event
after_event_latest e mem addr = ground arith

current_value-after_events :
    (t : Trace) (mem : Map ℕ) (addr : ℕ)
    → current_value (after_events t mem) addr ≡ latest t addr (current_value mem addr)
unfolding after_events latest
current_value-after_events [] mem addr = refl
current_value-after_events (e ∷ rest) mem addr =
    current_value-after_events rest (after_event e mem) addr
    ∙ ap (latest rest addr) (after_event_latest e mem addr)

-- The same, from given values on.
abbrev ReadsFrom : Map ℕ → Trace → Type 0
ReadsFrom mem t =
    (before after : Trace) (e : TraceEvent)
    → t ≡ before ++ e ∷ after
    → e.op ≡ read_op
    → e.value ≡ current_value (after_events before mem) e.addr

violates-read :
    (e : TraceEvent) (mem : Map ℕ)
    → (violates e mem ≡ true) ↔ ((e.op ≡ read_op) × (e.value ≢ current_value mem e.addr))
unfolding violates
violates-read e mem = (λ h. (ground arith, ground arith), λ h. ground arith)

tail_path : {e b : TraceEvent} {t u : Trace} → e ∷ t ≡ b ∷ u → (e ≡ b) × (t ≡ u)
tail_path h = (cc, cc)

nil_path : (e : TraceEvent) (before after : Trace) → [] ≢ before ++ e ∷ after
nil_path e [] after h = cc
nil_path e (b ∷ bs) after h = cc

check_events-ReadsFrom : (t : Trace) (mem : Map ℕ) → check_events t mem ≡ none → ReadsFrom mem t
unfolding check_events after_events
check_events-ReadsFrom [] mem h before after e p r = absurd (nil_path e before after p)
check_events-ReadsFrom (x ∷ rest) mem h [] after e p r =
    let (same, _) = tail_path p in ground (arith, violates-read x mem)
check_events-ReadsFrom (x ∷ rest) mem h (b ∷ bs) after e p r =
    let (same, q) = tail_path p in
    rw (← same) (check_events-ReadsFrom rest (after_event x mem) (ground arith) bs after e q r)

ReadsFrom-check_events : (t : Trace) (mem : Map ℕ) → ReadsFrom mem t → check_events t mem ≡ none
unfolding check_events after_events
ReadsFrom-check_events [] mem h = refl
ReadsFrom-check_events (x ∷ rest) mem h = elim (Bool-cases (violates x mem)) [
  | inl bad ↦ let (r, n) = (violates-read x mem).0 bad in absurd (n (h [] rest x refl r))
  | inr good ↦ rw good (
      ReadsFrom-check_events rest (after_event x mem)
        (λ before after e p r. h (x ∷ before) after e (ap (◌∷◌ x) p) r))
]

current_latest :
    (t : Trace) (addr : ℕ) → current_value (after_events t (λ _. none)) addr ≡ latest t addr 0
current_latest t addr = current_value-after_events t (λ _. none) addr

report-ok : (n : ℕ) (r : Option (TraceEvent × ℕ)) → ((report n r).ok ≡ true) ↔ (r ≡ none)
unfolding report
report-ok n none = (λ h. refl, λ h. refl)
report-ok n (some x) = (λ h. cc, λ h. cc)

-- The loop finds nothing exactly when every read returns the latest write.
pub check_events_iff : (t : Trace) → (check_events t (λ _. none) ≡ none) ↔ ReadsLatest t
check_events_iff t = (
  λ h before after e p r.
      check_events-ReadsFrom t (λ _. none) h before after e p r ∙ current_latest before e.addr,
  λ h.
      ReadsFrom-check_events t (λ _. none)
        (λ before after e p r. h before after e p r ∙ sym (current_latest before e.addr)),
)

-- The check passes a trace exactly when, in the order of the time stamps, every read returns the
-- value of the last write before it to the same address, or 0 if there is none.
pub check_serial_order-ok_iff :
    (trace : Trace)
    → ((check_serial_order trace).ok ≡ true) ↔ ReadsLatest (sort_by (λ e. e.timestamp) trace)
unfolding check_serial_order
check_serial_order-ok_iff trace =
    let t = sort_by (λ e. e.timestamp) trace in
    (
      λ h. (check_events_iff t).0 ((report-ok _ _).0 h),
      λ h. (report-ok _ _).1 ((check_events_iff t).1 h),
    )
