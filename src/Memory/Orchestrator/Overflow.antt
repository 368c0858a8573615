-- ===== src/Memory/Orchestrator/Overflow.antt =====
-- The overflow of the drift buffer, by count alone.
use vai_core.Prelude.{
  ℕ, zero, suc, ◌-◌, ◌≤◌, Bool, true, false, not, List, [], ◌∷◌, String, eq_refl, ltb, length, any,
  keep, ◌≡◌, refl, sym, ap, ◌∙◌, subst, inl, inr, arith, Bool-cases, Option, none, some,
}
use vai_core.Prelude.Members.{length-keep}
use vai_core.Prelude.Sorting.{insert, sorted, take}
use vai_core.Memory.Records.{DriftEvent}
use vai_core.Memory.DriftMemory.{DriftMemory, same_key, remove_events}
use vai_core.Memory.Eviction.{EvictionDecision}
use vai_core.Memory.Eviction.Drift.{
  event_before, but_last, count_evicted, to_evict, enumerate, drift_decision, drift_report,
  evict_by_drift,
}
use vai_core.Memory.Eviction.Drift.Bounds.{length-sorted, length-but_last}
use vai_core.Memory.Orchestrator.{
  evicts, events_to_remove, remove_drift_by_decisions, on_drift_overflow,
}

-- By count alone, the first events are evicted.
to_evict-take : (n now i : ℕ) (es : List DriftEvent) → to_evict n 0 [] now i es ≡ take (n - i) es
unfolding to_evict take
to_evict-take n now i [] = refl
to_evict-take n now i (e ∷ es) = elim (Bool-cases (ltb i n)) [
  | inl early ↦
      rw early
        (ap (λ l. e ∷ l) (to_evict-take n now (suc i) es) ∙ ap (λ k. take k (e ∷ es)) (more early))
  | inr late ↦ rw late (
      to_evict-take n now (suc i) es
      ∙ ap (λ k. take k es) (none_left late)
      ∙ nothing es
      ∙ ap (λ k. take k (e ∷ es)) (sym (none_now late)))
]
  where
    more : ltb i n ≡ true → suc (n - suc i) ≡ n - i
    more h = ground (arith, h)

    none_left : ltb i n ≡ false → n - suc i ≡ 0
    none_left h = ground (arith, h)

    none_now : ltb i n ≡ false → n - i ≡ 0
    none_now h = ground (arith, h)

    nothing : (l : List DriftEvent) → take 0 l ≡ []
    nothing [] = refl
    nothing (x ∷ l) = refl

take-but_last :
    (k : ℕ) (e : DriftEvent) (es : List DriftEvent)
    → k ≤ length (but_last e es)
    → take k (but_last e es) ≡ take k (e ∷ es)
unfolding take
take-but_last zero e [] h = refl
take-but_last (suc k) e [] h = absurd (omega (arith, h))
take-but_last zero e (f ∷ es) h = refl
take-but_last (suc k) e (f ∷ es) h = ap (λ l. e ∷ l) (take-but_last k f es (omega (arith, h)))

same_key_refl : (e : DriftEvent) → same_key e e ≡ true
unfolding same_key
same_key_refl e = keys e.segment_id
  where
    keys :
        (s : Option String)
        → same_key (record e { segment_id = s }) (record e { segment_id = s }) ≡ true
    keys none = ground (arith, eq_refl e.subgoal_id, eq_refl e.signal_type)
    keys (some s) = ground (arith, eq_refl e.subgoal_id, eq_refl e.signal_type, eq_refl s)

module _ (stable_hash : DriftEvent → String) (now : ℕ) where
  -- The first `k` events, numbered from `i`, are all decided on.
  abbrev Decided : List EvictionDecision → (k i : ℕ) → List DriftEvent → Type 0
  Decided ds zero i es = Unit
  Decided ds (suc k) i [] = Unit
  Decided ds (suc k) i (e ∷ es) = (evicts stable_hash ds i e ≡ true) × Decided ds k (suc i) es

  more-Decided :
      (d : EvictionDecision) (ds : List EvictionDecision) (k i : ℕ) (es : List DriftEvent)
      → Decided ds k i es
      → Decided (d ∷ ds) k i es
  unfolding any
  more-Decided d ds zero i es h = tt
  more-Decided d ds (suc k) i [] h = tt
  more-Decided d ds (suc k) i (e ∷ es) (here, rest) =
      (ground (arith, here), more-Decided d ds k (suc i) es rest)

  take-Decided :
      (k i : ℕ) (es : List DriftEvent)
      → Decided (enumerate stable_hash (drift_decision stable_hash now) i (take k es)) k i es
  unfolding take any
  take-Decided zero i es = tt
  take-Decided (suc k) i [] = tt
  take-Decided (suc k) i (e ∷ es) = (
    ground (arith, eq_refl (stable_hash e)),
    more-Decided (drift_decision stable_hash now i e)
        (enumerate stable_hash (drift_decision stable_hash now) (suc i) (take k es)) k (suc i) es
        (take-Decided k (suc i) es),
  )

  -- Events that are decided on are removed: at most the others are kept.
  kept_few :
      (ds : List EvictionDecision) (removed : List DriftEvent) (k i : ℕ) (es : List DriftEvent)
      → Decided ds k i es
      → ((e : DriftEvent)
          → any (same_key e) (events_to_remove stable_hash ds i es) ≡ true
          → any (same_key e) removed ≡ true)
      → length (keep (λ e. not (any (same_key e) removed)) es) ≤ length es - k
  unfolding events_to_remove any keep
  kept_few ds removed zero i es decided within =
      omega (arith, length-keep (λ e. not (any (same_key e) removed)) es)
  kept_few ds removed (suc k) i [] decided within = omega arith
  kept_few ds removed (suc k) i (e ∷ es) (here, rest) within =
      let out : any (same_key e) removed ≡ true =
        within e (rw here (ground (arith, same_key_refl e))) in
      rw out (
        omega (
          arith,
          kept_few ds removed k (suc i) es rest (λ f m. within f (rw here (ground (arith, m)))),
        ))

keep-insert :
    (test : DriftEvent → Bool) (lt : DriftEvent → DriftEvent → Bool) (x : DriftEvent)
    (xs : List DriftEvent)
    → length (keep test (insert lt x xs)) ≡ length (keep test (x ∷ xs))
unfolding insert keep
keep-insert test lt x [] = refl
keep-insert test lt x (y ∷ xs) = elim (Bool-cases (lt y x)) [
  | inr here ↦ rw here refl
  | inl later ↦ rw later (elim (Bool-cases (test x)) [
    | inl x_kept ↦ elim (Bool-cases (test y)) [
      | inl y_kept ↦ rw (x_kept, y_kept) (ap suc (keep-insert test lt x xs ∙ rw x_kept refl))
      | inr y_dropped ↦ rw (x_kept, y_dropped) (keep-insert test lt x xs ∙ rw x_kept refl)
    ]
    | inr x_dropped ↦ elim (Bool-cases (test y)) [
      | inl y_kept ↦ rw (x_dropped, y_kept) (ap suc (keep-insert test lt x xs ∙ rw x_dropped refl))
      | inr y_dropped ↦ rw (x_dropped, y_dropped) (keep-insert test lt x xs ∙ rw x_dropped refl)
    ]
  ])
]

keep-sorted :
    (test : DriftEvent → Bool) (lt : DriftEvent → DriftEvent → Bool) (xs : List DriftEvent)
    → length (keep test (sorted lt xs)) ≡ length (keep test xs)
unfolding sorted keep
keep-sorted test lt [] = refl
keep-sorted test lt (x ∷ xs) = keep-insert test lt x (sorted lt xs) ∙ elim (Bool-cases (test x)) [
  | inl kept ↦ rw kept (ap suc (keep-sorted test lt xs))
  | inr dropped ↦ rw dropped (keep-sorted test lt xs)
]

keep_every :
    (test : DriftEvent → Bool) (es : List DriftEvent)
    → ((e : DriftEvent) → test e ≡ true)
    → keep test es ≡ es
unfolding keep
keep_every test [] every = refl
keep_every test (e ∷ es) every = rw (every e) (ap (λ l. e ∷ l) (keep_every test es every))

remove_events-keep :
    (removed : List DriftEvent) (memory : DriftMemory)
    → (remove_events removed memory).buffer
      ≡ keep (λ e. not (any (same_key e) removed)) memory.buffer
unfolding remove_events any
remove_events-keep [] memory =
    sym (keep_every (λ e. not (any (same_key e) [])) memory.buffer (λ e. refl))
remove_events-keep (r ∷ removed) memory = refl

module _ (stable_hash : DriftEvent → String) (now : ℕ) where
  none-Decided :
      (k : ℕ) (es : List DriftEvent) → Decided stable_hash now [] k 0 es → length es ≤ length es - k
  unfolding any
  none-Decided zero es h = omega arith
  none-Decided (suc k) [] h = omega arith
  none-Decided (suc k) (e ∷ es) h = absurd (cc h.0)

  removal_bound :
      (ds : List EvictionDecision) (memory : DriftMemory) (k : ℕ)
      → Decided stable_hash now ds k 0 (sorted event_before memory.buffer)
      → length (remove_drift_by_decisions stable_hash ds memory.buffer memory).buffer
        ≤ length memory.buffer - k
  unfolding remove_drift_by_decisions
  removal_bound [] memory k decided =
      let same = length-sorted event_before memory.buffer in
      let few = none-Decided k (sorted event_before memory.buffer) decided in
      omega (arith, few, same)
  removal_bound (d ∷ ds) memory k decided =
      let l = sorted event_before memory.buffer in
      let removed = events_to_remove stable_hash (d ∷ ds) 0 l in
      let few = kept_few stable_hash now (d ∷ ds) removed k 0 l decided (λ e m. m) in
      let size = ap length (remove_events-keep removed memory) in
      let level = keep-sorted (λ e. not (any (same_key e) removed)) event_before memory.buffer in
      omega (arith, few, size, level, length-sorted event_before memory.buffer)

  report-Decided :
      (m : ℕ) (l : List DriftEvent)
      → (k : ℕ) × (Decided stable_hash now
          (drift_report stable_hash (suc m) 0 [] now l).evicted_drift_events
          k
          0
          l)
        × (length l - k ≤ suc m)
  unfolding count_evicted
  report-Decided m [] = (0, tt, omega arith)
  report-Decided m (e ∷ es) =
      let front = but_last e es in
      let k = length front - m in
      let whole : k - 0 ≡ k = omega arith in
      let first =
        to_evict-take k now 0 front
        ∙ ap (λ j. take j front) whole
        ∙ take-but_last k e es (omega arith) in
      (
        k,
        subst
            (λ out.
              Decided stable_hash now (enumerate stable_hash (drift_decision stable_hash now) 0 out)
                k 0 (e ∷ es))
            (sym first) (take-Decided stable_hash now k 0 (e ∷ es)),
        omega (arith, length-but_last e es),
      )

-- The overflow of a drift buffer by count alone, with a positive threshold, leaves no more events in
-- the buffer than the threshold.
pub on_drift_overflow_bound :
    (stable_hash : DriftEvent → String) (now m : ℕ) (memory : DriftMemory)
    → length (on_drift_overflow stable_hash now (suc m) 0 [] memory).buffer ≤ suc m
unfolding on_drift_overflow evict_by_drift
on_drift_overflow_bound stable_hash now m memory =
    let (k, decided, few) = report-Decided stable_hash now m (sorted event_before memory.buffer) in
    let bound =
      removal_bound stable_hash now
        (drift_report stable_hash (suc m) 0 [] now
          (sorted event_before memory.buffer)).evicted_drift_events
        memory k decided in
    omega (arith, bound, few, length-sorted event_before memory.buffer)
