-- ===== src/Memory/DriftMemory.antt =====
-- The bounded buffer of drift events (src/agent/memory/drift_memory.py): a deque of at most
-- `capacity` events, the oldest first.
pub mod Window
use vai_core.Prelude.{
  ℕ, zero, suc, ◌+◌, ◌-◌, ◌≤◌, ◌<◌, Bool, true, false, not, ◌&&◌, Option, none, some, List, [], ◌∷◌,
  ◌++◌, String, ◌==◌, Result, ok, err, ltb, leb, length, length-append, any, keep, if◌then◌else◌,
  ◌≡◌, refl, sym, ap, ◌∙◌, subst, inl, inr, arith, Bool-cases,
}
use vai_core.Prelude.Sorting.{drop}
use vai_core.Memory.Records.{DriftEvent}

pub record DriftMemory : Type 0 where
  pub capacity : ℕ
  pub buffer : List DriftEvent

-- `ValueError`
pub data DriftMemoryError : Type 0 where
  bad_capacity : ℕ → DriftMemoryError

unfoldable pub new : (capacity : ℕ) → Result DriftMemoryError DriftMemory
new zero = err (bad_capacity zero)
new (suc n) = ok (record { capacity = suc n; buffer = [] })

-- `events[-n:]`, for a positive `n`
unfoldable pub newest : {A : Type 0} → ℕ → List A → List A
unfolding drop
newest n events = drop (length events - n) events

-- `deque.append`, on a deque with a `maxlen`
unfoldable pub append : (maxlen : ℕ) → List DriftEvent → DriftEvent → List DriftEvent
unfolding newest
append maxlen buffer event = newest maxlen (buffer ++ event ∷ [])

-- `DriftMemory.record`
unfoldable pub record_event : DriftEvent → DriftMemory → DriftMemory
unfolding append
record_event event memory = record memory { buffer = append memory.capacity memory.buffer event }

unfoldable pub recent : DriftMemory → (n : ℕ) → List DriftEvent
unfolding newest
recent memory zero = []
recent memory (suc n) = newest (suc n) memory.buffer

abbrev pub last_of : List DriftEvent → Option DriftEvent
last_of [] = none
last_of (e ∷ es) = elim es [ [] ↦ some e | f ∷ fs ↦ last_of es ]

abbrev pub clear : DriftMemory → DriftMemory
clear memory = record memory { buffer = [] }

unfoldable pub filter_by_subgoal : DriftMemory → String → List DriftEvent
unfolding keep
filter_by_subgoal memory subgoal_id = keep (λ e. e.subgoal_id == subgoal_id) memory.buffer

unfoldable pub filter_by_signal : DriftMemory → String → List DriftEvent
unfolding keep
filter_by_signal memory signal_type = keep (λ e. e.signal_type == signal_type) memory.buffer

unfoldable pub count_recent : DriftMemory → (signal_type : String) (window : ℕ) → ℕ
unfolding keep newest
count_recent memory signal_type zero = 0
count_recent memory signal_type (suc w) =
    length (keep (λ e. e.signal_type == signal_type) (newest (suc w) memory.buffer))

-- `for event in events: self._buffer.append(event)`
unfoldable pub append_all : (maxlen : ℕ) → List DriftEvent → List DriftEvent → List DriftEvent
unfolding append
append_all maxlen buffer [] = buffer
append_all maxlen buffer (e ∷ es) = append_all maxlen (append maxlen buffer e) es

-- The snapshot of a buffer is the list of its events.
unfoldable pub load_snapshot : List DriftEvent → DriftMemory → DriftMemory
unfolding append_all newest
load_snapshot events memory = record memory {
  buffer = append_all memory.capacity [] (newest memory.capacity events);
}

abbrev pub same_segment : Option String → Option String → Bool
same_segment none none = true
same_segment (some s) (some t) = s == t
same_segment _ _ = false

abbrev eq_nat : ℕ → ℕ → Bool
eq_nat m n = leb m n && leb n m

-- The key that events are removed by.
unfoldable pub same_key : DriftEvent → DriftEvent → Bool
same_key x y =
    eq_nat x.timestamp y.timestamp
    && x.subgoal_id == y.subgoal_id
    && same_segment x.segment_id y.segment_id
    && x.signal_type == y.signal_type

-- With no events to remove nothing changes, which the filter does too.
unfoldable pub remove_events : List DriftEvent → DriftMemory → DriftMemory
unfolding keep any same_key
remove_events [] memory = memory
remove_events (r ∷ events) memory = record memory {
  buffer = keep (λ e. not (any (same_key e) (r ∷ events))) memory.buffer;
}

-- The buffer is within its capacity, which is positive.
pub record IsBounded (memory : DriftMemory) : Type 0 where
  pub positive : 0 < memory.capacity
  pub within : length memory.buffer ≤ memory.capacity

module _ {A : Type 0} where
  pub length-drop : (n : ℕ) (xs : List A) → length (drop n xs) ≡ length xs - n
  unfolding drop
  length-drop n [] = omega arith
  length-drop zero (x ∷ xs) = omega arith
  length-drop (suc n) (x ∷ xs) = omega (arith, length-drop n xs)

  pub length-newest : (n : ℕ) (xs : List A) → length (newest n xs) ≤ n
  unfolding newest
  length-newest n xs = omega (arith, length-drop (length xs - n) xs)

  pub newest_all : (n : ℕ) (xs : List A) → length xs ≤ n → newest n xs ≡ xs
  unfolding newest drop
  newest_all n xs fits = none_dropped (length xs - n) xs (omega (arith, fits))
    where
      none_dropped : (k : ℕ) (ys : List A) → k ≡ 0 → drop k ys ≡ ys
      none_dropped zero [] e = refl
      none_dropped zero (y ∷ ys) e = refl
      none_dropped (suc k) ys e = absurd (omega (arith, e))
