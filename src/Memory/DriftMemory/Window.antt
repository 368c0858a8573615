-- ===== src/Memory/DriftMemory/Window.antt =====
-- The buffer is a window on the events that were recorded.
use vai_core.Prelude.{
  ℕ, zero, suc, ◌+◌, ◌-◌, ◌≤◌, not, List, [], ◌∷◌, ◌++◌, ok, length, length-append, any, ◌≡◌, refl,
  sym, ap, ◌∙◌, subst, arith,
}
use vai_core.Prelude.Sorting.{drop}
use vai_core.Prelude.Members.{length-keep}
use vai_core.Memory.Records.{DriftEvent}
use vai_core.Memory.DriftMemory.{
  DriftMemory, new, newest, append, record_event, clear, append_all, load_snapshot, same_key,
  remove_events, IsBounded, length-drop, length-newest, newest_all,
}

module _ {A : Type 0} where
  drop_append : (k : ℕ) (xs ys : List A) → k ≤ length xs → drop k (xs ++ ys) ≡ drop k xs ++ ys
  unfolding drop
  drop_append zero [] [] h = refl
  drop_append zero [] (y ∷ ys) h = refl
  drop_append (suc k) [] ys h = absurd (omega (arith, h))
  drop_append zero (x ∷ xs) ys h = refl
  drop_append (suc k) (x ∷ xs) ys h = drop_append k xs ys (omega (arith, h))

  drop-drop : (a b : ℕ) (xs : List A) → drop a (drop b xs) ≡ drop (a + b) xs
  unfolding drop
  drop-drop a b [] = refl
  drop-drop a zero (x ∷ xs) = ap (λ n. drop n (x ∷ xs)) (omega arith)
  drop-drop a (suc b) (x ∷ xs) = drop-drop a b xs ∙ ap (λ n. drop n (x ∷ xs)) (plus a b)
    where
      plus : (m n : ℕ) → suc (m + n) ≡ m + suc n
      plus m n = omega arith

append-newest :
    (c : ℕ) (xs : List DriftEvent) (e : DriftEvent)
    → append c (newest c xs) e ≡ newest c (xs ++ e ∷ [])
unfolding append newest
append-newest c xs e =
    ap (drop (length (drop (length xs - c) xs ++ e ∷ []) - c))
      (sym (drop_append (length xs - c) xs (e ∷ []) (omega arith)))
    ∙ drop-drop (length (drop (length xs - c) xs ++ e ∷ []) - c) (length xs - c) (xs ++ e ∷ [])
    ∙ ap (λ n. drop n (xs ++ e ∷ []))
        (omega (
          arith,
          length-append (drop (length xs - c) xs) (e ∷ []),
          length-append xs (e ∷ []),
          length-drop (length xs - c) xs,
        ))

append_assoc :
    (xs : List DriftEvent) (e : DriftEvent) (es : List DriftEvent)
    → (xs ++ e ∷ []) ++ es ≡ xs ++ e ∷ es
append_assoc [] e es = refl
append_assoc (x ∷ xs) e es = ap (λ l. x ∷ l) (append_assoc xs e es)

append_nil : (xs : List DriftEvent) → xs ++ [] ≡ xs
append_nil [] = refl
append_nil (x ∷ xs) = ap (λ l. x ∷ l) (append_nil xs)

append_all-newest :
    (c : ℕ) (xs es : List DriftEvent) → append_all c (newest c xs) es ≡ newest c (xs ++ es)
unfolding append_all
append_all-newest c xs [] = ap (newest c) (sym (append_nil xs))
append_all-newest c xs (e ∷ es) =
    ap (λ b. append_all c b es) (append-newest c xs e)
    ∙ append_all-newest c (xs ++ e ∷ []) es
    ∙ ap (newest c) (append_assoc xs e es)

-- Events recorded one after the other, from an empty buffer.
unfoldable pub record_all : List DriftEvent → DriftMemory → DriftMemory
unfolding record_event
record_all [] memory = memory
record_all (e ∷ es) memory = record_all es (record_event e memory)

record_all_buffer :
    (es : List DriftEvent) (memory : DriftMemory)
    → (record_all es memory).buffer ≡ append_all memory.capacity memory.buffer es
unfolding record_all record_event append_all
record_all_buffer [] memory = refl
record_all_buffer (e ∷ es) memory = record_all_buffer es (record_event e memory)

-- After any events, the buffer holds the newest of them, up to its capacity, in their order.
pub record_all-newest :
    (c : ℕ) (es : List DriftEvent)
    → (record_all es (record { capacity = c; buffer = [] })).buffer ≡ newest c es
unfolding newest drop
record_all-newest c es =
    record_all_buffer es (record { capacity = c; buffer = [] }) ∙ append_all-newest c [] es

-- A snapshot that is loaded into a memory of the same capacity gives the buffer back.
pub load_snapshot-buffer :
    (memory other : DriftMemory)
    → IsBounded memory
    → other.capacity ≡ memory.capacity
    → (load_snapshot memory.buffer other).buffer ≡ memory.buffer
unfolding load_snapshot newest drop
load_snapshot-buffer memory other bounded same =
    append_all-newest other.capacity [] (newest other.capacity memory.buffer)
    ∙ ap (newest other.capacity) all_of
    ∙ all_of
  where
    all_of : newest other.capacity memory.buffer ≡ memory.buffer
    all_of = newest_all other.capacity memory.buffer (omega (arith, bounded.within, same))

length-append_all :
    (c : ℕ) (xs es : List DriftEvent) → length xs ≤ c → length (append_all c xs es) ≤ c
unfolding append_all append
length-append_all c xs [] fits = fits
length-append_all c xs (e ∷ es) fits =
    length-append_all c (append c xs e) es (length-newest c (xs ++ e ∷ []))

-- One operation that writes to the buffer.
pub data Step : DriftMemory → DriftMemory → Type 0 where
  records : {memory : DriftMemory} (event : DriftEvent) → Step memory (record_event event memory)
  clears : {memory : DriftMemory} → Step memory (clear memory)
  loads :
      {memory : DriftMemory} (events : List DriftEvent) → Step memory (load_snapshot events memory)
  removes :
      {memory : DriftMemory} (events : List DriftEvent) → Step memory (remove_events events memory)

pub data Reachable : DriftMemory → Type 0 where
  made : {memory : DriftMemory} (capacity : ℕ) → new capacity ≡ ok memory → Reachable memory
  next : {memory after : DriftMemory} → Reachable memory → Step memory after → Reachable after

new-IsBounded : (c : ℕ) (memory : DriftMemory) → new c ≡ ok memory → IsBounded memory
unfolding new
new-IsBounded zero memory e = absurd (cc e)
new-IsBounded (suc n) memory e =
    let same : record { capacity = suc n; buffer = [] } ≡ memory = cc e in
    subst IsBounded same (record { positive = omega arith; within = omega arith })

Step-IsBounded :
    (memory after : DriftMemory) → IsBounded memory → Step memory after → IsBounded after
unfolding record_event append load_snapshot remove_events
Step-IsBounded memory after b (records event) = record {
  positive = b.positive;
  within = length-newest memory.capacity (memory.buffer ++ event ∷ []);
}
Step-IsBounded memory after b clears = record { positive = b.positive; within = omega arith }
Step-IsBounded memory after b (loads events) = record {
  positive = b.positive;
  within = length-append_all memory.capacity [] (newest memory.capacity events) (omega arith);
}
Step-IsBounded memory after b (removes []) = b
Step-IsBounded memory after b (removes (r ∷ events)) =
    let fewer = length-keep (λ e. not (any (same_key e) (r ∷ events))) memory.buffer in
    record { positive = b.positive; within = omega (arith, fewer, b.within) }

-- However it was written to since it was made, the buffer is within its positive capacity.
pub Reachable-IsBounded : (memory : DriftMemory) → Reachable memory → IsBounded memory
Reachable-IsBounded memory (made c e) = new-IsBounded c memory e
Reachable-IsBounded memory (next r s) = Step-IsBounded _ memory (Reachable-IsBounded _ r) s
