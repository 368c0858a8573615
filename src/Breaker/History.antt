-- ===== src/Breaker/History.antt =====
-- The breaker after a history of its calls: the counts of failures and the deadlines.
use vai_core.Prelude.{
  ℕ, suc, ◌+◌, ◌≤◌, Bool, false, ◌==◌, eq_iff, List, [], ◌∷◌, Option, none, some, String, leb, ltb,
  if◌then◌else◌, ◌≡◌, refl, sym, ap, ◌∙◌, inl, inr, Bool-cases, arith,
}
use vai_core.Prelude.Dict.{Dict, get, put, get-put, get-remove}
use vai_core.Breaker.{
  CircuitBreaker, create, count, open_circuit, record_failure, record_success, still_open, is_open,
}

-- One call of the breaker.
pub data Call : Type 0 where
  failure success query : (now : ℕ) → (tool_name : String) → Call

abbrev pub time : Call → ℕ
time (failure now tool) = now
time (success now tool) = now
time (query now tool) = now

unfoldable pub call : Call → CircuitBreaker → CircuitBreaker
unfolding record_failure record_success is_open
call (failure now tool) b = record_failure now tool b
call (success now tool) b = record_success tool b
call (query now tool) b = (is_open now tool b).1

-- The breaker after the calls, the latest first.
unfoldable pub run : List Call → CircuitBreaker → CircuitBreaker
unfolding call
run [] b = b
run (c ∷ cs) b = call c (run cs b)

-- The failures of the tool since its last success.
unfoldable pub streak : String → List Call → ℕ
streak tool [] = 0
streak tool (failure now x ∷ cs) = if x == tool then suc (streak tool cs) else streak tool cs
streak tool (success now x ∷ cs) = if x == tool then 0 else streak tool cs
streak tool (query now x ∷ cs) = streak tool cs

unfoldable pub last_failure : String → List Call → ℕ
last_failure tool [] = 0
last_failure tool (failure now x ∷ cs) = if x == tool then now else last_failure tool cs
last_failure tool (success now x ∷ cs) = last_failure tool cs
last_failure tool (query now x ∷ cs) = last_failure tool cs

-- The clock does not go back over the calls, up to the time `now`.
abbrev pub Ordered : (now : ℕ) → List Call → Type 0
Ordered now [] = Unit
Ordered now (c ∷ cs) = (time c ≤ now) × Ordered (time c) cs

abbrev pub blocks : (now : ℕ) → Option ℕ → Bool
blocks now none = false
blocks now (some until) = ltb now until

pub is_open-blocks :
    (now : ℕ) (tool : String) (b : CircuitBreaker)
    → (is_open now tool b).0 ≡ blocks now (get b.open_until tool)
unfolding is_open
is_open-blocks now tool b = go (get b.open_until tool)
  where
    go : (x : Option ℕ) → (still_open now tool b x).0 ≡ blocks now x
    go none = refl
    go (some until) = ground arith

-- What a query leaves of the deadlines, as seen from a later time.
pub query-blocks :
    (q now : ℕ) (x tool : String) (b : CircuitBreaker)
    → q ≤ now
    → blocks now (get (is_open q x b).1.open_until tool) ≡ blocks now (get b.open_until tool)
unfolding is_open
query-blocks q now x tool b le = go (get b.open_until x) refl
  where
    go :
        (found : Option ℕ)
        → get b.open_until x ≡ found
        → blocks now (get (still_open q x b found).1.open_until tool)
          ≡ blocks now (get b.open_until tool)
    go none e = refl
    go (some until) e = elim (Bool-cases (ltb q until)) [
      | inl shut ↦ rw shut refl
      | inr over ↦
          rw (over, get-remove b.open_until x tool)
            (elim (Bool-cases (x == tool)) [
              | inr other ↦ rw other refl
              | inl same ↦ rw (same, sym ((eq_iff x tool).0 same), e) (ground (arith, over))
            ])
    ]

pub failure-fields :
    (t : ℕ) (x : String) (b : CircuitBreaker)
    → ((record_failure t x b).failure_threshold ≡ b.failure_threshold)
      × ((record_failure t x b).cooldown ≡ b.cooldown)
      × ((record_failure t x b).failures ≡ put b.failures x (suc (count (get b.failures x))))
      × ((record_failure t x b).open_until ≡ (
          if leb b.failure_threshold (suc (count (get b.failures x)))
          then put b.open_until x (t + b.cooldown)
          else b.open_until))
unfolding record_failure open_circuit
failure-fields t x b =
    elim (Bool-cases (leb b.failure_threshold (suc (count (get b.failures x))))) [
      | inl go ↦ rw go (refl, refl, refl, refl)
      | inr skip ↦ rw skip (refl, refl, refl, refl)
    ]

query-fields :
    (t : ℕ) (x : String) (b : CircuitBreaker)
    → ((is_open t x b).1.failure_threshold ≡ b.failure_threshold)
      × ((is_open t x b).1.cooldown ≡ b.cooldown)
      × ((is_open t x b).1.failures ≡ b.failures)
unfolding is_open
query-fields t x b = go (get b.open_until x)
  where
    go :
        (found : Option ℕ)
        → ((still_open t x b found).1.failure_threshold ≡ b.failure_threshold)
          × ((still_open t x b found).1.cooldown ≡ b.cooldown)
          × ((still_open t x b found).1.failures ≡ b.failures)
    go none = (refl, refl, refl)
    go (some until) = elim (Bool-cases (ltb t until)) [
      | inl shut ↦ rw shut (refl, refl, refl)
      | inr over ↦ rw over (refl, refl, refl)
    ]

-- The fields of the breaker after the calls.
pub record Tracks (threshold cooldown : ℕ) (tool : String) (cs : List Call) (b : CircuitBreaker)
    : Type 0 where
  pub same_threshold : b.failure_threshold ≡ threshold
  pub same_cooldown : b.cooldown ≡ cooldown
  pub counted : count (get b.failures tool) ≡ streak tool cs

count-put :
    (d : Dict ℕ) (x tool : String) (n : ℕ)
    → count (get (put d x n) tool) ≡ (if x == tool then n else count (get d tool))
count-put d x tool n = elim (Bool-cases (x == tool)) [
  | inl same ↦ rw (get-put d x tool n, same) refl
  | inr other ↦ rw (get-put d x tool n, other) refl
]

same_tool :
    (x tool : String) (d : Dict ℕ) (n : ℕ)
    → count (get d tool) ≡ n
    → (if x == tool then suc (count (get d x)) else count (get d tool))
      ≡ (if x == tool then suc n else n)
same_tool x tool d n e = elim (Bool-cases (x == tool)) [
  | inl same ↦ rw same (ap suc (ap (λ k. count (get d k)) ((eq_iff x tool).0 same) ∙ e))
  | inr other ↦ rw other e
]

pub run-Tracks :
    (threshold cooldown : ℕ) (tool : String) (cs : List Call)
    → Tracks threshold cooldown tool cs (run cs (create threshold cooldown))
unfolding run call streak create get record_success
run-Tracks threshold cooldown tool [] = record {
  same_threshold = refl;
  same_cooldown = refl;
  counted = refl;
}
run-Tracks threshold cooldown tool (failure t x ∷ cs) =
    let before = run cs (create threshold cooldown) in
    let ih = run-Tracks threshold cooldown tool cs in
    let fields = failure-fields t x before in
    record {
      same_threshold = fields.0 ∙ ih.same_threshold;
      same_cooldown = fields.1 ∙ ih.same_cooldown;
      counted =
          ap (λ d. count (get d tool)) fields.2
          ∙ count-put before.failures x tool (suc (count (get before.failures x)))
          ∙ same_tool x tool before.failures (streak tool cs) ih.counted;
    }
run-Tracks threshold cooldown tool (success t x ∷ cs) =
    let before = run cs (create threshold cooldown) in
    let ih = run-Tracks threshold cooldown tool cs in
    record {
      same_threshold = ih.same_threshold;
      same_cooldown = ih.same_cooldown;
      counted =
          count-put before.failures x tool 0 ∙ ap (λ n. if x == tool then 0 else n) ih.counted;
    }
run-Tracks threshold cooldown tool (query t x ∷ cs) =
    let before = run cs (create threshold cooldown) in
    let ih = run-Tracks threshold cooldown tool cs in
    let fields = query-fields t x before in
    record {
      same_threshold = fields.0 ∙ ih.same_threshold;
      same_cooldown = fields.1 ∙ ih.same_cooldown;
      counted = ap (λ d. count (get d tool)) fields.2 ∙ ih.counted;
    }
