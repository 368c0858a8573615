-- ===== src/Breaker/Streak.antt =====
-- When a circuit is open, against the history of the breaker's calls.
use vai_core.Prelude.{
  ℕ, suc, ◌+◌, ◌≤◌, true, ◌&&◌, ◌==◌, eq_iff, List, [], ◌∷◌, String, leb, ltb, if◌then◌else◌, ◌≡◌,
  ap, ◌∙◌, inl, inr, Bool-cases, arith,
}
use vai_core.Prelude.Dict.{Dict, get, put, remove, get-put, get-remove}
use vai_core.Breaker.{CircuitBreaker, create, count, record_success, is_open}
use vai_core.Breaker.History.{
  failure, success, query, Call, call, run, streak, last_failure, Ordered, blocks, is_open-blocks,
  query-blocks, failure-fields, run-Tracks,
}

later : (cs : List Call) (t now : ℕ) → t ≤ now → Ordered t cs → Ordered now cs
later [] t now le ordered = tt
later (c ∷ cs) t now le ordered = (omega (arith, le, ordered.0), ordered.1)

-- A failure that reaches the threshold sets the deadline of its own tool, and no other.
blocks-failure :
    (threshold cooldown now t : ℕ) (x tool : String) (d : Dict ℕ) (own n last : ℕ)
    → blocks now (get d tool) ≡ (leb threshold n && ltb now (last + cooldown))
    → (x == tool ≡ true → own ≡ n)
    → blocks now (get (if leb threshold (suc own) then put d x (t + cooldown) else d) tool) ≡ (
        leb threshold (if x == tool then suc n else n)
        && ltb now ((if x == tool then t else last) + cooldown))
blocks-failure threshold cooldown now t x tool d own n last ih agree =
    elim (Bool-cases (x == tool)) [
      | inl same ↦ elim (Bool-cases (leb threshold (suc own))) [
        | inl go ↦ rw (go, get-put d x tool (t + cooldown), same) (ground (arith, go, agree same))
        | inr skip ↦ rw (skip, same, ih) (ground (arith, skip, agree same))
      ]
      | inr other ↦ elim (Bool-cases (leb threshold (suc own))) [
        | inl go ↦ rw (go, get-put d x tool (t + cooldown), other) ih
        | inr skip ↦ rw (skip, other) ih
      ]
    ]

blocks-success :
    (threshold cooldown now : ℕ) (x tool : String) (d : Dict ℕ) (n last : ℕ)
    → 1 ≤ threshold
    → blocks now (get d tool) ≡ (leb threshold n && ltb now (last + cooldown))
    → blocks now (get (remove d x) tool)
      ≡ (leb threshold (if x == tool then 0 else n) && ltb now (last + cooldown))
blocks-success threshold cooldown now x tool d n last pos ih = elim (Bool-cases (x == tool)) [
  | inl same ↦ rw (get-remove d x tool, same) (ground (arith, pos))
  | inr other ↦ rw (get-remove d x tool, other) ih
]

cong2 : {A B C : Type 0} (f : A → B → C) {a b : A} {c d : B} → a ≡ b → c ≡ d → f a c ≡ f b d
cong2 f p q = λ i. f (p i) (q i)

failure-deadline :
    (threshold cooldown t : ℕ) (x : String) (b : CircuitBreaker) (own : ℕ)
    → leb b.failure_threshold (suc (count (get b.failures x))) ≡ leb threshold (suc own)
    → b.cooldown ≡ cooldown
    → (if leb b.failure_threshold (suc (count (get b.failures x)))
        then put b.open_until x (t + b.cooldown)
        else b.open_until)
      ≡ (if leb threshold (suc own) then put b.open_until x (t + cooldown) else b.open_until)
failure-deadline threshold cooldown t x b own test cool =
    cong2 (λ c k. if c then put b.open_until x (t + k) else b.open_until) test cool

run-blocks :
    (threshold cooldown now : ℕ) (tool : String) (cs : List Call)
    → 1 ≤ threshold
    → Ordered now cs
    → blocks now (get (run cs (create threshold cooldown)).open_until tool)
      ≡ (leb threshold (streak tool cs) && ltb now (last_failure tool cs + cooldown))
unfolding run call streak last_failure create get record_success
run-blocks threshold cooldown now tool [] pos ordered = ground (arith, pos)
run-blocks threshold cooldown now tool (failure t x ∷ cs) pos ordered =
    let before = run cs (create threshold cooldown) in
    let track = run-Tracks threshold cooldown x cs in
    let fields = failure-fields t x before in
    let test : leb before.failure_threshold (suc (count (get before.failures x)))
        ≡ leb threshold (suc (streak x cs)) =
      cc (track.same_threshold, track.counted) in
    ap (λ d. blocks now (get d tool))
      (fields.3
        ∙ failure-deadline threshold cooldown t x before (streak x cs) test track.same_cooldown)
    ∙ blocks-failure threshold cooldown now t x tool before.open_until (streak x cs)
        (streak tool cs) (last_failure tool cs)
        (run-blocks threshold cooldown now tool cs pos (later cs t now ordered.0 ordered.1))
        (λ same. ap (λ k. streak k cs) ((eq_iff x tool).0 same))
run-blocks threshold cooldown now tool (success t x ∷ cs) pos ordered =
    blocks-success threshold cooldown now x tool (run cs (create threshold cooldown)).open_until
      (streak tool cs) (last_failure tool cs) pos
      (run-blocks threshold cooldown now tool cs pos (later cs t now ordered.0 ordered.1))
run-blocks threshold cooldown now tool (query t x ∷ cs) pos ordered =
    query-blocks t now x tool (run cs (create threshold cooldown)) ordered.0
    ∙ run-blocks threshold cooldown now tool cs pos (later cs t now ordered.0 ordered.1)

-- After any calls of a new breaker with a positive threshold, made in the order of time, the circuit
-- of a tool is open exactly while the tool has failed at least `failure_threshold` times since its
-- last success and less than `cooldown` has passed since its last failure; the calls for other tools
-- and the queries that drop an expired deadline make no difference.
pub is_open-streak :
    (failure_threshold cooldown now : ℕ) (tool : String) (cs : List Call)
    → 1 ≤ failure_threshold
    → Ordered now cs
    → (is_open now tool (run cs (create failure_threshold cooldown))).0
      ≡ (leb failure_threshold (streak tool cs) && ltb now (last_failure tool cs + cooldown))
is_open-streak threshold cooldown now tool cs pos ordered =
    is_open-blocks now tool (run cs (create threshold cooldown))
    ∙ run-blocks threshold cooldown now tool cs pos ordered
