-- ===== src/Pipeline/Execution/Termination.antt =====
-- The loop ends: how many executor calls it makes, and how it leaves the job.
use vai_core.Prelude.{
  ℕ, zero, suc, ◌+◌, ◌≤◌, ◌<◌, Bool, true, false, String, Result, ok, err, ◌≡◌, refl, sym, ◌∙◌,
  arith,
}
use native.Mathlib.Decide.{dec_lt}
use vai_core.Jobs.State.{running}
use vai_core.Jobs.Job.{Job, Output, cycle_start}
use vai_core.Jobs.Action.{World, Action, Failure}
use vai_core.Jobs.ControlPlane.{append_cycle_trace}
use vai_core.Retry.Policy.{default_retry_rules}
use vai_core.Retry.Wrapper.{Attempt, returned, retry, poisonous, Guarded, value, panic}
use vai_core.Pipeline.Execution.{
  Executor, Call, get_or, call_of, run_cycle, on_retry, on_success, after_cycle, unless_done,
  execution_loop, execution_stage, on_panic, on_poison, complete,
}
use vai_core.Pipeline.Execution.Rounds.{
  Ended, Saved, Ends, on_panic-Ends, on_poison-Ends, complete-Ends, run_cycle-retry,
  run_cycle-poisonous, run_cycle-returned, on_retry-keeps, on_success-keeps,
  append_cycle_trace-keeps, IsSame, from_last, run_cycle-panic, run_cycle-poisonous_raised,
  on_retry-IsSame, on_success-IsSame, append_cycle_trace-IsSame,
}

-- From its n-th call on, the executor raises or says that it is done.
abbrev pub Finishes : Executor → ℕ → Type 0
Finishes executor n =
    (k : ℕ) (c : Call) (o : Output) → n ≤ k → executor k c ≡ ok o → get_or o.done false ≡ true

-- `bound` calls are enough: five more than `n` while it lies ahead, later those that the policy
-- still allows to `attempt`.
abbrev Enough : ℕ → (calls attempt bound : ℕ) → Type 0
Enough n calls attempt bound =
    (calls < n → n + 5 ≤ bound) × (n ≤ calls → calls + 6 ≤ attempt + bound)

module _ (n calls attempt bound : ℕ) (en : Enough n calls attempt bound) where
  Enough-room : attempt ≤ 5 → suc calls ≤ bound
  Enough-room few = elim (dec_lt calls n) [
    | yes p ↦ omega (arith, en.0 p)
    | no p ↦ omega (arith, en.1 (omega arith))
  ]

  Enough-retry : Enough n (suc calls) (attempt + 1) bound
  Enough-retry = elim (dec_lt calls n) [
    | yes p ↦ (λ _. en.0 p, λ _. omega (arith, en.0 p))
    | no p ↦ (λ q. absurd (omega arith), λ _. omega (arith, en.1 (omega arith)))
  ]

  Enough-success : calls < n → Enough n (suc calls) 1 bound
  Enough-success p = (λ _. en.0 p, λ _. omega (arith, en.0 p))

-- The loop returned in time, and the job is as it should be.
abbrev Good : Executor → Job → (start bound : ℕ) → Result Failure (Unit {0}) × World → Type 0
Good executor job start bound r = Ends executor job start r × (r.1.calls ≤ bound)

-- What a round may rely on: the loop with `fuel` left is good from every state that has enough.
abbrev Next : Executor → Job → (start n bound fuel : ℕ) → (ℕ → Action (Unit {0})) → Type 0
Next executor job start n bound fuel again =
    (attempt : ℕ) (w : World)
    → IsSame job w.job
    → start ≤ w.calls
    → w.job.state ≡ running
    → attempt ≤ 5
    → Enough n w.calls attempt bound
    → bound ≤ w.calls + fuel
    → Good executor job start bound (again attempt w)

module _ (token : ℕ → String) (executor : Executor) (job : Job) (start n bound : ℕ)
    (finishes : Finishes executor n) where
  unless_done-Good :
      (fuel : ℕ) (again : ℕ → Action (Unit {0}))
      → Next executor job start n bound fuel again
      → (last : ℕ) (c : Call) (o : Output) (w : World) (done : Bool) → get_or o.done false ≡ done
      → executor last c ≡ ok o
      → start ≤ last
      → w.calls ≡ suc last
      → c.payload ≡ w.job.payload
      → IsSame job w.job
      → w.job.state ≡ running
      → w.calls ≤ bound
      → bound ≤ w.calls + fuel
      → (done ≡ false → Enough n w.calls 1 bound)
      → Good executor job start bound (unless_done token done o (again 1) w)
  unless_done-Good fuel again next last c o w true d said since count on same run le more en =
      let (ends, calls) =
        from_last executor job start last c (ok o) w (complete token o w) said since count on same
          (complete-Ends token o w run d) in
      (ends, rw calls le)
  unless_done-Good fuel again next last c o w false d said since count on same run le more en =
      next 1 w same (omega (arith, count)) run (omega arith) (en refl) more

  -- An output that is not the last comes before the n-th call.
  not_done-lt :
      (attempt : ℕ) (w : World) (o : Output)
      → run_cycle executor default_retry_rules attempt w ≡ value (returned o)
      → get_or o.done false ≡ false
      → w.calls < n
  not_done-lt attempt w o eq more = elim (dec_lt w.calls n) [
    | yes p ↦ p
    | no p ↦
        let done =
          finishes w.calls (call_of w.job) o (omega arith)
            (run_cycle-returned executor attempt w eq) in
        absurd (cc (sym done ∙ more))
  ]

  after_cycle-Good :
      (fuel : ℕ) (again : ℕ → Action (Unit {0}))
      → Next executor job start n bound fuel again
      → (attempt : ℕ) (w : World) (g : Guarded (Attempt Output))
      → run_cycle executor default_retry_rules attempt w ≡ g
      → IsSame job w.job
      → start ≤ w.calls
      → w.job.state ≡ running
      → attempt ≤ 5
      → Enough n w.calls attempt bound
      → bound ≤ w.calls + suc fuel
      → Good executor job start bound (after_cycle token again g (record w { calls = suc w.calls }))
  unfolding after_cycle
  after_cycle-Good fuel again next attempt w (panic e) eq same since run few en le =
      let w' = record w { calls = suc w.calls } in
      let (ends, calls) =
        from_last executor job start w.calls (call_of w.job) (err e) w' (on_panic token e w')
          (run_cycle-panic executor attempt w eq) since refl refl same
          (on_panic-Ends token e w' run) in
      (ends, rw calls (Enough-room _ _ _ _ en few))
  after_cycle-Good fuel again next attempt w (value (poisonous m)) eq same since run few en le =
      rw (run_cycle-poisonous executor attempt w eq).0 (
        let w' = record w { calls = suc w.calls } in
        let (e, said) = run_cycle-poisonous_raised executor attempt w eq in
        let (ends, calls) =
          from_last executor job start w.calls (call_of w.job) (err e) w' (on_poison 5 w') said
            since refl refl same (on_poison-Ends e w' run) in
        (ends, rw calls (Enough-room _ _ _ _ en few)))
  after_cycle-Good fuel again next attempt w (value (retry d k)) eq same since run few en le =
      let w' = record w { calls = suc w.calls } in
      let (one_more, at_most) = run_cycle-retry executor attempt w eq in
      let (state, calls, _) = on_retry-keeps token d k w' in
      let kept = on_retry-IsSame token d k w' in
      next k (on_retry token d k w') (kept.0 ∙ same.0, kept.1 ∙ same.1) (rw calls (omega arith))
        (state ∙ run) at_most (rw (calls, one_more) (Enough-retry _ _ _ _ en))
        (rw calls (omega arith))
  after_cycle-Good fuel again next attempt w (value (returned o)) eq same since run few en le =
      let w' = record w { calls = suc w.calls } in
      let (state, calls, _) = on_success-keeps token o w' in
      let kept = on_success-IsSame token o w' in
      unless_done-Good fuel again next w.calls (call_of w.job) o (on_success token o w')
        (get_or o.done false) refl (run_cycle-returned executor attempt w eq) since calls
        (sym kept.1) (kept.0 ∙ same.0, kept.1 ∙ same.1) (state ∙ run)
        (rw calls (Enough-room _ _ _ _ en few)) (rw calls (omega arith))
        (λ more. rw calls (Enough-success _ _ _ _ en (not_done-lt attempt w o eq more)))

  execution_loop-Good :
      (fuel : ℕ)
      → Next executor job start n bound fuel
          (execution_loop token executor default_retry_rules fuel)
  unfolding execution_loop
  execution_loop-Good zero attempt w same since run few en le =
      absurd (omega (arith, Enough-room n w.calls attempt bound en few))
  execution_loop-Good (suc fuel) attempt w same since run few en le =
      let (state, calls, _) = append_cycle_trace-keeps cycle_start w in
      let kept = append_cycle_trace-IsSame cycle_start w in
      after_cycle-Good fuel (execution_loop token executor default_retry_rules fuel)
        (execution_loop-Good fuel) attempt (append_cycle_trace cycle_start w) _ refl
        (kept.0 ∙ same.0, kept.1 ∙ same.1) (rw calls since) (state ∙ run) few (rw calls en)
        (rw calls le)

-- From its n-th call on the executor raises or says that it is done. With fuel for the calls up to
-- there and five more, the execution stage of a RUNNING job calls it at least once, on the job's
-- payload the last time, and at most five times from the n-th call on, and returns. Where the last
-- call returned an output, which says that it is done, the job has succeeded with just this output;
-- where it raised, the job has failed with just this error, or is poison. It is the job that came in,
-- under its id and with its payload, and the store holds it as it is.
pub execution_stage-Ends :
    (token : ℕ → String) (executor : Executor) (n fuel : ℕ) (w : World)
    → Finishes executor n
    → w.job.state ≡ running
    → w.calls ≤ n
    → n + 5 ≤ w.calls + fuel
    → let (r, w') = execution_stage token executor default_retry_rules fuel w in
      (r ≡ ok true)
      × Ended executor w.calls w'
      × IsSame w.job w'.job
      × Saved w'
      × (w'.calls ≤ n + 5)
unfolding execution_stage
execution_stage-Ends token executor n fuel w finishes run ahead enough =
    let ((done, ended, saved, same), few) =
      execution_loop-Good token executor w.job w.calls n (n + 5) finishes fuel 1 w (refl, refl)
        (omega arith) run (omega arith) (omega arith) enough in
    rw done (refl, ended, same, saved, few)
