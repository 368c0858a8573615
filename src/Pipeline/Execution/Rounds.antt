-- ===== src/Pipeline/Execution/Rounds.antt =====
-- One round of the execution loop of a RUNNING job: what each branch leaves behind.
use vai_core.Prelude.{
  ℕ, suc, ◌+◌, ◌≤◌, true, false, some, String, Result, ok, err, ◌≡◌, refl, ◌⊎◌, inl, inr, arith,
  sym, subst, ◌∙◌,
}
use vai_core.Prelude.Dict.{get, get-put_self}
use vai_core.Jobs.State.{running, succeeded, failed, poison}
use vai_core.Jobs.Job.{CycleEvent, Job, Output, Raised, executor_output, error, poisoned}
use vai_core.Jobs.Action.{World, Failure}
use vai_core.Jobs.ControlPlane.{append_cycle_trace}
use vai_core.Retry.Policy.{default_retry_rules, default_max_failures}
use vai_core.Retry.Wrapper.{returned, retry, poisonous, execute, value, panic, wrap}
use vai_core.Pipeline.Execution.{
  Executor, Call, get_or, call_of, run_cycle, on_panic, on_poison, on_retry, on_success, complete,
}

-- What the executor's answer to its last call makes of the job.
abbrev pub Closes : Result Raised Output → Job → Type 0
Closes (ok o) j =
    (j.state ≡ succeeded) × (j.result ≡ some (executor_output o)) × (get_or o.done false ≡ true)
Closes (err e) j =
    ((j.state ≡ failed) × (j.result ≡ some (error e)))
    ⊎ ((j.state ≡ poison) × (j.result ≡ some (poisoned 5)))

-- The two are one job, at two times: under the same id, and with the same payload.
abbrev pub IsSame : Job → Job → Type 0
IsSame a b = (b.job_id ≡ a.job_id) × (b.payload ≡ a.payload)

-- The job has ended: the last call of the executor, one of those since call `start`, was made on the
-- job's payload, and the answer is the job's outcome.
abbrev pub Ended : Executor → (start : ℕ) → World → Type 0
Ended executor start w =
    (last : ℕ) × (c : Call) × (start ≤ last)
    × (w.calls ≡ suc last)
    × (c.payload ≡ w.job.payload)
    × Closes (executor last c) w.job

-- The store holds the live job as it is.
abbrev pub Saved : World → Type 0
Saved w = get w.store w.job.job_id ≡ some w.job

-- The loop that took up `job` at call `start` has returned; the job has ended, and the store has it.
abbrev pub Ends : Executor → Job → (start : ℕ) → Result Failure (Unit {0}) × World → Type 0
Ends executor job start (r, w) = (r ≡ ok tt) × Ended executor start w × Saved w × IsSame job w.job

-- `after` is a step from `w` that ends the loop upon an answer of the executor.
abbrev EndsFrom : Result Raised Output → World → Result Failure (Unit {0}) × World → Type 0
EndsFrom answer w (r, w') =
    (r ≡ ok tt) × Closes answer w'.job × Saved w' × (w'.calls ≡ w.calls) × IsSame w.job w'.job

-- A step that ends the loop upon the executor's last answer leaves an ended job.
pub from_last :
    (executor : Executor) (job : Job) (start last : ℕ) (c : Call) (answer : Result Raised Output)
    (w : World) (after : Result Failure (Unit {0}) × World)
    → executor last c ≡ answer
    → start ≤ last
    → w.calls ≡ suc last
    → c.payload ≡ w.job.payload
    → IsSame job w.job
    → EndsFrom answer w after
    → Ends executor job start after × (after.1.calls ≡ w.calls)
from_last executor job start last c answer w after said since count on same
      (done, closes, saved, calls, kept) =
    (
      (
        done,
        (
          last,
          c,
          since,
          calls ∙ count,
          on ∙ sym kept.1,
          subst (λ a. Closes a after.1.job) (sym said) closes,
        ),
        saved,
        (kept.0 ∙ same.0, kept.1 ∙ same.1),
      ),
      calls,
    )

pub on_poison-Ends :
    (e : Raised) (w : World) → w.job.state ≡ running → EndsFrom (err e) w (on_poison 5 w)
unfolding on_poison
on_poison-Ends e w h =
    rw (h, on_poison) (refl, inr (refl, refl), get-put_self _ _ _, refl, (refl, refl))

module _ (token : ℕ → String) where
  pub on_panic-Ends :
      (e : Raised) (w : World) → w.job.state ≡ running → EndsFrom (err e) w (on_panic token e w)
  unfolding on_panic
  on_panic-Ends e w h =
      rw (h, on_panic) (refl, inl (refl, refl), get-put_self _ _ _, refl, (refl, refl))

  pub complete-Ends :
      (o : Output) (w : World)
      → w.job.state ≡ running
      → get_or o.done false ≡ true
      → EndsFrom (ok o) w (complete token o w)
  unfolding complete
  complete-Ends o w h d =
      rw (h, complete) (refl, (refl, refl, d), get-put_self _ _ _, refl, (refl, refl))

  pub on_panic-state :
      (e : Raised) (w : World) → w.job.state ≡ running → (on_panic token e w).1.job.state ≡ failed
  unfolding on_panic
  on_panic-state e w h = rw (h, on_panic) refl

  pub complete-state :
      (o : Output) (w : World)
      → w.job.state ≡ running
      → (complete token o w).1.job.state ≡ succeeded
  unfolding complete
  complete-state o w h = rw (h, complete) refl

  -- A round that goes on keeps the job's state and counts its failures.
  pub on_retry-keeps :
      (d k : ℕ) (w : World)
      → ((on_retry token d k w).job.state ≡ w.job.state)
        × ((on_retry token d k w).calls ≡ w.calls)
        × ((on_retry token d k w).job.failure_count ≡ suc w.job.failure_count)
  unfolding on_retry
  on_retry-keeps d k w = (refl, refl, refl)

  pub on_success-keeps :
      (o : Output) (w : World)
      → ((on_success token o w).job.state ≡ w.job.state)
        × ((on_success token o w).calls ≡ w.calls)
        × ((on_success token o w).job.failure_count ≡ 0)
  unfolding on_success
  on_success-keeps o w = (refl, refl, refl)

  -- No round makes another job of it.
  pub on_retry-IsSame : (d k : ℕ) (w : World) → IsSame w.job (on_retry token d k w).job
  unfolding on_retry
  on_retry-IsSame d k w = (refl, refl)

  pub on_success-IsSame : (o : Output) (w : World) → IsSame w.job (on_success token o w).job
  unfolding on_success
  on_success-IsSame o w = (refl, refl)

pub append_cycle_trace-IsSame :
    (e : CycleEvent) (w : World) → IsSame w.job (append_cycle_trace e w).job
unfolding append_cycle_trace
append_cycle_trace-IsSame e w = (refl, refl)

pub append_cycle_trace-keeps :
    (e : CycleEvent) (w : World)
    → ((append_cycle_trace e w).job.state ≡ w.job.state)
      × ((append_cycle_trace e w).calls ≡ w.calls)
      × ((append_cycle_trace e w).job.failure_count ≡ w.job.failure_count)
unfolding append_cycle_trace
append_cycle_trace-keeps e w = (refl, refl, refl)

-- The next attempt that the default policy allows is the following one, and at most the fifth.
pub run_cycle-retry :
    (executor : Executor) (attempt : ℕ) (w : World) {delay next : ℕ}
    → run_cycle executor default_retry_rules attempt w ≡ value (retry delay next)
    → (next ≡ attempt + 1) × (next ≤ 5)
unfolding run_cycle
run_cycle-retry executor attempt w e = ground arith

-- The poison detector fires at five failures of the job.
pub run_cycle-poisonous :
    (executor : Executor) (attempt : ℕ) (w : World) {n : ℕ}
    → run_cycle executor default_retry_rules attempt w ≡ value (poisonous n)
    → (n ≡ 5) × (5 ≤ w.job.failure_count)
unfolding run_cycle
run_cycle-poisonous executor attempt w e = ground arith

-- What comes back as a value is what the executor returned on this call.
pub run_cycle-returned :
    (executor : Executor) (attempt : ℕ) (w : World) {o : Output}
    → run_cycle executor default_retry_rules attempt w ≡ value (returned o)
    → executor w.calls (call_of w.job) ≡ ok o
unfolding run_cycle
run_cycle-returned executor attempt w e = ground arith

-- A panic is what the executor raised on this call, and the detector asks only when it raised.
pub run_cycle-panic :
    (executor : Executor) (attempt : ℕ) (w : World) {e : Raised}
    → run_cycle executor default_retry_rules attempt w ≡ panic e
    → executor w.calls (call_of w.job) ≡ err e
unfolding run_cycle
run_cycle-panic executor attempt w h = ground arith

pub run_cycle-poisonous_raised :
    (executor : Executor) (attempt : ℕ) (w : World) {n : ℕ}
    → run_cycle executor default_retry_rules attempt w ≡ value (poisonous n)
    → (e : Raised) × (executor w.calls (call_of w.job) ≡ err e)
unfolding run_cycle
run_cycle-poisonous_raised executor attempt w {n} h = raised_of (executor w.calls (call_of w.job)) h
  where
    raised_of :
        (answer : Result Raised Output)
        → wrap (
            execute default_retry_rules
              (some default_max_failures)
              attempt
              (some w.job.job_id)
              w.job.failure_count
              answer)
          ≡ value (poisonous n)
        → (e : Raised) × (answer ≡ err e)
    raised_of (err e) h = (e, refl)
    raised_of (ok o) h = absurd (ground arith)
