-- ===== src/Worker/Recovered.antt =====
-- A job that was left RUNNING by a crash, when a worker that is not degraded pops it.
use vai_core.Prelude.{
  ℕ, Bool, true, false, Option, none, some, List, ◌∷◌, Result, ok, err, ◌≡◌, refl, arith,
}
use vai_core.Prelude.Dict.{Dict, get}
use vai_core.Jobs.State.{running, succeeded}
use vai_core.Jobs.Job.{Job, ExecutionContext, Fallback, fallback, hydrate_execution_context}
use vai_core.Jobs.Action.{World, Failure}
use vai_core.Jobs.ControlPlane.{append_lifecycle_event}
use vai_core.Queue.{Queue, pop, pop_items}
use vai_core.Pipeline.{run}
use vai_core.Worker.{
  Worker, Setup, Processed, processed, on_crash, caught, stages, run_on, run_pipeline,
  route_response, world_of, or_stored, hydrate, handle, skip_of, finish, process_popped,
  process_next,
}
use vai_core.Worker.ShortCircuit.{ShortCircuited, run-stages-ShortCircuited}

route_response-fallback :
    (s : Setup) (job : Job) (f : Fallback)
    → job.result ≡ some (fallback f)
    → route_response s job ≡ none
unfolding route_response
route_response-fallback s job f e = ground arith

-- What `process_next` gives for a job that is short-circuited.
abbrev pub Answered : ℕ → Result Failure Processed × Worker → Type 0
Answered calls (r, w) =
    (job : Job) × (r ≡ ok (processed job none))
    × (job.state ≡ succeeded)
    × ((f : Fallback) × (job.result ≡ some (fallback f)))
    × (w.calls ≡ calls)
    × (w.degraded ≡ true)
    × (get w.store job.job_id ≡ some job)

caught-ShortCircuited :
    (s : Setup) (calls : ℕ) (p : Result Failure Bool × World)
    → ShortCircuited calls p
    → ShortCircuited calls (caught (on_crash s) p)
caught-ShortCircuited s calls (ok b, w) h = h
caught-ShortCircuited s calls (err e, w) h = absurd (cc h.0)

finish-Answered :
    (s : Setup) (q : Queue Job) (calls : ℕ) (p : Result Failure Bool × World)
    → ShortCircuited calls p
    → Answered calls (finish s q p)
finish-Answered s q calls (err e, w) h = absurd (cc h.0)
finish-Answered s q calls (ok b, w) (e, state, flag, same, (f, result), saved) =
    (w.job, rw (route_response-fallback s w.job f result), state, (f, result), same, flag, saved)

or_stored-some : {A : Type 0} (a : Option A) (c : A) → (d : A) × (or_stored a (some c) ≡ some d)
or_stored-some none c = (c, refl)
or_stored-some (some a) c = (a, refl)

run_on-ShortCircuited :
    (s : Setup) (w : Worker) (stored job : Job) (c : ExecutionContext)
    → w.degraded ≡ false
    → job.state ≡ running
    → job.execution_context ≡ some c
    → ShortCircuited w.calls (run_on s w (some stored) job)
unfolding run_on run_pipeline append_lifecycle_event
run_on-ShortCircuited s w stored job c healthy state checkpoint =
    let start =
      append_lifecycle_event hydrate_execution_context (world_of w (hydrate (some stored) job)) in
    let (d, e) = or_stored-some stored.execution_context c in
    caught-ShortCircuited s w.calls (run (stages s (some stored)) start)
      (run-stages-ShortCircuited s (some stored) d start state (rw checkpoint e) healthy)

skip_of-running :
    (o : Option Job) (stored : Job) → o ≡ some stored → stored.state ≡ running → skip_of o ≡ none
skip_of-running o stored e state = ground arith

module _ (s : Setup) (w : Worker) (job stored : Job) (rest : List Job)
    (short : ShortCircuited w.calls (run_on s w (some stored) job)) where
  handle-Answered :
      (q : Queue Job) (o dead : Option Job)
      → o ≡ some stored
      → dead ≡ none
      → Answered w.calls (handle s w q job o dead)
  handle-Answered q o dead found alive =
      rw (alive, found) (finish-Answered s q w.calls (run_on s w (some stored) job) short)

  process_popped-Answered :
      (items : List Job) (leased : Dict Job)
      → items ≡ job ∷ rest
      → get w.store job.job_id ≡ some stored
      → stored.state ≡ running
      → Answered w.calls (process_popped s w (pop_items (λ j. j.job_id) items leased))
  process_popped-Answered items leased head found state = rw head (
      handle-Answered _ (get w.store job.job_id) (skip_of (get w.store job.job_id)) found
        (skip_of-running _ stored found state))

-- A job that a crash left RUNNING, with a checkpoint, in the queue and in the store, is never
-- resumed: the worker that pops it answers it with a fallback, marks and saves it SUCCEEDED with
-- no call of the executor and nothing sent to its channel, and is degraded from then on.
pub process_next-recovered :
    (s : Setup) (w : Worker) (job stored : Job) (c : ExecutionContext) (rest : List Job)
    → w.queue.items ≡ job ∷ rest
    → get w.store job.job_id ≡ some stored
    → job.state ≡ running
    → stored.state ≡ running
    → job.execution_context ≡ some c
    → w.degraded ≡ false
    → Answered w.calls (process_next s w)
unfolding process_next pop
process_next-recovered s w job stored c rest head found state stored_state checkpoint healthy =
    process_popped-Answered s w job stored rest
      (run_on-ShortCircuited s w stored job c healthy state checkpoint) w.queue.items
      w.queue.in_flight head found stored_state
