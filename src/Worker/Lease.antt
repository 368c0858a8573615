-- ===== src/Worker/Lease.antt =====
-- What the worker does to the queue.
use vai_core.Prelude.{Bool, Option, none, some, List, ◌∷◌, Result, ok, err, ◌≡◌, refl}
use vai_core.Prelude.Dict.{Dict, get, get-put_self}
use vai_core.Jobs.Job.{Job}
use vai_core.Jobs.Action.{World, Failure}
use vai_core.Queue.{Queue, pop_items, pop}
use vai_core.Worker.{Worker, Setup, skip_of, finish, handle, run_on, process_popped, process_next}

finish-queue :
    (s : Setup) (q : Queue Job) (r : Result Failure Bool × World) → (finish s q r).1.queue ≡ q
finish-queue s q (ok b, w) = refl
finish-queue s q (err e, w) = refl

handle-queue :
    (s : Setup) (w : Worker) (q : Queue Job) (job : Job) (stored dead : Option Job)
    → (handle s w q job stored dead).1.queue ≡ q
handle-queue s w q job stored (some dead) = refl
handle-queue s w q job stored none = finish-queue s q (run_on s w stored job)

process_popped-queue :
    (s : Setup) (w : Worker) (p : Option Job × Queue Job) → (process_popped s w p).1.queue ≡ p.1
process_popped-queue s w (none, q) = refl
process_popped-queue s w (some job, q) =
    let stored = get w.store job.job_id in handle-queue s w q job stored (skip_of stored)

pop_items-lease :
    (items : List Job) (leased : Dict Job) (job : Job) (rest : List Job)
    → items ≡ job ∷ rest
    → let q = (pop_items (λ j. j.job_id) items leased).1 in
      (q.items ≡ rest) × (get q.in_flight job.job_id ≡ some job)
pop_items-lease items leased job rest e = rw e (refl, get-put_self _ _ _)

-- However a popped job is handled (processed, handed back unprocessed, or given up on an
-- exception), the queue is afterwards what the pop left: the job is still leased, under its id.
pub process_next-lease :
    (s : Setup) (w : Worker) (job : Job) (rest : List Job)
    → w.queue.items ≡ job ∷ rest
    → let q = (process_next s w).1.queue in
      (q.items ≡ rest) × (get q.in_flight job.job_id ≡ some job)
unfolding process_next pop
process_next-lease s w job rest e =
    rw (process_popped-queue s w (pop (λ j. j.job_id) w.queue))
      (pop_items-lease w.queue.items w.queue.in_flight job rest e)
