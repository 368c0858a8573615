-- ===== src/Tests/Tools.antt =====
-- The theorems on the queue, the scheduler and the circuit breaker, at small inputs.
use vai_core.Prelude.{
  false, ℕ, ltb, Result, ok, err, if◌then◌else◌, true, List, [], ◌∷◌, ◌++◌, String, ◌≡◌, refl,
  arith,
}
use vai_core.Prelude.Dict.{get}
use mathlib.Core.List.Perm
use vai_core.Queue.{Queue, pop, requeue}
use vai_core.Queue.Order.{Op, do_push, do_pop, do_nack, run_ops, run_ops-fifo, requeue-pop}
use vai_core.Breaker.{create, is_open}
use vai_core.Breaker.History.{Call, failure, success, query, run, streak, last_failure}
use vai_core.Breaker.Streak.{is_open-streak}
use vai_core.Resilience.{Exn, call_with_retry, execute_with_retry}
use vai_core.Resilience.Attempts.{Ends}
use vai_core.Resilience.Wrappers.{
  llm_limit, llm_pause, tool_limit, no_pause, call_with_retry-Ends, execute_with_retry-Ends,
}
use vai_core.Scheduling.Policy.{fifo, priority_first, JobMetadata, select}
use vai_core.Scheduling.Policy.Select.{select-IsBest, select-perm, IsBest, decision}

abbrev name : String → String
name x = x

abbrev two : Queue String
two = record { items = "a" ∷ "b" ∷ []; in_flight = [] }

abbrev ops : List (Op String)
ops = do_push "c" ∷ do_pop ∷ do_nack "a" ∷ do_push "d" ∷ do_pop ∷ []

run_ops-fifo_example :
    let (out, q') = run_ops name two ops in out ++ q'.items ≡ "a" ∷ "b" ∷ "c" ∷ "d" ∷ []
run_ops-fifo_example = run_ops-fifo name two ops

requeue-pop_example : requeue (pop name two).1 "a" ≡ two
unfolding get
requeue-pop_example = requeue-pop name two "a" ("b" ∷ []) refl refl

-- Three failures, the latest at 30, with a query and another tool between; the latest first.
abbrev calls : List Call
calls =
    failure 30 "shell"
    ∷ query 25 "shell"
    ∷ failure 20 "shell"
    ∷ success 15 "web"
    ∷ failure 10 "shell"
    ∷ []

is_open-streak_example : (is_open 40 "shell" (run calls (create 3 5000))).0 ≡ true
unfolding streak last_failure
is_open-streak_example =
    is_open-streak 3 5000 40 "shell" calls (omega arith)
      (omega arith, (omega arith, (omega arith, (omega arith, (omega arith, tt)))))

abbrev jobs : List JobMetadata
jobs =
    record { job_id = "job-2"; priority = 1; created_at = 5 }
    ∷ record { job_id = "job-1"; priority = 3; created_at = 9 }
    ∷ []

select-IsBest_example :
    (best : JobMetadata) × (IsBest priority_first best jobs)
    × (select priority_first jobs ≡ decision priority_first best)
select-IsBest_example =
    select-IsBest priority_first (record { job_id = "job-2"; priority = 1; created_at = 5 })
      (record { job_id = "job-1"; priority = 3; created_at = 9 } ∷ [])

select-perm_example :
    select fifo jobs
    ≡ select fifo (
        record { job_id = "job-1"; priority = 3; created_at = 9 }
        ∷ record { job_id = "job-2"; priority = 1; created_at = 5 }
        ∷ [])
select-perm_example =
    select-perm fifo jobs
      (record { job_id = "job-1"; priority = 3; created_at = 9 }
        ∷ record { job_id = "job-2"; priority = 1; created_at = 5 }
        ∷ [])
      (Perm.swap _ _ [])

abbrev timeout : Exn
timeout = record { is_timeout = true; class_name = "TimeoutError"; lowered = "timed out" }

-- Two timeouts, then an answer.
abbrev client : ℕ → Result Exn String
client n = if ltb n 2 then err timeout else ok "answer"

call_with_retry-Ends_example : Ends client llm_limit llm_pause 2 (call_with_retry client 3)
call_with_retry-Ends_example = call_with_retry-Ends client 3 (omega arith)

-- The tool's own exception, for a tool that is not idempotent.
abbrev broken : ℕ → Result Exn String
broken n = err (record { is_timeout = false; class_name = "ToolError"; lowered = "tool failed" })

execute_with_retry-Ends_example :
    Ends broken (tool_limit false) no_pause 1 (execute_with_retry false broken 2)
execute_with_retry-Ends_example = execute_with_retry-Ends false broken 2 (omega arith)
