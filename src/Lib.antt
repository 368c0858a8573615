-- ===== src/Lib.antt =====
-- The job runtime of vai-core ("Stratum 4", src/platform/runtime), with the queue that feeds it
-- (src/platform/queue), the circuit breaker and the retry wrappers of tool and LLM calls
-- (src/runtime/retry); and of the agent, the subtask plans (src/agent/decomposition), the planner's
-- store of todos (src/capabilities/planner) and the memory with its eviction (src/agent/memory).
--
-- A job is submitted as PENDING, pushed on the queue, and popped by a worker. The worker loads the
-- job's checkpoint from the store and runs a pipeline of four stages: crash recovery, idempotency,
-- degraded mode, execution. Each stage either hands the job back or lets the next one run. The
-- execution stage calls the injected executor in cycles, under a retry policy, a poison detector and
-- a panic guard. All changes of a job go through the control plane, which saves each of them. When a
-- child of a plan has ended, hooks update the join handle of the plan, and release or cancel its
-- siblings. The scheduling policies choose between candidates; the circuit breaker blocks a tool
-- after repeated failures, and the retry wrappers repeat a call that raised.
--
-- A task is decomposed into subtasks with dependencies, which are checked to be acyclic and sorted
-- before they are run. The planner keeps goals and tasks in two tables, and asks for the next one
-- whose dependencies are done. The agent's memory keeps segments, plans and drift events of subgoals;
-- when a subgoal is completed or a store is full, the eviction rules decide what is removed.
--
-- Which file models what:
--   Jobs/State            JobState, the transition table, transition (job_state.py)
--   Jobs/Job              Job, ExecutionContext, create_job (job.py, execution_context.py)
--   Jobs/Action           statements on the live job and the store, which may raise
--   Jobs/ControlPlane     ControlPlane.mark_*, register_job, checkpoints, traces (control_plane.py)
--   Retry/Policy, Wrapper PlatformRetryPolicy, PoisonDetector, ToolRetryWrapper, PanicGuard.wrap
--                         (retry/policy.py, retry/poison.py, retry/tool_wrapper.py,
--                         safety/panic_guard.py)
--   Recovery              CrashRecovery, WorkerCrashRecovery (recovery/crash_recovery.py,
--                         worker_pool/crash_recovery.py)
--   Safety/DegradedMode   DegradedMode.evaluate, check_recovery (safety/degraded_mode.py)
--   Safety/Operations     DegradedMode.is_op_allowed, validate_behaviour (safety/degraded_mode.py)
--   Queue                 InMemoryQueue (src/platform/queue/queue.py)
--   Pipeline              EvaluatorPipeline.run (pipeline/pipeline.py)
--   Pipeline/Stages       CrashRecoveryStage, IdempotencyStage, DegradedModeStage (pipeline/stages.py)
--   Pipeline/Execution    ExecutionStage (pipeline/stages.py)
--   Worker                Worker.process_next, _route_response (worker.py)
--   Scheduling/Policy     Scheduler.select, run_scheduling_tick (scheduling/policy.py, worker_tick.py)
--   Scheduling/Dependency handle_child_success, handle_child_failure (scheduling/dependency.py)
--   Join, Join/Store      JoinHandle, InMemoryJoinStore
--                         (join_handle.py, job_store/backends/in_memory_join_store.py)
--   Breaker               CircuitBreaker (src/runtime/retry/circuit_breaker.py)
--   Resilience            RetryPolicy.get, call_with_retry, execute_with_retry
--                         (src/runtime/retry/retry_policy.py, llm_retry_wrapper.py,
--                         tool_retry_wrapper.py)
--   Decomposition/Dag     validate_dag, topological_sort (src/agent/decomposition/dag_validator.py)
--   Deferral              DepthGuard (src/agent/deferral/depth_guard.py)
--   Planner/Todo          TodoStore: its queries (src/capabilities/planner/todo_store.py)
--   Planner/Todo/Updates  TodoStore: what writes to the tables (the same file)
--   Memory/Records        the records of the memory stores (src/agent/memory/*_memory_types.py)
--   Memory/Eviction       EvictionRules by access and by summary, is_stale
--                         (src/agent/memory/eviction, summarisation/summarisation_rules.py)
--   Memory/Eviction/Ancestors, Drift, Completion
--                         EvictionRules._ancestor_closure, evict_by_drift,
--                         evict_on_subgoal_completion
--   Memory/DriftMemory    DriftMemory (src/agent/memory/drift_memory.py)
--   Memory/SubgoalMemory  SubgoalMemory (src/agent/memory/subgoal_memory.py)
--   Memory/Orchestrator   EvictionOrchestrator.on_drift_overflow, _remove_drift_by_decisions
--                         (src/agent/memory/eviction/eviction_orchestrator.py)
--   Memory/Lifecycle      TransitionEngine, LifecycleTransitionEngine.is_legal
--                         (src/agent/memory/types)
-- The modules below these hold the proofs. Prelude holds what all of them share; Tests holds small
-- runs, and the theorems at concrete inputs.
--
-- How the state is modelled. A statement on the worker's job is a function on a `World`: the live job,
-- the job store, and three counters or flags (resume tokens drawn, executor calls made, the flag
-- `_degraded`). A raised exception is a result, and the world outlives it as it does under Python's
-- `except`. The job store is its interface: `save` writes a job under its id and `get` reads it back.
-- Python's in-memory store keeps references; the control plane saves after each of its changes.
-- UUIDs and the current time are arguments; so is the executor, a function of the number of the call
-- and of what it is called with. Numbers are natural numbers: Python's integers do not overflow, and
-- none of these goes below 0. Times and delays are in milliseconds. A JSON blob that is stored and
-- forwarded without being read is a text; messages made by f-strings are data with the values inserted.
--
-- The `while` loop of the execution stage takes fuel, and a run that is cut off is marked `no_fuel`,
-- which is no exception of the program. For an executor that from its n-th call on raises or says that
-- it is done, n + 5 rounds from call 0 are enough: the default retry policy allows at most five
-- attempts. The loops of the retry wrappers take fuel too; three rounds are enough for LLM calls and
-- two for tools. The searches of a subtask plan take one more than the number of subtasks, and the
-- search for the ancestors of segments takes the number of its seeds and of the segments, and the
-- chain of a subgoal one more than the number of records: no run is cut
-- off, and where Python's recursion has a limit of its own the model has none.
--
-- The tables of todos are lists of rows in the order of insertion, which is the order of the rows that
-- SQLite's `ORDER BY created_at` leaves equal; foreign keys are not enforced, as by SQLite's default.
-- A set is a list, where neither the order nor repetitions matter. The hash of a drift event, which
-- the rules put into its id, is a parameter.
--
-- Not modelled: metrics, logs, traces and alerts, which nothing reads back; locks, since each locked
-- operation is one step; timestamps inside trace entries; serialisation; the injected hook
-- `on_job_complete` of the worker (the two hooks it is made of are in Scheduling/Dependency); the
-- heartbeat, the worker pool, the supervisor, the rest of the agent layer and of the capabilities, and
-- the gateway; of the memory, the stores of segments and plans, what applies evictions to them, and the
-- governance.
pub mod Prelude
pub mod Jobs
pub mod Retry
pub mod Recovery
pub mod Safety
pub mod Queue
pub mod Pipeline
pub mod Worker
pub mod Scheduling
pub mod Join
pub mod Breaker
pub mod Resilience
pub mod Decomposition
pub mod Deferral
pub mod Planner
pub mod Memory
pub mod Tests
