-- ===== src/Resilience.antt =====
-- The retry wrappers of the execution runtime (src/runtime/retry/retry_policy.py,
-- llm_retry_wrapper.py, tool_retry_wrapper.py), with times in milliseconds. The two `while` loops
-- take fuel.
pub mod Attempts
pub mod Wrappers
use vai_core.Prelude.{
  ℕ, zero, suc, ◌+◌, Bool, true, false, not, ◌&&◌, ◌||◌, String, ◌==◌, Result, ok, err, leb, eqb,
  if◌then◌else◌,
}
use Prim.Native.Char.{Char, code}

pub record RetryStrategy : Type 0 where
  pub retryable : Bool
  pub max_attempts : ℕ
  pub backoff : ℕ
  pub idempotent_required : Bool

-- The `ValueError` of an error type that the policy does not know.
pub record UnknownErrorType : Type 0 where
  pub error_type : String

-- `RetryPolicy.get`, on the name of the error's class.
unfoldable pub get_strategy : String → Result UnknownErrorType RetryStrategy
get_strategy error_type =
    if error_type == "LLMError"
    then ok
        (record { retryable = true; max_attempts = 2; backoff = 200; idempotent_required = false })
    else if error_type == "ToolError"
    then ok (record { retryable = true; max_attempts = 1; backoff = 0; idempotent_required = true })
    else if error_type == "ValidationError"
    then ok
        (record { retryable = false; max_attempts = 0; backoff = 0; idempotent_required = false })
    else if error_type == "SystemError"
    then ok
        (record { retryable = true; max_attempts = 1; backoff = 0; idempotent_required = false })
    else err (record { error_type = error_type })

-- An exception: whether it is a timeout, the name of its class, and its text in lower case.
pub record Exn : Type 0 where
  pub is_timeout : Bool
  pub class_name : String
  pub lowered : String

unfoldable pub is_prefix : String → String → Bool
is_prefix String.[] t = true
is_prefix (String.◌∷◌ a s) String.[] = false
is_prefix (String.◌∷◌ a s) (String.◌∷◌ b t) =
    let rest = is_prefix s t in eqb (code a) (code b) && rest

-- `needle in text`
unfoldable pub contains : (needle text : String) → Bool
unfolding is_prefix
contains needle String.[] = is_prefix needle String.[]
contains needle (String.◌∷◌ b t) = is_prefix needle (String.◌∷◌ b t) || contains needle t

unfoldable pub mentions_tool : Exn → Bool
unfolding contains
mentions_tool e = contains "Tool" e.class_name || contains "tool" e.lowered

abbrev pub any_strategy : RetryStrategy → Bool
any_strategy s = true

abbrev pub llm_class : Exn → String
llm_class e = if e.is_timeout then "LLMError" else "SystemError"

-- No strategy that asks for an idempotent tool is allowed for one that is not.
abbrev pub for_tool : (is_idempotent : Bool) → RetryStrategy → Bool
for_tool is_idempotent s = not (s.idempotent_required && not is_idempotent)

abbrev pub tool_class : Exn → String
tool_class e = if mentions_tool e then "ToolError" else "SystemError"

-- How a wrapper ends: with the value or the exception of a call, after so many calls and so much
-- sleep; with the policy's `ValueError`; or cut off.
pub data Finish (A : Type 0) : Type 0 where
  finished : (result : Result Exn A) (calls slept : ℕ) → Finish A
  unknown_type : UnknownErrorType → Finish A
  no_fuel : Finish A

module _ {A : Type 0} where
  -- The end of an iteration whose call raised `e`: raise it again, or sleep and go on.
  abbrev pub on_strategy :
      (allowed : RetryStrategy → Bool)
      → (retry_count slept : ℕ) → Exn
      → (again : ℕ → Finish A) → Result UnknownErrorType RetryStrategy
      → Finish A
  on_strategy allowed retry_count slept e again (err u) = unknown_type u
  on_strategy allowed retry_count slept e again (ok s) =
      if not s.retryable || leb s.max_attempts retry_count || not (allowed s)
      then finished (err e) (suc retry_count) slept
      else again (slept + s.backoff)

  abbrev pub after_call :
      (allowed : RetryStrategy → Bool)
      → (class_of : Exn → String) → (retry_count slept : ℕ) → (again : ℕ → Finish A) → Result Exn A
      → Finish A
  after_call allowed class_of retry_count slept again (ok a) =
      finished (ok a) (suc retry_count) slept
  after_call allowed class_of retry_count slept again (err e) =
      on_strategy allowed retry_count slept e again (get_strategy (class_of e))

  -- The loop that the two wrappers share; the n-th call of the wrapped operation does `op n`.
  unfoldable pub retry_loop :
      (allowed : RetryStrategy → Bool)
      → (class_of : Exn → String) → (op : ℕ → Result Exn A) → (fuel retry_count slept : ℕ)
      → Finish A
  unfolding get_strategy
  retry_loop allowed class_of op zero retry_count slept = no_fuel
  retry_loop allowed class_of op (suc fuel) retry_count slept =
      after_call allowed class_of retry_count slept
        (retry_loop allowed class_of op fuel (suc retry_count)) (op retry_count)

  -- `call_with_retry`
  unfoldable pub call_with_retry : (llm_client : ℕ → Result Exn A) → (fuel : ℕ) → Finish A
  unfolding retry_loop
  call_with_retry llm_client fuel = retry_loop any_strategy llm_class llm_client fuel 0 0

  -- `execute_with_retry`
  unfoldable pub execute_with_retry :
      (is_idempotent : Bool) → (tool_run : ℕ → Result Exn A) → (fuel : ℕ) → Finish A
  unfolding retry_loop mentions_tool
  execute_with_retry is_idempotent tool_run fuel =
      retry_loop (for_tool is_idempotent) tool_class tool_run fuel 0 0
