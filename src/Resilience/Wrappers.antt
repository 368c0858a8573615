-- ===== src/Resilience/Wrappers.antt =====
-- How often the two retry wrappers call what they wrap, and what they give.
use vai_core.Prelude.{
  ℕ, suc, ◌+◌, ◌≤◌, ◌≡◌, refl, Bool, true, false, not, ◌&&◌, ◌||◌, Result, err, leb, if◌then◌else◌,
  arith, sym, ap, ◌∙◌,
}
use vai_core.Resilience.{
  get_strategy, Exn, mentions_tool, finished, on_strategy, after_call, retry_loop, any_strategy,
  llm_class, call_with_retry, for_tool, tool_class, execute_with_retry,
}
use vai_core.Resilience.Attempts.{Ends, pauses, loop-Ends}

module _ {B : Type 0} where
  or_nil : (b : Bool) (x y : B) → (if b || false then x else y) ≡ (if b then x else y)
  or_nil true x y = refl
  or_nil false x y = refl

  or_full : (b : Bool) (x y : B) → (if b || true then x else y) ≡ x
  or_full true x y = refl
  or_full false x y = refl

  at_zero : (n : ℕ) (x y : B) → (if leb 0 n then x else y) ≡ x
  at_zero n x y = ground arith

llm_step :
    {A : Type 0} (op : ℕ → Result Exn A) (fuel n slept : ℕ) (e : Exn)
    → op n ≡ err e
    → retry_loop any_strategy llm_class op (suc fuel) n slept ≡ (
        if leb (if e.is_timeout then 2 else 1) n
        then finished (err e) (suc n) slept
        else retry_loop any_strategy llm_class op fuel
            (suc n)
            (slept + (if e.is_timeout then 200 else 0)))
unfolding retry_loop get_strategy
llm_step op fuel n slept e here =
    ap
      (after_call any_strategy llm_class n slept
        (retry_loop any_strategy llm_class op fuel (suc n)))
      here
    ∙ go e.is_timeout
  where
    go :
        (b : Bool)
        → on_strategy any_strategy n slept e
            (retry_loop any_strategy llm_class op fuel (suc n))
            (get_strategy (if b then "LLMError" else "SystemError"))
          ≡ (if leb (if b then 2 else 1) n
              then finished (err e) (suc n) slept
              else retry_loop any_strategy llm_class op fuel
                  (suc n)
                  (slept + (if b then 200 else 0)))
    go true = or_nil (leb 2 n) _ _
    go false = or_nil (leb 1 n) _ _

tool_step :
    {A : Type 0} (is_idempotent : Bool) (op : ℕ → Result Exn A) (fuel n slept : ℕ) (e : Exn)
    → op n ≡ err e
    → retry_loop (for_tool is_idempotent) tool_class op (suc fuel) n slept ≡ (
        if leb (if mentions_tool e && not is_idempotent then 0 else 1) n
        then finished (err e) (suc n) slept
        else retry_loop (for_tool is_idempotent) tool_class op fuel (suc n) (slept + 0))
unfolding retry_loop get_strategy
tool_step is_idempotent op fuel n slept e here =
    ap
      (after_call (for_tool is_idempotent) tool_class n slept
        (retry_loop (for_tool is_idempotent) tool_class op fuel (suc n)))
      here
    ∙ go is_idempotent (mentions_tool e)
  where
    go :
        (i b : Bool)
        → on_strategy
            (for_tool i)
            n
            slept
            e
            (retry_loop (for_tool is_idempotent) tool_class op fuel (suc n))
            (get_strategy (if b then "ToolError" else "SystemError"))
          ≡ (if leb (if b && not i then 0 else 1) n
              then finished (err e) (suc n) slept
              else retry_loop (for_tool is_idempotent) tool_class op fuel (suc n) (slept + 0))
    go true true = or_nil (leb 1 n) _ _
    go true false = or_nil (leb 1 n) _ _
    go false true = or_full (leb 1 n) _ _ ∙ sym (at_zero n _ _)
    go false false = or_nil (leb 1 n) _ _

-- `call_with_retry`: a timeout may be tried again twice, with 200 ms of sleep before each time, and any
-- other exception once, with none.
abbrev pub llm_limit : Exn → ℕ
llm_limit e = if e.is_timeout then 2 else 1

abbrev pub llm_pause : Exn → ℕ
llm_pause e = if e.is_timeout then 200 else 0

-- `execute_with_retry`: any exception may be tried again once, with no sleep, but one that mentions a
-- tool only if the tool is idempotent.
abbrev pub tool_limit : (is_idempotent : Bool) → Exn → ℕ
tool_limit is_idempotent e = if mentions_tool e && not is_idempotent then 0 else 1

abbrev pub no_pause : Exn → ℕ
no_pause e = 0

-- Given three rounds, `call_with_retry` ends with just what one of its first three calls did, and
-- makes none after it: the first call that returns, or is the third, or is the second and raises no
-- timeout. It sleeps 200 ms after each call before it that raised a timeout, and no more.
pub call_with_retry-Ends :
    {A : Type 0} (llm_client : ℕ → Result Exn A) (fuel : ℕ)
    → 3 ≤ fuel
    → Ends llm_client llm_limit llm_pause 2 (call_with_retry llm_client fuel)
unfolding call_with_retry pauses
call_with_retry-Ends llm_client fuel enough =
    loop-Ends any_strategy llm_class llm_client llm_limit llm_pause 2 (llm_step llm_client)
      (λ e. ground arith) 2 fuel 0 enough (omega arith) (λ j lt. absurd (omega (arith, lt)))

-- Given two rounds, `execute_with_retry` ends with just what one of its first two calls did, and
-- makes none after it: it ends with the first call if that returns, or if the tool is not idempotent
-- and the exception mentions a tool, and with the second otherwise. It does not sleep.
pub execute_with_retry-Ends :
    {A : Type 0} (is_idempotent : Bool) (tool_run : ℕ → Result Exn A) (fuel : ℕ)
    → 2 ≤ fuel
    → Ends tool_run
        (tool_limit is_idempotent)
        no_pause
        1
        (execute_with_retry is_idempotent tool_run fuel)
unfolding execute_with_retry pauses
execute_with_retry-Ends is_idempotent tool_run fuel enough =
    loop-Ends (for_tool is_idempotent) tool_class tool_run (tool_limit is_idempotent) no_pause 1
      (tool_step is_idempotent tool_run) (λ e. ground arith) 1 fuel 0 enough (omega arith)
      (λ j lt. absurd (omega (arith, lt)))
