-- ===== src/Breaker.antt =====
-- The circuit breaker of tool execution (src/runtime/retry/circuit_breaker.py), with times in
-- milliseconds.
pub mod History
pub mod Streak
use vai_core.Prelude.{
  ℕ, suc, ◌+◌, Bool, true, false, Option, none, some, String, leb, ltb, [], if◌then◌else◌,
}
use vai_core.Prelude.Dict.{Dict, get, put, remove}

pub record CircuitBreaker : Type 0 where
  pub failure_threshold : ℕ
  pub cooldown : ℕ
  pub failures : Dict ℕ
  pub open_until : Dict ℕ

unfoldable pub create : (failure_threshold cooldown : ℕ) → CircuitBreaker
create failure_threshold cooldown = record {
  failure_threshold = failure_threshold;
  cooldown = cooldown;
  failures = [];
  open_until = [];
}

-- `failures[tool_name]`, after the line that sets a missing count to 0.
abbrev pub count : Option ℕ → ℕ
count none = 0
count (some n) = n

-- `open`
unfoldable pub open_circuit : (now : ℕ) → String → CircuitBreaker → CircuitBreaker
unfolding put
open_circuit now tool_name b = record b {
  open_until = put b.open_until tool_name (now + b.cooldown);
}

unfoldable pub record_failure : (now : ℕ) → String → CircuitBreaker → CircuitBreaker
unfolding get put open_circuit
record_failure now tool_name b =
    let n = suc (count (get b.failures tool_name)) in
    let counted = record b { failures = put b.failures tool_name n } in
    if leb b.failure_threshold n then open_circuit now tool_name counted else counted

-- The `del` under `if tool_name in self.open_until`.
unfoldable pub record_success : String → CircuitBreaker → CircuitBreaker
unfolding put remove
record_success tool_name b = record b {
  failures = put b.failures tool_name 0;
  open_until = remove b.open_until tool_name;
}

abbrev pub still_open : (now : ℕ) → String → CircuitBreaker → Option ℕ → Bool × CircuitBreaker
still_open now tool_name b none = (false, b)
still_open now tool_name b (some until) =
    if ltb now until
    then (true, b)
    else (false, record b { open_until = remove b.open_until tool_name })

unfoldable pub is_open : (now : ℕ) → String → CircuitBreaker → Bool × CircuitBreaker
unfolding get remove
is_open now tool_name b = still_open now tool_name b (get b.open_until tool_name)
