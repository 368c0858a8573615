-- ===== src/Retry/Policy.antt =====
-- The retry policy and the poison detector (src/platform/runtime/retry/policy.py, poison.py).
-- Delays are in milliseconds: the rules' seconds are multiples of half a second.
use vai_core.Prelude.{
  ℕ, ◌*◌, ◌/◌, ◌^◌, Bool, true, false, Option, none, some, [], ◌∷◌, String, leb, if◌then◌else◌,
}
use vai_core.Prelude.Dict.{Dict, get}

pub record Rule : Type 0 where
  pub max_attempts : ℕ
  pub base_delay : ℕ

pub record RetryDecision : Type 0 where
  pub should_retry : Bool
  pub delay : Option ℕ

-- `DEFAULT_RETRY_RULES`
abbrev pub default_retry_rules : Dict Rule
default_retry_rules =
    ("TransientNetworkError", record { max_attempts = 3; base_delay = 1000 })
    ∷ ("RateLimitError", record { max_attempts = 5; base_delay = 2000 })
    ∷ ("TimeoutError", record { max_attempts = 2; base_delay = 1500 })
    ∷ []

abbrev pub no_retry : RetryDecision
no_retry = record { should_retry = false; delay = none }

-- `base_delay * 2 ** (attempt - 1)`, halved last so that attempt 0 halves the base delay.
abbrev pub backoff : ℕ → ℕ → ℕ
backoff base_delay attempt = base_delay * 2 ^ attempt / 2

abbrev by_rule : ℕ → Option Rule → RetryDecision
by_rule attempt none = no_retry
by_rule attempt (some rule) =
    if leb rule.max_attempts attempt
    then no_retry
    else record { should_retry = true; delay = some (backoff rule.base_delay attempt) }

-- `PlatformRetryPolicy.evaluate`
unfoldable pub evaluate : Dict Rule → (attempt : ℕ) (error_type : String) → RetryDecision
unfolding get
evaluate rules attempt error_type = by_rule attempt (get rules error_type)

-- `PoisonDetector.evaluate`: `some max_failures` when the job is poison, for the reason's text.
unfoldable pub is_poison : (max_failures failure_count : ℕ) → Option ℕ
is_poison max_failures failure_count =
    if leb max_failures failure_count then some max_failures else none

-- `default_poison_detector`
abbrev pub default_max_failures : ℕ
default_max_failures = 5
