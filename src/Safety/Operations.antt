-- ===== src/Safety/Operations.antt =====
-- Which operations a degraded worker may do (src/platform/runtime/safety/degraded_mode.py).
use vai_core.Prelude.{
  Bool, true, false, not, List, [], ◌∷◌, String, ◌==◌, eq_iff, elem, all, keep, ◌≡◌, refl, inl, inr,
  Bool-cases, arith,
}

abbrev pub forbidden_ops : List String
forbidden_ops =
    "retry" ∷ "backoff" ∷ "tool_call" ∷ "multi_step_reasoning" ∷ "agentic_behaviour"
    ∷ "external_api_call" ∷ "state_mutation" ∷ "job_completion_attempt" ∷ []

abbrev pub allowed_ops : List String
allowed_ops =
    "produce_fallback_output" ∷ "emit_escalation_event" ∷ "wait_for_recovery_signals"
    ∷ "maintain_heartbeat" ∷ "maintain_isolation" ∷ []

unfoldable pub is_op_allowed : String → Bool
unfolding elem
is_op_allowed operation = elem operation allowed_ops

unfoldable pub is_op_forbidden : String → Bool
unfolding elem
is_op_forbidden operation = elem operation forbidden_ops

-- The operations of the list that are forbidden.
unfoldable pub validate_behaviour : List String → List String
unfolding keep is_op_forbidden
validate_behaviour operations = keep is_op_forbidden operations

-- No text of the second list stands in the first.
apart :
    (xs ys : List String)
    → all (λ y. not (elem y xs)) ys ≡ true
    → (k : String) → elem k ys ≡ true
    → elem k xs ≡ false
unfolding all elem
apart xs [] h k m = absurd (cc m)
apart xs (y ∷ ys) h k m = elim (Bool-cases (y == k)) [
  | inl same ↦ let e = (eq_iff y k).0 same in ground (arith, h, e)
  | inr other ↦ apart xs ys (ground (arith, h)) k (ground (arith, m, other))
]

-- No operation is both allowed and forbidden, so a list of allowed operations is valid.
pub allowed-not_forbidden :
    (operation : String) → is_op_allowed operation ≡ true → is_op_forbidden operation ≡ false
unfolding is_op_allowed is_op_forbidden all elem
allowed-not_forbidden operation allowed = apart forbidden_ops allowed_ops refl operation allowed
