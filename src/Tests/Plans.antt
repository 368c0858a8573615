-- ===== src/Tests/Plans.antt =====
-- The theorems on subtask plans, at a plan of three subtasks and at one with a cycle.
use vai_core.Prelude.{none, some, List, [], ◌∷◌, String, ok, err, ◌↔◌, ◌≡◌, ◌≢◌, refl, Distinct}
use vai_core.Decomposition.Dag.{SubtaskSpec, ids_of, cycle, no_fuel, validate_dag, topological_sort}
use vai_core.Decomposition.Dag.Plan.{IsOrder}
use vai_core.Decomposition.Dag.Valid.{validate_dag-IsOrder}
use vai_core.Decomposition.Dag.Sorted.{IsSort, topological_sort-IsSort, topological_sort_errors}
use vai_core.Decomposition.Dag.Fuel.{validate_dag_fuel}

abbrev subtask : String → List String → SubtaskSpec
subtask id deps = record {
  id = id;
  description = "do";
  target_agent_id = none;
  target_skill_id = some "skill";
  arguments = "{}";
  depends_on = deps;
  priority = 0;
  timeout_seconds = 60;
  max_retries = 1;
}

abbrev three : List SubtaskSpec
three = subtask "c" ("a" ∷ "b" ∷ []) ∷ subtask "a" [] ∷ subtask "b" ("a" ∷ []) ∷ []

abbrev circular : List SubtaskSpec
circular = subtask "a" ("b" ∷ []) ∷ subtask "b" ("a" ∷ []) ∷ []

three_valid : validate_dag three ≡ ok tt
unfolding validate_dag
three_valid = refl

three_sorted :
    topological_sort three
    ≡ ok (subtask "a" [] ∷ subtask "b" ("a" ∷ []) ∷ subtask "c" ("a" ∷ "b" ∷ []) ∷ [])
unfolding topological_sort
three_sorted = refl

circular_invalid : validate_dag circular ≡ err (cycle "b" "a")
unfolding validate_dag
circular_invalid = refl

validate_dag-IsOrder_example :
    (validate_dag three ≡ ok tt)
    ↔ (Distinct (ids_of three) × (order : List String) × IsOrder three order)
validate_dag-IsOrder_example = validate_dag-IsOrder three

topological_sort-IsSort_example :
    (out : List SubtaskSpec) × (topological_sort three ≡ ok out) × IsSort three out
topological_sort-IsSort_example = topological_sort-IsSort three three_valid

topological_sort_errors_example :
    (topological_sort circular ≡ err (cycle "b" "a"))
    ↔ (validate_dag circular ≡ err (cycle "b" "a"))
topological_sort_errors_example = topological_sort_errors circular (cycle "b" "a")

validate_dag_fuel_example : validate_dag circular ≢ err no_fuel
validate_dag_fuel_example = validate_dag_fuel circular
