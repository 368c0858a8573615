-- ===== src/Decomposition/Dag.antt =====
-- The validator and the topological sort of subtask plans
-- (src/agent/decomposition/dag_validator.py). The recursive searches take fuel.
pub mod Order
pub mod Sound
pub mod Plan
pub mod Complete
pub mod Roots
pub mod Valid
pub mod Ordered
pub mod Sort
pub mod Sorted
pub mod InProgress
pub mod Fuel
use vai_core.Prelude.{
  ℕ, zero, suc, Bool, true, false, not, Option, none, some, List, [], ◌∷◌, ◌++◌, map, String, ◌==◌,
  Result, ok, err, ◌>>=◌, length, eqb, elem, if◌then◌else◌,
}
use vai_core.Prelude.Dict.{Dict, get, put}

-- `SubtaskSpec`; `arguments` is a JSON text.
pub record SubtaskSpec : Type 0 where
  pub id : String
  pub description : String
  pub target_agent_id : Option String
  pub target_skill_id : Option String
  pub arguments : String
  pub depends_on : List String
  pub priority : ℕ
  pub timeout_seconds : ℕ
  pub max_retries : ℕ

-- `DagValidationError`, by its messages; `key_error` is Python's, for a key that a dict lacks, and
-- `no_fuel` marks a search that was cut off.
pub data DagError : Type 0 where
  duplicate_ids : DagError
  unknown_dependency self_dependency cycle : (id dep : String) → DagError
  key_error : String → DagError
  no_fuel : DagError

abbrev pub ids_of : List SubtaskSpec → List String
ids_of subtasks = map (λ s. s.id) subtasks

-- The set of the texts of a list.
unfoldable pub to_set : List String → List String
unfolding elem
to_set [] = []
to_set (x ∷ xs) = let rest = to_set xs in if elem x rest then rest else x ∷ rest

-- `for x in xs: step(x)`, on a state, stopped by an exception.
unfoldable pub for_each :
    {A S : Type 0} → (A → S → Result DagError S) → List A → S → Result DagError S
for_each step [] s = ok s
for_each step (x ∷ xs) s = step x s >>= for_each step xs

unfoldable pub check_dep :
    (ids : List String) (id dep : String) → Unit {0} → Result DagError (Unit {0})
unfolding elem
check_dep ids id dep u =
    if not (elem dep ids)
    then err (unknown_dependency id dep)
    else if dep == id
    then err (self_dependency id dep)
    else ok tt

abbrev pub check_deps : (ids : List String) → SubtaskSpec → Unit {0} → Result DagError (Unit {0})
check_deps ids s = for_each (check_dep ids s.id) s.depends_on

-- `{s.id: v(s) for s in subtasks}`, written into a dict in the order of the list.
unfoldable pub fill : {V : Type 0} → (SubtaskSpec → V) → List SubtaskSpec → Dict V → Dict V
unfolding put
fill v [] d = d
fill v (s ∷ ss) d = fill v ss (put d s.id (v s))

unfoldable pub build_adjacency : List SubtaskSpec → Dict (List String)
unfolding fill
build_adjacency subtasks = fill (λ s. s.depends_on) subtasks []

pub data Color : Type 0 where
  unvisited visiting visited : Color

abbrev pub or_empty : Option (List String) → List String
or_empty none = []
or_empty (some deps) = deps

-- `adjacency.get(node_id, [])`
unfoldable pub deps_of : Dict (List String) → String → List String
unfolding get
deps_of adjacency node_id = or_empty (get adjacency node_id)

abbrev pub on_color :
    (dfs : String → Dict Color → Result DagError (Dict Color))
    → (node_id dep_id : String) → Option Color
    → Dict Color
    → Result DagError (Dict Color)
on_color dfs node_id dep_id none state = err (key_error dep_id)
on_color dfs node_id dep_id (some visiting) state = err (cycle node_id dep_id)
on_color dfs node_id dep_id (some unvisited) state = dfs dep_id state
on_color dfs node_id dep_id (some visited) state = ok state

unfoldable pub follow_dep :
    (dfs : String → Dict Color → Result DagError (Dict Color))
    → (node_id dep_id : String) → Dict Color
    → Result DagError (Dict Color)
unfolding get
follow_dep dfs node_id dep_id state = on_color dfs node_id dep_id (get state dep_id) state

-- `_dfs`
unfoldable pub dfs :
    (fuel : ℕ) → Dict (List String) → String → Dict Color → Result DagError (Dict Color)
unfolding put deps_of follow_dep for_each
dfs zero adjacency node_id state = err no_fuel
dfs (suc fuel) adjacency node_id state =
    for_each (follow_dep (dfs fuel adjacency) node_id) (deps_of adjacency node_id)
      (put state node_id visiting)
    >>= λ after. ok (put after node_id visited)

abbrev pub root_color :
    (search : Dict Color → Result DagError (Dict Color))
    → String
    → Option Color
    → Dict Color
    → Result DagError (Dict Color)
root_color search id none state = err (key_error id)
root_color search id (some unvisited) state = search state
root_color search id (some _) state = ok state

unfoldable pub from_root :
    (fuel : ℕ) → Dict (List String) → String → Dict Color → Result DagError (Dict Color)
unfolding get dfs
from_root fuel adjacency id state = root_color (dfs fuel adjacency id) id (get state id) state

-- `_check_cycles`
unfoldable pub check_cycles : List SubtaskSpec → Result DagError (Dict Color)
unfolding fill build_adjacency for_each from_root
check_cycles subtasks =
    for_each (from_root (suc (length subtasks)) (build_adjacency subtasks)) (ids_of subtasks)
      (fill (λ s. unvisited) subtasks [])

-- `validate_dag`
unfoldable pub validate_dag : List SubtaskSpec → Result DagError (Unit {0})
unfolding to_set for_each check_dep check_cycles
validate_dag subtasks =
    let ids = ids_of subtasks in
    if not (eqb (length (to_set ids)) (length subtasks))
    then err duplicate_ids
    else for_each (check_deps ids) subtasks tt >>= λ u. check_cycles subtasks >>= λ state. ok tt

-- The two variables that `_visit` closes over.
pub record Sorting : Type 0 where
  pub seen : List String
  pub result : List SubtaskSpec

abbrev pub visit_node :
    (visit : String → Sorting → Result DagError Sorting)
    → String
    → Option SubtaskSpec
    → Sorting
    → Result DagError Sorting
visit_node visit node_id none s = err (key_error node_id)
visit_node visit node_id (some node) s =
    for_each visit node.depends_on (record s { seen = node_id ∷ s.seen }) >>= λ after.
    ok (record after { result = after.result ++ node ∷ [] })

-- `_visit`
unfoldable pub visit : (fuel : ℕ) → Dict SubtaskSpec → String → Sorting → Result DagError Sorting
unfolding get elem for_each
visit zero id_map node_id s = err no_fuel
visit (suc fuel) id_map node_id s =
    let rest = visit_node (visit fuel id_map) node_id (get id_map node_id) s in
    if elem node_id s.seen then ok s else rest

-- `topological_sort`
unfoldable pub topological_sort : List SubtaskSpec → Result DagError (List SubtaskSpec)
unfolding validate_dag fill for_each visit
topological_sort subtasks = validate_dag subtasks >>= λ u.
    for_each (visit (suc (length subtasks)) (fill (λ s. s) subtasks [])) (ids_of subtasks)
      (record { seen = []; result = [] })
    >>= λ s. ok s.result
