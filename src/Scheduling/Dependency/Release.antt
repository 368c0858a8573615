-- ===== src/Scheduling/Dependency/Release.antt =====
-- One step of the scan of siblings: what it does to the stores.
use vai_core.Prelude.{Option, none, some, List, [], ◌∷◌, ◌++◌, String, if◌then◌else◌, ◌≡◌, refl}
use vai_core.Prelude.Dict.{Dict, get}
use vai_core.Jobs.State.{pending}
use vai_core.Jobs.Job.{Job}
use vai_core.Scheduling.Dependency.{dep_succeeded, deps_satisfied, is_released}

-- Every job is stored under its own id.
abbrev pub Keyed : Dict Job → Type 0
Keyed jobs = (id : String) (job : Job) → get jobs id ≡ some job → job.job_id ≡ id

abbrev pub queued : Job → Job
queued job = record job { state = pending }

-- The job as the scan leaves it, its guards read in the store `jobs`.
abbrev pub released : (plan_id : String) → Dict Job → Option Job → Option Job
released plan_id jobs none = none
released plan_id jobs (some job) = some (if is_released plan_id jobs job then queued job else job)

abbrev pub entries : (plan_id : String) → Dict Job → Option Job → List Job
entries plan_id jobs none = []
entries plan_id jobs (some job) = if is_released plan_id jobs job then queued job ∷ [] else []

-- The released jobs in the order of the ids.
unfoldable pub all_entries : (plan_id : String) → Dict Job → List String → List Job
unfolding get
all_entries plan_id jobs [] = []
all_entries plan_id jobs (id ∷ ids) =
    entries plan_id jobs (get jobs id) ++ all_entries plan_id jobs ids

-- No scan step changes what counts as a satisfied dependency.
abbrev pub SameDone : Dict Job → Dict Job → Type 0
SameDone old new = (id : String) → dep_succeeded (get new id) ≡ dep_succeeded (get old id)

pub deps_satisfied-cong :
    (old new : Dict Job)
    → SameDone old new
    → (ids : List String) → deps_satisfied ids new ≡ deps_satisfied ids old
unfolding deps_satisfied
deps_satisfied-cong old new same [] = refl
deps_satisfied-cong old new same (id ∷ ids) = cc (same id, deps_satisfied-cong old new same ids)
