-- ===== src/Scheduling/Dependency/Cancel.antt =====
-- What the failure of a child does to its siblings and to their join handle.
use vai_core.Prelude.{ℕ, some, List, String, if◌then◌else◌, ◌≡◌}
use vai_core.Prelude.Dict.{Dict, get}
use vai_core.Jobs.Job.{Job}
use vai_core.Join.{JoinHandle}
use vai_core.Join.Reports.{report_all}
use vai_core.Scheduling.Dependency.{Stores}
use vai_core.Scheduling.Dependency.Turn.{cancelled, is_visited, cancellations, Turn}

record Cancelled (now : ℕ) (child handle_id : String) (ids : List String) (old : Dict Job)
    (s t : Stores) : Type 0 where
  pub each :
      (k : String)
      → get t.jobs k ≡ (if is_visited child ids k then cancelled (get old k) else get s.jobs k)
  pub reported :
      (h : JoinHandle)
      → get s.joins handle_id ≡ some h
      → get t.joins handle_id ≡ some (report_all (cancellations now child old ids) h)
  pub same_queue : t.queue ≡ s.queue
