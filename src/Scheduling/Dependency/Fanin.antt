-- ===== src/Scheduling/Dependency/Fanin.antt =====
-- The failure of one child while its siblings wait decides the join handle.
use vai_core.Prelude.Dict.{Dict}
use vai_core.Jobs.Job.{Job}
