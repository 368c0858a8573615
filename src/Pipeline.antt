-- ===== src/Pipeline.antt =====
-- The worker's pipeline (src/platform/runtime/pipeline): the runner, and its four stages.
pub mod Stages
pub mod Execution
use vai_core.Prelude.{Bool, true, false, List, [], ◌∷◌}
use vai_core.Jobs.Action.{Action, pure, ◌>>=◌}

-- A stage says whether it returned the job, which ends the pipeline.
abbrev pub Stage : Type 0
Stage = Action Bool

abbrev pub unless : Bool → Action Bool → Action Bool
unless true rest = pure true
unless false rest = rest

-- `EvaluatorPipeline.run`: the first stage that returns the job wins.
unfoldable pub run : List Stage → Action Bool
run [] = pure false
run (stage ∷ stages) = do stop ← stage; unless stop (run stages)
