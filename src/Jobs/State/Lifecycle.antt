-- ===== src/Jobs/State/Lifecycle.antt =====
-- What the transition table allows over a whole life of a job.
use vai_core.Prelude.{ℕ, ◌+◌, List, [], ◌∷◌, Result, ok, ◌>>=◌}
use vai_core.Jobs.State.{
  JobState, pending, running, succeeded, poison, blocked, transition, IllegalTransition,
}

-- A history: `transition` called with each target in turn, from the state that it then has.
abbrev pub follow : JobState → List JobState → Result IllegalTransition JobState
follow s [] = ok s
follow s (t ∷ ts) = transition s t >>= λ s'. follow s' ts

abbrev is_running : JobState → ℕ
is_running running = 1
is_running _ = 0

-- How often a history enters `RUNNING`.
abbrev pub starts : List JobState → ℕ
starts [] = 0
starts (t ∷ ts) = is_running t + starts ts

-- How many starts a state has left.
abbrev left : JobState → ℕ
left pending = 1
left blocked = 1
left _ = 0

-- The starts that a state stands for.
abbrev spent : JobState → ℕ
spent succeeded = 1
spent poison = 1
spent running = 1
spent _ = 0
