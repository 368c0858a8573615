-- ===== src/Memory/Lifecycle.antt =====
-- The lifecycles of a subgoal (src/agent/memory/types): the execution lifecycle with its two tables,
-- and the high-level one.
use vai_core.Prelude.{
  Bool, true, false, Option, none, some, Result, ok, err, ◌≡◌, ◌↔◌, refl, ap, sym, if◌then◌else◌,
}

pub data SubgoalLifecycleState : Type 0 where
  pending active satisfied abandoned closed : SubgoalLifecycleState
  created validated ready running success failed blocked retrying : SubgoalLifecycleState

pub data SubgoalEvent : Type 0 where
  validate activate start succeed fail block unblock retry resume : SubgoalEvent

-- `IllegalSubgoalTransitionError`
pub data IllegalSubgoalTransition : Type 0 where
  no_transition : SubgoalLifecycleState → SubgoalEvent → IllegalSubgoalTransition
  not_allowed : (from_state to_state : SubgoalLifecycleState) → IllegalSubgoalTransition

-- `(from_state, to_state) in ALLOWED_TRANSITIONS`
unfoldable pub is_allowed : (from_state to_state : SubgoalLifecycleState) → Bool
is_allowed created validated = true
is_allowed validated ready = true
is_allowed ready running = true
is_allowed running success = true
is_allowed running failed = true
is_allowed running blocked = true
is_allowed blocked ready = true
is_allowed failed retrying = true
is_allowed retrying running = true
is_allowed _ _ = false

unfoldable pub assert_allowed :
    (from_state to_state : SubgoalLifecycleState) → Result IllegalSubgoalTransition (Unit {0})
unfolding is_allowed
assert_allowed from_state to_state =
    if is_allowed from_state to_state then ok tt else err (not_allowed from_state to_state)

-- `_EVENT_TRANSITIONS.get((current, event))`
unfoldable pub event_transition :
    SubgoalLifecycleState → SubgoalEvent → Option SubgoalLifecycleState
event_transition created validate = some validated
event_transition validated activate = some ready
event_transition ready start = some running
event_transition running succeed = some success
event_transition running fail = some failed
event_transition running block = some blocked
event_transition blocked unblock = some ready
event_transition failed retry = some retrying
event_transition retrying resume = some running
event_transition _ _ = none

abbrev pub or_illegal :
    SubgoalLifecycleState
    → SubgoalEvent
    → Option SubgoalLifecycleState
    → Result IllegalSubgoalTransition SubgoalLifecycleState
or_illegal current event none = err (no_transition current event)
or_illegal current event (some state) = ok state

unfoldable pub next_state :
    SubgoalLifecycleState → SubgoalEvent → Result IllegalSubgoalTransition SubgoalLifecycleState
unfolding event_transition
next_state current event = or_illegal current event (event_transition current event)

-- `LifecycleTransitionEngine.is_legal`: the states of the execution lifecycle but `failed` have no entry.
unfoldable pub is_legal : (current new : SubgoalLifecycleState) → Bool
is_legal pending active = true
is_legal active satisfied = true
is_legal active failed = true
is_legal active abandoned = true
is_legal satisfied closed = true
is_legal failed closed = true
is_legal abandoned closed = true
is_legal _ _ = false

-- Some event takes one state to another.
abbrev pub Leads : (from_state to_state : SubgoalLifecycleState) → Type 0
Leads from_state to_state = (event : SubgoalEvent) × (next_state from_state event ≡ ok to_state)

abbrev is_allowed_from :
    SubgoalLifecycleState → Result IllegalSubgoalTransition SubgoalLifecycleState → Bool
is_allowed_from from_state (err e) = true
is_allowed_from from_state (ok to_state) = is_allowed from_state to_state

leads :
    (from_state to_state : SubgoalLifecycleState)
    → is_allowed from_state to_state ≡ true
    → Leads from_state to_state
unfolding is_allowed next_state
leads created validated h = (validate, refl)
leads validated ready h = (activate, refl)
leads ready running h = (start, refl)
leads running success h = (succeed, refl)
leads running failed h = (fail, refl)
leads running blocked h = (block, refl)
leads blocked ready h = (unblock, refl)
leads failed retrying h = (retry, refl)
leads retrying running h = (resume, refl)
leads _ _ h = absurd (cc h)

led :
    (from_state : SubgoalLifecycleState) (event : SubgoalEvent) (to_state : SubgoalLifecycleState)
    → next_state from_state event ≡ ok to_state
    → is_allowed from_state to_state ≡ true
unfolding is_allowed next_state
led created validate to_state h = ap (is_allowed_from created) (sym h)
led validated activate to_state h = ap (is_allowed_from validated) (sym h)
led ready start to_state h = ap (is_allowed_from ready) (sym h)
led running succeed to_state h = ap (is_allowed_from running) (sym h)
led running fail to_state h = ap (is_allowed_from running) (sym h)
led running block to_state h = ap (is_allowed_from running) (sym h)
led blocked unblock to_state h = ap (is_allowed_from blocked) (sym h)
led failed retry to_state h = ap (is_allowed_from failed) (sym h)
led retrying resume to_state h = ap (is_allowed_from retrying) (sym h)
led _ _ to_state h = absurd (cc h)

-- The two tables of the execution lifecycle agree: a transition is allowed exactly when some event
-- makes it.
pub is_allowed-Leads :
    (from_state to_state : SubgoalLifecycleState)
    → (is_allowed from_state to_state ≡ true) ↔ Leads from_state to_state
is_allowed-Leads from_state to_state =
    (leads from_state to_state, λ (event, moved). led from_state event to_state moved)

-- The states that events lead to from the first state of the execution lifecycle.
pub data Reachable : SubgoalLifecycleState → Type 0 where
  starts : Reachable created
  moves :
      {from_state to_state : SubgoalLifecycleState}
      → Reachable from_state
      → Leads from_state to_state
      → Reachable to_state

abbrev pub is_executing : SubgoalLifecycleState → Bool
is_executing pending = false
is_executing active = false
is_executing satisfied = false
is_executing abandoned = false
is_executing closed = false
is_executing _ = true

allowed_executing :
    (from_state to_state : SubgoalLifecycleState)
    → is_allowed from_state to_state ≡ true
    → is_executing to_state ≡ true
unfolding is_allowed
allowed_executing created validated h = refl
allowed_executing validated ready h = refl
allowed_executing ready running h = refl
allowed_executing running success h = refl
allowed_executing running failed h = refl
allowed_executing running blocked h = refl
allowed_executing blocked ready h = refl
allowed_executing failed retrying h = refl
allowed_executing retrying running h = refl
allowed_executing _ _ h = absurd (cc h)

-- Whatever events a created subgoal goes through, it stays in the execution lifecycle.
pub Reachable_executing :
    (state : SubgoalLifecycleState) → Reachable state → is_executing state ≡ true
Reachable_executing state starts = refl
Reachable_executing state (moves r step) =
    allowed_executing _ state ((is_allowed-Leads _ state).1 step)
