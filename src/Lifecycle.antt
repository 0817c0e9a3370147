-- ===== src/Lifecycle.antt =====
-- The closed vocabularies of registration.py and unregister.py, as enumerations.

-- `OUTCOME_…`
pub data Outcome : Type 0 where
  registered linked_existing cancelled stopped written_unverified registered_unlinked
        occupied_invalid invalid_marker_resolved invalid_deleted_unverified conflict unregistered
        changed_marker_stopped :
      Outcome

-- `PROJECTION_…`
pub data Link : Type 0 where
  linked unlinked conflict none : Link

-- `STATE_…`, `MARKER_STATE_…` and the states of the parent
pub data State : Type 0 where
  draft_ready linked_existing occupied_invalid stopped : State

pub data MarkerState : Type 0 where
  absent valid invalid unsupported partial unknown : MarkerState

pub data ParentState : Type 0 where
  present absent unknown : ParentState

-- `TRANSITION_…`
pub data Transition : Type 0 where
  absent_to_created none : Transition

-- The status of a `ProjectionResult`; `other` is any other status, and any other object.
pub data ProjectionStatus : Type 0 where
  linked conflict other : ProjectionStatus
