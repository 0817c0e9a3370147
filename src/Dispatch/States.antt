-- ===== src/Dispatch/States.antt =====
-- workstream_dispatch/activity.py: the state of a job, from what is observed of it.
use arjim.Base.{String, Option, none, some, Bool, not, if◌then◌else◌, ◌==◌, string_eq}
use arjim.Runtime.{Runtime}

pub data JobState : Type 0 where
  running idle needs_operator not_found unreachable superseded never_dispatched failed : JobState

-- What is observed of a job
pub record Observed : Type 0 where
  pub binding_exists : Bool
  pub agent_resolved : Bool
  pub agent_status : Option String
  pub agent_archived : Bool
  pub has_pending_permissions : Bool
  pub paseo_reachable : Bool

unfoldable pub state_of_status : String → JobState
state_of_status status =
    if status == "running"
    then JobState.running
    else if status == "idle"
    then JobState.idle
    else if status == "error"
    then JobState.failed
    else if status == "closed"
    then JobState.superseded
    else JobState.needs_operator

abbrev pub or_empty : Option String → String
or_empty none = ""
or_empty (some s) = s

-- `_derive_job_state`
unfoldable pub derive_job_state : Runtime → Observed → JobState
unfolding state_of_status
derive_job_state rt o =
    if not o.paseo_reachable
    then JobState.unreachable
    else if not o.agent_resolved
    then (if o.binding_exists then JobState.not_found else JobState.never_dispatched)
    else if o.has_pending_permissions
    then JobState.needs_operator
    else if o.agent_archived
    then JobState.superseded
    else state_of_status (rt.lower (or_empty o.agent_status))
