-- ===== src/Dispatch/Chain/Proposals.antt =====
-- chain.py and activity.py: what is proposed for an observed job.
use arjim.Base.{String, none, Bool, true, not, ◌&&◌, ◌≡◌, ◌↔◌, ◌==◌, string_eq, arith}
use arjim.Runtime.{Runtime}
use arjim.Dispatch.States.{Observed, or_empty, state_of_status, derive_job_state}
use arjim.Dispatch.Chain.{propose_follow_on}

-- The agent of the job is known to be at work.
abbrev pub at_work : Runtime → Observed → Bool
at_work rt o =
    o.paseo_reachable
    && o.agent_resolved
    && not o.has_pending_permissions
    && not o.agent_archived
    && rt.lower (or_empty o.agent_status) == "running"

-- A follow-on is proposed for every observed job but one whose agent is known to be at work: Paseo
-- is reached and lists the agent, which waits for no permission, is not archived and runs.
pub propose_follow_on-at_work :
    (rt : Runtime) (job_id : String) (o : Observed)
    → (propose_follow_on job_id (derive_job_state rt o) ≡ none) ↔ (at_work rt o ≡ true)
unfolding propose_follow_on derive_job_state state_of_status
propose_follow_on-at_work rt job_id o = ground arith
