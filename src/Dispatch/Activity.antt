-- ===== src/Dispatch/Activity.antt =====
-- workstream_dispatch/activity.py: the answer to what the agents of the jobs are doing.
use arjim.Base.{
  ℕ, suc, String, Option, none, some, Bool, true, false, not, List, [], ◌∷◌, ◌<>◌, if◌then◌else◌,
  string_eq, length,
}
use arjim.Base.Table.{Table, select, upsert}
use arjim.Json.{Json, str, obj, end, get, truthy, is_dict}
use arjim.Errors.{Exn}
use arjim.Runtime.{Runtime, to_str}
use arjim.Effects.{FilePath, Os, M, pure, raise, ◌>>=◌, attempt, os_read_all, time_now}
use arjim.Filesystem.{marker_path}
use arjim.Dispatch.Store.{Store, get_binding}
use arjim.Dispatch.Adapter.{PaseoAdapter, AgentInfo, AgentDetail, list_agents, inspect_agent}
use arjim.Dispatch.Records.{ReadResult, read_all_records, has_text}
use arjim.Dispatch.Notes.{
  NoteResult, path_refused, absent, unreadable, schema_invalid, mismatched, guard_failed, present,
  read_outcome_note,
}
use arjim.Dispatch.Ordering.{manifest_of}
use arjim.Dispatch.States.{JobState, Observed, derive_job_state}
use arjim.Dispatch.Baselines.{ChangeSignal, compute_change_signal}

pub record NoteInfo : Type 0 where
  pub status : String
  pub summary : Option Json
  pub reported_at : Option Json

pub record JobAnswer : Type 0 where
  pub job_id : String
  pub workstream_identity : Json
  pub instruction : Json
  pub job_state : JobState
  pub note : NoteInfo
  pub unattributable : Bool

pub record WorkspaceAnswer : Type 0 where
  pub workspace_path : FilePath
  pub workstream_label : String
  pub jobs : List JobAnswer
  pub change_signal : ChangeSignal

pub record ActivityAnswer : Type 0 where
  pub observation_time : String
  pub total_workspaces : ℕ
  pub readable_workspaces : ℕ
  pub unreachable_paseo : Bool
  pub note_statuses : Table String ℕ
  pub workspaces : List WorkspaceAnswer

-- What the loops over the workspaces and the records change
pub record Scan : Type 0 where
  pub inspected : Table String AgentDetail
  pub notes : Table String ℕ
  pub store : Store

abbrev item_or : String → String → Json → Json
item_or key default d = elim (get key d) [ none ↦ str default | some v ↦ v ]

status_text : NoteResult → String
status_text path_refused = "path-refused"
status_text absent = "absent"
status_text unreadable = "unreadable"
status_text schema_invalid = "schema-invalid"
status_text mismatched = "mismatched"
status_text guard_failed = "guard-failed"
status_text (present d) = "present"

note_info : NoteResult → NoteInfo
unfolding status_text
note_info (present d) =
    if truthy d
    then record { status = "present"; summary = get "summary" d; reported_at = get "reported_at" d }
    else record { status = "present"; summary = none; reported_at = none }
note_info r = record { status = status_text r; summary = none; reported_at = none }

count : String → Table String ℕ → Table String ℕ
count status notes = upsert status (elim (select status notes) [ none ↦ 1 | some n ↦ suc n ]) notes

agents_by_label : List AgentInfo → Table String AgentInfo → Table String AgentInfo
agents_by_label [] table = table
agents_by_label (a ∷ agents) table =
    agents_by_label agents (upsert ("arjim.job=" <> a.job_id) a table)

abbrev is_some {ℓ} : {A : Type ℓ} → Option A → Bool
is_some none = false
is_some (some a) = true

observed : Bool → Bool → Option AgentInfo → Option AgentDetail → Observed
observed reachable binding none detail = record {
  binding_exists = binding;
  agent_resolved = false;
  agent_status = none;
  agent_archived = false;
  has_pending_permissions = false;
  paseo_reachable = reachable;
}
observed reachable binding (some agent) detail = record {
  binding_exists = binding;
  agent_resolved = true;
  agent_status = some agent.status;
  agent_archived = elim detail [ none ↦ false | some d ↦ d.archived ];
  has_pending_permissions = elim detail [ none ↦ false | some d ↦ d.has_pending_permissions ];
  paseo_reachable = reachable;
}

module _ (rt : Runtime) (os : Os) where
  -- `_read_manifest`, where `get` of a document that is no dict is not caught
  manifest_dict : Option Json → M Json
  manifest_dict none = pure (obj end)
  manifest_dict (some d) = if is_dict d then pure d else raise Exn.type_error

  read_manifest : FilePath → M Json
  unfolding manifest_dict
  read_manifest workspace = do
    raw ← os_read_all os (marker_path workspace)
    manifest_dict (manifest_of rt os raw)

  module _ (adapter : PaseoAdapter) (reachable : Bool) (agents : Table String AgentInfo) where
    abbrev with_detail :
        String
        → Option AgentDetail
        → Table String AgentDetail
        → Option AgentDetail × Table String AgentDetail
    with_detail agent_id none inspected = (none, inspected)
    with_detail agent_id (some d) inspected = (some d, upsert agent_id d inspected)

    inspect_once :
        String
        → Table String AgentDetail
        → Option AgentDetail
        → M (Option AgentDetail × Table String AgentDetail)
    inspect_once agent_id inspected (some d) = pure (some d, inspected)
    inspect_once agent_id inspected none = if not reachable then pure (none, inspected) else do
      d ← attempt (inspect_agent rt os adapter agent_id) λ e. pure none
      pure (with_detail agent_id d inspected)

    inspect_known :
        Option AgentInfo
        → Table String AgentDetail
        → M (Option AgentDetail × Table String AgentDetail)
    unfolding inspect_once
    inspect_known none inspected = pure (none, inspected)
    inspect_known (some agent) inspected =
        inspect_once agent.agent_id inspected (select agent.agent_id inspected)

    answer_job : FilePath → String → ReadResult → Scan → M (JobAnswer × Scan)
    unfolding inspect_known observed note_info count
    answer_job workspace current_identity rr scan = do
      let agent = select ("arjim.job=" <> rr.job_id) agents
      binding ← get_binding os scan.store rr.job_id
      inspection ← inspect_known agent scan.inspected
      note ← read_outcome_note rt os workspace rr.job_id
      pure (
        record {
          job_id = rr.job_id;
          workstream_identity = item_or "workstream_identity" "" rr.document;
          instruction = item_or "instruction" "" rr.document;
          job_state = derive_job_state rt (observed reachable (is_some binding) agent inspection.0);
          note = note_info note;
          unattributable =
              not (has_text current_identity (some (item_or "workstream_identity" "" rr.document)));
        },
        record scan { inspected = inspection.1; notes = count (note_info note).status scan.notes },
      )

    answer_jobs : FilePath → String → List ReadResult → Scan → M (List JobAnswer × Scan)
    unfolding answer_job
    answer_jobs workspace current_identity [] scan = pure ([], scan)
    answer_jobs workspace current_identity (rr ∷ records) scan = do
      first ← answer_job workspace current_identity rr scan
      rest ← answer_jobs workspace current_identity records first.1
      pure (first.0 ∷ rest.0, rest.1)

    answer_workspace : (FilePath → String) → FilePath → Scan → M (WorkspaceAnswer × Scan)
    unfolding answer_jobs read_manifest
    answer_workspace text workspace scan = do
      manifest ← read_manifest workspace
      records ← read_all_records rt os workspace
      jobs ← answer_jobs workspace (to_str rt (item_or "identity" "" manifest)) records scan
      signal ← compute_change_signal rt os text workspace jobs.1.store
      pure (
        record {
          workspace_path = workspace;
          workstream_label = to_str rt (item_or "label" "" manifest);
          jobs = jobs.0;
          change_signal = signal.0;
        },
        record jobs.1 { store = signal.1 },
      )

    answer_workspaces : (FilePath → String) → List FilePath → Scan → M (List WorkspaceAnswer × Scan)
    unfolding answer_workspace
    answer_workspaces text [] scan = pure ([], scan)
    answer_workspaces text (workspace ∷ rest) scan = do
      first ← answer_workspace text workspace scan
      others ← answer_workspaces text rest first.1
      pure (first.0 ∷ others.0, others.1)

  -- The agents by their labels, where `none` is a Paseo that cannot be reached
  list_labelled : PaseoAdapter → M (Option (Table String AgentInfo))
  unfolding agents_by_label
  list_labelled adapter =
      if adapter.init_error
      then pure none
      else attempt (do agents ← list_agents rt os adapter; pure (some (agents_by_label agents [])))
          λ e. pure none

  abbrev agents_or_none : Option (Table String AgentInfo) → Table String AgentInfo
  agents_or_none none = []
  agents_or_none (some agents) = agents

  -- `answer_activity`, with the store afterwards; `text` is `str` of a path.
  pub answer_activity :
      (FilePath → String) → List FilePath → PaseoAdapter → Store → M (ActivityAnswer × Store)
  unfolding list_labelled answer_workspaces
  answer_activity text scan_list adapter store = do
    now ← time_now os
    agents ← list_labelled adapter
    answers ←
        answer_workspaces adapter (is_some agents) (agents_or_none agents) text scan_list
          (record { inspected = []; notes = []; store = store })
    pure (
      record {
        observation_time = rt.format_timestamp now;
        total_workspaces = length scan_list;
        readable_workspaces = length scan_list;
        unreachable_paseo = not (is_some agents);
        note_statuses = answers.1.notes;
        workspaces = answers.0;
      },
      answers.1.store,
    )
