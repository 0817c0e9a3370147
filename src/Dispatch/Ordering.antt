-- ===== src/Dispatch/Ordering.antt =====
-- workstream_dispatch/dispatch.py: the record is written, then the agent is spawned, then the job
-- is bound.
pub mod Started
pub mod Spawning
pub mod RecordFirst
use arjim.Base.{
  ℕ, String, Option, none, some, ◌⊎◌, inl, inr, Bool, true, false, not, ◌&&◌, ◌||◌, List, [], ◌∷◌,
  ◌<>◌, if◌then◌else◌, ◌==◌, ◌!=◌, nat_eq, string_eq, ltb, str_length,
}
use arjim.Json.{Json, null, bool, int, str, arr, obj, Fields, field, end, get, truthy, is_dict}
use arjim.Errors.{Exn, Result, ok, err}
use arjim.Runtime.{Runtime, Loaded, document, decode_error, other_error}
use arjim.Effects.{FilePath, Os, M, pure, raise, ◌>>=◌, ◌>>◌, attempt, os_read_all, time_now}
use arjim.Filesystem.{marker_path}
use arjim.Dispatch.Store.{Store, bind_job}
use arjim.Dispatch.Adapter.{PaseoAdapter, SpawnResult, unreachable, spawned, spawn, document_of}
use arjim.Dispatch.Intent.{Posture, Draft, confirm, draft_instruction}
use arjim.Dispatch.Records.{WriteStatus, write_job_record}

pub data Outcome : Type 0 where
  dispatched partial_success cancelled stopped invalid_workspace : Outcome

pub record DispatchResult : Type 0 where
  pub outcome : Outcome
  pub job_id : Option String
  pub error_code : Option String

abbrev pub dispatch_result : Outcome → Option String → Option String → DispatchResult
dispatch_result outcome job_id error_code = record {
  outcome = outcome;
  job_id = job_id;
  error_code = error_code;
}

posture_fields : Posture → Json
posture_fields p = obj (
    field "provider" (str p.provider) (
      field "model" (str p.model)
        (field "mode" (str p.mode) (field "thinking" (str p.thinking) end))))

follows_field : Option String → Fields
follows_field none = end
follows_field (some job_id) = if job_id == "" then end else field "follows" (str job_id) end

-- The job record, in the order of its items
unfoldable pub job_record : Draft → String → String → String → Json
unfolding posture_fields follows_field
job_record d identity actor now = obj (
    field "schema_version" (int 1) (
      field "job_id" (str d.job_id) (
        field "workstream_identity" (str identity) (
          field "instruction" (str d.normalized_instruction) (
            field "dispatch_posture" (posture_fields d.dispatch_posture) (
              field "actor" (str actor) (
                field "recorded_at" (str now) (
                  field "confirmation_ref" (str d.digest)
                    (field "created_at" (str now) (follows_field d.follows))))))))))

-- What SQLite stores of an agent id, where `none` is an error of the binding
agent_text : Runtime → Json → Option String
agent_text rt (str s) = some s
agent_text rt (bool true) = some "1"
agent_text rt (arr items) = if truthy (arr items) then none else some ""
agent_text rt (obj fs) = if truthy (obj fs) then none else some ""
agent_text rt v = if truthy v then some (rt.render v) else some ""

module _ (rt : Runtime) (os : Os) where
  valid_text : String → Bool
  valid_text s = s != "" && rt.strip s != "" && not (ltb 256 (str_length s))

  workstream_of : Option Json → Option Json → Option (String × String)
  unfolding valid_text
  workstream_of (some (str identity)) (some (str label)) =
      if valid_text identity && valid_text label then some (identity, label) else none
  workstream_of _ _ = none

  -- `data.get` of a document that is no dict is not caught.
  workstream_from : Option Json → M (Option (String × String))
  unfolding workstream_of
  workstream_from none = pure none
  workstream_from (some d) =
      if is_dict d
      then pure (workstream_of (get "identity" d) (get "label" d))
      else raise Exn.type_error

  pub manifest_of : Option (List ℕ) → Option Json
  manifest_of none = none
  manifest_of (some raw) = elim (rt.decode_utf8 raw) [
    | none ↦ none
    | some text ↦ document_of (rt.loads text)
  ]

  pub resolve_workstream : FilePath → M (Option (String × String))
  unfolding workstream_from manifest_of
  resolve_workstream workspace = do
    raw ← os_read_all os (marker_path workspace)
    workstream_from (manifest_of raw)

-- The error codes of a record that is not written, of the two ways to dispatch
write_code : WriteStatus → String
write_code WriteStatus.written = "written"
write_code WriteStatus.collision = "record-collision"
write_code WriteStatus.write_failed = "record-write-failed"
write_code WriteStatus.written_unverified = "written-unverified"

drafted_code : WriteStatus → String
drafted_code WriteStatus.written = "record-written"
drafted_code WriteStatus.collision = "record-collision"
drafted_code WriteStatus.write_failed = "record-write-failed"
drafted_code WriteStatus.written_unverified = "record-written-unverified"

draft_code : Exn → Option String
draft_code (Exn.draft_error code) = some code
draft_code e = none

module _ (rt : Runtime) (os : Os) (adapter : PaseoAdapter) (store : Store) where
  -- An exception of the store is passed over, and the store is as it was.
  bind_agent : String → String → Option String → M Store
  bind_agent job_id now none = pure store
  bind_agent job_id now (some agent_id) =
      attempt (bind_job os store job_id agent_id now) λ e. pure store

  spawned_result : Draft → String → SpawnResult → M (DispatchResult × Store)
  unfolding bind_agent agent_text
  spawned_result d now (unreachable code) =
      pure (dispatch_result Outcome.partial_success (some d.job_id) (some code), store)
  spawned_result d now (spawned agent_id) = do
    after ← bind_agent d.job_id now (agent_text rt agent_id)
    pure (dispatch_result Outcome.dispatched (some d.job_id) none, after)

  dispatch_after_write : Draft → String → M (DispatchResult × Store)
  unfolding spawned_result
  dispatch_after_write d now = do
    answer ←
        spawn rt os adapter d.normalized_instruction d.workspace_path d.dispatch_posture.provider
          d.dispatch_posture.model d.dispatch_posture.mode d.dispatch_posture.thinking d.job_id
    spawned_result d now answer

  stop_with : Draft → String → M (DispatchResult × Store)
  stop_with d code = pure (dispatch_result Outcome.stopped (some d.job_id) (some code), store)

  after_write : Draft → String → (WriteStatus → String) → WriteStatus → M (DispatchResult × Store)
  unfolding stop_with dispatch_after_write
  after_write d now code_of WriteStatus.written = dispatch_after_write d now
  after_write d now code_of status = stop_with d (code_of status)

  -- The record is written to the workspace, and only a verified record goes on.
  pub write_and_spawn :
      Draft → String → (WriteStatus → String) → FilePath → String → M (DispatchResult × Store)
  unfolding after_write
  write_and_spawn d actor code_of workspace identity = do
    time ← time_now os
    status ←
        write_job_record rt os workspace d.job_id
          (job_record d identity actor (rt.format_timestamp time))
    after_write d (rt.format_timestamp time) code_of status

  resolved_dispatch : Draft → Option (String × String) → M (DispatchResult × Store)
  unfolding write_and_spawn write_code
  resolved_dispatch d none =
      pure (dispatch_result Outcome.invalid_workspace none (some "unregistered-workspace"), store)
  resolved_dispatch d (some (identity, label)) =
      write_and_spawn d "operator-confirmed" write_code d.workspace_path identity

  -- `dispatch`, with the store afterwards
  pub dispatch : Draft → String → M (DispatchResult × Store)
  unfolding resolved_dispatch
  dispatch d confirmation =
      if not (confirm rt d confirmation)
      then pure (dispatch_result Outcome.cancelled none (some "confirmation-mismatch"), store)
      else do resolved ← resolve_workstream rt os d.workspace_path; resolved_dispatch d resolved

  code_or_raise : Exn → Option String → M (Draft ⊎ String)
  code_or_raise e none = raise e
  code_or_raise e (some code) = pure (inr code)

  draft_failed : Exn → M (Draft ⊎ String)
  unfolding draft_code code_or_raise
  draft_failed e = code_or_raise e (draft_code e)

  drafted_dispatch : FilePath → String → Draft ⊎ String → M (DispatchResult × Store)
  unfolding write_and_spawn drafted_code
  drafted_dispatch workspace identity (inr code) =
      pure (dispatch_result Outcome.stopped none (some code), store)
  drafted_dispatch workspace identity (inl d) =
      write_and_spawn d "assistant-drafted" drafted_code workspace identity

  resolved_draft :
      FilePath
      → String
      → Posture
      → Option String
      → Option (String × String)
      → M (DispatchResult × Store)
  unfolding draft_failed drafted_dispatch
  resolved_draft workspace instruction posture follows none =
      pure (dispatch_result Outcome.invalid_workspace none (some "unregistered-workspace"), store)
  resolved_draft workspace instruction posture follows (some (identity, label)) = do
    d ←
        attempt
          (do
            d ← draft_instruction rt os workspace identity label instruction posture follows none
            pure (inl d))
          draft_failed
    drafted_dispatch workspace identity d

  -- `dispatch_without_confirmation`, with the store afterwards
  pub dispatch_without_confirmation :
      FilePath → String → Posture → Option String → M (DispatchResult × Store)
  unfolding resolved_draft
  dispatch_without_confirmation workspace instruction posture follows = do
    resolved ← resolve_workstream rt os workspace
    resolved_draft workspace instruction posture follows resolved
