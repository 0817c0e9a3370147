-- ===== src/Registration/Register.antt =====
-- registration.py: the registration itself, from the checks of the confirmation to the read-back.
pub mod Looks
pub mod Spending
pub mod Outcomes
pub mod Claims
pub mod Safety
use arjim.Base.{
  ℕ, String, Option, none, some, ◌⊎◌, inl, inr, Bool, true, false, not, ◌&&◌, List, if◌then◌else◌,
  ◌==◌, ◌!=◌, nat_eq, string_eq, list_eq, option_eq,
}
use arjim.Json.{Json, get}
use arjim.Errors.{Exn, Result, ok, err}
use arjim.Vocabulary.{Phase, Code}
use arjim.Runtime.{Runtime}
use arjim.Diagnostics.{Diagnostics, single, from_guard_result}
use arjim.Validation.{ValidationResult}
use arjim.Lifecycle.{State}
use arjim.Effects.{
  FilePath, Os, M, pure, raise, lift, ◌>>=◌, ◌>>◌, attempt, consume, get_consumed, issue, os_exists,
}
use arjim.Filesystem.{TargetHandle, handle_eq, parent_absent, parent_path}
use arjim.Filesystem.Lock.{with_lock}
use arjim.Filesystem.Marker.{read_marker, write_marker_create_only}
use arjim.Registration.{
  Hook, Draft, Confirmation, Inspection, RegistrationResult, cancelled, stopped, written_unverified,
  occupied_invalid, first_code_or,
}
use arjim.Registration.Stages.{
  Stage, guard_failed, undecodable, not_dict, schema_rejected, accepted, read_stage,
}
use arjim.Registration.Inspect.{inspect, marker_present, item_text}
use arjim.Registration.Projecting.{project, project_marker, capture_or_stop, inspection_result}
use arjim.Registration.Drafting.{marker_to_bytes, draft, confirm, Source}

abbrev code_or : Option Code → Code → Code
code_or none default = default
code_or (some c) default = c

-- `parsed.get("identity") != draft.identity`
abbrev same_text : Option Json → String → Bool
same_text (some (Json.str s)) identity = s == identity
same_text _ identity = false

-- `confirmation.draft is not draft or draft.workspace_path != workspace_path`
abbrev bound_to : Option Draft → Draft → FilePath → Bool
bound_to none d workspace = false
bound_to (some own) d workspace = own.ref == d.ref && d.workspace_path == workspace

abbrev read_back_or {ℓ} : {A : Type ℓ} → RegistrationResult → Exn → M (A ⊎ RegistrationResult)
read_back_or r Exn.read_back_failed = pure (inr r)
read_back_or r e = raise e

module _ (rt : Runtime) (os : Os) (hook : Hook) where
  collision_stage : FilePath → TargetHandle → ℕ → Stage → M RegistrationResult
  collision_stage workspace handle ordinal (guard_failed g) =
      pure (occupied_invalid (from_guard_result g.phase g.code))
  collision_stage workspace handle ordinal undecodable =
      pure (occupied_invalid (single Phase.schema Code.schema_invalid))
  collision_stage workspace handle ordinal (not_dict d) =
      pure (occupied_invalid (single Phase.schema Code.schema_invalid))
  collision_stage workspace handle ordinal (schema_rejected d r) =
      pure (occupied_invalid r.diagnostics)
  collision_stage workspace handle ordinal (accepted d) =
      project_marker rt hook handle d workspace ordinal

  collision_read : FilePath → TargetHandle → ℕ → List ℕ ⊎ RegistrationResult → M RegistrationResult
  unfolding collision_stage
  collision_read workspace handle ordinal (inr r) = pure r
  collision_read workspace handle ordinal (inl raw) = do
    stage ← lift (read_stage rt raw)
    collision_stage workspace handle ordinal stage

  -- `_collision_result`
  pub collision_result : FilePath → TargetHandle → ℕ → M RegistrationResult
  unfolding collision_read
  collision_result workspace handle ordinal = do
    r ←
        attempt (do raw ← read_marker os workspace; pure (inl raw))
          (read_back_or (occupied_invalid (single Phase.read_back Code.read_back_failed)))
    collision_read workspace handle ordinal r

  -- The last step of `_readback_and_project`, from the captured handle.
  project_written :
      FilePath → Draft → TargetHandle → ℕ → TargetHandle ⊎ RegistrationResult → M RegistrationResult
  project_written workspace d expected ordinal (inr r) =
      pure (written_unverified Code.read_back_target_mismatch)
  project_written workspace d expected ordinal (inl handle) =
      if handle != expected then pure (written_unverified Code.read_back_target_mismatch) else do
        identity ← lift (item_text rt "identity" d.marker)
        label ← lift (item_text rt "label" d.marker)
        version ← lift (item_text rt "version" d.marker)
        project rt hook expected identity label version workspace ordinal true false

  readback_stage : FilePath → Draft → TargetHandle → ℕ → Stage → M RegistrationResult
  unfolding project_written get
  readback_stage workspace d expected ordinal (guard_failed g) =
      pure (
        written_unverified (first_code_or (from_guard_result g.phase g.code) Code.read_back_failed))
  readback_stage workspace d expected ordinal undecodable =
      pure (written_unverified Code.read_back_failed)
  readback_stage workspace d expected ordinal (not_dict _) =
      pure (written_unverified Code.read_back_failed)
  readback_stage workspace d expected ordinal (schema_rejected _ r) =
      pure (written_unverified (code_or r.code Code.read_back_failed))
  readback_stage workspace d expected ordinal (accepted parsed) = do
    identity ← lift (item_text rt "identity" d.marker)
    if same_text (get "identity" parsed) identity
        then (do
          handle ← capture_or_stop rt os workspace
          project_written workspace d expected ordinal handle)
        else pure (written_unverified Code.identity_mismatch)

  readback_read :
      FilePath → Draft → TargetHandle → ℕ → List ℕ ⊎ RegistrationResult → M RegistrationResult
  unfolding readback_stage
  readback_read workspace d expected ordinal (inr r) = pure r
  readback_read workspace d expected ordinal (inl raw) = do
    stage ← lift (read_stage rt raw)
    readback_stage workspace d expected ordinal stage

  pub readback_and_project : FilePath → Draft → TargetHandle → ℕ → M RegistrationResult
  unfolding readback_read
  readback_and_project workspace d expected ordinal = do
    r ←
        attempt (do raw ← read_marker os workspace; pure (inl raw))
          (read_back_or (written_unverified Code.read_back_failed))
    readback_read workspace d expected ordinal r

  -- The create-only write, and what follows it; other exceptions of the write go on.
  abbrev write_refused : FilePath → TargetHandle → ℕ → Exn → M (Unit {0} ⊎ RegistrationResult)
  write_refused workspace current ordinal Exn.create_collision = do
    r ← collision_result workspace current ordinal
    pure (inr r)
  write_refused workspace current ordinal Exn.write_failed = pure (inr (stopped Code.write_failed))
  write_refused workspace current ordinal e = raise e

  after_write :
      FilePath → Draft → TargetHandle → ℕ → Unit {0} ⊎ RegistrationResult → M RegistrationResult
  unfolding readback_and_project
  after_write workspace d expected ordinal (inr r) = pure r
  after_write workspace d expected ordinal (inl u) =
      readback_and_project workspace d expected ordinal

  write_marker : FilePath → Draft → List ℕ → TargetHandle → TargetHandle → ℕ → M RegistrationResult
  unfolding after_write collision_result
  write_marker workspace d marker_bytes current expected ordinal = do
    r ←
        attempt (do write_marker_create_only os workspace marker_bytes; pure (inl tt))
          (write_refused workspace current ordinal)
    after_write workspace d expected ordinal r

  -- Under the lock, where the parent was absent: the handle that the lock has created.
  created_parent :
      FilePath
      → Draft
      → List ℕ
      → TargetHandle
      → ℕ
      → TargetHandle ⊎ RegistrationResult
      → M RegistrationResult
  unfolding write_marker
  created_parent workspace d marker_bytes current ordinal (inr r) = pure r
  created_parent workspace d marker_bytes current ordinal (inl created) =
      if parent_absent created
      then pure (cancelled Code.confirmation_expired)
      else if created.workspace != d.handle.workspace
      then pure (cancelled Code.confirmation_expired)
      else write_marker workspace d marker_bytes current created ordinal

  locked : FilePath → Draft → List ℕ → TargetHandle → ℕ → M RegistrationResult
  unfolding created_parent
  locked workspace d marker_bytes current ordinal =
      if parent_absent d.handle
      then (do
        created ← capture_or_stop rt os workspace
        created_parent workspace d marker_bytes current ordinal created)
      else write_marker workspace d marker_bytes current current ordinal

  abbrev lock_refused : Exn → M RegistrationResult
  lock_refused Exn.lock_unavailable = pure (stopped Code.lock_unavailable)
  lock_refused e = raise e

  -- The confirmation is consumed, and then the lock is asked for.
  consume_and_lock : FilePath → Draft → TargetHandle → ℕ → ℕ → M RegistrationResult
  unfolding locked
  consume_and_lock workspace d current ordinal timeout = do
    consume
    attempt
        (with_lock rt os workspace current timeout
          (locked workspace d (marker_to_bytes rt d.marker) current ordinal))
        lock_refused

  parent_kept :
      FilePath
      → Draft
      → TargetHandle
      → ℕ
      → ℕ
      → TargetHandle ⊎ RegistrationResult
      → M RegistrationResult
  unfolding consume_and_lock
  parent_kept workspace d current ordinal timeout (inr r) = pure r
  parent_kept workspace d current ordinal timeout (inl h) =
      if h.parent != d.handle.parent
      then pure (cancelled Code.confirmation_expired)
      else consume_and_lock workspace d current ordinal timeout

  -- The expected transition of the parent directory.
  check_parent : FilePath → Draft → TargetHandle → ℕ → ℕ → Bool → M RegistrationResult
  unfolding parent_kept
  check_parent workspace d current ordinal timeout parent_exists =
      if parent_absent d.handle
      then (if parent_exists
          then pure (cancelled Code.confirmation_expired)
          else consume_and_lock workspace d current ordinal timeout)
      else if not parent_exists
      then pure (cancelled Code.confirmation_expired)
      else do h ← capture_or_stop rt os workspace; parent_kept workspace d current ordinal timeout h

  revalidate : FilePath → Draft → ℕ → ℕ → TargetHandle ⊎ RegistrationResult → M RegistrationResult
  unfolding check_parent
  revalidate workspace d ordinal timeout (inr r) = pure r
  revalidate workspace d ordinal timeout (inl current) =
      if current.workspace != d.handle.workspace
      then pure (cancelled Code.confirmation_expired)
      else do
        observed ← marker_present rt os workspace
        if observed then pure (cancelled Code.confirmation_expired) else do
          parent_exists ← os_exists os (parent_path workspace)
          check_parent workspace d current ordinal timeout parent_exists

  pub register : FilePath → Draft → Option Confirmation → ℕ → ℕ → M RegistrationResult
  unfolding revalidate
  register workspace d none ordinal timeout = pure (cancelled Code.confirmation_rejected)
  register workspace d (some confirmation) ordinal timeout = do
    consumed ← get_consumed
    if consumed
        then pure (cancelled Code.confirmation_expired)
        else if not (bound_to confirmation.draft d workspace)
        then pure (cancelled Code.confirmation_expired)
        else do
          current ← capture_or_stop rt os workspace
          revalidate workspace d ordinal timeout current
