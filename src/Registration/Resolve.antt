-- ===== src/Registration/Resolve.antt =====
-- registration.py: the envelope and the resolution of an invalid marker, and the registration in
-- one call.
pub mod Interactive
use arjim.Base.{
  ℕ, String, Option, none, some, ◌⊎◌, inl, inr, Bool, true, false, not, List, length, if◌then◌else◌,
  ◌==◌, ◌!=◌, nat_eq, string_eq, list_eq,
}
use arjim.Json.{Json, Fields, null, int, str, obj, field, end}
use arjim.Errors.{Exn, Result, ok, err}
use arjim.Vocabulary.{Phase, Code}
use arjim.Runtime.{Runtime}
use arjim.Diagnostics.{Diagnostics, single, empty}
use arjim.Validation.{Validity}
use arjim.Lifecycle.{Outcome, Link, State}
use arjim.Effects.{
  FilePath, Os, M, pure, raise, lift, ◌>>=◌, ◌>>◌, attempt, consume, get_consumed, issue,
}
use arjim.Filesystem.{TargetHandle, handle_eq, handle_to_dict}
use arjim.Filesystem.Metadata.{LockMetadata, is_stale, read_lock_metadata}
use arjim.Filesystem.Lock.{with_lock}
use arjim.Filesystem.Marker.{read_marker, delete_marker, verify_marker_absent}
use arjim.Registration.{
  Hook, Draft, Confirmation, Inspection, ResolutionEnvelope, RegistrationResult, result, effects,
  cancelled, stopped, invalid_marker_resolved, first_code_or,
}
use arjim.Registration.Inspect.{inspect, marker_present}
use arjim.Registration.Projecting.{capture_or_stop, inspection_result}
use arjim.Registration.Drafting.{contract, draft, confirm, Source}
use arjim.Registration.Register.{register}

optional_text : Option String → Json
optional_text none = null
optional_text (some s) = str s

deleted_unverified : RegistrationResult
deleted_unverified =
    result Outcome.invalid_deleted_unverified Validity.not_applicable
      (effects false true false false false Link.none) none
      (single Phase.read_back Code.absence_read_back_failed)

module _ (rt : Runtime) (os : Os) where
  lock_status : Option LockMetadata → M String
  lock_status none = pure "absent"
  lock_status (some m) = do stale ← is_stale rt os m; pure (if stale then "stale" else "held")

  build_resolution : FilePath → TargetHandle → Option String → List ℕ → String → ResolutionEnvelope
  unfolding optional_text
  build_resolution workspace handle identity raw status =
      let envelope = rt.encode_utf8 (
        rt.dumps_sorted (
          obj (
            field "contract" contract (
              field "envelope_kind" (str "resolve-invalid") (
                field "target_handle" (handle_to_dict rt handle) (
                  field "marker_identity" (optional_text identity) (
                    field "marker_length" (int (length raw)) (
                      field "marker_digest_sha256" (str (rt.sha256_hex raw))
                        (field "lock_status" (str status) end))))))))) in
      record {
        workspace_path = workspace;
        handle = handle;
        marker_identity = identity;
        marker_length = length raw;
        marker_digest = rt.sha256 raw;
        lock_status = status;
        envelope = envelope;
        digest = rt.hmac_digest envelope;
      }

  resolution_of :
      FilePath → Option String → TargetHandle ⊎ RegistrationResult → M ResolutionEnvelope
  unfolding build_resolution lock_status
  resolution_of workspace identity (inr r) = raise Exn.resolution_envelope_error
  resolution_of workspace identity (inl handle) = do
    raw ← read_marker os workspace
    lock ← read_lock_metadata rt os workspace
    status ← lock_status lock
    pure (build_resolution workspace handle identity raw status)

  resolution_inspected : FilePath → State → Inspection → M ResolutionEnvelope
  unfolding resolution_of
  resolution_inspected workspace State.occupied_invalid i = do
    handle ← capture_or_stop rt os workspace
    resolution_of workspace i.marker_identity handle
  resolution_inspected workspace _ i = raise Exn.resolution_envelope_error

  inspection_or : FilePath → Option Inspection → M Inspection
  inspection_or workspace none = inspect rt os workspace
  inspection_or workspace (some i) = pure i

  pub resolution_envelope : FilePath → Option Inspection → M ResolutionEnvelope
  unfolding resolution_inspected inspection_or
  resolution_envelope workspace inspection = do
    i ← inspection_or workspace inspection
    resolution_inspected workspace i.state i

  verify_deleted : FilePath → M RegistrationResult
  unfolding deleted_unverified
  verify_deleted workspace = do
    absent ← verify_marker_absent os workspace
    pure (if absent then invalid_marker_resolved else deleted_unverified)

  -- A marker that is gone already is deleted; the other failures stop.
  abbrev delete_refused : Exn → M (Unit {0} ⊎ RegistrationResult)
  delete_refused Exn.file_not_found = pure (inl tt)
  delete_refused Exn.filesystem_error = pure (inr (stopped Code.delete_failed))
  delete_refused e = raise e

  after_delete : FilePath → Unit {0} ⊎ RegistrationResult → M RegistrationResult
  unfolding verify_deleted
  after_delete workspace (inr r) = pure r
  after_delete workspace (inl u) = verify_deleted workspace

  delete_and_verify : FilePath → M RegistrationResult
  unfolding after_delete
  delete_and_verify workspace = do
    r ← attempt (do delete_marker os workspace; pure (inl tt)) delete_refused
    after_delete workspace r

  abbrev lock_refused : Exn → M RegistrationResult
  lock_refused Exn.lock_unavailable = pure (stopped Code.lock_unavailable)
  lock_refused e = raise e

  abbrev read_refused : Exn → M (List ℕ ⊎ RegistrationResult)
  read_refused Exn.read_back_failed = pure (inr (cancelled Code.marker_changed))
  read_refused e = raise e

  compare_and_delete :
      FilePath
      → ResolutionEnvelope
      → TargetHandle
      → ℕ
      → List ℕ ⊎ RegistrationResult
      → M RegistrationResult
  unfolding delete_and_verify
  compare_and_delete workspace e current timeout (inr r) = pure r
  compare_and_delete workspace e current timeout (inl raw) =
      if rt.sha256 raw != e.marker_digest then pure (cancelled Code.marker_changed) else do
        consume
        attempt (with_lock rt os workspace current timeout (delete_and_verify workspace))
            lock_refused

  resolve_present : FilePath → ResolutionEnvelope → TargetHandle → ℕ → Bool → M RegistrationResult
  unfolding compare_and_delete
  resolve_present workspace e current timeout false = pure invalid_marker_resolved
  resolve_present workspace e current timeout true = do
    r ← attempt (do raw ← read_marker os workspace; pure (inl raw)) read_refused
    compare_and_delete workspace e current timeout r

  resolve_captured :
      FilePath → ResolutionEnvelope → ℕ → TargetHandle ⊎ RegistrationResult → M RegistrationResult
  unfolding resolve_present
  resolve_captured workspace e timeout (inr r) = pure r
  resolve_captured workspace e timeout (inl current) =
      if current != e.handle then pure (cancelled Code.target_changed) else do
        observed ← marker_present rt os workspace
        resolve_present workspace e current timeout observed

  -- `confirmation is None or confirmation.resolution is None`
  abbrev resolution_in : Option Confirmation → Option ResolutionEnvelope
  resolution_in none = none
  resolution_in (some c) = c.resolution

  resolve_with : FilePath → Option ResolutionEnvelope → ℕ → M RegistrationResult
  unfolding resolve_captured
  resolve_with workspace none timeout = pure (cancelled Code.confirmation_rejected)
  resolve_with workspace (some e) timeout = do
    consumed ← get_consumed
    if consumed
        then pure (cancelled Code.confirmation_expired)
        else if e.workspace_path != workspace
        then pure (cancelled Code.confirmation_expired)
        else do
          current ← capture_or_stop rt os workspace
          resolve_captured workspace e timeout current

  pub resolve_invalid : FilePath → Option Confirmation → ℕ → M RegistrationResult
  unfolding resolve_with
  resolve_invalid workspace confirmation timeout =
      resolve_with workspace (resolution_in confirmation) timeout

module _ (rt : Runtime) (os : Os) (hook : Hook) where
  abbrev draft_refused : Exn → M (Draft ⊎ RegistrationResult)
  draft_refused (Exn.draft_input_error d) =
      pure (inr (stopped (first_code_or d Code.schema_invalid)))
  draft_refused e = raise e

  abbrev digest_or : Option String → String → String
  digest_or none own = own
  digest_or (some given) own = given

  -- `DEFAULT_LOCK_TIMEOUT`, in the unit of the clocks
  abbrev default_lock_timeout : ℕ
  default_lock_timeout = 2

  interactive_drafted :
      FilePath → Option String → ℕ → Draft ⊎ RegistrationResult → M RegistrationResult
  interactive_drafted workspace confirm_digest ordinal (inr r) = pure r
  interactive_drafted workspace confirm_digest ordinal (inl d) = do
    issue
    register rt os hook workspace d (confirm d (digest_or confirm_digest d.digest)) ordinal
        default_lock_timeout

  interactive_state :
      FilePath
      → String
      → List Source
      → String
      → Option String
      → ℕ
      → State
      → Inspection
      → M RegistrationResult
  unfolding interactive_drafted
  interactive_state workspace label sources kind confirm_digest ordinal State.draft_ready i = do
    d ←
        attempt (do d ← draft rt os workspace label sources kind (some i); pure (inl d))
          draft_refused
    interactive_drafted workspace confirm_digest ordinal d
  interactive_state workspace label sources kind confirm_digest ordinal _ i =
      inspection_result rt hook i

  pub register_interactive :
      FilePath → String → List Source → String → Option String → ℕ → M RegistrationResult
  unfolding interactive_state
  register_interactive workspace label sources kind confirm_digest ordinal = do
    i ← inspect rt os workspace
    interactive_state workspace label sources kind confirm_digest ordinal i.state i
