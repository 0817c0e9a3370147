-- ===== src/Unregister.antt =====
-- workstream_registration/unregister.py: the confirmed conditional deletion of a marker.
pub mod Claims
use arjim.Base.{
  ℕ, zero, suc, String, Option, none, some, ◌⊎◌, inl, inr, Bool, true, false, ◌&&◌, List,
  if◌then◌else◌, ◌==◌, ◌!=◌, nat_eq, string_eq, list_eq, option_eq,
}
use arjim.Json.{Json, bool, str, obj, field, end, get, is_dict}
use arjim.Errors.{Exn, Result, ok, err}
use arjim.Vocabulary.{Phase, Code}
use arjim.Runtime.{Runtime, Loaded, document, decode_error, other_error}
use arjim.Diagnostics.{single, empty}
use arjim.Validation.{Validity}
use arjim.Lifecycle.{Outcome, Link, State}
use arjim.Effects.{
  FilePath, Os, M, pure, raise, lift, call, removed_projection, ◌>>=◌, ◌>>◌, attempt, consume,
  get_consumed, sleep,
}
use arjim.Filesystem.{TargetHandle, handle_eq, handle_to_dict, capture_target_handle}
use arjim.Filesystem.Lock.{with_lock}
use arjim.Filesystem.Marker.{read_marker, conditional_delete_marker, verify_marker_absent}
use arjim.Registration.{
  Inspection, RegistrationResult, result, effects, no_effects, cancelled, stopped, first_code_or,
}
use arjim.Registration.Inspect.{inspect, item_text}
use arjim.Registration.Drafting.{contract}

pub record UnregisterEnvelope : Type 0 where
  pub workspace_path : FilePath
  pub handle : TargetHandle
  pub marker : Json
  pub marker_bytes : List ℕ
  pub envelope : List ℕ
  pub digest : String

-- The flag `consumed` is in the state of the run.
pub record UnregisterConfirmation : Type 0 where
  pub digest : String
  pub envelope : UnregisterEnvelope

unregistered : RegistrationResult
unregistered =
    result Outcome.unregistered Validity.not_applicable
      (effects false true false true false Link.none) none empty

unfoldable pub changed_marker_stopped : Code → RegistrationResult
changed_marker_stopped c =
    result Outcome.changed_marker_stopped Validity.not_applicable no_effects none
      (single Phase.operation c)

occupied_inspection : Inspection → RegistrationResult
occupied_inspection i = result Outcome.occupied_invalid i.validity no_effects none i.diagnostics

-- `confirm_unregister`
unfoldable pub confirm_unregister : UnregisterEnvelope → String → Option UnregisterConfirmation
confirm_unregister e digest =
    if digest == e.digest then some (record { digest = digest; envelope = e }) else none

-- `observed_doc.get("identity") == expected_doc.get("identity")`. The expected document is one that
-- was validated, so its identity is a text, and no other value is equal to it.
abbrev same_identity : Option Json → Option Json → Bool
same_identity (some (str a)) (some (str b)) = a == b
same_identity none none = true
same_identity _ _ = false

compare_documents : Loaded → Loaded → Result Code
unfolding get
compare_documents (document observed) (document expected) =
    if is_dict observed && is_dict expected
    then (if same_identity (get "identity" observed) (get "identity" expected)
        then ok Code.marker_changed
        else ok Code.identity_mismatch)
    else ok Code.marker_changed
compare_documents decode_error expected = ok Code.marker_changed
compare_documents other_error expected = err Exn.value_error
compare_documents (document observed) decode_error = ok Code.marker_changed
compare_documents (document observed) other_error = err Exn.value_error

module _ (rt : Runtime) where
  compare_decoded : Option (List ℕ) → Option (List ℕ) → Result Code
  unfolding compare_documents
  compare_decoded (some observed) (some expected) =
      compare_documents (rt.loads observed) (rt.loads expected)
  compare_decoded (some observed) none = elim (rt.loads observed) [
    | other_error ↦ err Exn.value_error
    | _ ↦ ok Code.marker_changed
  ]
  compare_decoded none expected = ok Code.marker_changed

  -- `_mismatch_code`; the observed bytes are decoded and parsed first
  mismatch_code : List ℕ → List ℕ → Result Code
  unfolding compare_decoded
  mismatch_code expected observed =
      compare_decoded (rt.decode_utf8 observed) (rt.decode_utf8 expected)

module _ (rt : Runtime) (os : Os) where
  envelope_of :
      FilePath → State → Option Json → Option TargetHandle → Option (List ℕ) → M UnregisterEnvelope
  envelope_of workspace State.linked_existing (some marker) (some handle) (some raw) =
      let envelope = rt.encode_utf8 (
        rt.dumps_sorted (
          obj (
            field "contract" contract (
              field "envelope_kind" (str "unregister") (
                field "marker" marker (
                  field "target_handle" (handle_to_dict rt handle)
                    (field "observed_marker_presence" (bool true) end))))))) in
      pure (record {
        workspace_path = workspace;
        handle = handle;
        marker = marker;
        marker_bytes = raw;
        envelope = envelope;
        digest = rt.hmac_digest envelope;
      })
  envelope_of workspace _ _ _ _ = raise Exn.unregister_envelope_error

  inspection_or : FilePath → Option Inspection → M Inspection
  inspection_or workspace none = inspect rt os workspace
  inspection_or workspace (some i) = pure i

  pub unregister_envelope : FilePath → Option Inspection → M UnregisterEnvelope
  unfolding envelope_of inspection_or
  unregister_envelope workspace inspection = do
    i ← inspection_or workspace inspection
    envelope_of workspace i.state i.marker i.handle i.marker_bytes

  -- `_capture_handle_or_stop`
  abbrev capture_stop : Exn → M (TargetHandle ⊎ RegistrationResult)
  capture_stop Exn.identity_unavailable =
      pure (inr (changed_marker_stopped Code.identity_api_unavailable))
  capture_stop Exn.target_alias_mismatch =
      pure (inr (changed_marker_stopped Code.target_alias_mismatch))
  capture_stop Exn.redirected_marker_component =
      pure (inr (changed_marker_stopped Code.path_redirected))
  capture_stop e = raise e

  capture_handle_or_stop : FilePath → M (TargetHandle ⊎ RegistrationResult)
  capture_handle_or_stop workspace =
      attempt (do h ← capture_target_handle rt os workspace; pure (inl h)) capture_stop

  changed_from : List ℕ → List ℕ → M RegistrationResult
  unfolding mismatch_code
  changed_from expected observed = do
    c ← lift (mismatch_code rt expected observed)
    pure (changed_marker_stopped c)

  abbrev read_refused : Exn → M (List ℕ ⊎ RegistrationResult)
  read_refused Exn.read_back_failed = pure (inr (changed_marker_stopped Code.read_back_failed))
  read_refused e = raise e

  -- A read of the marker, compared with the bytes of the envelope; then the rest.
  compared : List ℕ → M RegistrationResult → List ℕ ⊎ RegistrationResult → M RegistrationResult
  unfolding changed_from
  compared expected rest (inr r) = pure r
  compared expected rest (inl raw) = if raw != expected then changed_from expected raw else rest

  read_compared : FilePath → List ℕ → M RegistrationResult → M RegistrationResult
  unfolding compared
  read_compared workspace expected rest = do
    r ← attempt (do raw ← read_marker os workspace; pure (inl raw)) read_refused
    compared expected rest r

  -- `_remove_projection` with a projection: its failure is ignored.
  remove_projection : String → M (Unit {0})
  remove_projection identity = call (λ _. tt) (λ _. removed_projection identity)

  -- The attempts to read the absence back.
  verify_absence : ℕ → FilePath → Json → M RegistrationResult
  unfolding remove_projection unregistered
  verify_absence zero workspace marker = pure (changed_marker_stopped Code.absence_read_back_failed)
  verify_absence (suc attempts) workspace marker = do
    absent ← verify_marker_absent os workspace
    if absent
        then (do
          identity ← lift (item_text rt "identity" marker)
          remove_projection identity
          pure unregistered)
        else (do sleep os; verify_absence attempts workspace marker)

  abbrev absence_retry_attempts : ℕ
  absence_retry_attempts = 3

  after_conditional : FilePath → Json → Bool → M RegistrationResult
  unfolding verify_absence
  after_conditional workspace marker false = pure (changed_marker_stopped Code.marker_changed)
  after_conditional workspace marker true = verify_absence absence_retry_attempts workspace marker

  delete_and_verify : FilePath → UnregisterEnvelope → M RegistrationResult
  unfolding after_conditional
  delete_and_verify workspace e = do
    deleted ← conditional_delete_marker os workspace e.marker_bytes
    after_conditional workspace e.marker deleted

  locked_captured :
      FilePath → UnregisterEnvelope → TargetHandle ⊎ RegistrationResult → M RegistrationResult
  unfolding read_compared delete_and_verify
  locked_captured workspace e (inr r) = pure r
  locked_captured workspace e (inl handle) =
      if handle != e.handle
      then pure (changed_marker_stopped Code.target_changed)
      else read_compared workspace e.marker_bytes
          (read_compared workspace e.marker_bytes (delete_and_verify workspace e))

  -- Under the lock.
  locked : FilePath → UnregisterEnvelope → M RegistrationResult
  unfolding capture_handle_or_stop locked_captured
  locked workspace e = do
    handle ← capture_handle_or_stop workspace
    locked_captured workspace e handle

  abbrev lock_refused : Exn → M RegistrationResult
  lock_refused Exn.lock_unavailable = pure (changed_marker_stopped Code.lock_unavailable)
  lock_refused e = raise e

  consume_and_lock : FilePath → UnregisterEnvelope → TargetHandle → ℕ → M RegistrationResult
  unfolding locked
  consume_and_lock workspace e current timeout = do
    consume
    attempt (with_lock rt os workspace current timeout (locked workspace e)) lock_refused

  present :
      FilePath
      → UnregisterEnvelope
      → ℕ
      → Option TargetHandle
      → Option (List ℕ)
      → M RegistrationResult
  unfolding consume_and_lock changed_from
  present workspace e timeout (some current) (some raw) =
      if current != e.handle
      then pure (changed_marker_stopped Code.target_changed)
      else if raw != e.marker_bytes
      then changed_from e.marker_bytes raw
      else consume_and_lock workspace e current timeout
  present workspace e timeout _ _ = pure (stopped Code.safe_internal_error)

  inspected : FilePath → UnregisterEnvelope → ℕ → State → Inspection → M RegistrationResult
  unfolding present occupied_inspection
  inspected workspace e timeout State.stopped i =
      pure (stopped (first_code_or i.diagnostics Code.safe_internal_error))
  inspected workspace e timeout State.occupied_invalid i = pure (occupied_inspection i)
  inspected workspace e timeout State.draft_ready i = pure (stopped Code.marker_invalid)
  inspected workspace e timeout State.linked_existing i =
      present workspace e timeout i.handle i.marker_bytes

  pub unregister : FilePath → Option UnregisterConfirmation → ℕ → M RegistrationResult
  unfolding inspected
  unregister workspace none timeout = pure (cancelled Code.confirmation_rejected)
  unregister workspace (some c) timeout = do
    consumed ← get_consumed
    if consumed
        then pure (cancelled Code.confirmation_expired)
        else if c.envelope.workspace_path != workspace
        then pure (cancelled Code.confirmation_expired)
        else do i ← inspect rt os workspace; inspected workspace c.envelope timeout i.state i
