-- ===== src/Registration/Drafting.antt =====
-- registration.py: the draft of a registration and its confirmation.
pub mod Looks
use arjim.Base.{
  ℕ, String, Option, none, some, true, List, [], ◌∷◌, map, if◌then◌else◌, ◌==◌, string_eq,
}
use arjim.Json.{Json, Fields, int, str, bool, arr, obj, field, end, to_items}
use arjim.Errors.{Exn}
use arjim.Vocabulary.{Phase, Code}
use arjim.Runtime.{Runtime}
use arjim.RawGuard.{RawGuardResult, guard_decoded_text, passed}
use arjim.Diagnostics.{single, from_guard_result}
use arjim.Validation.{validate_marker, is_valid}
use arjim.Lifecycle.{State, Transition}
use arjim.Effects.{FilePath, Os, M, pure, raise, lift, ◌>>=◌, new_ref, fresh_uuid}
use arjim.Filesystem.{TargetHandle, handle_to_dict, parent_absent}
use arjim.Registration.{Draft, Inspection, Confirmation, ResolutionEnvelope, protocol_version}
use arjim.Registration.Inspect.{inspect}

-- One record source: a dict from str to str.
abbrev pub Source : Type 0
Source = List (String × String)

source_fields : Source → Fields
source_fields [] = end
source_fields ((key, value) ∷ rest) = field key (str value) (source_fields rest)

-- The marker document of a draft, in the order of its fields.
unfoldable pub marker_document : String → String → String → List Source → Json
unfolding source_fields
marker_document identity label kind record_sources = obj (
    field "version" (int 1) (
      field "identity" (str identity) (
        field "label" (str label) (
          field "kind" (str kind) (
            field "workspace" (str ".") (
              field "record_sources"
                (arr (to_items (map (λ s. obj (source_fields s)) record_sources))) end))))))

unfoldable pub transition_text : Transition → String
transition_text Transition.absent_to_created = "ABSENT->created"
transition_text Transition.none = "none"

abbrev pub contract : Json
contract = obj (
    field "marker" (int 1)
      (field "conformance" (int 1) (field "protocol" (str protocol_version) end)))

module _ (rt : Runtime) where
  -- `_build_envelope`
  build_envelope : Json → TargetHandle → Transition → List ℕ
  unfolding transition_text
  build_envelope marker handle transition = rt.encode_utf8 (
      rt.dumps (
        obj (
          field "contract" contract (
            field "marker" marker (
              field "target_handle" (handle_to_dict rt handle) (
                field "observed_marker_absence" (bool true)
                  (field "parent_transition" (str (transition_text transition)) end)))))))

  -- `_marker_to_bytes`
  unfoldable pub marker_to_bytes : Json → List ℕ
  marker_to_bytes marker = rt.encode_utf8 (rt.dumps marker)

  make_draft : FilePath → Json → TargetHandle → M Draft
  unfolding build_envelope
  make_draft workspace marker handle = do
    ref ← new_ref
    let transition : Transition =
        if parent_absent handle then Transition.absent_to_created else Transition.none
    let envelope = build_envelope marker handle transition
    pure (record {
      ref = ref;
      workspace_path = workspace;
      handle = handle;
      marker = marker;
      parent_transition = transition;
      envelope = envelope;
      digest = rt.hmac_digest envelope;
    })

  check_draft : FilePath → Json → TargetHandle → RawGuardResult → M Draft
  unfolding make_draft
  check_draft workspace marker handle g =
      if passed g
      then (let r = validate_marker rt marker in
          if is_valid r
          then make_draft workspace marker handle
          else raise (Exn.draft_input_error r.diagnostics))
      else raise (Exn.draft_input_error (from_guard_result g.phase g.code))

module _ (rt : Runtime) (os : Os) where
  draft_ready : FilePath → String → List Source → String → State → Option TargetHandle → M Draft
  unfolding check_draft
  draft_ready workspace label record_sources kind State.draft_ready (some handle) = do
    identity ← fresh_uuid os
    let marker = marker_document identity label kind record_sources
    g ← lift (guard_decoded_text rt (rt.dumps marker))
    check_draft rt workspace marker handle g
  draft_ready workspace label record_sources kind _ _ =
      raise (Exn.draft_input_error (single Phase.operation Code.marker_invalid))

  inspected : FilePath → Option Inspection → M Inspection
  inspected workspace none = inspect rt os workspace
  inspected workspace (some i) = pure i

  pub draft : FilePath → String → List Source → String → Option Inspection → M Draft
  unfolding draft_ready inspected
  draft workspace label record_sources kind inspection = do
    i ← inspected workspace inspection
    draft_ready workspace label record_sources kind i.state i.handle

-- The confirmations of a draft and of a resolution: `none` unless the digest is that of the
-- envelope. A new confirmation is not consumed.
unfoldable pub confirm : Draft → String → Option Confirmation
confirm d digest =
    if digest == d.digest
    then some (record { digest = digest; draft = some d; resolution = none })
    else none

unfoldable pub confirm_resolution : ResolutionEnvelope → String → Option Confirmation
confirm_resolution e digest =
    if digest == e.digest
    then some (record { digest = digest; draft = none; resolution = some e })
    else none
