-- ===== src/Registration/Inspect.antt =====
-- registration.py: the read-only inspection of a workspace.
pub mod Looks
use arjim.Base.{
  ℕ, String, Option, none, some, ◌⊎◌, inl, inr, Bool, true, false, ◌&&◌, ◌||◌, List, [], ◌∷◌, codes,
  leb, if◌then◌else◌, ◌==◌, nat_eq,
}
use arjim.Json.{Json, str, get, is_dict}
use arjim.Errors.{Exn, Result, ok, err}
use arjim.Vocabulary.{Phase, Code}
use arjim.Runtime.{Runtime, to_str}
use arjim.Diagnostics.{Diagnostics, single, empty, from_guard_result}
use arjim.Validation.{Validity}
use arjim.Lifecycle.{Outcome, State, MarkerState, ParentState}
use arjim.Effects.{
  FilePath, Stat, StatReply, found, missing, stat_failed, Os, M, pure, raise, lift, ◌>>=◌, ◌>>◌,
  attempt, os_stat,
}
use arjim.Filesystem.{TargetHandle, parent_absent, marker_path, capture_target_handle}
use arjim.Filesystem.Marker.{read_marker}
use arjim.Registration.{Inspection, RegistrationResult, stopped, occupied_invalid}
use arjim.Registration.Stages.{
  Stage, guard_failed, undecodable, not_dict, schema_rejected, accepted, read_stage,
}

-- `_UUID_RE`: how often each class of characters stands, in turn
abbrev is_hex : ℕ → Bool
is_hex c = (leb b'0' c && leb c b'9') || (leb b'a' c && leb c b'f')

abbrev is_variant : ℕ → Bool
is_variant c = c == b'8' || c == b'9' || c == b'a' || c == b'b'

abbrev uuid_pattern : List (ℕ → Bool)
uuid_pattern =
    is_hex
    ∷ is_hex
    ∷ is_hex
    ∷ is_hex
    ∷ is_hex
    ∷ is_hex
    ∷ is_hex
    ∷ is_hex
    ∷ (λ c. c == b'-')
    ∷ is_hex
    ∷ is_hex
    ∷ is_hex
    ∷ is_hex
    ∷ (λ c. c == b'-')
    ∷ (λ c. c == b'4')
    ∷ is_hex
    ∷ is_hex
    ∷ is_hex
    ∷ (λ c. c == b'-')
    ∷ is_variant
    ∷ is_hex
    ∷ is_hex
    ∷ is_hex
    ∷ (λ c. c == b'-')
    ∷ is_hex
    ∷ is_hex
    ∷ is_hex
    ∷ is_hex
    ∷ is_hex
    ∷ is_hex
    ∷ is_hex
    ∷ is_hex
    ∷ is_hex
    ∷ is_hex
    ∷ is_hex
    ∷ is_hex
    ∷ []

full_match : List (ℕ → Bool) → List ℕ → Bool
full_match [] [] = true
full_match [] (c ∷ cs) = false
full_match (p ∷ ps) [] = false
full_match (p ∷ ps) (c ∷ cs) = p c && full_match ps cs

pub is_uuid : String → Bool
unfolding full_match
is_uuid s = full_match uuid_pattern (codes s)

identity_if_uuid : Option Json → Option String
identity_if_uuid (some (str s)) = if is_uuid s then some s else none
identity_if_uuid _ = none

extract_identity : Json → Option String
unfolding identity_if_uuid get
extract_identity parsed = identity_if_uuid (get "identity" parsed)

inspection_stopped : Code → Inspection
inspection_stopped code = record {
  state = State.stopped;
  handle = none;
  parent_state = ParentState.unknown;
  marker_state = MarkerState.unknown;
  workspace_path = none;
  marker_identity = none;
  marker_bytes = none;
  marker = none;
  validity = Validity.not_applicable;
  diagnostics = single Phase.operation code;
}

-- `document[key]` and `str(…)` of it; a missing key is a KeyError
unfoldable pub item_text : Runtime → String → Json → Result String
unfolding to_str get
item_text rt key document = elim (get key document) [
  | none ↦ err Exn.key_error
  | some v ↦ ok (to_str rt v)
]

module _ (rt : Runtime) (os : Os) where
  present_from : StatReply → Bool
  present_from (found st) = true
  present_from missing = false
  present_from stat_failed = true

  pub marker_present : FilePath → M Bool
  unfolding present_from
  marker_present workspace = do
    reply ← os_stat os (marker_path workspace)
    pure (present_from reply)

  -- `_inspection_for` with the marker that was read, which is occupied and invalid
  occupied :
      FilePath
      → TargetHandle
      → ParentState
      → MarkerState
      → Option String
      → Option (List ℕ)
      → Diagnostics
      → Inspection
  occupied workspace handle parent marker_state identity raw diagnostics = record {
    state = State.occupied_invalid;
    handle = some handle;
    parent_state = parent;
    marker_state = marker_state;
    workspace_path = some workspace;
    marker_identity = identity;
    marker_bytes = raw;
    marker = none;
    validity = Validity.invalid;
    diagnostics = diagnostics;
  }

  invalid_state : Option Code → MarkerState
  invalid_state (some Code.unsupported_version) = MarkerState.unsupported
  invalid_state _ = MarkerState.invalid

  classify_stage : FilePath → TargetHandle → ParentState → List ℕ → Stage → M Inspection
  unfolding occupied invalid_state extract_identity item_text
  classify_stage workspace handle parent raw (guard_failed g) = pure (
      occupied workspace handle parent MarkerState.partial none (some raw)
        (from_guard_result g.phase g.code))
  classify_stage workspace handle parent raw undecodable = pure (
      occupied workspace handle parent MarkerState.partial none (some raw)
        (single Phase.schema Code.schema_invalid))
  classify_stage workspace handle parent raw (not_dict d) = pure (
      occupied workspace handle parent MarkerState.invalid none (some raw)
        (single Phase.schema Code.schema_invalid))
  classify_stage workspace handle parent raw (schema_rejected d r) = pure (
      occupied workspace handle parent (invalid_state r.code) (extract_identity d) (some raw)
        r.diagnostics)
  classify_stage workspace handle parent raw (accepted d) = do
    identity ← lift (item_text rt "identity" d)
    pure (record {
      state = State.linked_existing;
      handle = some handle;
      parent_state = parent;
      marker_state = MarkerState.valid;
      workspace_path = some workspace;
      marker_identity = some identity;
      marker_bytes = some raw;
      marker = some d;
      validity = Validity.valid;
      diagnostics = empty;
    })

  -- `_classify_marker`
  classify_marker : FilePath → TargetHandle → ParentState → List ℕ → M Inspection
  unfolding classify_stage
  classify_marker workspace handle parent raw = do
    stage ← lift (read_stage rt raw)
    classify_stage workspace handle parent raw stage

  unread : FilePath → TargetHandle → ParentState → Inspection
  unfolding occupied
  unread workspace handle parent =
      occupied workspace handle parent MarkerState.invalid none none
        (single Phase.read_back Code.read_back_failed)

  abbrev read_or : Inspection → Exn → M (List ℕ ⊎ Inspection)
  read_or i Exn.read_back_failed = pure (inr i)
  read_or i e = raise e

  after_read : FilePath → TargetHandle → ParentState → List ℕ ⊎ Inspection → M Inspection
  unfolding classify_marker
  after_read workspace handle parent (inl raw) = classify_marker workspace handle parent raw
  after_read workspace handle parent (inr i) = pure i

  inspect_marker : FilePath → TargetHandle → ParentState → Bool → M Inspection
  unfolding unread after_read
  inspect_marker workspace handle parent false = pure (record {
    state = State.draft_ready;
    handle = some handle;
    parent_state = parent;
    marker_state = MarkerState.absent;
    workspace_path = some workspace;
    marker_identity = none;
    marker_bytes = none;
    marker = none;
    validity = Validity.not_applicable;
    diagnostics = empty;
  })
  inspect_marker workspace handle parent true = do
    r ←
        attempt (do raw ← read_marker os workspace; pure (inl raw))
          (read_or (unread workspace handle parent))
    after_read workspace handle parent r

  abbrev capture_or : Exn → M (TargetHandle ⊎ Inspection)
  capture_or Exn.identity_unavailable =
      pure (inr (inspection_stopped Code.identity_api_unavailable))
  capture_or Exn.target_alias_mismatch = pure (inr (inspection_stopped Code.target_alias_mismatch))
  capture_or Exn.redirected_marker_component = pure (inr (inspection_stopped Code.path_redirected))
  capture_or e = raise e

  after_capture : FilePath → TargetHandle ⊎ Inspection → M Inspection
  unfolding inspect_marker
  after_capture workspace (inr i) = pure i
  after_capture workspace (inl handle) = do
    observed ← marker_present workspace
    inspect_marker workspace handle
        (if parent_absent handle then ParentState.absent else ParentState.present) observed

  inspect_from : FilePath → StatReply → M Inspection
  unfolding inspection_stopped after_capture
  inspect_from workspace (found st) =
      if st.is_dir
      then (do
        r ← attempt (do h ← capture_target_handle rt os workspace; pure (inl h)) capture_or
        after_capture workspace r)
      else pure (inspection_stopped Code.workspace_inaccessible)
  inspect_from workspace _ = pure (inspection_stopped Code.workspace_inaccessible)

  pub inspect : FilePath → M Inspection
  unfolding inspect_from
  inspect workspace = do reply ← os_stat os workspace; inspect_from workspace reply
