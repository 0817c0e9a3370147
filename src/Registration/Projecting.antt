-- ===== src/Registration/Projecting.antt =====
-- registration.py: the projection hook and its mapping onto the outcomes, the result of an
-- inspection, and the linking of an existing marker.
pub mod Looks
pub mod Outcomes
use arjim.Base.{ℕ, String, Option, none, some, ◌⊎◌, inl, inr, Bool, true, false, if◌then◌else◌}
use arjim.Json.{Json}
use arjim.Errors.{Exn}
use arjim.Vocabulary.{Phase, Code}
use arjim.Runtime.{Runtime}
use arjim.Diagnostics.{single, empty}
use arjim.Validation.{Validity}
use arjim.Lifecycle.{Outcome, Link, State, ProjectionStatus}
use arjim.Effects.{FilePath, Log, Os, M, pure, raise, lift, call, projected, ◌>>=◌, ◌>>◌, attempt}
use arjim.Filesystem.{TargetHandle, handle_to_bytes, capture_target_handle}
use arjim.Registration.{
  Hook, ProjectionInput, Inspection, RegistrationResult, result, effects, no_effect_result, stopped,
  occupied_invalid, first_code_or,
}
use arjim.Registration.Inspect.{inspect, item_text}

-- A completed write whose projection failed, or that has no hook.
registered_unlinked : String → RegistrationResult
registered_unlinked identity =
    result Outcome.registered_unlinked Validity.valid
      (effects true false true false false Link.unlinked) (some identity)
      (single Phase.projection Code.projection_link_failed)

failed_link : String → Bool → RegistrationResult
unfolding registered_unlinked
failed_link identity written =
    if written then registered_unlinked identity else stopped Code.projection_link_failed

linked_result : String → Bool → RegistrationResult
linked_result identity link_mode =
    if link_mode
    then result Outcome.linked_existing Validity.valid
        (effects false false true false true Link.linked) (some identity) empty
    else result Outcome.registered Validity.valid (effects true false true false true Link.linked)
        (some identity) empty

-- The mapping of a status; `none` is a hook that raised.
unfoldable pub from_status : String → Bool → Bool → Option ProjectionStatus → RegistrationResult
unfolding failed_link linked_result
from_status identity written link_mode (some ProjectionStatus.linked) =
    linked_result identity link_mode
from_status identity written link_mode (some ProjectionStatus.conflict) =
    result Outcome.conflict Validity.valid (effects written false true false false Link.conflict)
      (some identity) (single Phase.projection Code.projection_conflict)
from_status identity written link_mode _ = failed_link identity written

-- `_capture_or_stop`: a handle, or the result that stops the operation.
abbrev capture_stop : Exn → M (TargetHandle ⊎ RegistrationResult)
capture_stop Exn.identity_unavailable = pure (inr (stopped Code.identity_api_unavailable))
capture_stop Exn.target_alias_mismatch = pure (inr (stopped Code.target_alias_mismatch))
capture_stop Exn.redirected_marker_component = pure (inr (stopped Code.path_redirected))
capture_stop e = raise e

module _ (rt : Runtime) (os : Os) where
  pub capture_or_stop : FilePath → M (TargetHandle ⊎ RegistrationResult)
  capture_or_stop workspace =
      attempt (do h ← capture_target_handle rt os workspace; pure (inl h)) capture_stop

module _ (rt : Runtime) (hook : Hook) where
  project_with : Hook → ProjectionInput → Bool → Bool → M RegistrationResult
  unfolding from_status failed_link
  project_with none input written link_mode = pure (failed_link input.identity written)
  project_with (some answer) input written link_mode = do
    status ← call (λ log. answer log input) (λ _. projected input.identity)
    pure (from_status input.identity written link_mode status)

  -- `_project`, on the values of the marker
  pub project :
      TargetHandle → String → String → String → FilePath → ℕ → Bool → Bool → M RegistrationResult
  unfolding project_with
  project handle identity label marker_version workspace ordinal written link_mode =
      project_with hook
        (record {
          identity = identity;
          label = label;
          marker_version = marker_version;
          target_handle = handle_to_bytes rt handle;
          workspace_path = workspace;
          ordinal = ordinal;
        })
        written link_mode

  -- `_project` of a marker that was read: no write, in link mode
  pub project_marker : TargetHandle → Json → FilePath → ℕ → M RegistrationResult
  project_marker handle marker workspace ordinal = do
    identity ← lift (item_text rt "identity" marker)
    label ← lift (item_text rt "label" marker)
    version ← lift (item_text rt "version" marker)
    project handle identity label version workspace ordinal false true

  linked_from : Option TargetHandle → Option Json → Option FilePath → ℕ → M RegistrationResult
  linked_from (some h) (some m) (some w) ordinal = project_marker h m w ordinal
  linked_from _ _ _ ordinal = pure (stopped Code.safe_internal_error)

  result_of_state : State → Inspection → M RegistrationResult
  unfolding linked_from
  result_of_state State.stopped i =
      pure (stopped (first_code_or i.diagnostics Code.safe_internal_error))
  result_of_state State.occupied_invalid i = pure (occupied_invalid i.diagnostics)
  result_of_state State.linked_existing i = linked_from i.handle i.marker i.workspace_path 0
  result_of_state State.draft_ready i =
      pure (no_effect_result Outcome.stopped Validity.not_applicable)

  pub inspection_result : Inspection → M RegistrationResult
  unfolding result_of_state
  inspection_result i = result_of_state i.state i

  link_of_state : State → FilePath → Inspection → ℕ → M RegistrationResult
  unfolding linked_from
  link_of_state State.stopped workspace i ordinal =
      pure (stopped (first_code_or i.diagnostics Code.safe_internal_error))
  link_of_state State.occupied_invalid workspace i ordinal = pure (occupied_invalid i.diagnostics)
  link_of_state State.draft_ready workspace i ordinal = pure (stopped Code.marker_invalid)
  link_of_state State.linked_existing workspace i ordinal =
      linked_from i.handle i.marker (some workspace) ordinal

module _ (rt : Runtime) (os : Os) (hook : Hook) where
  pub link : FilePath → ℕ → M RegistrationResult
  unfolding link_of_state
  link workspace ordinal = do
    i ← inspect rt os workspace
    link_of_state rt hook i.state workspace i ordinal
