-- ===== src/Registration.antt =====
-- workstream_registration/registration.py: its vocabulary, its records and its result builders.
-- The operations stand in the children; the children of those have what holds of them.
pub mod Stages
pub mod Inspect
pub mod Projecting
pub mod Drafting
pub mod Register
pub mod Resolve
pub mod Outcomes
pub mod Claims
use arjim.Base.{ℕ, String, Option, none, some, Bool, true, false, List, [], ◌∷◌}
use arjim.Json.{Json}
use arjim.Errors.{Exn, Result, ok, err}
use arjim.Vocabulary.{Phase, Code}
use arjim.Diagnostics.{Diagnostic, Diagnostics, single, empty}
use arjim.Validation.{Validity}
use arjim.Lifecycle.{Outcome, Link, State, MarkerState, ParentState, Transition, ProjectionStatus}
use arjim.Effects.{FilePath, Log}
use arjim.Filesystem.{TargetHandle}

abbrev pub protocol_version : String
protocol_version = "workstream-registration/v1"

pub record Effects : Type 0 where
  pub marker_written : Bool
  pub marker_deleted : Bool
  pub read_back_verified : Bool
  pub absence_verified : Bool
  pub linked : Bool
  pub projection : Link

abbrev pub effects : Bool → Bool → Bool → Bool → Bool → Link → Effects
effects w d r a l p = record {
  marker_written = w;
  marker_deleted = d;
  read_back_verified = r;
  absence_verified = a;
  linked = l;
  projection = p;
}

abbrev pub no_effects : Effects
no_effects = effects false false false false false Link.none

pub record RegistrationResult : Type 0 where
  pub outcome : Outcome
  pub validity : Validity
  pub effects : Effects
  pub identity : Option String
  pub diagnostics : Diagnostics

pub record Inspection : Type 0 where
  pub state : State
  pub handle : Option TargetHandle
  pub parent_state : ParentState
  pub marker_state : MarkerState
  pub workspace_path : Option FilePath
  pub marker_identity : Option String
  pub marker_bytes : Option (List ℕ)
  pub marker : Option Json
  pub validity : Validity
  pub diagnostics : Diagnostics

-- `ref` is the identity of the object, which `is` compares.
pub record Draft : Type 0 where
  pub ref : ℕ
  pub workspace_path : FilePath
  pub handle : TargetHandle
  pub marker : Json
  pub parent_transition : Transition
  pub envelope : List ℕ
  pub digest : String

pub record ResolutionEnvelope : Type 0 where
  pub workspace_path : FilePath
  pub handle : TargetHandle
  pub marker_identity : Option String
  pub marker_length : ℕ
  pub marker_digest : List ℕ
  pub lock_status : String
  pub envelope : List ℕ
  pub digest : String

-- The flag `consumed` is in the state of the run.
pub record Confirmation : Type 0 where
  pub digest : String
  pub draft : Option Draft
  pub resolution : Option ResolutionEnvelope

pub record ProjectionInput : Type 0 where
  pub identity : String
  pub label : String
  pub marker_version : String
  pub target_handle : List ℕ
  pub workspace_path : FilePath
  pub ordinal : ℕ

-- `_projection_hook`, with `none` where it is unset. The hook answers after any history; the
-- inner `none` means that it raises.
abbrev pub Hook : Type 0
Hook = Option (Log → ProjectionInput → Option ProjectionStatus)

abbrev pub result : Outcome → Validity → Effects → Option String → Diagnostics → RegistrationResult
result o v e i d = record { outcome = o; validity = v; effects = e; identity = i; diagnostics = d }

abbrev pub no_effect_result : Outcome → Validity → RegistrationResult
no_effect_result o v = result o v no_effects none empty

unfoldable pub cancelled : Code → RegistrationResult
cancelled c =
    result Outcome.cancelled Validity.not_applicable no_effects none (single Phase.operation c)

unfoldable pub stopped : Code → RegistrationResult
stopped c =
    result Outcome.stopped Validity.not_applicable no_effects none (single Phase.operation c)

unfoldable pub written_unverified : Code → RegistrationResult
written_unverified c =
    result Outcome.written_unverified Validity.not_applicable
      (effects true false false false false Link.none) none (single Phase.read_back c)

unfoldable pub occupied_invalid : Diagnostics → RegistrationResult
occupied_invalid d = result Outcome.occupied_invalid Validity.invalid no_effects none d

unfoldable pub invalid_marker_resolved : RegistrationResult
invalid_marker_resolved =
    result Outcome.invalid_marker_resolved Validity.not_applicable
      (effects false true false true false Link.none) none empty

-- `diagnostics.items[0].code if diagnostics.count else default`, where the items may be fewer
-- than the count says only in a value that the source does not build.
unfoldable pub first_code_or : Diagnostics → Code → Code
first_code_or d default = elim d.items [ [] ↦ default | x ∷ xs ↦ x.code ]
