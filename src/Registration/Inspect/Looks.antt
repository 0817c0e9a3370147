-- ===== src/Registration/Inspect/Looks.antt =====
-- registration.py: an inspection changes no file.
use arjim.Base.{Bool, true, false, List, ℕ, ◌⊎◌, inl, inr}
use arjim.Errors.{Exn}
use arjim.Effects.{FilePath, StatReply, found, missing, stat_failed, Os, Run}
use arjim.Effects.Rules.{Keeps}
use arjim.Runtime.{Runtime}
use arjim.Trace.Quiet.{Quiet, keeps, quiet}
use arjim.Filesystem.{TargetHandle}
use arjim.Filesystem.Capture.{capture_target_handle-Keeps}
use arjim.Filesystem.Marker.Looks.{read_marker-Keeps}
use arjim.Lifecycle.{ParentState}
use arjim.Registration.{Inspection}
use arjim.Registration.Stages.{
  Stage, guard_failed, undecodable, not_dict, schema_rejected, accepted,
}
use arjim.Registration.Inspect.{
  marker_present, classify_stage, classify_marker, read_or, after_read, inspect_marker, capture_or,
  after_capture, inspect_from, inspect,
}

module _ {P : Run → Type 0} (q : Quiet P) (rt : Runtime) (os : Os) where
  pub marker_present-Keeps : (w : FilePath) → Keeps P (marker_present rt os w)
  unfolding marker_present
  marker_present-Keeps w = search (keeps, quiet)

  classify_stage-Keeps :
      (w : FilePath) (h : TargetHandle) (p : ParentState) (raw : List ℕ) (s : Stage)
      → Keeps P (classify_stage rt os w h p raw s)
  unfolding classify_stage
  classify_stage-Keeps w h p raw (guard_failed g) = search keeps
  classify_stage-Keeps w h p raw undecodable = search keeps
  classify_stage-Keeps w h p raw (not_dict d) = search keeps
  classify_stage-Keeps w h p raw (schema_rejected d r) = search keeps
  classify_stage-Keeps w h p raw (accepted d) = search keeps

  after_read-Keeps :
      (w : FilePath) (h : TargetHandle) (p : ParentState) (r : List ℕ ⊎ Inspection)
      → Keeps P (after_read rt os w h p r)
  unfolding after_read classify_marker
  after_read-Keeps w h p (inl raw) = search (keeps, classify_stage-Keeps)
  after_read-Keeps w h p (inr i) = search keeps

  read_or-Keeps : (i : Inspection) (e : Exn) → Keeps P (read_or rt os i e)
  read_or-Keeps i Exn.read_back_failed = search keeps
  read_or-Keeps i _ = search keeps

  inspect_marker-Keeps :
      (w : FilePath) (h : TargetHandle) (p : ParentState) (b : Bool)
      → Keeps P (inspect_marker rt os w h p b)
  unfolding inspect_marker
  inspect_marker-Keeps w h p false = search keeps
  inspect_marker-Keeps w h p true =
      search (keeps, read_marker-Keeps, read_or-Keeps, after_read-Keeps)

  capture_or-Keeps : (e : Exn) → Keeps P (capture_or rt os e)
  capture_or-Keeps Exn.identity_unavailable = search keeps
  capture_or-Keeps Exn.target_alias_mismatch = search keeps
  capture_or-Keeps Exn.redirected_marker_component = search keeps
  capture_or-Keeps _ = search keeps

  after_capture-Keeps :
      (w : FilePath) (r : TargetHandle ⊎ Inspection) → Keeps P (after_capture rt os w r)
  unfolding after_capture
  after_capture-Keeps w (inl h) = search (keeps, marker_present-Keeps, inspect_marker-Keeps)
  after_capture-Keeps w (inr i) = search keeps

  inspect_from-Keeps : (w : FilePath) (r : StatReply) → Keeps P (inspect_from rt os w r)
  unfolding inspect_from
  inspect_from-Keeps w (found st) =
      search (keeps, capture_target_handle-Keeps, capture_or-Keeps, after_capture-Keeps) depth 7
  inspect_from-Keeps w missing = search keeps
  inspect_from-Keeps w stat_failed = search keeps

  pub inspect-Keeps : (w : FilePath) → Keeps P (inspect rt os w)
  unfolding inspect
  inspect-Keeps w = search (keeps, quiet, inspect_from-Keeps)
