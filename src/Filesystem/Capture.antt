-- ===== src/Filesystem/Capture.antt =====
-- filesystem.py: the capture of a target handle changes no file.
use arjim.Base.{Option, none, some, Bool, true, false, List, ℕ}
use arjim.Effects.{FilePath, StatReply, found, missing, stat_failed, Os, Run}
use arjim.Effects.Rules.{Keeps}
use arjim.Runtime.{Runtime}
use arjim.Trace.Quiet.{Quiet, keeps, quiet}
use arjim.Filesystem.{
  identity_of, identity_from, capture_identity, resolve_marker, marker_resolves_inside,
  capture_parent, capture_inside, capture_resolved, capture_target_handle,
}

module _ {P : Run → Type 0} (q : Quiet P) (rt : Runtime) (os : Os) where
  identity_of-Keeps : (d i : Option ℕ) → Keeps P (identity_of rt os d i)
  unfolding identity_of
  identity_of-Keeps (some d) (some i) = search keeps
  identity_of-Keeps (some d) none = search keeps
  identity_of-Keeps none i = search keeps

  identity_from-Keeps : (r : StatReply) → Keeps P (identity_from rt os r)
  unfolding identity_from
  identity_from-Keeps (found st) = search identity_of-Keeps
  identity_from-Keeps missing = search keeps
  identity_from-Keeps stat_failed = search keeps

  capture_identity-Keeps : (p : FilePath) → Keeps P (capture_identity rt os p)
  unfolding capture_identity
  capture_identity-Keeps p = search (keeps, quiet, identity_from-Keeps)

  resolve_marker-Keeps : (w : FilePath) (r : Option FilePath) → Keeps P (resolve_marker rt os w r)
  unfolding resolve_marker
  resolve_marker-Keeps w none = search keeps
  resolve_marker-Keeps w (some r) = search (keeps, quiet)

  marker_resolves_inside-Keeps : (w : FilePath) → Keeps P (marker_resolves_inside rt os w)
  unfolding marker_resolves_inside
  marker_resolves_inside-Keeps w = search (keeps, quiet, resolve_marker-Keeps)

  capture_parent-Keeps :
      (w : FilePath) (i : List ℕ) (r : StatReply) → Keeps P (capture_parent rt os w i r)
  unfolding capture_parent
  capture_parent-Keeps w i (found st) = search (keeps, capture_identity-Keeps)
  capture_parent-Keeps w i missing = search keeps
  capture_parent-Keeps w i stat_failed = search keeps

  capture_inside-Keeps :
      (w : FilePath) (i : List ℕ) (b : Bool) → Keeps P (capture_inside rt os w i b)
  unfolding capture_inside
  capture_inside-Keeps w i true = search (keeps, quiet, capture_parent-Keeps)
  capture_inside-Keeps w i false = search keeps

  capture_resolved-Keeps :
      (w : FilePath) (i : List ℕ) (r : Option FilePath) → Keeps P (capture_resolved rt os w i r)
  unfolding capture_resolved
  capture_resolved-Keeps w i none = search keeps
  capture_resolved-Keeps w i (some p) =
      search (keeps, capture_identity-Keeps, marker_resolves_inside-Keeps, capture_inside-Keeps)

  pub capture_target_handle-Keeps : (w : FilePath) → Keeps P (capture_target_handle rt os w)
  unfolding capture_target_handle
  capture_target_handle-Keeps w =
      search (keeps, quiet, capture_identity-Keeps, capture_resolved-Keeps)
