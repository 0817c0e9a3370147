-- ===== src/Registration/Projecting/Looks.antt =====
-- registration.py: a projection and the linking of a marker change no file.
use arjim.Base.{refl, Option, none, some, Bool, String, ℕ}
use arjim.Errors.{Exn}
use arjim.Json.{Json}
use arjim.Effects.{FilePath, Os, Run, projected}
use arjim.Effects.Rules.{Keeps, Keeps-call, Keeps-bind}
use arjim.Runtime.{Runtime}
use arjim.Trace.Quiet.{Quiet, keeps}
use arjim.Filesystem.{TargetHandle}
use arjim.Filesystem.Capture.{capture_target_handle-Keeps}
use arjim.Lifecycle.{State}
use arjim.Registration.{Inspection, Hook, ProjectionInput}
use arjim.Registration.Inspect.Looks.{inspect-Keeps}
use arjim.Registration.Projecting.{
  capture_stop, capture_or_stop, project_with, project, project_marker, linked_from,
  result_of_state, inspection_result, link_of_state, link,
}

module _ {P : Run → Type 0} (q : Quiet P) (rt : Runtime) where
  capture_stop-Keeps : (e : Exn) → Keeps P (capture_stop e)
  capture_stop-Keeps Exn.identity_unavailable = search keeps
  capture_stop-Keeps Exn.target_alias_mismatch = search keeps
  capture_stop-Keeps Exn.redirected_marker_component = search keeps
  capture_stop-Keeps _ = search keeps

  pub capture_or_stop-Keeps : (os : Os) (w : FilePath) → Keeps P (capture_or_stop rt os w)
  unfolding capture_or_stop
  capture_or_stop-Keeps os w = search (keeps, capture_target_handle-Keeps, capture_stop-Keeps)

  project_with-Keeps :
      (hook k : Hook) (i : ProjectionInput) (written link_mode : Bool)
      → Keeps P (project_with rt hook k i written link_mode)
  unfolding project_with
  project_with-Keeps hook none i written link_mode = search keeps
  project_with-Keeps hook (some answer) i written link_mode =
      Keeps-bind _ _
        (Keeps-call (λ log. answer log i) (λ _. projected i.identity)
          λ s a. q.event (projected i.identity) refl s)
        λ a. search keeps

  module _ (hook : Hook) where
    pub project-Keeps :
        (h : TargetHandle) (i l v : String) (w : FilePath) (n : ℕ) (written link_mode : Bool)
        → Keeps P (project rt hook h i l v w n written link_mode)
    unfolding project
    project-Keeps h i l v w n written link_mode = project_with-Keeps hook hook _ written link_mode

    pub project_marker-Keeps :
        (h : TargetHandle) (m : Json) (w : FilePath) (n : ℕ)
        → Keeps P (project_marker rt hook h m w n)
    unfolding project_marker
    project_marker-Keeps h m w n = search (keeps, project-Keeps) depth 8

    linked_from-Keeps :
        (h : Option TargetHandle) (m : Option Json) (w : Option FilePath) (n : ℕ)
        → Keeps P (linked_from rt hook h m w n)
    unfolding linked_from
    linked_from-Keeps (some h) (some m) (some w) n = project_marker-Keeps h m w n
    linked_from-Keeps (some h) (some m) none n = search keeps
    linked_from-Keeps (some h) none w n = search keeps
    linked_from-Keeps none m w n = search keeps

    result_of_state-Keeps : (s : State) (i : Inspection) → Keeps P (result_of_state rt hook s i)
    unfolding result_of_state
    result_of_state-Keeps State.stopped i = search keeps
    result_of_state-Keeps State.occupied_invalid i = search keeps
    result_of_state-Keeps State.linked_existing i = search (keeps, linked_from-Keeps)
    result_of_state-Keeps State.draft_ready i = search keeps

    pub inspection_result-Keeps : (i : Inspection) → Keeps P (inspection_result rt hook i)
    unfolding inspection_result
    inspection_result-Keeps i = result_of_state-Keeps i.state i

    link_of_state-Keeps :
        (s : State) (w : FilePath) (i : Inspection) (n : ℕ)
        → Keeps P (link_of_state rt hook s w i n)
    unfolding link_of_state
    link_of_state-Keeps State.stopped w i n = search keeps
    link_of_state-Keeps State.occupied_invalid w i n = search keeps
    link_of_state-Keeps State.linked_existing w i n = search (keeps, linked_from-Keeps)
    link_of_state-Keeps State.draft_ready w i n = search keeps

    pub link-Keeps : (os : Os) (w : FilePath) (n : ℕ) → Keeps P (link rt os hook w n)
    unfolding link
    link-Keeps os w n =
        Keeps-bind _ _ (inspect-Keeps q rt os w) λ i. link_of_state-Keeps i.state w i n
