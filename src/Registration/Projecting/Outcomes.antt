-- ===== src/Registration/Projecting/Outcomes.antt =====
-- registration.py: the results of a projection and of linking say of the effects what their
-- outcomes mean.
use arjim.Trace.Touched.{touched}
use arjim.Base.{refl, not, ◌≡◌, Option, none, some, Bool, true, false, String, ℕ}
use arjim.Errors.{Exn, Result}
use arjim.Json.{Json}
use arjim.Vocabulary.{Code}
use arjim.Effects.{FilePath, Os, Run}
use arjim.Effects.Returns.{
  OkIs, Returns, OrIs, Returns-pure, Returns-bind, Returns-attempt, Returns-inl, returns,
}
use arjim.Runtime.{Runtime}
use arjim.Filesystem.{TargetHandle}
use arjim.Lifecycle.{Outcome, State, ProjectionStatus}
use arjim.Validation.{Validity}
use arjim.Registration.{
  Inspection, Hook, ProjectionInput, RegistrationResult, stopped, no_effect_result,
}
use arjim.Registration.Outcomes.{Consistent, Says, stopped-Says, occupied_invalid-Says}
use arjim.Registration.Projecting.{
  registered_unlinked, failed_link, linked_result, from_status, capture_stop, capture_or_stop,
  project_with, project, project_marker, linked_from, result_of_state, inspection_result,
  link_of_state, link,
}

failed_link-Says : (i : String) (written : Bool) → Says written (failed_link i written)
unfolding failed_link registered_unlinked Says Consistent
failed_link-Says i true = (refl, refl)
failed_link-Says i false = stopped-Says Code.projection_link_failed

linked_result-Says : (i : String) (written : Bool) → Says written (linked_result i (not written))
unfolding linked_result Says Consistent
linked_result-Says i true = (refl, refl)
linked_result-Says i false = (refl, refl)

conflict-Says :
    (i : String) (written link_mode : Bool)
    → Says written (from_status i written link_mode (some ProjectionStatus.conflict))
unfolding from_status Says Consistent
conflict-Says i true link_mode = (refl, refl)
conflict-Says i false link_mode = (refl, refl)

-- The projection is asked for after a write, or in link mode and after none.
from_status-Says :
    (i : String) (written : Bool) (s : Option ProjectionStatus)
    → Says written (from_status i written (not written) s)
unfolding from_status
from_status-Says i written (some ProjectionStatus.linked) = linked_result-Says i written
from_status-Says i written (some ProjectionStatus.conflict) = conflict-Says i written (not written)
from_status-Says i written (some ProjectionStatus.other) = failed_link-Says i written
from_status-Says i written none = failed_link-Says i written

module _ (rt : Runtime) where
  module _ {F : RegistrationResult → Type 0} (k : (c : Code) → F (stopped c)) where
    capture_stop-Or : (e : Exn) → Returns (OrIs F) (capture_stop e)
    capture_stop-Or Exn.identity_unavailable = search (returns, k)
    capture_stop-Or Exn.target_alias_mismatch = search (returns, k)
    capture_stop-Or Exn.redirected_marker_component = search (returns, k)
    capture_stop-Or _ = search returns

    pub capture_or_stop-Or : (os : Os) (w : FilePath) → Returns (OrIs F) (capture_or_stop rt os w)
    unfolding capture_or_stop
    capture_or_stop-Or os w = search (Returns-attempt, Returns-inl, capture_stop-Or)

  project_with-Returns :
      (hook k : Hook) (i : ProjectionInput) (written : Bool)
      → Returns (Says written) (project_with rt hook k i written (not written))
  unfolding project_with
  project_with-Returns hook none i written = search (returns, failed_link-Says)
  project_with-Returns hook (some answer) i written =
      Returns-bind _ _ λ status. Returns-pure _ (from_status-Says i.identity written status)

  module _ (hook : Hook) where
    pub project-Returns :
        (h : TargetHandle) (i l v : String) (w : FilePath) (n : ℕ) (written : Bool)
        → Returns (Says written) (project rt hook h i l v w n written (not written))
    unfolding project
    project-Returns h i l v w n written = project_with-Returns hook hook _ written

    pub project_marker-Returns :
        (h : TargetHandle) (m : Json) (w : FilePath) (n : ℕ)
        → Returns (Says false) (project_marker rt hook h m w n)
    unfolding project_marker
    project_marker-Returns h m w n = Returns-bind _ _ λ identity.
        Returns-bind _ _
          λ label. Returns-bind _ _ λ version. project-Returns h identity label version w n false

    linked_from-Returns :
        (h : Option TargetHandle) (m : Option Json) (w : Option FilePath) (n : ℕ)
        → Returns (Says false) (linked_from rt hook h m w n)
    unfolding linked_from
    linked_from-Returns (some h) (some m) (some w) n = project_marker-Returns h m w n
    linked_from-Returns (some h) (some m) none n = search (returns, stopped-Says)
    linked_from-Returns (some h) none w n = search (returns, stopped-Says)
    linked_from-Returns none m w n = search (returns, stopped-Says)

    result_of_state-Returns :
        (s : State) (i : Inspection) → Returns (Says false) (result_of_state rt hook s i)
    unfolding result_of_state Says Consistent
    result_of_state-Returns State.stopped i = search (returns, stopped-Says)
    result_of_state-Returns State.occupied_invalid i = search (returns, occupied_invalid-Says)
    result_of_state-Returns State.linked_existing i = search (linked_from-Returns)
    result_of_state-Returns State.draft_ready i =
        Returns-pure (no_effect_result Outcome.stopped Validity.not_applicable) (refl, refl)

    pub inspection_result-Returns :
        (i : Inspection) → Returns (Says false) (inspection_result rt hook i)
    unfolding inspection_result
    inspection_result-Returns i = result_of_state-Returns i.state i

    link_of_state-Returns :
        (s : State) (w : FilePath) (i : Inspection) (n : ℕ)
        → Returns (Says false) (link_of_state rt hook s w i n)
    unfolding link_of_state
    link_of_state-Returns State.stopped w i n = search (returns, stopped-Says)
    link_of_state-Returns State.occupied_invalid w i n = search (returns, occupied_invalid-Says)
    link_of_state-Returns State.linked_existing w i n = search (linked_from-Returns)
    link_of_state-Returns State.draft_ready w i n = search (returns, stopped-Says)

    pub link-Returns : (os : Os) (w : FilePath) (n : ℕ) → Returns (Says false) (link rt os hook w n)
    unfolding link
    link-Returns os w n = search (returns, link_of_state-Returns)

-- What `link` claims: the effects and the identity of its outcome, and no written marker.
abbrev pub Linked : Result RegistrationResult → Run → Type 0
Linked r s = OkIs (Says false) r × (touched s.log ≡ false)
