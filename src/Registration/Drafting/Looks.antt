-- ===== src/Registration/Drafting/Looks.antt =====
-- registration.py: a draft changes no file.
use arjim.Base.{Option, none, some, String, List}
use arjim.Json.{Json}
use arjim.Runtime.{Runtime}
use arjim.Effects.{FilePath, Os, Run}
use arjim.Effects.Rules.{Keeps}
use arjim.Trace.Quiet.{Quiet, keeps, quiet}
use arjim.Filesystem.{TargetHandle}
use arjim.Lifecycle.{State}
use arjim.RawGuard.{RawGuardResult}
use arjim.Registration.{Inspection}
use arjim.Registration.Inspect.Looks.{inspect-Keeps}
use arjim.Registration.Drafting.{Source, make_draft, check_draft, draft_ready, inspected, draft}

module _ {P : Run → Type 0} (q : Quiet P) (rt : Runtime) where
  make_draft-Keeps : (w : FilePath) (m : Json) (h : TargetHandle) → Keeps P (make_draft rt w m h)
  unfolding make_draft
  make_draft-Keeps w m h = search (keeps, quiet)

  check_draft-Keeps :
      (w : FilePath) (m : Json) (h : TargetHandle) (g : RawGuardResult)
      → Keeps P (check_draft rt w m h g)
  unfolding check_draft
  check_draft-Keeps w m h g = search (keeps, make_draft-Keeps)

  module _ (os : Os) where
    draft_ready-Keeps :
        (w : FilePath) (l : String) (xs : List Source) (k : String) (s : State)
        (h : Option TargetHandle)
        → Keeps P (draft_ready rt os w l xs k s h)
    unfolding draft_ready
    draft_ready-Keeps w l xs k State.draft_ready (some h) =
        search (keeps, quiet, check_draft-Keeps) depth 8
    draft_ready-Keeps w l xs k State.draft_ready none = search keeps
    draft_ready-Keeps w l xs k State.linked_existing h = search keeps
    draft_ready-Keeps w l xs k State.occupied_invalid h = search keeps
    draft_ready-Keeps w l xs k State.stopped h = search keeps

    inspected-Keeps : (w : FilePath) (o : Option Inspection) → Keeps P (inspected rt os w o)
    unfolding inspected
    inspected-Keeps w none = inspect-Keeps q rt os w
    inspected-Keeps w (some i) = search keeps

    pub draft-Keeps :
        (w : FilePath) (l : String) (xs : List Source) (k : String) (o : Option Inspection)
        → Keeps P (draft rt os w l xs k o)
    unfolding draft
    draft-Keeps w l xs k o = search (keeps, inspected-Keeps, draft_ready-Keeps)
