-- ===== src/Registration/Resolve/Interactive.antt =====
-- registration.py: the registration in one call claims a write exactly if the run has made one.
use arjim.Base.{ℕ, ◌≡◌, ◌⊎◌, inl, inr, Option, some, false, String, List, []}
use arjim.Errors.{Exn}
use arjim.Runtime.{Runtime}
use arjim.Effects.{FilePath, Os, Run, pure, ◌>>=◌, attempt, issue}
use arjim.Effects.Returns.{OrIs, Returns, Returns-attempt, Returns-inl, returns}
use arjim.Effects.Rules.{Keeps, Keeps-attempt, Keeps-bind, Keeps-pure, Ensures}
use arjim.Trace.Quiet.{keeps}
use arjim.Trace.Steady.{Beside-Quiet}
use arjim.Filesystem.Marker.Attempts.{Fresh, Fresh-Beside}
use arjim.Lifecycle.{State}
use arjim.Registration.{Hook, Draft, Inspection, RegistrationResult}
use arjim.Registration.Claims.{Truth, early}
use arjim.Registration.Drafting.{Source, draft}
use arjim.Registration.Drafting.Looks.{draft-Keeps}
use arjim.Registration.Inspect.{inspect}
use arjim.Registration.Inspect.Looks.{inspect-Keeps}
use arjim.Registration.Outcomes.{Says, stopped-Says}
use arjim.Registration.Projecting.Looks.{inspection_result-Keeps}
use arjim.Registration.Projecting.Outcomes.{inspection_result-Returns}
use arjim.Registration.Projecting.{inspection_result}
use arjim.Registration.Register.Claims.{first, or_else, answer, register-Truth, new_run-Fresh}
use arjim.Registration.Resolve.{
  draft_refused, interactive_drafted, interactive_state, register_interactive,
}

module _ (rt : Runtime) (os : Os) (hook : Hook) (w : FilePath) where
  draft_refused-Or : (e : Exn) → Returns (OrIs (Says false)) (draft_refused rt os hook e)
  draft_refused-Or (Exn.draft_input_error d) = search (returns, stopped-Says)
  draft_refused-Or _ = search returns

  draft_refused-Keeps : {P : Run → Type 0} (e : Exn) → Keeps P (draft_refused rt os hook e)
  draft_refused-Keeps (Exn.draft_input_error d) = search keeps
  draft_refused-Keeps _ = search keeps

  issue-Keeps : Keeps (Fresh w) issue
  unfolding issue
  issue-Keeps = record { at = λ s v. record { fresh = v.fresh } }

  interactive_drafted-Truth :
      (digest : Option String) (n : ℕ) (r : Draft ⊎ RegistrationResult)
      → OrIs (Says false) r
      → Ensures (Fresh w) (interactive_drafted rt os hook w digest n r) (Truth w)
  unfolding interactive_drafted
  interactive_drafted-Truth digest n (inl d) f =
      first os w issue _ issue-Keeps λ u. register-Truth rt os hook w d _ n _
  interactive_drafted-Truth digest n (inr r) f = answer os w r f

  inspected-Truth : (i : Inspection) → Ensures (Fresh w) (inspection_result rt hook i) (Truth w)
  inspected-Truth i =
      early _ (inspection_result-Returns rt hook i)
        (inspection_result-Keeps (Beside-Quiet Fresh-Beside) rt hook i)

  interactive_state-Truth :
      (l : String) (xs : List Source) (k : String) (digest : Option String) (n : ℕ) (s : State)
      (i : Inspection)
      → Ensures (Fresh w) (interactive_state rt os hook w l xs k digest n s i) (Truth w)
  unfolding interactive_state
  interactive_state-Truth l xs k digest n State.draft_ready i =
      or_else os w
        (attempt (draft rt os w l xs k (some i) >>= λ d. pure (inl d)) (draft_refused rt os hook)) _
        (Returns-attempt _ _ (Returns-inl _) draft_refused-Or)
        (Keeps-attempt _ _
          (Keeps-bind _ _ (draft-Keeps (Beside-Quiet Fresh-Beside) rt os w l xs k (some i))
            λ d. Keeps-pure (inl d))
          draft_refused-Keeps)
        (interactive_drafted-Truth digest n)
  interactive_state-Truth l xs k digest n State.linked_existing i = inspected-Truth i
  interactive_state-Truth l xs k digest n State.occupied_invalid i = inspected-Truth i
  interactive_state-Truth l xs k digest n State.stopped i = inspected-Truth i

  -- The same of the registration in one call, also where the inspection or the draft ends it: in a
  -- new run, a result has the effects and the identity of its outcome, and it claims a written
  -- marker exactly if the run has created the marker. The exception is a stop with the code of a
  -- failed write, which may follow the creation; of a stop with the code of the lock, which claims
  -- no write, nothing more is said.
  pub register_interactive-Claimed :
      (l : String) (xs : List Source) (k : String) (digest : Option String) (n : ℕ) (s : Run)
      → s.log ≡ []
      → Truth w
          (register_interactive rt os hook w l xs k digest n s).0
          (register_interactive rt os hook w l xs k digest n s).1
  unfolding register_interactive
  register_interactive-Claimed l xs k digest n s e =
      (first os w (inspect rt os w) _ (inspect-Keeps (Beside-Quiet Fresh-Beside) rt os w)
          λ i. interactive_state-Truth l xs k digest n i.state i).at
        s (new_run-Fresh rt os hook w s e)
