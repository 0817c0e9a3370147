-- ===== src/Dispatch/Ordering/RecordFirst.antt =====
-- dispatch.py: no agent is spawned but after the run has created, written and read back the record
-- of its job.
use arjim.Base.{
  String, Option, none, some, ◌⊎◌, inl, inr, Bool, true, false, not, ◌≡◌, refl, [], if◌then◌else◌,
  list_eq, nat_eq, string_eq,
}
use arjim.Json.{Json}
use arjim.Errors.{Exn}
use arjim.Runtime.{Runtime}
use arjim.Effects.{FilePath, Os, Run, pure, ◌>>=◌, attempt}
use arjim.Effects.Rules.{Keeps, Ensures, Ensures-bind, Ensures-pure, Ensures-Keeps}
use arjim.Trace.Quiet.{keeps, quiet}
use arjim.Dispatch.Store.{Store}
use arjim.Dispatch.Adapter.{PaseoAdapter}
use arjim.Dispatch.Intent.Looks.{draft_instruction-Keeps}
use arjim.Dispatch.Intent.{Posture, Draft, confirm, draft_instruction}
use arjim.Dispatch.Ordering.{
  Outcome, write_code, drafted_code, dispatch_result, workstream_from, resolve_workstream,
  resolved_dispatch, dispatch, draft_code, code_or_raise, draft_failed, drafted_dispatch,
  resolved_draft, dispatch_without_confirmation,
}
use arjim.Dispatch.Ordering.Started.{RecordFirst, spawns, Spawned, Spawned-Quiet, Told}
use arjim.Dispatch.Ordering.Spawning.{Same, write_and_spawn-Told}

module _ (rt : Runtime) (adapter : PaseoAdapter) (workspace : FilePath) where
  module _ (os : Os) (store : Store) where
    workstream_from-Keeps :
        (d : Option Json) → Keeps (Spawned rt adapter workspace 0) (workstream_from rt os d)
    unfolding workstream_from
    workstream_from-Keeps none = search keeps
    workstream_from-Keeps (some d) = search keeps

    resolve_workstream-Keeps :
        (w : FilePath) → Keeps (Spawned rt adapter workspace 0) (resolve_workstream rt os w)
    unfolding resolve_workstream
    resolve_workstream-Keeps w = search (keeps, quiet, Spawned-Quiet, workstream_from-Keeps)

    code_or_raise-Keeps :
        (e : Exn) (code : Option String)
        → Keeps (Spawned rt adapter workspace 0) (code_or_raise rt os adapter store e code)
    unfolding code_or_raise
    code_or_raise-Keeps e none = search keeps
    code_or_raise-Keeps e (some code) = search keeps

    draft_failed-Keeps :
        (e : Exn) → Keeps (Spawned rt adapter workspace 0) (draft_failed rt os adapter store e)
    unfolding draft_failed
    draft_failed-Keeps e = code_or_raise-Keeps e (draft_code e)

    drafted_dispatch-Told :
        (identity : String) (d : Draft ⊎ String)
        → Ensures
            (Spawned rt adapter workspace 0)
            (drafted_dispatch rt os adapter store workspace identity d)
            (Told rt adapter workspace)
    unfolding drafted_dispatch
    drafted_dispatch-Told identity (inr code) = Ensures-pure (Told rt adapter workspace) _ λ s v. v
    drafted_dispatch-Told identity (inl d) =
        write_and_spawn-Told rt adapter workspace os store d "assistant-drafted" drafted_code
          identity

    draft_or_code :
        (identity label instruction : String) (posture : Posture) (follows : Option String)
        → Keeps (Spawned rt adapter workspace 0) (
            attempt
              (do
                d ←
                    draft_instruction rt os workspace identity label instruction posture follows
                      none
                pure (inl d))
              (draft_failed rt os adapter store))
    draft_or_code identity label instruction posture follows = search (
      keeps,
      draft_failed-Keeps,
      draft_instruction-Keeps (Spawned-Quiet rt adapter workspace 0) rt os,
    )

    resolved_draft-Told :
        (instruction : String) (posture : Posture) (follows : Option String)
        (resolved : Option (String × String))
        → Ensures
            (Spawned rt adapter workspace 0)
            (resolved_draft rt os adapter store workspace instruction posture follows resolved)
            (Told rt adapter workspace)
    unfolding resolved_draft
    resolved_draft-Told instruction posture follows none =
        Ensures-pure (Told rt adapter workspace) _ λ s v. v
    resolved_draft-Told instruction posture follows (some (identity, label)) =
        Ensures-bind (Same rt adapter workspace os store) _ _
          (Ensures-Keeps (Same rt adapter workspace os store) _
            (draft_or_code identity label instruction posture follows) λ r s v. v)
          (drafted_dispatch-Told identity) λ e s v. inl v

    without_confirmation-Told :
        (instruction : String) (posture : Posture) (follows : Option String)
        → Ensures
            (Spawned rt adapter workspace 0)
            (dispatch_without_confirmation rt os adapter store workspace instruction posture
              follows)
            (Told rt adapter workspace)
    unfolding dispatch_without_confirmation
    without_confirmation-Told instruction posture follows =
        Ensures-bind (Same rt adapter workspace os store) _ _
          (Ensures-Keeps (Same rt adapter workspace os store) _ (resolve_workstream-Keeps workspace)
            λ r s v. v)
          (resolved_draft-Told instruction posture follows) λ e s v. inl v

module _ (rt : Runtime) (os : Os) (adapter : PaseoAdapter) (store : Store) (d : Draft) where
  resolved_dispatch-Told :
      (resolved : Option (String × String))
      → Ensures
          (Spawned rt adapter d.workspace_path 0)
          (resolved_dispatch rt os adapter store d resolved)
          (Told rt adapter d.workspace_path)
  unfolding resolved_dispatch
  resolved_dispatch-Told none = Ensures-pure (Told rt adapter d.workspace_path) _ λ s v. v
  resolved_dispatch-Told (some (identity, label)) =
      write_and_spawn-Told rt adapter d.workspace_path os store d "operator-confirmed" write_code
        identity

  confirmed-Told :
      (confirmed : Bool)
      → Ensures
          (Spawned rt adapter d.workspace_path 0)
          (if not confirmed
            then pure (dispatch_result Outcome.cancelled none (some "confirmation-mismatch"), store)
            else (resolve_workstream rt os d.workspace_path
                >>= resolved_dispatch rt os adapter store d))
          (Told rt adapter d.workspace_path)
  confirmed-Told false = Ensures-pure (Told rt adapter d.workspace_path) _ λ s v. v
  confirmed-Told true =
      Ensures-bind (Same rt adapter d.workspace_path os store) _ _
        (Ensures-Keeps (Same rt adapter d.workspace_path os store) _
          (resolve_workstream-Keeps rt adapter d.workspace_path os store d.workspace_path)
          λ r s v. v)
        resolved_dispatch-Told λ e s v. inl v

nothing_yet :
    (rt : Runtime) (adapter : PaseoAdapter) (w : FilePath) (s : Run)
    → s.log ≡ []
    → Spawned rt adapter w 0 s
unfolding spawns RecordFirst
nothing_yet rt adapter w s e = record { count = rw e refl; first = rw e tt }

-- In every environment, the result of `dispatch` in a new run tells what it has started: exactly
-- one process where it is dispatched, at most one where it is a partial success, and none with any
-- other outcome. Where it raises there is none, but where the output of the process is no text, or
-- is JSON that nests too deep, when there is one. The process is the agent of a draft, and before it
-- the run has created the file of that draft's job record itself and read the record's bytes back
-- from it.
pub dispatch-Told :
    (rt : Runtime) (os : Os) (adapter : PaseoAdapter) (store : Store) (d : Draft)
    (confirmation : String) (s : Run)
    → s.log ≡ []
    → Told rt adapter d.workspace_path
        (dispatch rt os adapter store d confirmation s).0
        (dispatch rt os adapter store d confirmation s).1
unfolding dispatch
dispatch-Told rt os adapter store d confirmation s e =
    (confirmed-Told rt os adapter store d (confirm rt d confirmation)).at s
      (nothing_yet rt adapter d.workspace_path s e)

-- The same of `dispatch_without_confirmation`, which drafts the instruction itself: exactly one
-- process where it is dispatched, at most one where it is a partial success, and none otherwise, but
-- for the one process whose output is no text, or JSON that nests too deep, where it raises; and
-- the process is the agent of a draft whose record was created and read back before.
pub dispatch_without_confirmation-Told :
    (rt : Runtime) (os : Os) (adapter : PaseoAdapter) (store : Store) (workspace : FilePath)
    (instruction : String) (posture : Posture) (follows : Option String) (s : Run)
    → s.log ≡ []
    → Told rt adapter workspace
        (dispatch_without_confirmation rt os adapter store workspace instruction posture follows
          s).0
        (dispatch_without_confirmation rt os adapter store workspace instruction posture follows
          s).1
dispatch_without_confirmation-Told rt os adapter store workspace instruction posture follows s e =
    (without_confirmation-Told rt adapter workspace os store instruction posture follows).at s
      (nothing_yet rt adapter workspace s e)
