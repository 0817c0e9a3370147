-- ===== src/Tests/Dispatching.antt =====
-- The theorems on the projection and on the dispatch, applied to concrete inputs.
use arjim.Base.{String, none, some, true, ◌≡◌, ◌↔◌, refl, [], ◌∷◌, List, All, nat_eq}
use arjim.Effects.{FilePath}
use arjim.Effects.Returns.{OkIs}
use arjim.RawGuard.{is_prohibited_control}
use arjim.Projection.{update}
use arjim.Projection.Rows.{IsUnique, Distinct}
use arjim.Projection.Updates.{Updated, update-Updated}
use arjim.Projection.Replacing.{replace}
use arjim.Projection.Replacing.Inserting.{keys_of}
use arjim.Projection.Replacing.Retained.{Agrees, replace-Agrees}
use arjim.Projection.Rebuild.{rebuild}
use arjim.Projection.Rebuild.Outcomes.{Rebuilt, rebuild-Rebuilt}
use arjim.Base.Table.{select}
use arjim.Dispatch.Store.{empty_store}
use arjim.Dispatch.Store.Refinement.{bind_op, perform, Represents, Performed, perform-Performed}
use arjim.Dispatch.Intent.{draft_instruction, is_dangerous}
use arjim.Dispatch.Intent.Drafted.{Drafted, draft_instruction-Drafted, is_dangerous-prohibited}
use arjim.Dispatch.Notes.{read_outcome_note}
use arjim.Dispatch.Notes.Present.{Reported, read_outcome_note-Reported}
use arjim.Dispatch.Ordering.{dispatch, dispatch_without_confirmation}
use arjim.Dispatch.Ordering.Started.{Told}
use arjim.Dispatch.Ordering.RecordFirst.{dispatch-Told, dispatch_without_confirmation-Told}
use arjim.Dispatch.Git.{capture_git_state}
use arjim.Dispatch.States.{derive_job_state}
use arjim.Dispatch.Baselines.{compute_change_signal}
use arjim.Dispatch.Baselines.Signals.{Answered, compute_change_signal-Signalled}
use arjim.Dispatch.Chain.{Job, propose_follow_on, build_chain_from_records}
use arjim.Dispatch.Chain.Followers.{Different, ids}
use arjim.Dispatch.Chain.Ends.{ChainOf, build_chain_from_records-ChainOf}
use arjim.Dispatch.Chain.Proposals.{at_work, propose_follow_on-at_work}
use arjim.Tests.{
  runtime, system, workspace, start, job_runtime, job_system, paseo, posture, job_draft, a_store,
  a_row, an_input, a_root, jobs, an_observation,
}

abbrev text : FilePath → String
text path = "text"

a_row-IsUnique : IsUnique (a_row ∷ [])
unfolding Distinct
a_row-IsUnique = (refl, tt)

a_root-Distinct : Distinct (keys_of runtime (a_root ∷ []))
unfolding Distinct
a_root-Distinct = (refl, tt)

empty_store-Represents :
    Represents empty_store (record { binding = λ job. none; baseline = λ handle. none })
unfolding select
empty_store-Represents = record { bindings = λ job. refl; baselines = λ handle. refl }

jobs-Different : Different (ids jobs)
unfolding Different
jobs-Different = (refl, (refl, (refl, tt)))

dispatch-Told_example :
    Told job_runtime paseo workspace
      (dispatch job_runtime job_system paseo empty_store job_draft "confirm digest" start).0
      (dispatch job_runtime job_system paseo empty_store job_draft "confirm digest" start).1
dispatch-Told_example =
    dispatch-Told job_runtime job_system paseo empty_store job_draft "confirm digest" start refl

dispatch_without_confirmation-Told_example :
    Told job_runtime paseo workspace
      (dispatch_without_confirmation job_runtime job_system paseo empty_store workspace
        "Run the tests" posture none start).0
      (dispatch_without_confirmation job_runtime job_system paseo empty_store workspace
        "Run the tests" posture none start).1
dispatch_without_confirmation-Told_example =
    dispatch_without_confirmation-Told job_runtime job_system paseo empty_store workspace
      "Run the tests" posture none start refl

perform-Performed_example :
    Performed
      (bind_op "job" (record { agent_id = "a"; dispatch_timestamp = "now" }))
      (record { binding = λ job. none; baseline = λ handle. none })
      (perform system
        (bind_op "job" (record { agent_id = "a"; dispatch_timestamp = "now" }))
        empty_store
        start).0
perform-Performed_example =
    perform-Performed system (bind_op "job" (record { agent_id = "a"; dispatch_timestamp = "now" }))
      empty_store (record { binding = λ job. none; baseline = λ handle. none }) start
      empty_store-Represents

update-Updated_example :
    OkIs
      (Updated an_input (a_row ∷ []))
      (update runtime system workspace an_input (a_row ∷ []) start).0
update-Updated_example =
    update-Updated runtime system workspace an_input (a_row ∷ []) start a_row-IsUnique

replace-Agrees_example :
    OkIs
      (λ _. All (Agrees runtime "now" (a_row ∷ [])) (a_root ∷ []))
      (replace runtime (a_root ∷ []) "now" (a_row ∷ []))
replace-Agrees_example =
    replace-Agrees runtime "now" (a_root ∷ []) (a_row ∷ []) a_row-IsUnique a_root-Distinct

rebuild-Rebuilt_example :
    OkIs
      (Rebuilt job_runtime job_system workspace (workspace ∷ []) (a_row ∷ []))
      (rebuild job_runtime job_system workspace (workspace ∷ []) (a_row ∷ []) start).0
rebuild-Rebuilt_example =
    rebuild-Rebuilt job_runtime job_system workspace (workspace ∷ []) (a_row ∷ []) start
      a_row-IsUnique

draft_instruction-Drafted_example :
    OkIs
      (Drafted runtime "Run the tests")
      (draft_instruction runtime system workspace "id" "A workspace" "Run the tests" posture none
        none start).0
draft_instruction-Drafted_example =
    draft_instruction-Drafted runtime system workspace "id" "A workspace" "Run the tests" posture
      none none start

is_dangerous-prohibited_example : is_dangerous 0x202e ≡ true
unfolding is_prohibited_control
is_dangerous-prohibited_example = is_dangerous-prohibited 0x202e refl refl

read_outcome_note-Reported_example :
    OkIs
      (Reported job_runtime "job")
      (read_outcome_note job_runtime job_system workspace "job" start).0
read_outcome_note-Reported_example =
    read_outcome_note-Reported job_runtime job_system workspace "job" start

compute_change_signal-Signalled_example :
    Answered a_store "text"
      (capture_git_state runtime system workspace start).0
      (compute_change_signal runtime system text workspace a_store start).0
compute_change_signal-Signalled_example =
    compute_change_signal-Signalled runtime system text workspace a_store start

build_chain_from_records-ChainOf_example :
    (chains : List (List Job)) × ((build_chain_from_records jobs ≡ some chains)
      × All (ChainOf jobs) chains)
build_chain_from_records-ChainOf_example = build_chain_from_records-ChainOf jobs jobs-Different

propose_follow_on-at_work_example :
    (propose_follow_on "job" (derive_job_state runtime an_observation) ≡ none)
    ↔ (at_work runtime an_observation ≡ true)
propose_follow_on-at_work_example = propose_follow_on-at_work runtime "job" an_observation
