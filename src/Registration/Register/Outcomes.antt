-- ===== src/Registration/Register/Outcomes.antt =====
-- registration.py: what follows a collision claims no write, and what follows a write claims it.
use arjim.Base.{◌!=◌, true, false, List, ℕ, ◌⊎◌, inl, inr}
use arjim.Errors.{Exn}
use arjim.Effects.{FilePath, Os}
use arjim.Effects.Returns.{
  Returns, OrIs, Returns-pure, Returns-bind, Returns-attempt, Returns-inl, Returns-or, Returns-if,
  returns,
}
use arjim.Runtime.{Runtime}
use arjim.Filesystem.{TargetHandle, handle_eq}
use arjim.Registration.{Hook, Draft, RegistrationResult}
use arjim.Registration.Stages.{
  Stage, guard_failed, undecodable, not_dict, schema_rejected, accepted,
}
use arjim.Registration.Outcomes.{Says, stopped-Says, written_unverified-Says, occupied_invalid-Says}
use arjim.Registration.Projecting.Outcomes.{project-Returns, project_marker-Returns}
use arjim.Registration.Register.{
  read_back_or, collision_stage, collision_read, collision_result, project_written, readback_stage,
  readback_read, readback_and_project,
}

ruleset leaves = (returns, stopped-Says, written_unverified-Says, occupied_invalid-Says)

module _ (rt : Runtime) (os : Os) (hook : Hook) where
  collision_stage-Returns :
      (w : FilePath) (h : TargetHandle) (n : ℕ) (s : Stage)
      → Returns (Says false) (collision_stage rt os hook w h n s)
  unfolding collision_stage
  collision_stage-Returns w h n (guard_failed g) = search leaves
  collision_stage-Returns w h n undecodable = search leaves
  collision_stage-Returns w h n (not_dict d) = search leaves
  collision_stage-Returns w h n (schema_rejected d r) = search leaves
  collision_stage-Returns w h n (accepted d) = project_marker-Returns rt hook h d w n

  read_back_or-Or {ℓ} :
      {A : Type ℓ} {F : RegistrationResult → Type 0} (r : RegistrationResult) (e : Exn)
      → F r
      → Returns (OrIs F) (read_back_or {A = A} r e)
  read_back_or-Or r Exn.read_back_failed c = Returns-pure (inr r) c
  read_back_or-Or r _ c = search returns

  collision_read-Returns :
      (w : FilePath) (h : TargetHandle) (n : ℕ) (r : List ℕ ⊎ RegistrationResult)
      → OrIs (Says false) r
      → Returns (Says false) (collision_read rt os hook w h n r)
  unfolding collision_read
  collision_read-Returns w h n (inl raw) c = search (returns, collision_stage-Returns)
  collision_read-Returns w h n (inr r) c = Returns-pure r c

  pub collision_result-Returns :
      (w : FilePath) (h : TargetHandle) (n : ℕ)
      → Returns (Says false) (collision_result rt os hook w h n)
  unfolding collision_result
  collision_result-Returns w h n =
      search
        (Returns-or, Returns-attempt, Returns-inl, read_back_or-Or, leaves, collision_read-Returns)

  project_written-Returns :
      (w : FilePath) (d : Draft) (h : TargetHandle) (n : ℕ) (r : TargetHandle ⊎ RegistrationResult)
      → Returns (Says true) (project_written rt os hook w d h n r)
  unfolding project_written
  project_written-Returns w d h n (inl c) =
      Returns-if (c != h) _ _ (Returns-pure _ (written_unverified-Says _)) (
        Returns-bind _ _ λ identity. Returns-bind _ _ λ label.
          Returns-bind _ _ λ version. project-Returns rt hook h identity label version w n true)
  project_written-Returns w d h n (inr r) = search leaves

  readback_stage-Returns :
      (w : FilePath) (d : Draft) (h : TargetHandle) (n : ℕ) (s : Stage)
      → Returns (Says true) (readback_stage rt os hook w d h n s)
  unfolding readback_stage
  readback_stage-Returns w d h n (guard_failed g) = search leaves
  readback_stage-Returns w d h n undecodable = search leaves
  readback_stage-Returns w d h n (not_dict x) = search leaves
  readback_stage-Returns w d h n (schema_rejected x r) = search leaves
  readback_stage-Returns w d h n (accepted x) = search (leaves, project_written-Returns)

  readback_read-Returns :
      (w : FilePath) (d : Draft) (h : TargetHandle) (n : ℕ) (r : List ℕ ⊎ RegistrationResult)
      → OrIs (Says true) r
      → Returns (Says true) (readback_read rt os hook w d h n r)
  unfolding readback_read
  readback_read-Returns w d h n (inl raw) c = search (returns, readback_stage-Returns)
  readback_read-Returns w d h n (inr r) c = Returns-pure r c

  pub readback_and_project-Returns :
      (w : FilePath) (d : Draft) (h : TargetHandle) (n : ℕ)
      → Returns (Says true) (readback_and_project rt os hook w d h n)
  unfolding readback_and_project
  readback_and_project-Returns w d h n =
      search
        (Returns-or, Returns-attempt, Returns-inl, read_back_or-Or, leaves, readback_read-Returns)
