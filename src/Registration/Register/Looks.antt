-- ===== src/Registration/Register/Looks.antt =====
-- registration.py: what follows a write, or a collision, changes no file.
use arjim.Base.{List, ℕ, ◌⊎◌, inl, inr}
use arjim.Errors.{Exn}
use arjim.Effects.{FilePath, Os, Run}
use arjim.Effects.Rules.{Keeps}
use arjim.Runtime.{Runtime}
use arjim.Trace.Quiet.{Quiet, keeps}
use arjim.Filesystem.{TargetHandle}
use arjim.Filesystem.Marker.Looks.{read_marker-Keeps}
use arjim.Registration.{Hook, Draft, RegistrationResult}
use arjim.Registration.Stages.{
  Stage, guard_failed, undecodable, not_dict, schema_rejected, accepted,
}
use arjim.Registration.Projecting.Looks.{capture_or_stop-Keeps, project-Keeps, project_marker-Keeps}
use arjim.Registration.Register.{
  read_back_or, collision_stage, collision_read, collision_result, project_written, readback_stage,
  readback_read, readback_and_project,
}

module _ {P : Run → Type 0} (q : Quiet P) (rt : Runtime) (os : Os) (hook : Hook) where
  collision_stage-Keeps :
      (w : FilePath) (h : TargetHandle) (n : ℕ) (s : Stage)
      → Keeps P (collision_stage rt os hook w h n s)
  unfolding collision_stage
  collision_stage-Keeps w h n (guard_failed g) = search keeps
  collision_stage-Keeps w h n undecodable = search keeps
  collision_stage-Keeps w h n (not_dict d) = search keeps
  collision_stage-Keeps w h n (schema_rejected d r) = search keeps
  collision_stage-Keeps w h n (accepted d) = project_marker-Keeps q rt hook h d w n

  collision_read-Keeps :
      (w : FilePath) (h : TargetHandle) (n : ℕ) (r : List ℕ ⊎ RegistrationResult)
      → Keeps P (collision_read rt os hook w h n r)
  unfolding collision_read
  collision_read-Keeps w h n (inl raw) = search (keeps, collision_stage-Keeps)
  collision_read-Keeps w h n (inr r) = search keeps

  read_back_or-Keeps {ℓ} :
      {A : Type ℓ} (r : RegistrationResult) (e : Exn) → Keeps P (read_back_or {A = A} r e)
  read_back_or-Keeps r Exn.read_back_failed = search keeps
  read_back_or-Keeps r _ = search keeps

  pub collision_result-Keeps :
      (w : FilePath) (h : TargetHandle) (n : ℕ) → Keeps P (collision_result rt os hook w h n)
  unfolding collision_result
  collision_result-Keeps w h n =
      search (keeps, read_marker-Keeps, read_back_or-Keeps, collision_read-Keeps)

  project_written-Keeps :
      (w : FilePath) (d : Draft) (h : TargetHandle) (n : ℕ) (r : TargetHandle ⊎ RegistrationResult)
      → Keeps P (project_written rt os hook w d h n r)
  unfolding project_written
  project_written-Keeps w d h n (inl c) = search (keeps, project-Keeps) depth 9
  project_written-Keeps w d h n (inr r) = search keeps

  readback_stage-Keeps :
      (w : FilePath) (d : Draft) (h : TargetHandle) (n : ℕ) (s : Stage)
      → Keeps P (readback_stage rt os hook w d h n s)
  unfolding readback_stage
  readback_stage-Keeps w d h n (guard_failed g) = search keeps
  readback_stage-Keeps w d h n undecodable = search keeps
  readback_stage-Keeps w d h n (not_dict x) = search keeps
  readback_stage-Keeps w d h n (schema_rejected x r) = search keeps
  readback_stage-Keeps w d h n (accepted x) =
      search (keeps, capture_or_stop-Keeps, project_written-Keeps)

  readback_read-Keeps :
      (w : FilePath) (d : Draft) (h : TargetHandle) (n : ℕ) (r : List ℕ ⊎ RegistrationResult)
      → Keeps P (readback_read rt os hook w d h n r)
  unfolding readback_read
  readback_read-Keeps w d h n (inl raw) = search (keeps, readback_stage-Keeps)
  readback_read-Keeps w d h n (inr r) = search keeps

  pub readback_and_project-Keeps :
      (w : FilePath) (d : Draft) (h : TargetHandle) (n : ℕ)
      → Keeps P (readback_and_project rt os hook w d h n)
  unfolding readback_and_project
  readback_and_project-Keeps w d h n =
      search (keeps, read_marker-Keeps, read_back_or-Keeps, readback_read-Keeps)
