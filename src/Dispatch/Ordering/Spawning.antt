-- ===== src/Dispatch/Ordering/Spawning.antt =====
-- dispatch.py: from the write of the record to the binding of the agent.
use arjim.Base.{
  ℕ, suc, List, not, String, Option, none, some, ◌⊎◌, inl, inr, Bool, true, false, refl, ap,
  if◌then◌else◌, list_eq, nat_eq, string_eq,
}
use arjim.Errors.{Exn, Result, ok, err}
use arjim.Runtime.{Runtime}
use arjim.Effects.{
  FilePath, Process, Os, Run, M, ran, pure, ◌>>=◌, os_run, run_process, replied, RunReply, exited,
  not_run, OpenReply, store_opened, no_directory, open_failed, not_text, raise, time_now,
}
use arjim.Effects.Rules.{
  Keeps, Ensures, Ensures-bind, Ensures-call, Ensures-pure, Ensures-raise, Ensures-Keeps,
  Ensures-attempt, Ensures-from,
}
use arjim.Trace.Quiet.{keeps, quiet}
use arjim.Dispatch.Store.{Store, connect, connected_from, bind_job, run_transaction}
use arjim.Dispatch.Adapter.{
  PaseoAdapter, SpawnResult, spawned, unreachable, spawn, spawned_from, run_cli, parse_output,
  document_of, agent_id_of,
}
use arjim.Dispatch.Intent.{Draft}
use arjim.Dispatch.Records.{
  WriteStatus, written, collision, write_failed, written_unverified, record_path,
}
use arjim.Dispatch.Records.Recorded.{Reported, write_job_record-Reported}
use arjim.Dispatch.Ordering.{
  agent_text, job_record, bind_agent, spawned_result, dispatch_after_write, stop_with, after_write,
  write_and_spawn,
}
use arjim.Dispatch.Ordering.Started.{
  OfOutput, Recorded, bytes_of, agent_args, RecordFirst, spawns, Spawned, Spawned-Quiet,
  Spawned-created, Spawned-wrote, Told,
}

module _ (rt : Runtime) (adapter : PaseoAdapter) (workspace : FilePath) where
  record Ready (d : Draft) (s : Run) : Type 0 where
    idle : Spawned rt adapter workspace 0 s
    recorded : Recorded rt adapter workspace d s.log

  abbrev AfterRun {ℓ} : {A : Type ℓ} → Result A → Run → Type 0
  AfterRun (ok a) s = Spawned rt adapter workspace 1 s
  AfterRun (err e) s = OfOutput rt adapter workspace e × Spawned rt adapter workspace 1 s

  abbrev AfterSpawn : Result SpawnResult → Run → Type 0
  AfterSpawn (ok (spawned agent_id)) s = Spawned rt adapter workspace 1 s
  AfterSpawn (ok (unreachable code)) s =
      Spawned rt adapter workspace 0 s ⊎ Spawned rt adapter workspace 1 s
  AfterSpawn (err e) s = OfOutput rt adapter workspace e × Spawned rt adapter workspace 1 s

  module _ (os : Os) (store : Store) where
    run-AfterRun :
        (d : Draft) → Ensures (Ready d) (os_run os (agent_args rt adapter workspace d)) AfterRun
    unfolding os_run spawns RecordFirst
    run-AfterRun d =
        Ensures-call AfterRun (λ log. os.run log (agent_args rt adapter workspace d))
          (λ a. ran (agent_args rt adapter workspace d))
          λ s a v. record {
            count = ap suc v.idle.count;
            first = ((d, (refl, v.recorded)), v.idle.first);
          }

    replied-AfterRun :
        (r : RunReply) → Ensures (Spawned rt adapter workspace 1) (replied os r) AfterRun
    replied-AfterRun (exited p) = Ensures-pure AfterRun (some p) λ s v. v
    replied-AfterRun not_run = Ensures-pure AfterRun none λ s v. v
    replied-AfterRun not_text = Ensures-raise AfterRun Exn.unicode_error λ s v. (inl refl, v)

    process-AfterRun :
        (d : Draft)
        → Ensures (Ready d) (run_process os (agent_args rt adapter workspace d)) AfterRun
    unfolding run_process
    process-AfterRun d =
        Ensures-bind AfterRun (os_run os (agent_args rt adapter workspace d)) _ (run-AfterRun d)
          replied-AfterRun λ e s v. v

    parse_output-AfterRun :
        (text : List ℕ)
        → Ensures (Spawned rt adapter workspace 1) (parse_output rt os adapter text) AfterRun
    unfolding parse_output
    parse_output-AfterRun text = go (rt.too_deep text)
      where
        go :
            (b : Bool)
            → Ensures
                (Spawned rt adapter workspace 1)
                (if b then raise Exn.recursion_error else pure (document_of (rt.loads text)))
                AfterRun
        go true = Ensures-raise AfterRun Exn.recursion_error λ s v. (inr refl, v)
        go false = Ensures-pure AfterRun _ λ s v. v

    spawned_from-AfterSpawn :
        (proc : Option Process)
        → Ensures (Spawned rt adapter workspace 1) (spawned_from rt os adapter proc) AfterSpawn
    unfolding spawned_from
    spawned_from-AfterSpawn none = Ensures-pure AfterSpawn (unreachable "cli-failed") λ s v. inr v
    spawned_from-AfterSpawn (some proc) = go proc.success
      where
        go :
            (b : Bool)
            → Ensures
                (Spawned rt adapter workspace 1)
                (if not b
                  then pure (unreachable "spawn-failed")
                  else (parse_output rt os adapter proc.stdout >>= λ data_of.
                      pure (spawned (agent_id_of data_of))))
                AfterSpawn
        go false = Ensures-pure AfterSpawn (unreachable "spawn-failed") λ s v. inr v
        go true =
            Ensures-bind AfterRun (parse_output rt os adapter proc.stdout) _
              (parse_output-AfterRun proc.stdout) (λ d. Ensures-pure AfterSpawn _ λ s v. v)
              λ e s v. v

    abbrev spawn_of : Draft → M SpawnResult
    spawn_of d =
        spawn rt os adapter d.normalized_instruction d.workspace_path d.dispatch_posture.provider
          d.dispatch_posture.model d.dispatch_posture.mode d.dispatch_posture.thinking d.job_id

    spawn-AfterSpawn : (d : Draft) → Ensures (Ready d) (spawn_of d) AfterSpawn
    unfolding spawn run_cli
    spawn-AfterSpawn d = go adapter.init_error
      where
        go :
            (b : Bool)
            → Ensures
                (Ready d)
                (if b
                  then pure (unreachable "adapter-init-failed")
                  else (run_process os (agent_args rt adapter workspace d)
                      >>= spawned_from rt os adapter))
                AfterSpawn
        go true = Ensures-pure AfterSpawn (unreachable "adapter-init-failed") λ s v. inl v.idle
        go false =
            Ensures-bind AfterRun (run_process os (agent_args rt adapter workspace d)) _
              (process-AfterRun d) spawned_from-AfterSpawn λ e s v. v

    -- The binding of the job raises nothing.
    abbrev Bound : Result Store → Run → Type 0
    Bound (ok store) s = Spawned rt adapter workspace 1 s
    Bound (err e) s = ⊥

    connected_from-Keeps :
        (r : OpenReply) → Keeps (Spawned rt adapter workspace 1) (connected_from os r)
    connected_from-Keeps store_opened = search keeps
    connected_from-Keeps no_directory = search keeps
    connected_from-Keeps open_failed = search keeps

    bind_job-Keeps :
        (job_id now agent_id : String)
        → Keeps (Spawned rt adapter workspace 1) (bind_job os store job_id agent_id now)
    unfolding bind_job run_transaction connect
    bind_job-Keeps job_id now agent_id = search (keeps, quiet, Spawned-Quiet, connected_from-Keeps)

    bind_agent-Bound :
        (job_id now : String) (agent_id : Option String)
        → Ensures
            (Spawned rt adapter workspace 1)
            (bind_agent rt os adapter store job_id now agent_id)
            Bound
    unfolding bind_agent
    bind_agent-Bound job_id now none = Ensures-pure Bound store λ s v. v
    bind_agent-Bound job_id now (some agent_id) =
        Ensures-attempt (λ r s. Spawned rt adapter workspace 1 s)
          (bind_job os store job_id agent_id now) _
          (Ensures-Keeps _ _ (bind_job-Keeps job_id now agent_id) λ r s v. v) (λ after s v. v)
          λ e. Ensures-pure Bound store λ s v. v

    spawned_result-Told :
        (d : Draft) (now : String) (r : SpawnResult)
        → Ensures
            (AfterSpawn (ok r))
            (spawned_result rt os adapter store d now r)
            (Told rt adapter workspace)
    unfolding spawned_result
    spawned_result-Told d now (unreachable code) =
        Ensures-pure (Told rt adapter workspace) _ λ s v. v
    spawned_result-Told d now (spawned agent_id) =
        Ensures-bind Bound _ _ (bind_agent-Bound d.job_id now (agent_text rt agent_id))
          (λ after. Ensures-pure (Told rt adapter workspace) _ λ s v. v) λ e s v. absurd v

    dispatch_after_write-Told :
        (d : Draft) (now : String)
        → Ensures
            (Ready d)
            (dispatch_after_write rt os adapter store d now)
            (Told rt adapter workspace)
    unfolding dispatch_after_write
    dispatch_after_write-Told d now =
        Ensures-bind AfterSpawn (spawn_of d) _ (spawn-AfterSpawn d) (spawned_result-Told d now)
          λ e s v. inr v

    stop_with-Told :
        (d : Draft) (code : String)
        → Ensures
            (Spawned rt adapter workspace 0)
            (stop_with rt os adapter store d code)
            (Told rt adapter workspace)
    unfolding stop_with
    stop_with-Told d code = Ensures-pure (Told rt adapter workspace) _ λ s v. v

    after_write-Told :
        (d : Draft) (identity actor now : String) (code_of : WriteStatus → String)
        (status : WriteStatus)
        → Ensures
            (Reported
              (Spawned rt adapter workspace 0)
              (record_path workspace d.job_id)
              (bytes_of rt adapter workspace d identity actor now)
              (ok status))
            (after_write rt os adapter store d now code_of status)
            (Told rt adapter workspace)
    unfolding after_write
    after_write-Told d identity actor now code_of written =
        Ensures-from (Told rt adapter workspace) _
          (λ s v. record { idle = v.0; recorded = (identity, (actor, (now, v.1))) })
          (dispatch_after_write-Told d now)
    after_write-Told d identity actor now code_of collision = stop_with-Told d (code_of collision)
    after_write-Told d identity actor now code_of write_failed =
        stop_with-Told d (code_of write_failed)
    after_write-Told d identity actor now code_of written_unverified =
        stop_with-Told d (code_of written_unverified)

    abbrev pub Same {ℓ} : {A : Type ℓ} → Result A → Run → Type 0
    Same r s = Spawned rt adapter workspace 0 s

    pub write_and_spawn-Told :
        (d : Draft) (actor : String) (code_of : WriteStatus → String) (identity : String)
        → Ensures
            (Spawned rt adapter workspace 0)
            (write_and_spawn rt os adapter store d actor code_of workspace identity)
            (Told rt adapter workspace)
    unfolding write_and_spawn
    write_and_spawn-Told d actor code_of identity =
        Ensures-bind Same (time_now os) _
          (Ensures-Keeps Same _ (search (quiet, Spawned-Quiet)) λ r s v. v)
          (λ time.
            let now = rt.format_timestamp time in
            Ensures-bind
              (Reported (Spawned rt adapter workspace 0) (record_path workspace d.job_id)
                (bytes_of rt adapter workspace d identity actor now))
              _ _
              (write_job_record-Reported (Spawned-Quiet rt adapter workspace 0) rt os workspace
                d.job_id (job_record d identity actor now)
                (Spawned-created rt adapter workspace 0 (record_path workspace d.job_id))
                (Spawned-wrote rt adapter workspace 0 (record_path workspace d.job_id)))
              (after_write-Told d identity actor now code_of) λ e s v. inl v)
          λ e s v. inl v
