-- ===== src/Dispatch/Ordering/Started.antt =====
-- dispatch.py: what a run has started, read off its events and its result.
use arjim.Base.{
  ℕ, suc, String, ◌⊎◌, true, ◌≡◌, ◌∙◌, List, [], ◌∷◌, list_eq, nat_eq, arith, string_eq,
}
use arjim.Errors.{Exn, Result, ok, err}
use arjim.Runtime.{Runtime}
use arjim.Effects.{FilePath, Event, Log, Run, ran}
use arjim.Trace.Quiet.{Quiet, is_quiet}
use arjim.Filesystem.Writes.Kept.{KeptByWrite}
use arjim.Dispatch.Store.{Store}
use arjim.Dispatch.Adapter.{PaseoAdapter, spawn_args}
use arjim.Dispatch.Intent.{Draft}
use arjim.Dispatch.Records.{record_path}
use arjim.Dispatch.Records.Recorded.{ReadBack, KeptByCreate}
use arjim.Dispatch.Ordering.{Outcome, DispatchResult, job_record}

-- The processes that a run has started.
unfoldable pub spawns : Log → ℕ
spawns [] = 0
spawns (ran args ∷ log) = suc (spawns log)
spawns (_ ∷ log) = spawns log

module _ (rt : Runtime) (adapter : PaseoAdapter) (workspace : FilePath) where
  abbrev pub bytes_of : Draft → String → String → String → List ℕ
  bytes_of d identity actor now = rt.encode_utf8 (rt.dumps (job_record d identity actor now))

  -- The record of the draft's job has been read back.
  abbrev pub Recorded : Draft → Log → Type 0
  Recorded d log =
      (identity : String) × ((actor : String) × ((now : String) × ReadBack
            (record_path workspace d.job_id) (bytes_of d identity actor now) log))

  abbrev pub agent_args : Draft → List String
  agent_args d =
      adapter.node
      ∷ adapter.cli_js
      ∷ spawn_args d.normalized_instruction d.dispatch_posture.provider d.dispatch_posture.model
          d.dispatch_posture.mode d.dispatch_posture.thinking d.job_id

  -- Each process is the agent of a draft whose job was recorded before.
  unfoldable pub RecordFirst : Log → Type 0
  RecordFirst [] = Unit {0}
  RecordFirst (ran args ∷ log) =
      ((d : Draft) × ((args ≡ agent_args d) × Recorded d log)) × RecordFirst log
  RecordFirst (_ ∷ log) = RecordFirst log

  pub record Spawned (n : ℕ) (s : Run) : Type 0 where
    pub count : spawns s.log ≡ n
    pub first : RecordFirst s.log

  spawns-quiet : (e : Event) → is_quiet e ≡ true → (log : Log) → spawns (e ∷ log) ≡ spawns log
  unfolding spawns
  spawns-quiet _ q log = first_of (ground arith, cc)

  first-quiet :
      (e : Event) → is_quiet e ≡ true → (log : Log) → RecordFirst log → RecordFirst (e ∷ log)
  unfolding RecordFirst
  first-quiet _ q log h = first_of (ground arith, search)

  pub Spawned-Quiet : (n : ℕ) → Quiet (Spawned n)
  Spawned-Quiet n = record {
    event = λ e q s v. record {
      count = spawns-quiet e q s.log ∙ v.count;
      first = first-quiet e q s.log v.first;
    };
    flag = λ s v. record { count = v.count; first = v.first };
  }

  pub Spawned-created : (n : ℕ) (p : FilePath) → KeptByCreate (Spawned n) p
  unfolding spawns RecordFirst
  Spawned-created n p r s v = record { count = v.count; first = v.first }

  pub Spawned-wrote : (n : ℕ) (p : FilePath) → KeptByWrite (Spawned n) p
  unfolding spawns RecordFirst
  Spawned-wrote n p chunk a s v = record { count = v.count; first = v.first }

  -- The exceptions that an output of a process can raise: it is no text, or it nests too deep.
  abbrev pub OfOutput : Exn → Type 0
  OfOutput e = (e ≡ Exn.unicode_error) ⊎ (e ≡ Exn.recursion_error)

  -- What a run has started, by the outcome that it answers with.
  abbrev pub Started : Outcome → Run → Type 0
  Started Outcome.dispatched s = Spawned 1 s
  Started Outcome.partial_success s = Spawned 0 s ⊎ Spawned 1 s
  Started _ s = Spawned 0 s

  abbrev pub Told : Result (DispatchResult × Store) → Run → Type 0
  Told (ok (r, store)) s = Started r.outcome s
  Told (err e) s = Spawned 0 s ⊎ (OfOutput e × Spawned 1 s)
