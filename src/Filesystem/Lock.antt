-- ===== src/Filesystem/Lock.antt =====
-- filesystem.py: the acquisition and the release of the lock of a workspace.
pub mod Recovery
pub mod Session
pub mod Flag
pub mod Value
pub mod Holding
pub mod Attempts
pub mod Deadline
use arjim.Base.{
  ℕ, zero, suc, ◌+◌, String, ◌<>◌, Option, none, some, Bool, true, false, ◌&&◌, ◌||◌, not, List, [],
  ◌∷◌, drop, length, ltb, leb, if◌then◌else◌, ◌==◌, ◌!=◌, nat_eq, string_eq, list_eq,
}
use arjim.Json.{Json, str, int, obj, field, end, get}
use arjim.Errors.{Exn, Result, ok, err}
use arjim.Runtime.{Runtime, Loaded, document, decode_error, other_error}
use arjim.Effects.{
  FilePath, Reply, done, already_exists, not_found, failed, KillReply, delivered, no_such_process,
  kill_failed, Os, M, pure, raise, ◌>>=◌, ◌>>◌, attempt, finally, os_mkdir, os_create, os_write,
  os_fsync, os_close, os_read, os_read_all, os_unlink, os_replace, os_kill, time_now,
  time_monotonic, sleep, token,
}
use arjim.Filesystem.{
  TargetHandle, handle_to_dict, handle_from_dict, parent_path, lock_path, max_lock_metadata_bytes,
  capture_target_handle,
}
use arjim.Filesystem.Metadata.{
  LockMetadata, metadata_to_bytes, metadata_from_bytes, metadata_read, is_stale, read_lock_metadata,
}
use arjim.Filesystem.Writes.{write_fd}

abbrev pub tmp_path : FilePath → String → FilePath
tmp_path workspace hex = ("..registration.lock." <> (hex <> ".tmp")) ∷ parent_path workspace

module _ (rt : Runtime) (os : Os) where
  create_lock_from : FilePath → List ℕ → Reply → M (Unit {0})
  create_lock_from lock payload done = write_fd os lock payload
  create_lock_from lock payload already_exists = raise Exn.file_exists
  create_lock_from lock payload _ = raise Exn.lock_unavailable

  pub create_lock_file : FilePath → LockMetadata → M (Unit {0})
  unfolding create_lock_from
  create_lock_file lock metadata = do
    reply ← os_create os lock
    create_lock_from lock (metadata_to_bytes rt metadata) reply

  replaced_from : FilePath → Reply → M (Unit {0})
  replaced_from tmp done = pure tt
  replaced_from tmp _ = do os_unlink os tmp; raise Exn.lock_unavailable

  replace_lock_from : FilePath → FilePath → List ℕ → Reply → M (Unit {0})
  unfolding replaced_from
  replace_lock_from tmp lock payload done = do
    write_fd os tmp payload
    reply ← os_replace os tmp lock
    replaced_from tmp reply
  replace_lock_from tmp lock payload _ = raise Exn.lock_unavailable

  -- `lock.with_name(f".{LOCK_FILENAME}.{secrets.token_hex(6)}.tmp")`
  pub replace_lock_file : FilePath → LockMetadata → M (Unit {0})
  unfolding replace_lock_from
  replace_lock_file workspace metadata = do
    hex ← token os
    reply ← os_create os (tmp_path workspace hex)
    replace_lock_from (tmp_path workspace hex) (lock_path workspace) (metadata_to_bytes rt metadata)
        reply

  abbrev default_lease : ℕ
  default_lease = 60

  -- `_create_lock_file` raises FileExistsError where there is a lock already; every other error
  -- goes on.
  abbrev existing_or : M (Unit {0}) → Exn → M (Unit {0})
  existing_or rest Exn.file_exists = rest
  existing_or rest e = raise e

  pub mkdir_from : Reply → M (Unit {0})
  mkdir_from done = pure tt
  mkdir_from already_exists = pure tt
  mkdir_from _ = raise Exn.lock_unavailable

  -- A lock that is there is replaced only if it is of the same workspace and stale.
  recover_existing : FilePath → LockMetadata → Option LockMetadata → M (Unit {0})
  unfolding replace_lock_file
  recover_existing workspace metadata none = raise Exn.lock_unavailable
  recover_existing workspace metadata (some existing) =
      if existing.target_handle.workspace != metadata.target_handle.workspace
      then raise Exn.lock_unavailable
      else do
        stale ← is_stale rt os existing
        if stale then replace_lock_file workspace metadata else raise Exn.lock_unavailable

  pub contend : FilePath → LockMetadata → Bool → M (Unit {0})
  unfolding recover_existing
  contend workspace metadata false = raise Exn.lock_unavailable
  contend workspace metadata true = do
    existing ← read_lock_metadata rt os workspace
    recover_existing workspace metadata existing

  -- `_acquire_lock_once`
  pub acquire_lock_once : FilePath → String → TargetHandle → ℕ → Bool → M (Unit {0})
  unfolding create_lock_file mkdir_from contend
  acquire_lock_once workspace owner_id target_handle lease_until recover_stale = do
    reply ← os_mkdir os (parent_path workspace)
    mkdir_from reply
    started ← time_now os
    let metadata : LockMetadata = record {
      owner_id = owner_id;
      pid = os.pid;
      target_handle = target_handle;
      started_at = rt.format_timestamp started;
      lease_until = rt.format_timestamp lease_until;
    }
    attempt (create_lock_file (lock_path workspace) metadata)
        (existing_or (contend workspace metadata recover_stale))

  -- After a refusal: give up at the deadline, or wait and go round again.
  abbrev retry : ℕ → M (Unit {0}) → Exn → M (Unit {0})
  retry deadline again Exn.lock_unavailable = do
    now ← time_monotonic os
    if leb deadline now then raise Exn.lock_unavailable else do sleep os; again
  retry deadline again e = raise e

  acquire_loop : ℕ → ℕ → M (Unit {0}) → M (Unit {0})
  acquire_loop zero deadline once = raise Exn.unfinished
  acquire_loop (suc fuel) deadline once =
      attempt once (retry deadline (acquire_loop fuel deadline once))

  pub acquire_lock : FilePath → String → TargetHandle → ℕ → ℕ → Bool → M (Unit {0})
  unfolding acquire_loop acquire_lock_once
  acquire_lock workspace owner_id target_handle lease_until timeout recover_stale = do
    start ← time_monotonic os
    acquire_loop os.rounds (start + timeout)
        (acquire_lock_once workspace owner_id target_handle lease_until recover_stale)

  -- Only the lock of this owner is removed; a failure to remove it is ignored.
  release_owned : FilePath → String → Option LockMetadata → M (Unit {0})
  release_owned workspace owner_id none = pure tt
  release_owned workspace owner_id (some m) =
      if m.owner_id != owner_id then pure tt else do os_unlink os (lock_path workspace); pure tt

  -- the whole file: there is no bound on this read
  pub release_lock : FilePath → String → M (Unit {0})
  unfolding release_owned
  release_lock workspace owner_id = do
    raw ← os_read_all os (lock_path workspace)
    release_owned workspace owner_id (metadata_read rt raw)

  -- `with registration_lock(…, recover_stale=True, timeout=…): body`. If the acquisition raises,
  -- there is no release.
  pub with_lock {ℓ} : {A : Type ℓ} → FilePath → TargetHandle → ℕ → M A → M A
  with_lock workspace target_handle timeout body = do
    owner_id ← token os
    started ← time_now os
    acquire_lock workspace owner_id target_handle (started + default_lease) timeout true
    finally body (release_lock workspace owner_id)
