-- ===== src/Filesystem/Metadata.antt =====
-- filesystem.py: the metadata of the lock, its staleness and how it is read.
pub mod Looks
pub mod Evidence
use arjim.Base.{
  ℕ, zero, suc, ◌+◌, String, Option, none, some, Bool, true, false, ◌&&◌, ◌||◌, not, List, [], ◌∷◌,
  drop, length, ltb, leb, if◌then◌else◌, ◌==◌, ◌!=◌, nat_eq, string_eq, list_eq,
}
use arjim.Json.{Json, str, int, obj, field, end, get}
use arjim.Errors.{Exn, Result, ok, err}
use arjim.Runtime.{Runtime, to_str, Loaded, document, decode_error, other_error}
use arjim.Effects.{
  FilePath, Reply, done, already_exists, not_found, failed, KillReply, delivered, no_such_process,
  kill_failed, Os, M, pure, raise, ◌>>=◌, ◌>>◌, attempt, finally, os_mkdir, os_create, os_write,
  os_fsync, os_close, os_read, os_read_all, os_unlink, os_replace, os_kill, time_now,
  time_monotonic, sleep, token,
}
use arjim.Filesystem.{
  TargetHandle, handle_to_dict, handle_from_dict, parent_path, lock_path, max_lock_metadata_bytes,
  capture_target_handle,
}

pub record LockMetadata : Type 0 where
  pub owner_id : String
  pub pid : ℕ
  pub target_handle : TargetHandle
  pub started_at : String
  pub lease_until : String

module _ (rt : Runtime) where
  -- `LockMetadata.to_bytes`
  pub metadata_to_bytes : LockMetadata → List ℕ
  metadata_to_bytes m = rt.encode_utf8 (
      rt.dumps_ascii (
        obj (
          field "owner_id" (str m.owner_id) (
            field "pid" (int m.pid) (
              field "target_handle" (handle_to_dict rt m.target_handle) (
                field "started_at" (str m.started_at)
                  (field "lease_until" (str m.lease_until) end)))))))

  abbrev build :
      Option TargetHandle → Option Json → Option ℕ → Option Json → Option Json → Option LockMetadata
  build (some h) (some owner) (some pid) (some started) (some lease) = some (record {
    owner_id = to_str rt owner;
    pid = pid;
    target_handle = h;
    started_at = to_str rt started;
    lease_until = to_str rt lease;
  })
  build _ _ _ _ _ = none

  to_int_of : Option Json → Option ℕ
  to_int_of none = none
  to_int_of (some v) = rt.to_int v

  handle_field : Option Json → Option TargetHandle
  handle_field none = none
  handle_field (some d) = handle_from_dict rt d

  metadata_of : Json → Option LockMetadata
  unfolding to_int_of handle_field get
  metadata_of d =
      build (handle_field (get "target_handle" d)) (get "owner_id" d) (to_int_of (get "pid" d))
        (get "started_at" d) (get "lease_until" d)

  -- `if not metadata.owner_id or metadata.pid <= 0: raise`
  check_metadata : Option LockMetadata → Option LockMetadata
  check_metadata none = none
  check_metadata (some m) = if m.owner_id == "" || m.pid == 0 then none else some m

  metadata_loaded : Loaded → Option LockMetadata
  unfolding metadata_of check_metadata
  metadata_loaded (document d) = check_metadata (metadata_of d)
  metadata_loaded decode_error = none
  metadata_loaded other_error = none

  metadata_decoded : Option (List ℕ) → Option LockMetadata
  unfolding metadata_loaded
  metadata_decoded none = none
  metadata_decoded (some text) = metadata_loaded (rt.loads text)

  -- `LockMetadata.from_bytes`, where `none` is its ValueError
  pub metadata_from_bytes : List ℕ → Option LockMetadata
  unfolding metadata_decoded
  metadata_from_bytes raw =
      if ltb max_lock_metadata_bytes (length raw)
      then none
      else metadata_decoded (rt.decode_utf8 raw)

  pub metadata_read : Option (List ℕ) → Option LockMetadata
  unfolding metadata_from_bytes
  metadata_read none = none
  metadata_read (some raw) = metadata_from_bytes raw

module _ (rt : Runtime) (os : Os) where
  expired_at : Option ℕ → M Bool
  expired_at none = pure false
  expired_at (some deadline) = do now ← time_now os; pure (ltb deadline now)

  -- `LockMetadata.lease_expired`; a deadline that cannot be parsed has not passed
  lease_expired : LockMetadata → M Bool
  unfolding expired_at
  lease_expired m = expired_at (rt.parse_timestamp m.lease_until)

  alive_from : KillReply → Bool
  alive_from no_such_process = false
  alive_from _ = true

  -- `_pid_alive` on POSIX; a check that fails counts as alive
  pid_alive : ℕ → M Bool
  unfolding alive_from
  pid_alive pid = if pid == 0 then pure true else do reply ← os_kill os pid; pure (alive_from reply)

  -- `LockMetadata.is_stale`: the owner is asked about only if the lease has expired
  pub is_stale : LockMetadata → M Bool
  unfolding lease_expired pid_alive
  is_stale m = do
    expired ← lease_expired m
    if expired then (do alive ← pid_alive m.pid; pure (not alive)) else pure false

  pub read_lock_metadata : FilePath → M (Option LockMetadata)
  unfolding metadata_read
  read_lock_metadata workspace = do
    raw ← os_read os (lock_path workspace) (suc max_lock_metadata_bytes)
    pure (metadata_read rt raw)
