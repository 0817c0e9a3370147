-- ===== src/Filesystem/Writes.antt =====
-- filesystem.py: the loop of `os.write` that the lock and the marker are written by.
pub mod Kept
pub mod Complete
use arjim.Base.{
  ℕ, zero, suc, ◌+◌, String, Option, none, some, Bool, true, false, ◌&&◌, ◌||◌, not, List, [], ◌∷◌,
  drop, length, ltb, leb, if◌then◌else◌, ◌==◌, ◌!=◌, nat_eq, string_eq, list_eq,
}
use arjim.Json.{Json, str, int, obj, field, end, get}
use arjim.Errors.{Exn, Result, ok, err}
use arjim.Runtime.{Runtime, Loaded, document, decode_error, other_error}
use arjim.Effects.{
  FilePath, Reply, done, already_exists, not_found, failed, KillReply, delivered, no_such_process,
  kill_failed, Os, M, pure, raise, ◌>>=◌, ◌>>◌, attempt, finally, os_mkdir, os_create, os_write,
  os_fsync, os_close, os_read, os_read_all, os_unlink, os_replace, os_kill, time_now,
  time_monotonic, sleep, token,
}
use arjim.Filesystem.{
  TargetHandle, handle_to_dict, handle_from_dict, parent_path, lock_path, max_lock_metadata_bytes,
  capture_target_handle,
}

module _ (os : Os) where
  -- `while view: written = os.write(fd, view); …`. Each round writes at least a byte, so as much
  -- fuel as there are bytes, and one round for the end, are enough. An OSError of `os.write` is
  -- not caught here.
  wrote_from : (List ℕ → M (Unit {0})) → List ℕ → Option ℕ → M (Unit {0})
  wrote_from again view none = raise Exn.os_error
  wrote_from again view (some written) =
      if leb written 0 then raise Exn.write_failed else again (drop written view)

  pub write_loop : FilePath → ℕ → List ℕ → M (Unit {0})
  unfolding wrote_from
  write_loop p zero view = raise Exn.unfinished
  write_loop p (suc fuel) [] = pure tt
  write_loop p (suc fuel) (b ∷ bs) = do
    written ← os_write os p (b ∷ bs)
    wrote_from (write_loop p fuel) (b ∷ bs) written

  synced_from : Bool → M (Unit {0})
  synced_from true = pure tt
  synced_from false = raise Exn.os_error

  -- The writes, `os.fsync` and the `finally: os.close(fd)` that three functions share.
  pub write_fd : FilePath → List ℕ → M (Unit {0})
  unfolding write_loop synced_from
  write_fd p payload =
      finally
        (do
          write_loop p (suc (length payload)) payload
          ok_sync ← os_fsync os p
          synced_from ok_sync)
        (os_close os p)
