-- ===== src/Filesystem/Marker.antt =====
-- filesystem.py: the marker primitives.
pub mod Created
pub mod Looks
pub mod Flag
pub mod Attempts
pub mod Deleted
pub mod Conditional
use arjim.Base.{
  ℕ, Option, none, some, Bool, true, false, List, ltb, length, if◌then◌else◌, ◌==◌, ◌!=◌, nat_eq,
  list_eq,
}
use arjim.Errors.{Exn}
use arjim.Effects.{
  FilePath, StatReply, found, missing, stat_failed, Reply, done, already_exists, not_found, failed,
  Os, M, pure, raise, ◌>>=◌, ◌>>◌, os_stat, os_create, os_read, os_unlink,
}
use arjim.Filesystem.{marker_path, max_marker_read_bytes}
use arjim.Filesystem.Writes.{write_fd}

module _ (os : Os) where
  create_marker_from : FilePath → List ℕ → Reply → M (Unit {0})
  create_marker_from target marker_bytes done = write_fd os target marker_bytes
  create_marker_from target marker_bytes already_exists = raise Exn.create_collision
  create_marker_from target marker_bytes _ = raise Exn.write_failed

  pub write_marker_create_only : FilePath → List ℕ → M (Unit {0})
  unfolding create_marker_from
  write_marker_create_only workspace marker_bytes =
      if ltb max_marker_read_bytes (length marker_bytes) then raise Exn.write_failed else do
        reply ← os_create os (marker_path workspace)
        create_marker_from (marker_path workspace) marker_bytes reply

  read_from : Option (List ℕ) → M (List ℕ)
  read_from none = raise Exn.read_back_failed
  read_from (some raw) = pure raw

  pub read_marker : FilePath → M (List ℕ)
  unfolding read_from
  read_marker workspace = do
    raw ← os_read os (marker_path workspace) max_marker_read_bytes
    read_from raw

  deleted_from : Reply → M (Unit {0})
  deleted_from done = pure tt
  deleted_from not_found = raise Exn.file_not_found
  deleted_from _ = raise Exn.filesystem_error

  pub delete_marker : FilePath → M (Unit {0})
  unfolding deleted_from
  delete_marker workspace = do reply ← os_unlink os (marker_path workspace); deleted_from reply

  abbrev is_done : Reply → Bool
  is_done done = true
  is_done _ = false

  -- The read of `conditional_delete_marker`, whose failure is the answer False.
  delete_matching : FilePath → List ℕ → Option (List ℕ) → M Bool
  delete_matching workspace expected none = pure false
  delete_matching workspace expected (some raw) =
      if raw != expected
      then pure false
      else do reply ← os_unlink os (marker_path workspace); pure (is_done reply)

  pub conditional_delete_marker : FilePath → List ℕ → M Bool
  unfolding delete_matching
  conditional_delete_marker workspace expected = do
    raw ← os_read os (marker_path workspace) max_marker_read_bytes
    delete_matching workspace expected raw

  abbrev is_missing : StatReply → Bool
  is_missing missing = true
  is_missing _ = false

  pub verify_marker_absent : FilePath → M Bool
  verify_marker_absent workspace = do
    reply ← os_stat os (marker_path workspace)
    pure (is_missing reply)
