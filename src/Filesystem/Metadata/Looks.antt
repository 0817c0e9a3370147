-- ===== src/Filesystem/Metadata/Looks.antt =====
-- filesystem.py: reading the metadata of the lock, and its staleness, change no file and raise nothing.
use arjim.Base.{ℕ, Option, none, some}
use arjim.Errors.{Exn}
use arjim.Effects.{FilePath, Os, Run, time_now, os_kill, os_read}
use arjim.Effects.Raises.{Raises, raises}
use arjim.Effects.Rules.{Keeps}
use arjim.Runtime.{Runtime}
use arjim.Trace.Quiet.{Quiet, keeps, quiet}
use arjim.Filesystem.Metadata.{
  LockMetadata, expired_at, lease_expired, pid_alive, is_stale, read_lock_metadata,
}

module _ {P : Run → Type 0} (q : Quiet P) (rt : Runtime) (os : Os) where
  expired_at-Keeps : (d : Option ℕ) → Keeps P (expired_at rt os d)
  unfolding expired_at
  expired_at-Keeps none = search keeps
  expired_at-Keeps (some d) = search (keeps, quiet)

  lease_expired-Keeps : (m : LockMetadata) → Keeps P (lease_expired rt os m)
  unfolding lease_expired
  lease_expired-Keeps m = expired_at-Keeps (rt.parse_timestamp m.lease_until)

  pid_alive-Keeps : (pid : ℕ) → Keeps P (pid_alive rt os pid)
  unfolding pid_alive
  pid_alive-Keeps pid = search (keeps, quiet)

  pub is_stale-Keeps : (m : LockMetadata) → Keeps P (is_stale rt os m)
  unfolding is_stale
  is_stale-Keeps m = search (keeps, lease_expired-Keeps, pid_alive-Keeps)

  pub read_lock_metadata-Keeps : (w : FilePath) → Keeps P (read_lock_metadata rt os w)
  unfolding read_lock_metadata
  read_lock_metadata-Keeps w = search (keeps, quiet)

module _ {G : Exn → Type 0} (rt : Runtime) (os : Os) where
  expired_at-Raises : (d : Option ℕ) → Raises G (expired_at rt os d)
  unfolding expired_at time_now
  expired_at-Raises none = search raises
  expired_at-Raises (some d) = search raises

  lease_expired-Raises : (m : LockMetadata) → Raises G (lease_expired rt os m)
  unfolding lease_expired
  lease_expired-Raises m = expired_at-Raises (rt.parse_timestamp m.lease_until)

  pid_alive-Raises : (pid : ℕ) → Raises G (pid_alive rt os pid)
  unfolding pid_alive os_kill
  pid_alive-Raises pid = search raises

  pub is_stale-Raises : (m : LockMetadata) → Raises G (is_stale rt os m)
  unfolding is_stale
  is_stale-Raises m = search (raises, lease_expired-Raises, pid_alive-Raises)

  pub read_lock_metadata-Raises : (w : FilePath) → Raises G (read_lock_metadata rt os w)
  unfolding read_lock_metadata os_read
  read_lock_metadata-Raises w = search raises
