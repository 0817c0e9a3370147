-- ===== src/Filesystem/Lock/Recovery.antt =====
-- filesystem.py: the recovery of a stale lock on request, which is confirmed by a target handle.
pub mod Replaced
use arjim.Base.{
  ℕ, ◌+◌, String, Option, none, some, Bool, true, not, if◌then◌else◌, ◌!=◌, list_eq, nat_eq,
}
use arjim.Errors.{Exn}
use arjim.Runtime.{Runtime}
use arjim.Effects.{FilePath, Os, M, pure, raise, ◌>>=◌, token, time_now}
use arjim.Filesystem.{TargetHandle, capture_target_handle}
use arjim.Filesystem.Metadata.{LockMetadata, is_stale, read_lock_metadata}
use arjim.Filesystem.Lock.{replace_lock_file}

module _ (rt : Runtime) (os : Os) where
  -- `lock_metadata`
  unfoldable pub lock_metadata : FilePath → M (Option LockMetadata)
  lock_metadata workspace = read_lock_metadata rt os workspace

  owner_or_token : Option String → M String
  owner_or_token none = token os
  owner_or_token (some owner_id) = pure owner_id

  replace_stale : FilePath → TargetHandle → Option String → ℕ → Bool → M Bool
  unfolding owner_or_token
  replace_stale workspace current owner_id lease_seconds stale =
      if not stale then raise Exn.lock_not_recoverable else do
        owner ← owner_or_token owner_id
        started ← time_now os
        from ← time_now os
        replaced ← replace_lock_file rt os workspace (record {
          owner_id = owner;
          pid = os.pid;
          target_handle = current;
          started_at = rt.format_timestamp started;
          lease_until = rt.format_timestamp (from + lease_seconds);
        })
        pure true

  recover_found :
      FilePath → TargetHandle → TargetHandle → Option String → ℕ → Option LockMetadata → M Bool
  unfolding replace_stale
  recover_found workspace confirmed current owner_id lease_seconds none = pure true
  recover_found workspace confirmed current owner_id lease_seconds (some existing) =
      if existing.target_handle.workspace != confirmed.workspace
      then raise Exn.lock_not_recoverable
      else do
        stale ← is_stale rt os existing
        replace_stale workspace current owner_id lease_seconds stale

  recover_captured : FilePath → TargetHandle → TargetHandle → Option String → ℕ → M Bool
  unfolding recover_found
  recover_captured workspace confirmed current owner_id lease_seconds =
      if current.workspace != confirmed.workspace then raise Exn.lock_not_recoverable else do
        existing ← read_lock_metadata rt os workspace
        recover_found workspace confirmed current owner_id lease_seconds existing

  pub recover_lock : FilePath → TargetHandle → Option String → ℕ → M Bool
  unfolding recover_captured
  recover_lock workspace confirmed owner_id lease_seconds = do
    current ← capture_target_handle rt os workspace
    recover_captured workspace confirmed current owner_id lease_seconds
