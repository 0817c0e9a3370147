-- ===== src/Trace.antt =====
-- Safety of a run of calls on a workspace, read off its events: what a run may do to the marker,
-- whatever the operating system answers and whatever other processes do between two calls.
pub mod Quiet
pub mod Steady
pub mod Creation
pub mod Paths
pub mod Touched
use arjim.Base.{
  ℕ, Bool, true, false, not, ◌&&◌, ◌||◌, ◌≡◌, List, [], ◌∷◌, ◌==◌, list_eq, string_eq,
  if◌then◌else◌,
}
use arjim.Effects.{
  FilePath, Event, Log, Run, Reply, done, statted, resolved, checked, made_dir, created, wrote,
  synced, closed, read, unlinked, replaced, killed, slept, timed, tokened, projected,
  removed_projection,
}
use arjim.Filesystem.{marker_path, lock_path}

abbrev pub is_done : Reply → Bool
is_done done = true
is_done _ = false

abbrev pub is_marker : FilePath → FilePath → Bool
is_marker workspace p = p == marker_path workspace

abbrev pub is_lock : FilePath → FilePath → Bool
is_lock workspace p = p == lock_path workspace

-- The run holds the lock: it has created the lock file, or put its own in the place of another,
-- and has not tried to remove it since.
unfoldable pub holding : FilePath → Log → Bool
holding workspace [] = false
holding workspace (created p r ∷ log) = (is_lock workspace p && is_done r) || holding workspace log
holding workspace (replaced p q r ∷ log) =
    (is_lock workspace q && is_done r) || holding workspace log
holding workspace (unlinked p r ∷ log) = not (is_lock workspace p) && holding workspace log
holding workspace (_ ∷ log) = holding workspace log

-- The run itself has created the file, with O_EXCL.
unfoldable pub owned : FilePath → Log → Bool
owned path [] = false
owned path (created p r ∷ log) = (p == path && is_done r) || owned path log
owned path (_ ∷ log) = owned path log

-- What an event must meet, given the events before it: a marker is created only under the lock,
-- bytes go only to files that the run has created itself, and no event removes the marker or
-- puts another file in its place.
unfoldable pub Allowed : FilePath → Event → Log → Type 0
Allowed workspace (created p r) log = (is_marker workspace p && not (holding workspace log)) ≡ false
Allowed workspace (wrote p chunk r) log = owned p log ≡ true
Allowed workspace (unlinked p r) log = is_marker workspace p ≡ false
Allowed workspace (replaced p q r) log = is_marker workspace q ≡ false
Allowed workspace (_) log = Unit {0}

unfoldable pub CreateOnly : FilePath → Log → Type 0
CreateOnly workspace [] = Unit {0}
CreateOnly workspace (e ∷ log) = Allowed workspace e log × CreateOnly workspace log

-- The invariant of the runs, with (`true`) or without (`false`) the knowledge that the lock is
-- held.
pub record Safe (workspace : FilePath) (held : Bool) (s : Run) : Type 0 where
  pub create_only : CreateOnly workspace s.log
  pub lock : held ≡ true → holding workspace s.log ≡ true
