-- ===== src/Filesystem/Marker/Flag.antt =====
-- filesystem.py: what every call keeps, the write of a marker keeps.
use arjim.Base.{List, ℕ}
use arjim.Effects.{FilePath, Os, Run, Reply, done, already_exists, not_found, failed}
use arjim.Effects.Rules.{Keeps}
use arjim.Trace.Quiet.{keeps}
use arjim.Trace.Steady.{Steady, steady}
use arjim.Filesystem.Lock.Flag.{Steady-write_fd}
use arjim.Filesystem.Marker.{create_marker_from, write_marker_create_only}

module _ {P : Run → Type 0} (t : Steady P) (os : Os) where
  create_marker_from-Steady :
      (p : FilePath) (bytes : List ℕ) (r : Reply) → Keeps P (create_marker_from os p bytes r)
  unfolding create_marker_from
  create_marker_from-Steady p bytes done = search Steady-write_fd
  create_marker_from-Steady p bytes already_exists = search keeps
  create_marker_from-Steady p bytes not_found = search keeps
  create_marker_from-Steady p bytes failed = search keeps

  pub write_marker_create_only-Steady :
      (w : FilePath) (bytes : List ℕ) → Keeps P (write_marker_create_only os w bytes)
  unfolding write_marker_create_only
  write_marker_create_only-Steady w bytes = search (keeps, steady, create_marker_from-Steady)
