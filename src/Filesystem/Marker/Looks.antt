-- ===== src/Filesystem/Marker/Looks.antt =====
-- filesystem.py: reading the marker, and looking for it, change no file.
use arjim.Base.{Option, none, some, List, ℕ}
use arjim.Effects.{FilePath, Os, Run}
use arjim.Effects.Rules.{Keeps}
use arjim.Trace.Quiet.{Quiet, keeps, quiet}
use arjim.Filesystem.Marker.{read_from, read_marker, verify_marker_absent}

module _ {P : Run → Type 0} (q : Quiet P) (os : Os) where
  read_from-Keeps : (r : Option (List ℕ)) → Keeps P (read_from os r)
  unfolding read_from
  read_from-Keeps none = search keeps
  read_from-Keeps (some raw) = search keeps

  pub read_marker-Keeps : (w : FilePath) → Keeps P (read_marker os w)
  unfolding read_marker
  read_marker-Keeps w = search (keeps, quiet, read_from-Keeps)

  pub verify_marker_absent-Keeps : (w : FilePath) → Keeps P (verify_marker_absent os w)
  unfolding verify_marker_absent
  verify_marker_absent-Keeps w = search (keeps, quiet)
