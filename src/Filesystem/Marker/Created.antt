-- ===== src/Filesystem/Marker/Created.antt =====
-- filesystem.py: under the lock, the create-only write of the marker is safe, and the marker is
-- one that the run has created.
use arjim.Base.{ℕ, arith, Bool, true, false, List, ltb, length, if◌then◌else◌}
use arjim.Errors.{Result, ok, err, Exn}
use arjim.Effects.{
  FilePath, Os, Run, os_create, raise, Reply, done, already_exists, not_found, failed, ◌>>=◌,
}
use arjim.Effects.Rules.{Ensures, Ensures-bind, Ensures-Keeps, Ensures-raise}
use arjim.Trace.{Safe}
use arjim.Trace.Creation.{Own, Made, os_create-Made}
use arjim.Filesystem.{marker_path, max_marker_read_bytes}
use arjim.Filesystem.Writes.{write_fd}
use arjim.Filesystem.Writes.Kept.{write_fd-Own}
use arjim.Filesystem.Marker.{create_marker_from, write_marker_create_only}

-- What a create-only write of the marker ends in.
abbrev pub Written : FilePath → Result (Unit {0}) → Run → Type 0
Written w (ok _) s = Own w true (marker_path w) s
Written w (err _) s = Safe w true s

module _ (os : Os) (w : FilePath) where
  Own-Written : (r : Result (Unit {0})) (s : Run) → Own w true (marker_path w) s → Written w r s
  Own-Written (ok u) s v = v
  Own-Written (err e) s v = v.safe

  create_from-Written :
      (bytes : List ℕ) (r : Reply)
      → Ensures
          (Made w true (marker_path w) (ok r))
          (create_marker_from os (marker_path w) bytes r)
          (Written w)
  unfolding create_marker_from
  create_from-Written bytes done =
      Ensures-Keeps (Written w) (write_fd os (marker_path w) bytes)
        (write_fd-Own os w (marker_path w) true bytes) Own-Written
  create_from-Written bytes already_exists = Ensures-raise (Written w) Exn.create_collision λ s v. v
  create_from-Written bytes not_found = Ensures-raise (Written w) Exn.write_failed λ s v. v
  create_from-Written bytes failed = Ensures-raise (Written w) Exn.write_failed λ s v. v

  pub write_marker_create_only-Written :
      (bytes : List ℕ) → Ensures (Safe w true) (write_marker_create_only os w bytes) (Written w)
  unfolding write_marker_create_only
  write_marker_create_only-Written bytes = go (ltb max_marker_read_bytes (length bytes))
    where
      go :
          (b : Bool)
          → Ensures
              (Safe w true)
              (if b
                then raise Exn.write_failed
                else (os_create os (marker_path w) >>= create_marker_from os (marker_path w) bytes))
              (Written w)
      go true = Ensures-raise (Written w) Exn.write_failed λ s v. v
      go false =
          Ensures-bind (Made w true (marker_path w)) (os_create os (marker_path w))
            (create_marker_from os (marker_path w) bytes)
            (os_create-Made os w true (marker_path w) (ground arith)) (create_from-Written bytes)
            λ e s v. v
