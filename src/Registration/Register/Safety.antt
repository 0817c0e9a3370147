-- ===== src/Registration/Register/Safety.antt =====
-- registration.py: what a registration may do to the files of the workspace.
use arjim.Base.{arith, Option, none, some, Bool, true, false, List, ℕ, ◌⊎◌, inl, inr}
use arjim.Errors.{Exn, Result, ok, err}
use arjim.Effects.{FilePath, Os, Run}
use arjim.Effects.Rules.{Keeps}
use arjim.Runtime.{Runtime}
use arjim.Trace.{Safe, CreateOnly}
use arjim.Trace.Quiet.{Safe-Quiet, keeps, quiet}
use arjim.Filesystem.{TargetHandle}
use arjim.Filesystem.Marker.{write_marker_create_only}
use arjim.Filesystem.Marker.Created.{Written, write_marker_create_only-Written}
use arjim.Filesystem.Lock.Session.{with_lock-Keeps}
use arjim.Registration.{Hook, Draft, Confirmation, RegistrationResult}
use arjim.Registration.Inspect.Looks.{marker_present-Keeps}
use arjim.Registration.Projecting.Looks.{capture_or_stop-Keeps}
use arjim.Registration.Register.Looks.{collision_result-Keeps, readback_and_project-Keeps}
use arjim.Registration.Register.{
  write_refused, after_write, write_marker, created_parent, locked, lock_refused, consume_and_lock,
  parent_kept, check_parent, revalidate, register,
}

module _ (rt : Runtime) (os : Os) (hook : Hook) (w : FilePath) where
  write_kept : (bytes : List ℕ) → Keeps (Safe w true) (write_marker_create_only os w bytes)
  write_kept bytes = record {
    at = λ s v.
        forget (write_marker_create_only os w bytes s).0 (write_marker_create_only os w bytes s).1
          ((write_marker_create_only-Written os w bytes).at s v);
  }
    where
      forget : (r : Result (Unit {0})) (s : Run) → Written w r s → Safe w true s
      forget (ok u) s v = v.safe
      forget (err e) s v = v

  write_refused-Keeps :
      (h : TargetHandle) (n : ℕ) (e : Exn) → Keeps (Safe w true) (write_refused rt os hook w h n e)
  write_refused-Keeps h n Exn.create_collision = search (keeps, collision_result-Keeps, Safe-Quiet)
  write_refused-Keeps h n Exn.write_failed = search keeps
  write_refused-Keeps h n _ = search keeps

  after_write-Keeps :
      (d : Draft) (expected : TargetHandle) (n : ℕ) (r : Unit {0} ⊎ RegistrationResult)
      → Keeps (Safe w true) (after_write rt os hook w d expected n r)
  unfolding after_write
  after_write-Keeps d expected n (inl u) = search (readback_and_project-Keeps, Safe-Quiet)
  after_write-Keeps d expected n (inr r) = search keeps

  write_marker-Keeps :
      (d : Draft) (bytes : List ℕ) (current expected : TargetHandle) (n : ℕ)
      → Keeps (Safe w true) (write_marker rt os hook w d bytes current expected n)
  unfolding write_marker
  write_marker-Keeps d bytes current expected n =
      search (keeps, write_kept, write_refused-Keeps, after_write-Keeps)

  created_parent-Keeps :
      (d : Draft) (bytes : List ℕ) (current : TargetHandle) (n : ℕ)
      (r : TargetHandle ⊎ RegistrationResult)
      → Keeps (Safe w true) (created_parent rt os hook w d bytes current n r)
  unfolding created_parent
  created_parent-Keeps d bytes current n (inl c) = search (keeps, write_marker-Keeps)
  created_parent-Keeps d bytes current n (inr r) = search keeps

  locked-Keeps :
      (d : Draft) (bytes : List ℕ) (current : TargetHandle) (n : ℕ)
      → Keeps (Safe w true) (locked rt os hook w d bytes current n)
  unfolding locked
  locked-Keeps d bytes current n =
      search (keeps, Safe-Quiet, capture_or_stop-Keeps, created_parent-Keeps, write_marker-Keeps)

  lock_refused-Keeps : (e : Exn) → Keeps (Safe w false) (lock_refused rt os hook e)
  lock_refused-Keeps Exn.lock_unavailable = search keeps
  lock_refused-Keeps _ = search keeps

  consume_and_lock-Keeps :
      (d : Draft) (current : TargetHandle) (n timeout : ℕ)
      → Keeps (Safe w false) (consume_and_lock rt os hook w d current n timeout)
  unfolding consume_and_lock
  consume_and_lock-Keeps d current n timeout =
      search (keeps, quiet, Safe-Quiet, with_lock-Keeps, locked-Keeps, lock_refused-Keeps)

  parent_kept-Keeps :
      (d : Draft) (current : TargetHandle) (n timeout : ℕ) (r : TargetHandle ⊎ RegistrationResult)
      → Keeps (Safe w false) (parent_kept rt os hook w d current n timeout r)
  unfolding parent_kept
  parent_kept-Keeps d current n timeout (inl h) = search (keeps, consume_and_lock-Keeps)
  parent_kept-Keeps d current n timeout (inr r) = search keeps

  check_parent-Keeps :
      (d : Draft) (current : TargetHandle) (n timeout : ℕ) (b : Bool)
      → Keeps (Safe w false) (check_parent rt os hook w d current n timeout b)
  unfolding check_parent
  check_parent-Keeps d current n timeout b =
      search (keeps, Safe-Quiet, consume_and_lock-Keeps, parent_kept-Keeps, capture_or_stop-Keeps)

  revalidate-Keeps :
      (d : Draft) (n timeout : ℕ) (r : TargetHandle ⊎ RegistrationResult)
      → Keeps (Safe w false) (revalidate rt os hook w d n timeout r)
  unfolding revalidate
  revalidate-Keeps d n timeout (inl c) =
      search (keeps, quiet, Safe-Quiet, marker_present-Keeps, check_parent-Keeps) depth 8
  revalidate-Keeps d n timeout (inr r) = search keeps

  register-Safe :
      (d : Draft) (c : Option Confirmation) (n timeout : ℕ)
      → Keeps (Safe w false) (register rt os hook w d c n timeout)
  unfolding register
  register-Safe d none n timeout = search keeps
  register-Safe d (some c) n timeout =
      search (keeps, quiet, Safe-Quiet, capture_or_stop-Keeps, revalidate-Keeps) depth 8

  -- Whatever the operating system answers and whenever other processes act, `register` creates a
  -- marker only while it holds the lock, writes bytes only to files that it has created itself
  -- with O_EXCL, and never removes a marker nor puts another file in its place.
  pub register-CreateOnly :
      (d : Draft) (c : Option Confirmation) (n timeout : ℕ) (s : Run)
      → CreateOnly w s.log
      → CreateOnly w (register rt os hook w d c n timeout s).1.log
  register-CreateOnly d c n timeout s v =
      ((register-Safe d c n timeout).at s
        (record { create_only = v; lock = λ e. ground (arith, e) })).create_only
