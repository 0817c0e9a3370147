-- ===== src/Filesystem/Lock/Session.antt =====
-- filesystem.py: the lock around an operation, from the rounds of its acquisition to its release.
use arjim.Base.{
  ℕ, arith, zero, suc, String, ◌+◌, leb, string_eq, Bool, true, false, Option, none, some, refl,
}
use arjim.Errors.{Exn}
use arjim.Runtime.{Runtime}
use arjim.Effects.{
  FilePath, Os, M, os_unlink, os_mkdir, raise, attempt, finally, time_now, time_monotonic, sleep,
  unlinked, ◌>>◌,
}
use arjim.Effects.Rules.{
  Keeps, Ensures, Ensures-bind, Ensures-attempt, Keeps-Ensures, Keeps-bind, Keeps-call,
  Ensures-finally,
}
use arjim.Trace.{Safe, CreateOnly, Allowed}
use arjim.Trace.Quiet.{Safe-Quiet, keeps, quiet}
use arjim.Filesystem.{TargetHandle, lock_path, parent_path}
use arjim.Filesystem.Metadata.{LockMetadata}
use arjim.Filesystem.Lock.{
  existing_or, mkdir_from, contend, acquire_lock_once, retry, acquire_loop, acquire_lock,
  release_owned, release_lock, with_lock, default_lease,
}
use arjim.Filesystem.Lock.Holding.{
  Locked, let_go, after, either, refused, create_lock_file-Locked, contend-Locked, mkdir_from-Keeps,
}

module _ (rt : Runtime) (os : Os) (w : FilePath) where
  -- A handler of the acquisition starts where no lock is held.
  recovered :
      (m : M (Unit {0})) (h : Exn → M (Unit {0}))
      → Ensures (Safe w false) m (Locked w)
      → ((e : Exn) → Ensures (Safe w false) (h e) (Locked w))
      → Ensures (Safe w false) (attempt m h) (Locked w)
  recovered m h em eh = Ensures-attempt (Locked w) m h em (λ u s v. v) eh

  existing_or-Locked :
      (rest : M (Unit {0})) (e : Exn)
      → Ensures (Safe w false) rest (Locked w)
      → Ensures (Safe w false) (existing_or rt os rest e) (Locked w)
  existing_or-Locked rest Exn.file_exists k = k
  existing_or-Locked rest e k = refused w _

  acquire_lock_once-Locked :
      (owner : String) (h : TargetHandle) (lease : ℕ) (recover : Bool)
      → Ensures (Safe w false) (acquire_lock_once rt os w owner h lease recover) (Locked w)
  unfolding acquire_lock_once
  acquire_lock_once-Locked owner h lease recover =
      after w (os_mkdir os (parent_path w)) (search (quiet, Safe-Quiet)) λ reply.
        after w (mkdir_from rt os reply) (mkdir_from-Keeps rt os w reply) λ u.
          after w (time_now os) (search (quiet, Safe-Quiet)) λ started.
            recovered _ _ (create_lock_file-Locked rt os w _) λ e.
              existing_or-Locked (contend rt os w _ recover) e (contend-Locked rt os w _ recover)

  retry-Locked :
      (deadline : ℕ) (again : M (Unit {0})) (e : Exn)
      → Ensures (Safe w false) again (Locked w)
      → Ensures (Safe w false) (retry rt os deadline again e) (Locked w)
  retry-Locked deadline again Exn.lock_unavailable k =
      after w (time_monotonic os) (search (quiet, Safe-Quiet)) λ now.
        either w (leb deadline now) (raise Exn.lock_unavailable) (sleep os >> again)
          (refused w Exn.lock_unavailable) (after w (sleep os) (search (quiet, Safe-Quiet)) λ u. k)
  retry-Locked deadline again e k = refused w _

  acquire_loop-Locked :
      (fuel deadline : ℕ) (once : M (Unit {0}))
      → Ensures (Safe w false) once (Locked w)
      → Ensures (Safe w false) (acquire_loop rt os fuel deadline once) (Locked w)
  unfolding acquire_loop
  acquire_loop-Locked zero deadline once k = refused w Exn.unfinished
  acquire_loop-Locked (suc fuel) deadline once k =
      let again = acquire_loop-Locked fuel deadline once k in
      recovered once (retry rt os deadline (acquire_loop rt os fuel deadline once)) k
        λ e. retry-Locked deadline (acquire_loop rt os fuel deadline once) e again

  pub acquire_lock-Locked :
      (owner : String) (h : TargetHandle) (lease timeout : ℕ) (recover : Bool)
      → Ensures (Safe w false) (acquire_lock rt os w owner h lease timeout recover) (Locked w)
  unfolding acquire_lock
  acquire_lock-Locked owner h lease timeout recover =
      after w (time_monotonic os) (search (quiet, Safe-Quiet)) λ start.
        acquire_loop-Locked os.rounds (start + timeout)
          (acquire_lock_once rt os w owner h lease recover)
          (acquire_lock_once-Locked owner h lease recover)

  unlink_lock-Keeps : Keeps (Safe w false) (os_unlink os (lock_path w))
  unfolding os_unlink CreateOnly Allowed
  unlink_lock-Keeps =
      Keeps-call (λ log. os.unlink log (lock_path w)) (unlinked (lock_path w))
        λ s a v. record { create_only = (refl, v.create_only); lock = λ e. ground (arith, e) }

  release_owned-Keeps :
      (owner : String) (m : Option LockMetadata)
      → Keeps (Safe w false) (release_owned rt os w owner m)
  unfolding release_owned
  release_owned-Keeps owner none = search keeps
  release_owned-Keeps owner (some m) = search (keeps, unlink_lock-Keeps)

  pub release_lock-Keeps : (owner : String) → Keeps (Safe w false) (release_lock rt os w owner)
  unfolding release_lock
  release_lock-Keeps owner = search (keeps, quiet, Safe-Quiet, release_owned-Keeps)

  pub with_lock-Keeps {ℓ} :
      {A : Type ℓ} (h : TargetHandle) (timeout : ℕ) (body : M A)
      → Keeps (Safe w true) body
      → Keeps (Safe w false) (with_lock rt os w h timeout body)
  unfolding with_lock
  with_lock-Keeps h timeout body k = Keeps-bind _ _ (search (quiet, Safe-Quiet)) λ owner.
      Keeps-bind _ _ (search (quiet, Safe-Quiet)) λ started. Keeps-Ensures _ (
        Ensures-bind (Locked w)
          (acquire_lock rt os w owner h (started + default_lease rt os) timeout true)
          (λ _. finally body (release_lock rt os w owner))
          (acquire_lock-Locked owner h (started + default_lease rt os) timeout true)
          (λ u.
            Ensures-finally body (release_lock rt os w owner) k (let_go w)
              (release_lock-Keeps owner))
          λ e s v. v)
