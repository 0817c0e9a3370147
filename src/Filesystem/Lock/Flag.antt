-- ===== src/Filesystem/Lock/Flag.antt =====
-- filesystem.py: what every call keeps, the lock around an operation keeps.
use arjim.Trace.{is_marker}
use arjim.Trace.Paths.{marker-tmp}
use arjim.Base.{◌+◌, ◌≡◌, refl, ℕ, zero, suc, String, Bool, true, false, Option, none, some, List}
use arjim.Errors.{Exn, Result, err}
use arjim.Runtime.{Runtime}
use arjim.Effects.{
  FilePath, Os, Run, M, Reply, done, already_exists, not_found, failed, wrote, ◌>>=◌,
}
use arjim.Effects.Rules.{
  Ensures, Ensures-bind, Ensures-Keeps, Ensures-finally-each, Keeps, Keeps-finally,
}
use arjim.Trace.Quiet.{keeps, quiet}
use arjim.Trace.Steady.{Steady, Steady-Quiet, Beside, Beside-Quiet, beside}
use arjim.Filesystem.{TargetHandle}
use arjim.Filesystem.Writes.{write_fd}
use arjim.Filesystem.Writes.Kept.{write_fd-Keeps}
use arjim.Filesystem.Metadata.{LockMetadata}
use arjim.Filesystem.Metadata.Looks.{is_stale-Keeps, read_lock_metadata-Keeps}
use arjim.Filesystem.Lock.{
  create_lock_from, create_lock_file, replaced_from, replace_lock_from, replace_lock_file,
  existing_or, mkdir_from, recover_existing, contend, acquire_lock_once, retry, acquire_loop,
  acquire_lock, release_owned, release_lock, with_lock, default_lease,
}

module _ {P : Run → Type 0} (t : Steady P) (os : Os) where
  pub Steady-write_fd : (p : FilePath) (payload : List ℕ) → Keeps P (write_fd os p payload)
  Steady-write_fd p payload =
      write_fd-Keeps (Steady-Quiet t) os p (λ chunk a s. t.event (wrote p chunk a) s) payload

module _ {P : Run → Type 0} {w : FilePath} (t : Beside w P) (os : Os) where
  pub Beside-write_fd : (p : FilePath) (payload : List ℕ) → Keeps P (write_fd os p payload)
  Beside-write_fd p payload =
      write_fd-Keeps (Beside-Quiet t) os p (λ chunk a s. t.event (wrote p chunk a) refl s) payload

module _ {P : Run → Type 0} {w : FilePath} (t : Beside w P) (rt : Runtime) (os : Os) where
  create_lock_from-Steady :
      (p : FilePath) (payload : List ℕ) (r : Reply) → Keeps P (create_lock_from rt os p payload r)
  unfolding create_lock_from
  create_lock_from-Steady p payload done = search Beside-write_fd
  create_lock_from-Steady p payload already_exists = search keeps
  create_lock_from-Steady p payload not_found = search keeps
  create_lock_from-Steady p payload failed = search keeps

  create_lock_file-Steady :
      (p : FilePath) (m : LockMetadata)
      → is_marker w p ≡ false
      → Keeps P (create_lock_file rt os p m)
  unfolding create_lock_file
  create_lock_file-Steady p m free = search (keeps, beside, create_lock_from-Steady)

  replaced_from-Steady : (p : FilePath) (r : Reply) → Keeps P (replaced_from rt os p r)
  unfolding replaced_from
  replaced_from-Steady p done = search keeps
  replaced_from-Steady p already_exists = search (keeps, beside)
  replaced_from-Steady p not_found = search (keeps, beside)
  replaced_from-Steady p failed = search (keeps, beside)

  replace_lock_from-Steady :
      (p q : FilePath) (payload : List ℕ) (r : Reply)
      → Keeps P (replace_lock_from rt os p q payload r)
  unfolding replace_lock_from
  replace_lock_from-Steady p q payload done =
      search (keeps, beside, Beside-write_fd, replaced_from-Steady)
  replace_lock_from-Steady p q payload already_exists = search keeps
  replace_lock_from-Steady p q payload not_found = search keeps
  replace_lock_from-Steady p q payload failed = search keeps

  pub replace_lock_file-Steady : (m : LockMetadata) → Keeps P (replace_lock_file rt os w m)
  unfolding replace_lock_file
  replace_lock_file-Steady m = search (keeps, quiet, beside, replace_lock_from-Steady, marker-tmp)

  recover_existing-Steady :
      (m : LockMetadata) (o : Option LockMetadata) → Keeps P (recover_existing rt os w m o)
  unfolding recover_existing
  recover_existing-Steady m none = search keeps
  recover_existing-Steady m (some x) =
      search (keeps, beside, is_stale-Keeps, replace_lock_file-Steady)

  contend-Steady : (m : LockMetadata) (b : Bool) → Keeps P (contend rt os w m b)
  unfolding contend
  contend-Steady m false = search keeps
  contend-Steady m true = search (keeps, beside, read_lock_metadata-Keeps, recover_existing-Steady)

  mkdir_from-Steady : (r : Reply) → Keeps P (mkdir_from rt os r)
  unfolding mkdir_from
  mkdir_from-Steady done = search keeps
  mkdir_from-Steady already_exists = search keeps
  mkdir_from-Steady not_found = search keeps
  mkdir_from-Steady failed = search keeps

  existing_or-Steady :
      (rest : M (Unit {0})) (e : Exn) → Keeps P rest → Keeps P (existing_or rt os rest e)
  existing_or-Steady rest Exn.file_exists k = k
  existing_or-Steady rest e k = search keeps

  pub acquire_lock_once-Steady :
      (owner : String) (h : TargetHandle) (lease : ℕ) (recover : Bool)
      → Keeps P (acquire_lock_once rt os w owner h lease recover)
  unfolding acquire_lock_once
  acquire_lock_once-Steady owner h lease recover =
      search
        (
          keeps, quiet, beside, mkdir_from-Steady, create_lock_file-Steady, existing_or-Steady,
          contend-Steady,
        )
        depth 8

  retry-Steady :
      (deadline : ℕ) (again : M (Unit {0})) (e : Exn)
      → Keeps P again
      → Keeps P (retry rt os deadline again e)
  retry-Steady deadline again Exn.lock_unavailable k = search (keeps, quiet, beside)
  retry-Steady deadline again e k = search keeps

  acquire_loop-Steady :
      (fuel deadline : ℕ) (once : M (Unit {0}))
      → Keeps P once
      → Keeps P (acquire_loop rt os fuel deadline once)
  unfolding acquire_loop
  acquire_loop-Steady zero deadline once k = search keeps
  acquire_loop-Steady (suc fuel) deadline once k =
      let again = acquire_loop-Steady fuel deadline once k in search (keeps, retry-Steady)

  acquire_lock-Steady :
      (owner : String) (h : TargetHandle) (lease timeout : ℕ) (recover : Bool)
      → Keeps P (acquire_lock rt os w owner h lease timeout recover)
  unfolding acquire_lock
  acquire_lock-Steady owner h lease timeout recover =
      search (keeps, quiet, beside, acquire_loop-Steady, acquire_lock_once-Steady)

  release_owned-Steady :
      (owner : String) (m : Option LockMetadata) → Keeps P (release_owned rt os w owner m)
  unfolding release_owned
  release_owned-Steady owner none = search keeps
  release_owned-Steady owner (some m) = search (keeps, beside)

  release_lock-Steady : (owner : String) → Keeps P (release_lock rt os w owner)
  unfolding release_lock
  release_lock-Steady owner = search (keeps, quiet, beside, release_owned-Steady)

  pub with_lock-Steady {ℓ} :
      {A : Type ℓ} (h : TargetHandle) (timeout : ℕ) (body : M A)
      → Keeps P body
      → Keeps P (with_lock rt os w h timeout body)
  unfolding with_lock
  with_lock-Steady h timeout body k =
      search (keeps, quiet, beside, Keeps-finally, acquire_lock-Steady, release_lock-Steady) depth 8

module _ {ℓ} {A : Type ℓ} {P : Run → Type 0} (T : Result A → Run → Type 0)
    (raised : (e : Exn) (s : Run) → T (err e) s) where
  after_step {κ} :
      {B : Type κ} (m : M B) (f : B → M A)
      → Keeps P m
      → ((x : B) → Ensures P (f x) T)
      → Ensures P (m >>= f) T
  after_step m f km kf =
      Ensures-bind (λ r. P) m f (Ensures-Keeps _ m km λ r s v. v) kf λ e s v. raised e s

  -- A lock around an operation ends in what the operation ends in, if that is kept by every call but
  -- the creation of the marker and no exception is asked about.
  pub with_lock-Ensures :
      {w : FilePath} (rt : Runtime) (os : Os) (h : TargetHandle) (timeout : ℕ) (body : M A)
      → Beside w P
      → ((r : Result A) → Beside w (T r))
      → Ensures P body T
      → Ensures P (with_lock rt os w h timeout body) T
  unfolding with_lock
  with_lock-Ensures {w} rt os h timeout body b bt k =
      after_step _ _ (search (quiet, beside)) λ owner.
        after_step _ _ (search (quiet, beside)) λ started.
          after_step _ _
            (acquire_lock-Steady b rt os owner h (started + default_lease rt os) timeout true)
            λ u.
              Ensures-finally-each T body (release_lock rt os w owner) k
                (λ r. release_lock-Steady (bt r) rt os owner) raised
