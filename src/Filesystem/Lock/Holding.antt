-- ===== src/Filesystem/Lock/Holding.antt =====
-- filesystem.py: a lock that is acquired is held by the run, and acquiring and releasing it are
-- safe for the marker.
use arjim.Base.{
  ◌∷◌, ℕ, arith, String, ◌!=◌, list_eq, nat_eq, Bool, true, false, Option, none, some, refl, List,
  if◌then◌else◌,
}
use arjim.Errors.{Result, ok, err, Exn}
use arjim.Runtime.{Runtime}
use arjim.Effects.{
  FilePath, Os, Run, M, os_create, os_replace, os_unlink, raise, token, Reply, done, already_exists,
  not_found, failed, ◌>>=◌, unlinked, replaced,
}
use arjim.Effects.Rules.{
  Keeps, Ensures, Ensures-bind, Ensures-Keeps, Ensures-raise, Ensures-pure, Ensures-from,
  Ensures-call, Keeps-call,
}
use arjim.Trace.{Safe, CreateOnly, Allowed, holding}
use arjim.Trace.Paths.{marker-tmp, lock-lock}
use arjim.Trace.Quiet.{Safe-Quiet, keeps, quiet}
use arjim.Trace.Creation.{Own, Made, MadeLock, os_create-Made, os_create-MadeLock}
use arjim.Filesystem.{lock_path}
use arjim.Filesystem.Writes.{write_fd}
use arjim.Filesystem.Writes.Kept.{write_fd-Own}
use arjim.Filesystem.Metadata.{LockMetadata, metadata_to_bytes, is_stale, read_lock_metadata}
use arjim.Filesystem.Metadata.Looks.{is_stale-Keeps, read_lock_metadata-Keeps}
use arjim.Filesystem.Lock.{
  tmp_path, create_lock_from, create_lock_file, replaced_from, replace_lock_from, replace_lock_file,
  mkdir_from, recover_existing, contend,
}

-- What an attempt to acquire the lock ends in.
abbrev pub Locked : FilePath → Result (Unit {0}) → Run → Type 0
Locked w (ok _) s = Safe w true s
Locked w (err _) s = Safe w false s

module _ (w : FilePath) where
  pub let_go : {h : Bool} (s : Run) → Safe w h s → Safe w false s
  let_go s v = record { create_only = v.create_only; lock = λ e. ground (arith, e) }

  Own-Locked : (p : FilePath) (r : Result (Unit {0})) (s : Run) → Own w true p s → Locked w r s
  Own-Locked p (ok u) s v = v.safe
  Own-Locked p (err e) s v = let_go s v.safe

  -- The rules for a step before the acquisition, a branch of it, and a refusal.
  pub after {ℓ} :
      {A : Type ℓ} (m : M A) {f : A → M (Unit {0})}
      → Keeps (Safe w false) m
      → ((a : A) → Ensures (Safe w false) (f a) (Locked w))
      → Ensures (Safe w false) (m >>= f) (Locked w)
  after m {f} k ef =
      Ensures-bind (λ _. Safe w false) m f (Ensures-Keeps (λ _. Safe w false) m k λ r s v. v) ef
        λ e s v. v

  pub either :
      (b : Bool) (m n : M (Unit {0}))
      → Ensures (Safe w false) m (Locked w)
      → Ensures (Safe w false) n (Locked w)
      → Ensures (Safe w false) (if b then m else n) (Locked w)
  either true m n em en = em
  either false m n em en = en

  pub refused : (e : Exn) → Ensures (Safe w false) (raise e) (Locked w)
  refused e = Ensures-raise (Locked w) e λ s v. v

module _ (rt : Runtime) (os : Os) (w : FilePath) where
  create_lock_from-Locked :
      (payload : List ℕ) (r : Reply)
      → Ensures (MadeLock w (ok r)) (create_lock_from rt os (lock_path w) payload r) (Locked w)
  unfolding create_lock_from
  create_lock_from-Locked payload done =
      Ensures-Keeps (Locked w) (write_fd os (lock_path w) payload)
        (write_fd-Own os w (lock_path w) true payload) (Own-Locked w (lock_path w))
  create_lock_from-Locked payload already_exists = Ensures-raise (Locked w) Exn.file_exists λ s v. v
  create_lock_from-Locked payload not_found = Ensures-raise (Locked w) Exn.lock_unavailable λ s v. v
  create_lock_from-Locked payload failed = Ensures-raise (Locked w) Exn.lock_unavailable λ s v. v

  pub create_lock_file-Locked :
      (m : LockMetadata)
      → Ensures (Safe w false) (create_lock_file rt os (lock_path w) m) (Locked w)
  unfolding create_lock_file
  create_lock_file-Locked m =
      Ensures-bind (MadeLock w) (os_create os (lock_path w))
        (create_lock_from rt os (lock_path w) (metadata_to_bytes rt m)) (os_create-MadeLock os w)
        (create_lock_from-Locked (metadata_to_bytes rt m)) λ e s v. v

  -- The temporary file that is removed is not the marker.
  unlink_tmp-Safe : (hex : String) → Keeps (Safe w false) (os_unlink os (tmp_path w hex))
  unfolding os_unlink CreateOnly Allowed
  unlink_tmp-Safe hex =
      Keeps-call (λ log. os.unlink log (tmp_path w hex)) (unlinked (tmp_path w hex))
        λ s a v. record {
          create_only = (marker-tmp w hex, v.create_only);
          lock = λ e. ground (arith, e);
        }

  -- What the replacement of the lock ends in.
  abbrev Swapped : Result Reply → Run → Type 0
  Swapped (ok done) s = Safe w true s
  Swapped _ s = Safe w false s

  os_replace-Swapped :
      (hex : String) → Ensures (Safe w false) (os_replace os (tmp_path w hex) (lock_path w)) Swapped
  unfolding os_replace CreateOnly Allowed holding
  os_replace-Swapped hex =
      Ensures-call Swapped (λ log. os.replace log (tmp_path w hex) (lock_path w))
        (replaced (tmp_path w hex) (lock_path w)) swap
    where
      swap :
          (s : Run) (r : Reply)
          → Safe w false s
          → Swapped (ok r) (record s { log = replaced (tmp_path w hex) (lock_path w) r ∷ s.log })
      swap s done v = record {
        create_only = (refl, v.create_only);
        lock = λ e. ground (arith, lock-lock w);
      }
      swap s already_exists v = record {
        create_only = (refl, v.create_only);
        lock = λ e. ground (arith, e);
      }
      swap s not_found v = record {
        create_only = (refl, v.create_only);
        lock = λ e. ground (arith, e);
      }
      swap s failed v = record {
        create_only = (refl, v.create_only);
        lock = λ e. ground (arith, e);
      }

  refused_replace :
      (hex : String)
      → Ensures
          (Safe w false)
          (os_unlink os (tmp_path w hex) >>= λ _. raise Exn.lock_unavailable)
          (Locked w)
  refused_replace hex =
      after w (os_unlink os (tmp_path w hex)) (unlink_tmp-Safe hex)
        λ _. refused w Exn.lock_unavailable

  replaced_from-Locked :
      (hex : String) (r : Reply)
      → Ensures (Swapped (ok r)) (replaced_from rt os (tmp_path w hex) r) (Locked w)
  unfolding replaced_from
  replaced_from-Locked hex done = Ensures-pure (Locked w) tt λ s v. v
  replaced_from-Locked hex already_exists = refused_replace hex
  replaced_from-Locked hex not_found = refused_replace hex
  replaced_from-Locked hex failed = refused_replace hex

  replace_lock_from-Locked :
      (hex : String) (payload : List ℕ) (r : Reply)
      → Ensures
          (Made w false (tmp_path w hex) (ok r))
          (replace_lock_from rt os (tmp_path w hex) (lock_path w) payload r)
          (Locked w)
  unfolding replace_lock_from
  replace_lock_from-Locked hex payload done =
      Ensures-bind (λ _. Own w false (tmp_path w hex)) (write_fd os (tmp_path w hex) payload)
        (λ _. os_replace os (tmp_path w hex) (lock_path w) >>= replaced_from rt os (tmp_path w hex))
        (Ensures-Keeps (λ _. Own w false (tmp_path w hex)) (write_fd os (tmp_path w hex) payload)
          (write_fd-Own os w (tmp_path w hex) false payload) λ r s v. v)
        (λ u.
          Ensures-bind Swapped (os_replace os (tmp_path w hex) (lock_path w))
            (replaced_from rt os (tmp_path w hex))
            (Ensures-from Swapped (os_replace os (tmp_path w hex) (lock_path w)) (λ s v. v.safe)
              (os_replace-Swapped hex))
            (replaced_from-Locked hex) λ e s v. v)
        λ e s v. v.safe
  replace_lock_from-Locked hex payload already_exists =
      Ensures-raise (Locked w) Exn.lock_unavailable λ s v. v
  replace_lock_from-Locked hex payload not_found =
      Ensures-raise (Locked w) Exn.lock_unavailable λ s v. v
  replace_lock_from-Locked hex payload failed =
      Ensures-raise (Locked w) Exn.lock_unavailable λ s v. v

  pub replace_lock_file-Locked :
      (m : LockMetadata) → Ensures (Safe w false) (replace_lock_file rt os w m) (Locked w)
  unfolding replace_lock_file
  replace_lock_file-Locked m = after w (token os) (search (quiet, Safe-Quiet)) λ hex.
      Ensures-bind (Made w false (tmp_path w hex)) (os_create os (tmp_path w hex))
        (replace_lock_from rt os (tmp_path w hex) (lock_path w) (metadata_to_bytes rt m))
        (os_create-Made os w false (tmp_path w hex) (rw (marker-tmp w hex) refl))
        (replace_lock_from-Locked hex (metadata_to_bytes rt m)) λ e s v. v

  recover_existing-Locked :
      (m : LockMetadata) (o : Option LockMetadata)
      → Ensures (Safe w false) (recover_existing rt os w m o) (Locked w)
  unfolding recover_existing
  recover_existing-Locked m none = refused w Exn.lock_unavailable
  recover_existing-Locked m (some x) =
      either w (x.target_handle.workspace != m.target_handle.workspace) (raise Exn.lock_unavailable)
        (is_stale rt os x >>= λ stale.
          if stale then replace_lock_file rt os w m else raise Exn.lock_unavailable)
        (refused w Exn.lock_unavailable)
        (after w (is_stale rt os x) (is_stale-Keeps Safe-Quiet rt os x) λ stale.
          either w stale (replace_lock_file rt os w m) (raise Exn.lock_unavailable)
            (replace_lock_file-Locked m) (refused w Exn.lock_unavailable))

  pub contend-Locked :
      (m : LockMetadata) (b : Bool) → Ensures (Safe w false) (contend rt os w m b) (Locked w)
  unfolding contend
  contend-Locked m false = refused w Exn.lock_unavailable
  contend-Locked m true =
      after w (read_lock_metadata rt os w) (read_lock_metadata-Keeps Safe-Quiet rt os w)
        (recover_existing-Locked m)

  pub mkdir_from-Keeps : (r : Reply) → Keeps (Safe w false) (mkdir_from rt os r)
  unfolding mkdir_from
  mkdir_from-Keeps done = search keeps
  mkdir_from-Keeps already_exists = search keeps
  mkdir_from-Keeps not_found = search keeps
  mkdir_from-Keeps failed = search keeps
