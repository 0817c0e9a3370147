-- ===== src/Filesystem/Lock/Attempts.antt =====
-- filesystem.py: the exceptions that one attempt at the lock raises.
use arjim.Base.{arith, ℕ, ◌≡◌, refl, String, Bool, true, false, Option, none, some, List}
use arjim.Errors.{Exn, Result, ok, err}
use arjim.Runtime.{Runtime}
use arjim.Effects.{
  FilePath, Os, Run, M, Reply, done, already_exists, not_found, failed, raise, os_create, os_mkdir,
  os_unlink, os_replace, token, time_now,
}
use arjim.Effects.Raises.{Raises, ErrIs, raises, Raises-raise, Raises-attempt}
use arjim.Filesystem.{TargetHandle}
use arjim.Filesystem.Writes.{write_fd}
use arjim.Filesystem.Writes.Complete.{of_write, Wrote, write_fd-Wrote}
use arjim.Filesystem.Metadata.{LockMetadata}
use arjim.Filesystem.Metadata.Looks.{is_stale-Raises, read_lock_metadata-Raises}
use arjim.Filesystem.Lock.{
  create_lock_from, create_lock_file, replaced_from, replace_lock_from, replace_lock_file,
  existing_or, mkdir_from, recover_existing, contend, acquire_lock_once,
}

-- An exception of the source, which is not the end of the fuel.
abbrev finished : Exn → Bool
finished Exn.unfinished = false
finished _ = true

of_write-finished : (e : Exn) → of_write e ≡ true → finished e ≡ true
of_write-finished e h = ground arith

abbrev pub IsRaised : Exn → Type 0
IsRaised e = finished e ≡ true

module _ (os : Os) where
  write_fd-Raises : (p : FilePath) (payload : List ℕ) → Raises IsRaised (write_fd os p payload)
  unfolding Wrote
  write_fd-Raises p payload = record {
    at = λ s.
        go _ (write_fd os p payload s).0 (write_fd os p payload s).1
          (write_fd-Wrote os p payload s);
  }
    where
      go : (bytes : List ℕ) (r : Result (Unit {0})) (s : Run) → Wrote p bytes r s → ErrIs IsRaised r
      go bytes (ok u) s h = tt
      go bytes (err e) s h = of_write-finished e h

  os_create-Raises : (p : FilePath) → Raises IsRaised (os_create os p)
  unfolding os_create
  os_create-Raises p = search raises

  os_mkdir-Raises : (p : FilePath) → Raises IsRaised (os_mkdir os p)
  unfolding os_mkdir
  os_mkdir-Raises p = search raises

  os_unlink-Raises : (p : FilePath) → Raises IsRaised (os_unlink os p)
  unfolding os_unlink
  os_unlink-Raises p = search raises

  os_replace-Raises : (p q : FilePath) → Raises IsRaised (os_replace os p q)
  unfolding os_replace
  os_replace-Raises p q = search raises

  token-Raises : Raises IsRaised (token os)
  unfolding token
  token-Raises = search raises

  time_now-Raises : Raises IsRaised (time_now os)
  unfolding time_now
  time_now-Raises = search raises

  unavailable : Raises {A = Unit {0}} IsRaised (raise Exn.lock_unavailable)
  unavailable = Raises-raise Exn.lock_unavailable refl

  taken_already : Raises {A = Unit {0}} IsRaised (raise Exn.file_exists)
  taken_already = Raises-raise Exn.file_exists refl

  ruleset calls = (
    raises, write_fd-Raises, os_create-Raises, os_mkdir-Raises, os_unlink-Raises, os_replace-Raises,
    token-Raises, time_now-Raises, unavailable, taken_already,
  )

module _ (rt : Runtime) (os : Os) where
  create_lock_from-Raises :
      (p : FilePath) (payload : List ℕ) (r : Reply)
      → Raises IsRaised (create_lock_from rt os p payload r)
  unfolding create_lock_from
  create_lock_from-Raises p payload done = search calls
  create_lock_from-Raises p payload already_exists = search calls
  create_lock_from-Raises p payload not_found = search calls
  create_lock_from-Raises p payload failed = search calls

  create_lock_file-Raises :
      (p : FilePath) (m : LockMetadata) → Raises IsRaised (create_lock_file rt os p m)
  unfolding create_lock_file
  create_lock_file-Raises p m = search (calls, create_lock_from-Raises)

  replaced_from-Raises : (p : FilePath) (r : Reply) → Raises IsRaised (replaced_from rt os p r)
  unfolding replaced_from
  replaced_from-Raises p done = search calls
  replaced_from-Raises p already_exists = search calls
  replaced_from-Raises p not_found = search calls
  replaced_from-Raises p failed = search calls

  replace_lock_from-Raises :
      (p q : FilePath) (payload : List ℕ) (r : Reply)
      → Raises IsRaised (replace_lock_from rt os p q payload r)
  unfolding replace_lock_from
  replace_lock_from-Raises p q payload done = search (calls, replaced_from-Raises)
  replace_lock_from-Raises p q payload already_exists = search calls
  replace_lock_from-Raises p q payload not_found = search calls
  replace_lock_from-Raises p q payload failed = search calls

  replace_lock_file-Raises :
      (w : FilePath) (m : LockMetadata) → Raises IsRaised (replace_lock_file rt os w m)
  unfolding replace_lock_file
  replace_lock_file-Raises w m = search (calls, replace_lock_from-Raises)

  recover_existing-Raises :
      (w : FilePath) (m : LockMetadata) (o : Option LockMetadata)
      → Raises IsRaised (recover_existing rt os w m o)
  unfolding recover_existing
  recover_existing-Raises w m none = search calls
  recover_existing-Raises w m (some x) = search (calls, is_stale-Raises, replace_lock_file-Raises)

  contend-Raises :
      (w : FilePath) (m : LockMetadata) (b : Bool) → Raises IsRaised (contend rt os w m b)
  unfolding contend
  contend-Raises w m false = search calls
  contend-Raises w m true = search (calls, read_lock_metadata-Raises, recover_existing-Raises)

  mkdir_from-Raises : (r : Reply) → Raises IsRaised (mkdir_from rt os r)
  unfolding mkdir_from
  mkdir_from-Raises done = search calls
  mkdir_from-Raises already_exists = search calls
  mkdir_from-Raises not_found = search calls
  mkdir_from-Raises failed = search calls

  existing_or-Raises :
      (rest : M (Unit {0})) (e : Exn)
      → Raises IsRaised rest
      → IsRaised e
      → Raises IsRaised (existing_or rt os rest e)
  existing_or-Raises rest Exn.file_exists k g = k
  existing_or-Raises rest e k g = search Raises-raise

  pub acquire_lock_once-Raises :
      (w : FilePath) (owner : String) (h : TargetHandle) (lease : ℕ) (recover : Bool)
      → Raises IsRaised (acquire_lock_once rt os w owner h lease recover)
  unfolding acquire_lock_once
  acquire_lock_once-Raises w owner h lease recover =
      search
        (
          calls, Raises-attempt, mkdir_from-Raises, create_lock_file-Raises, existing_or-Raises,
          contend-Raises,
        )
        depth 8
