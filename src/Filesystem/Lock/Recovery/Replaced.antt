-- ===== src/Filesystem/Lock/Recovery/Replaced.antt =====
-- filesystem.py: what the recovery of a lock does to the files.
use arjim.Base.{
  ℕ, String, Option, none, some, ◌⊎◌, inl, inr, Bool, true, false, ◌≡◌, refl, [], if◌then◌else◌,
  ◌!=◌, list_eq, nat_eq, arith,
}
use arjim.Errors.{Exn, Result, ok, err}
use arjim.Runtime.{Runtime}
use arjim.Effects.{FilePath, Os, Run, M, pure, raise, ◌>>=◌, time_now}
use arjim.Effects.Rules.{
  Keeps, Ensures, Ensures-bind, Ensures-pure, Ensures-raise, Ensures-Keeps, Ensures-from,
}
use arjim.Trace.{Safe, CreateOnly, holding}
use arjim.Trace.Quiet.{Quiet, keeps, quiet, Safe-Quiet}
use arjim.Trace.Touched.{touched, touched-quiet}
use arjim.Filesystem.{TargetHandle, capture_target_handle}
use arjim.Filesystem.Capture.{capture_target_handle-Keeps}
use arjim.Filesystem.Metadata.{LockMetadata, is_stale, read_lock_metadata}
use arjim.Filesystem.Lock.{replace_lock_file}
use arjim.Filesystem.Metadata.Evidence.{
  Read, Expired, Dead, Read-Steady, Expired-Steady, Dead-Steady, Quiet-both, ReadAs,
  read_lock_metadata-ReadAs, Judged, is_stale-Judged,
}
use arjim.Trace.Steady.{Steady, Steady-Beside}
use arjim.Filesystem.Lock.Flag.{replace_lock_file-Steady}
use arjim.Filesystem.Lock.Holding.{Locked, replace_lock_file-Locked}
use arjim.Filesystem.Lock.Recovery.{
  owner_or_token, replace_stale, recover_found, recover_captured, recover_lock,
}

-- No file has been changed.
record Calm (w : FilePath) (s : Run) : Type 0 where
  safe : Safe w false s
  calm : touched s.log ≡ false

not_touched : (b c : Bool) → (b ≡ true → c ≡ true) → c ≡ false → b ≡ false
not_touched true c k e = ground (arith, k refl, e)
not_touched false c k e = refl

Calm-Quiet : (w : FilePath) → Quiet (Calm w)
Calm-Quiet w = record {
  event = λ e q s v. record {
    safe = Safe-Quiet.event e q s v.safe;
    calm = not_touched _ _ (touched-quiet e s.log q) v.calm;
  };
  flag = λ s v. record { safe = Safe-Quiet.flag s v.safe; calm = v.calm };
}

-- The run has found the lock stale: it has read the metadata of a lock of the confirmed workspace,
-- seen its lease expired, and been told that its owner is no process.
abbrev pub Stale : Runtime → Os → FilePath → TargetHandle → Run → Type 0
Stale rt os w confirmed s =
    (m : LockMetadata) × (((m.target_handle.workspace != confirmed.workspace) ≡ false)
      × (Read rt w m s × (Expired rt os m s × Dead m s)))

Stale-Steady :
    (rt : Runtime) (os : Os) (w : FilePath) (confirmed : TargetHandle)
    → Steady (Stale rt os w confirmed)
Stale-Steady rt os w confirmed = record {
  event = λ e s v. (
    v.0,
    (
      v.1.0,
      (
        (Read-Steady rt w v.0).event e s v.1.1.0,
        ((Expired-Steady rt os v.0).event e s v.1.1.1.0, (Dead-Steady v.0).event e s v.1.1.1.1),
      ),
    ),
  );
  flag = λ s v. (
    v.0,
    (
      v.1.0,
      (
        (Read-Steady rt w v.0).flag s v.1.1.0,
        ((Expired-Steady rt os v.0).flag s v.1.1.1.0, (Dead-Steady v.0).flag s v.1.1.1.1),
      ),
    ),
  );
}

-- What a recovery has done, by what it returns or raises: it has changed no file, or it has found
-- the lock stale, and holds the lock where it returns.
abbrev pub Recovered : Runtime → Os → FilePath → TargetHandle → Result Bool → Run → Type 0
Recovered rt os w confirmed (ok b) s =
    (b ≡ true)
    × (CreateOnly w s.log
        × ((touched s.log ≡ false) ⊎ ((holding w s.log ≡ true) × Stale rt os w confirmed s)))
Recovered rt os w confirmed (err e) s =
    CreateOnly w s.log × ((touched s.log ≡ false) ⊎ Stale rt os w confirmed s)

module _ (rt : Runtime) (os : Os) (w : FilePath) (confirmed : TargetHandle) where
  abbrev Goal : Result Bool → Run → Type 0
  Goal r s = Recovered rt os w confirmed r s

  -- A step that keeps what is known, which says that no file has been changed.
  step_from {ℓ} :
      {A : Type ℓ} {P : Run → Type 0} (m : M A) (f : A → M Bool)
      → ((s : Run) → P s → Calm w s)
      → Keeps P m
      → ((a : A) → Ensures P (f a) Goal)
      → Ensures P (m >>= f) Goal
  step_from {P = P} m f calm k ef =
      Ensures-bind (λ r. P) m f (Ensures-Keeps _ m k λ r s v. v) ef
        λ e s v. ((calm s v).safe.create_only, inl (calm s v).calm)

  refused : (e : Exn) → Ensures (Calm w) (raise e) Goal
  refused e = Ensures-raise Goal e λ s v. (v.safe.create_only, inl v.calm)

  either_way :
      {P : Run → Type 0} (b : Bool) (m n : M Bool)
      → (b ≡ true → Ensures P m Goal)
      → (b ≡ false → Ensures P n Goal)
      → Ensures P (if b then m else n) Goal
  either_way true m n em en = em refl
  either_way false m n em en = en refl

  -- The lock may be replaced.
  abbrev Ready : Run → Type 0
  Ready s = Calm w s × Stale rt os w confirmed s

  Ready-Quiet : Quiet Ready
  Ready-Quiet = Quiet-both (Calm-Quiet w) (Stale-Steady rt os w confirmed)

  replace-Recovered :
      (m : LockMetadata)
      → Ensures Ready (replace_lock_file rt os w m >>= λ replaced. pure true) Goal
  replace-Recovered m =
      Ensures-bind (λ r s. Locked w r s × Stale rt os w confirmed s) (replace_lock_file rt os w m) _
        (record {
          at = λ s v. (
            (replace_lock_file-Locked rt os w m).at s v.0.safe,
            (replace_lock_file-Steady (Steady-Beside {w = w} (Stale-Steady rt os w confirmed)) rt os
                  m).at
                s v.1,
          );
        })
        (λ u. Ensures-pure Goal true λ s v. (refl, (v.0.create_only, inr (v.0.lock refl, v.1))))
        λ e s v. (v.0.create_only, inr v.1)

  owner_or_token-Keeps : (o : Option String) → Keeps Ready (owner_or_token rt os o)
  unfolding owner_or_token
  owner_or_token-Keeps none = search (quiet, Ready-Quiet)
  owner_or_token-Keeps (some owner) = search keeps

  -- No file has been changed, and this metadata was read.
  abbrev Known : LockMetadata → Run → Type 0
  Known m s = Calm w s × Read rt w m s

  Known-Quiet : (m : LockMetadata) → Quiet (Known m)
  Known-Quiet m = Quiet-both (Calm-Quiet w) (Read-Steady rt w m)

  replace_stale-Recovered :
      (current : TargetHandle) (o : Option String) (lease : ℕ) (m : LockMetadata) (stale : Bool)
      → (m.target_handle.workspace != confirmed.workspace) ≡ false
      → Ensures
          (Judged (Known-Quiet m) rt os m (ok stale))
          (replace_stale rt os w current o lease stale)
          Goal
  unfolding replace_stale
  replace_stale-Recovered current o lease m false same =
      Ensures-from Goal _ (λ s v. v.0) (refused Exn.lock_not_recoverable)
  replace_stale-Recovered current o lease m true same =
      Ensures-from Goal _ (λ s v. (v.0.0, (m, (same, (v.0.1, v.1)))))
        (step_from {P = Ready} _ _ (λ s v. v.0) (owner_or_token-Keeps o)
          λ owner.
            step_from {P = Ready} (time_now os) _ (λ s v. v.0) (search (quiet, Ready-Quiet))
              λ started.
                step_from {P = Ready} (time_now os) _ (λ s v. v.0) (search (quiet, Ready-Quiet))
                  λ from. replace-Recovered _)

  recover_found-Recovered :
      (current : TargetHandle) (o : Option String) (lease : ℕ) (existing : Option LockMetadata)
      → Ensures
          (ReadAs (Calm-Quiet w) rt os w (ok existing))
          (recover_found rt os w confirmed current o lease existing)
          Goal
  unfolding recover_found
  recover_found-Recovered current o lease none =
      Ensures-pure Goal true λ s v. (refl, (v.safe.create_only, inl v.calm))
  recover_found-Recovered current o lease (some m) =
      either_way (m.target_handle.workspace != confirmed.workspace) _ _
        (λ e. Ensures-from Goal _ (λ s v. v.0) (refused Exn.lock_not_recoverable))
        λ e.
          Ensures-bind (Judged (Known-Quiet m) rt os m) (is_stale rt os m) _
            (is_stale-Judged (Known-Quiet m) rt os m)
            (λ stale. replace_stale-Recovered current o lease m stale e) λ x s v. absurd v

  recover_captured-Recovered :
      (current : TargetHandle) (o : Option String) (lease : ℕ)
      → Ensures (Calm w) (recover_captured rt os w confirmed current o lease) Goal
  unfolding recover_captured
  recover_captured-Recovered current o lease =
      either_way (current.workspace != confirmed.workspace) _ _
        (λ e. refused Exn.lock_not_recoverable)
        λ e.
          Ensures-bind (ReadAs (Calm-Quiet w) rt os w) (read_lock_metadata rt os w) _
            (read_lock_metadata-ReadAs (Calm-Quiet w) rt os w)
            (recover_found-Recovered current o lease) λ x s v. absurd v

  Calm-start : (s : Run) → s.log ≡ [] → Calm w s
  unfolding CreateOnly holding touched
  Calm-start s e = record {
    safe = record { create_only = rw e tt; lock = λ h. ground (arith, h) };
    calm = rw e refl;
  }

-- In every environment, a recovery of the lock in a new run changes a file only if the run has
-- found the lock stale: it has read from the lock file the metadata of a lock of the confirmed
-- workspace, has seen its lease expired, and has been told that its owner is no process. Where it
-- returns it answers True, and it has changed no file, or holds the lock. It creates no marker but
-- under the lock, writes only to files that it has created, and removes no marker.
pub recover_lock-Recovered :
    (rt : Runtime) (os : Os) (w : FilePath) (confirmed : TargetHandle) (o : Option String)
    (lease : ℕ) (s : Run)
    → s.log ≡ []
    → Recovered rt os w confirmed
        (recover_lock rt os w confirmed o lease s).0
        (recover_lock rt os w confirmed o lease s).1
unfolding recover_lock
recover_lock-Recovered rt os w confirmed o lease s e =
    (step_from rt os w confirmed {P = Calm w} (capture_target_handle rt os w)
        (λ current. recover_captured rt os w confirmed current o lease) (λ s v. v)
        (capture_target_handle-Keeps (Calm-Quiet w) rt os w)
        (λ current. recover_captured-Recovered rt os w confirmed current o lease)).at
      s (Calm-start rt os w confirmed s e)
