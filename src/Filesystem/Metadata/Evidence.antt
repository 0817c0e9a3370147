-- ===== src/Filesystem/Metadata/Evidence.antt =====
-- filesystem.py: what the answer that a lock is stale rests on, read off the events of the run.
use arjim.Base.{
  ℕ, suc, ◌≡◌, refl, ◌⊎◌, inl, inr, Option, none, some, Bool, true, false, not, List, [], ◌∷◌, ltb,
  if◌then◌else◌, ◌==◌, nat_eq,
}
use arjim.Errors.{Result, ok, err}
use arjim.Runtime.{Runtime}
use arjim.Effects.{
  FilePath, Os, Run, Event, Log, KillReply, delivered, no_such_process, kill_failed, read, killed,
  timed, pure, ◌>>=◌, call, first, os_read, os_kill, time_now,
}
use arjim.Effects.Rules.{Ensures, Ensures-bind, Ensures-pure}
use arjim.Trace.Quiet.{Quiet}
use arjim.Trace.Steady.{Steady}
use arjim.Filesystem.{lock_path, max_lock_metadata_bytes}
use arjim.Filesystem.Metadata.{
  LockMetadata, metadata_from_bytes, metadata_read, expired_at, lease_expired, alive_from,
  pid_alive, is_stale, read_lock_metadata,
}

-- An event of the run is of this kind, with the events before it.
unfoldable pub Once : (Event → Log → Type 0) → Log → Type 0
Once Kind [] = ⊥
Once Kind (e ∷ log) = Kind e log ⊎ Once Kind log

pub record Happened (Kind : Event → Log → Type 0) (s : Run) : Type 0 where
  pub happened : Once Kind s.log

pub Happened-Steady : (Kind : Event → Log → Type 0) → Steady (Happened Kind)
unfolding Once
Happened-Steady Kind = record {
  event = λ e s h. record { happened = inr h.happened };
  flag = λ s h. record { happened = h.happened };
}

-- The run has read this metadata from the lock file.
abbrev pub Read : Runtime → FilePath → LockMetadata → Run → Type 0
Read rt w m s =
    (raw : List ℕ) × ((metadata_from_bytes rt raw ≡ some m)
      × Happened (λ e before. e ≡ read (lock_path w) (some raw)) s)

-- The run has seen the lease expired, and has been told that its owner is no process.
abbrev pub Expired : Runtime → Os → LockMetadata → Run → Type 0
Expired rt os m s =
    (deadline : ℕ) × ((rt.parse_timestamp m.lease_until ≡ some deadline)
      × Happened (λ e before. (e ≡ timed) × (ltb deadline (os.now before) ≡ true)) s)

abbrev pub Dead : LockMetadata → Run → Type 0
Dead m s = Happened (λ e before. e ≡ killed m.pid no_such_process) s

pub Read-Steady : (rt : Runtime) (w : FilePath) (m : LockMetadata) → Steady (Read rt w m)
Read-Steady rt w m = record {
  event = λ e s h. (h.0, (h.1.0, (Happened-Steady _).event e s h.1.1));
  flag = λ s h. (h.0, (h.1.0, (Happened-Steady _).flag s h.1.1));
}

pub Expired-Steady : (rt : Runtime) (os : Os) (m : LockMetadata) → Steady (Expired rt os m)
Expired-Steady rt os m = record {
  event = λ e s h. (h.0, (h.1.0, (Happened-Steady _).event e s h.1.1));
  flag = λ s h. (h.0, (h.1.0, (Happened-Steady _).flag s h.1.1));
}

pub Dead-Steady : (m : LockMetadata) → Steady (Dead m)
Dead-Steady m = Happened-Steady _

pub Quiet-both : {P E : Run → Type 0} → Quiet P → Steady E → Quiet (λ s. P s × E s)
Quiet-both q t = record {
  event = λ e h s v. (q.event e h s v.0, t.event e s v.1);
  flag = λ s v. (q.flag s v.0, t.flag s v.1);
}

module _ {P : Run → Type 0} (q : Quiet P) (rt : Runtime) (os : Os) where
  -- What was read is what the run has read.
  abbrev pub ReadAs : FilePath → Result (Option LockMetadata) → Run → Type 0
  ReadAs w (ok none) s = P s
  ReadAs w (ok (some m)) s = P s × Read rt w m s
  ReadAs w (err e) s = ⊥

  pub read_lock_metadata-ReadAs : (w : FilePath) → Ensures P (read_lock_metadata rt os w) (ReadAs w)
  unfolding read_lock_metadata os_read call ◌>>=◌ pure metadata_read Once
  read_lock_metadata-ReadAs w = record {
    at =
        λ s v. answer s (first os (suc max_lock_metadata_bytes) (os.content s.log (lock_path w))) v;
  }
    where
      parsed :
          (s : Run) (raw : List ℕ) (o : Option LockMetadata)
          → metadata_from_bytes rt raw ≡ o
          → P s
          → ReadAs w (ok o) (record s { log = read (lock_path w) (some raw) ∷ s.log })
      parsed s raw none e v = q.event (read (lock_path w) (some raw)) refl s v
      parsed s raw (some m) e v = (
        q.event (read (lock_path w) (some raw)) refl s v,
        (raw, (e, record { happened = inl refl })),
      )

      answer :
          (s : Run) (a : Option (List ℕ))
          → P s
          → ReadAs w (ok (metadata_read rt a)) (record s { log = read (lock_path w) a ∷ s.log })
      answer s none v = q.event (read (lock_path w) none) refl s v
      answer s (some raw) v = parsed s raw (metadata_from_bytes rt raw) refl v

  abbrev Lease : LockMetadata → Result Bool → Run → Type 0
  Lease m (ok true) s = P s × Expired rt os m s
  Lease m (ok false) s = P s
  Lease m (err e) s = ⊥

  expired_at-Lease :
      (m : LockMetadata) (d : Option ℕ)
      → rt.parse_timestamp m.lease_until ≡ d
      → Ensures P (expired_at rt os d) (Lease m)
  unfolding expired_at time_now call ◌>>=◌ pure Once
  expired_at-Lease m none e = record { at = λ s v. v }
  expired_at-Lease m (some d) e = record { at = λ s v. go s (ltb d (os.now s.log)) refl v }
    where
      go :
          (s : Run) (b : Bool)
          → ltb d (os.now s.log) ≡ b
          → P s
          → Lease m (ok b) (record s { log = timed ∷ s.log })
      go s true h v = (q.event timed refl s v, (d, (e, record { happened = inl (refl, h) })))
      go s false h v = q.event timed refl s v

  lease_expired-Lease : (m : LockMetadata) → Ensures P (lease_expired rt os m) (Lease m)
  unfolding lease_expired
  lease_expired-Lease m = expired_at-Lease m (rt.parse_timestamp m.lease_until) refl

  abbrev Alive : LockMetadata → Result Bool → Run → Type 0
  Alive m (ok true) s = P s
  Alive m (ok false) s = P s × Dead m s
  Alive m (err e) s = ⊥

  pid_alive-Alive : (m : LockMetadata) → Ensures P (pid_alive rt os m.pid) (Alive m)
  unfolding pid_alive os_kill call ◌>>=◌ pure alive_from Once
  pid_alive-Alive m = record { at = λ s v. zero_or s (m.pid == 0) v }
    where
      told :
          (s : Run) (r : KillReply)
          → P s
          → Alive m (ok (alive_from rt os r)) (record s { log = killed m.pid r ∷ s.log })
      told s delivered v = q.event (killed m.pid delivered) refl s v
      told s kill_failed v = q.event (killed m.pid kill_failed) refl s v
      told s no_such_process v =
          (q.event (killed m.pid no_such_process) refl s v, record { happened = inl refl })

      check : Run → Bool → Result Bool × Run
      check s b =
          (if b then pure true else (os_kill os m.pid >>= λ reply. pure (alive_from rt os reply))) s

      zero_or : (s : Run) (b : Bool) → P s → Alive m (check s b).0 (check s b).1
      zero_or s true v = v
      zero_or s false v = told s (os.kill s.log m.pid) v

module _ {P : Run → Type 0} (q : Quiet P) (rt : Runtime) (os : Os) where
  -- The answer of `is_stale`: stale only by an expired lease of an owner that is no process.
  abbrev pub Judged : LockMetadata → Result Bool → Run → Type 0
  Judged m (ok true) s = P s × (Expired rt os m s × Dead m s)
  Judged m (ok false) s = P s
  Judged m (err e) s = ⊥

  judged :
      (m : LockMetadata) (alive : Bool)
      → Ensures
          (Alive (Quiet-both q (Expired-Steady rt os m)) rt os m (ok alive))
          (pure (not alive))
          (Judged m)
  judged m true = Ensures-pure (Judged m) false λ s v. v.0
  judged m false = Ensures-pure (Judged m) true λ s v. (v.0.0, (v.0.1, v.1))

  pub is_stale-Judged : (m : LockMetadata) → Ensures P (is_stale rt os m) (Judged m)
  unfolding is_stale
  is_stale-Judged m =
      Ensures-bind (Lease q rt os m) (lease_expired rt os m) _ (lease_expired-Lease q rt os m) after
        λ e s v. absurd v
    where
      after :
          (expired : Bool)
          → Ensures
              (Lease q rt os m (ok expired))
              (if expired
                then (pid_alive rt os m.pid >>= λ alive. pure (not alive))
                else pure false)
              (Judged m)
      after true =
          Ensures-bind (Alive (Quiet-both q (Expired-Steady rt os m)) rt os m) _ _
            (pid_alive-Alive (Quiet-both q (Expired-Steady rt os m)) rt os m) (judged m)
            λ e s v. absurd v
      after false = Ensures-pure (Judged m) false λ s v. v
