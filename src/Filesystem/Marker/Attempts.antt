-- ===== src/Filesystem/Marker/Attempts.antt =====
-- filesystem.py: whether a run has created the marker, and what the create-only write says of it.
use arjim.Base.{
  ℕ, ◌≡◌, ◌∙◌, ◌⊎◌, inl, inr, Bool, true, false, List, ltb, length, if◌then◌else◌, arith, ◌∷◌,
  beq_self, list_eq, string_eq,
}
use arjim.Errors.{Exn, Result, ok, err}
use arjim.Effects.{
  FilePath, Os, Run, Event, Log, Reply, done, already_exists, not_found, failed, raise, ◌>>=◌,
  os_create, created,
}
use arjim.Effects.Rules.{Ensures, Ensures-bind, Ensures-raise, Ensures-call}
use arjim.Trace.{owned}
use arjim.Trace.Steady.{Beside, makes_marker}
use arjim.Filesystem.{marker_path, max_marker_read_bytes}
use arjim.Filesystem.Lock.Flag.{Beside-write_fd}
use arjim.Filesystem.Marker.{create_marker_from, write_marker_create_only}
use arjim.Filesystem.Writes.{write_fd}
use arjim.Filesystem.Writes.Complete.{of_write, Wrote, write_fd-Wrote}

-- The run has not created the marker.
pub record Fresh (w : FilePath) (s : Run) : Type 0 where
  pub fresh : owned (marker_path w) s.log ≡ false

-- The run has created the marker.
pub record Mine (w : FilePath) (s : Run) : Type 0 where
  pub mine : owned (marker_path w) s.log ≡ true

pub owned-beside :
    (w : FilePath) (e : Event) (log : Log)
    → makes_marker w e ≡ false
    → owned (marker_path w) (e ∷ log) ≡ owned (marker_path w) log
unfolding owned
owned-beside w _ log m = ground arith

pub Fresh-Beside : {w : FilePath} → Beside w (Fresh w)
Fresh-Beside {w} = record {
  event = λ e m s v. record { fresh = owned-beside w e s.log m ∙ v.fresh };
  flag = λ s v. record { fresh = v.fresh };
}

pub Mine-Beside : {w : FilePath} → Beside w (Mine w)
Mine-Beside {w} = record {
  event = λ e m s v. record { mine = owned-beside w e s.log m ∙ v.mine };
  flag = λ s v. record { mine = v.mine };
}

-- What the create-only write ends in.
abbrev pub Attempted : FilePath → Result (Unit {0}) → Run → Type 0
Attempted w (ok u) s = Mine w s
Attempted w (err e) s = Fresh w s ⊎ (Mine w s × (of_write e ≡ true))

abbrev Made : FilePath → Result Reply → Run → Type 0
Made w (ok done) s = Mine w s
Made w _ s = Fresh w s

module _ (os : Os) (w : FilePath) where
  os_create-Made : Ensures (Fresh w) (os_create os (marker_path w)) (Made w)
  unfolding os_create owned
  os_create-Made =
      Ensures-call (Made w) (λ log. os.create log (marker_path w)) (created (marker_path w)) go
    where
      go :
          (s : Run) (r : Reply)
          → Fresh w s
          → Made w (ok r) (record s { log = created (marker_path w) r ∷ s.log })
      go s done v = record { mine = ground (arith, beq_self (marker_path w)) }
      go s already_exists v = record { fresh = ground (arith, v.fresh) }
      go s not_found v = record { fresh = ground (arith, v.fresh) }
      go s failed v = record { fresh = ground (arith, v.fresh) }

  write_fd-Attempted :
      (bytes : List ℕ) → Ensures (Mine w) (write_fd os (marker_path w) bytes) (Attempted w)
  unfolding Wrote
  write_fd-Attempted bytes = record {
    at = λ s v.
        let end = write_fd os (marker_path w) bytes s in
        go _ end.0 end.1 (write_fd-Wrote os (marker_path w) bytes s)
          ((Beside-write_fd Mine-Beside os (marker_path w) bytes).at s v);
  }
    where
      go :
          (bytes : List ℕ) (r : Result (Unit {0})) (s : Run)
          → Wrote (marker_path w) bytes r s
          → Mine w s
          → Attempted w r s
      go bytes (ok u) s h v = v
      go bytes (err e) s h v = inr (v, h)

  create_from-Attempted :
      (bytes : List ℕ) (r : Reply)
      → Ensures (Made w (ok r)) (create_marker_from os (marker_path w) bytes r) (Attempted w)
  unfolding create_marker_from
  create_from-Attempted bytes done = write_fd-Attempted bytes
  create_from-Attempted bytes already_exists =
      Ensures-raise (Attempted w) Exn.create_collision λ s v. inl v
  create_from-Attempted bytes not_found = Ensures-raise (Attempted w) Exn.write_failed λ s v. inl v
  create_from-Attempted bytes failed = Ensures-raise (Attempted w) Exn.write_failed λ s v. inl v

  pub write-Attempted :
      (bytes : List ℕ) → Ensures (Fresh w) (write_marker_create_only os w bytes) (Attempted w)
  unfolding write_marker_create_only
  write-Attempted bytes = go (ltb max_marker_read_bytes (length bytes))
    where
      go :
          (b : Bool)
          → Ensures
              (Fresh w)
              (if b
                then raise Exn.write_failed
                else (os_create os (marker_path w) >>= create_marker_from os (marker_path w) bytes))
              (Attempted w)
      go true = Ensures-raise (Attempted w) Exn.write_failed λ s v. inl v
      go false =
          Ensures-bind (Made w) (os_create os (marker_path w)) _ os_create-Made
            (create_from-Attempted bytes) λ e s v. inl v
