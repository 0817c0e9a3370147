-- ===== src/Dispatch/Records/Recorded.antt =====
-- records.py: a record that is reported as written has been read back from the file that the run
-- has created.
use arjim.Base.{
  ℕ, String, Option, none, some, ◌⊎◌, inl, Bool, true, false, ◌&&◌, ◌≡◌, refl, List, [], ◌∷◌,
  if◌then◌else◌, ◌==◌, list_eq, nat_eq, list_beq_iff, length, ltb, beq_self, string_eq,
}
use arjim.Json.{Json}
use arjim.Errors.{Exn, Result, ok, err}
use arjim.Runtime.{Runtime}
use arjim.Effects.{
  FilePath, Log, Reply, done, already_exists, not_found, failed, Os, Run, created, read, pure,
  ◌>>=◌, attempt, os_mkdir, os_create, os_read_all,
}
use arjim.Effects.Rules.{
  Keeps, Ensures, Ensures-bind, Ensures-call, Ensures-pure, Ensures-raise, Ensures-Keeps,
}
use arjim.Trace.{owned}
use arjim.Trace.Quiet.{Quiet, keeps, quiet}
use arjim.Trace.Creation.{owned-quiet}
use arjim.Filesystem.Writes.{write_fd}
use arjim.Filesystem.Writes.Kept.{KeptByWrite, write_fd-Keeps}
use arjim.Dispatch.Records.{
  WriteStatus, written, collision, write_failed, written_unverified, record_path, dispatch_dir,
  max_record_bytes, valid_record, read_back, no_progress, read_back_if, write_created, write_in,
  write_job_record,
}

-- The run has read these bytes from the file, after it has created it.
unfoldable pub ReadBack : FilePath → List ℕ → Log → Type 0
ReadBack p bytes [] = ⊥
ReadBack p bytes (read q (some raw) ∷ log) =
    ((q ≡ p) × ((raw ≡ bytes) × (owned p log ≡ true))) ⊎ ReadBack p bytes log
ReadBack p bytes (_ ∷ log) = ReadBack p bytes log

-- A predicate that the creation of the file keeps.
abbrev pub KeptByCreate : (Run → Type 0) → FilePath → Type 0
KeptByCreate P p = (r : Reply) (s : Run) → P s → P (record s { log = created p r ∷ s.log })

-- The predicate holds afterwards, and if the record is written, then its bytes have been read back.
abbrev pub Reported : (Run → Type 0) → FilePath → List ℕ → Result WriteStatus → Run → Type 0
Reported P p bytes (ok written) s = P s × ReadBack p bytes s.log
Reported P p bytes _ s = P s

module _ {P : Run → Type 0} (q : Quiet P) (rt : Runtime) (os : Os) (p : FilePath)
    (kc : KeptByCreate P p) (kw : KeptByWrite P p) (job_id : String) (bytes : List ℕ) where
  -- The file is the run's own.
  record Mine (s : Run) : Type 0 where
    kept : P s
    mine : owned p s.log ≡ true

  Mine-Quiet : Quiet Mine
  Mine-Quiet = record {
    event =
        λ e i s v. record { kept = q.event e i s v.kept; mine = owned-quiet p e i s.log v.mine };
    flag = λ s v. record { kept = q.flag s v.kept; mine = v.mine };
  }

  Mine-write : KeptByWrite Mine p
  unfolding owned
  Mine-write chunk a s v = record { kept = kw chunk a s v.kept; mine = v.mine }

  abbrev Created : Result Reply → Run → Type 0
  Created (ok done) s = Mine s
  Created _ s = P s

  created_lem :
      (r : Reply) (s : Run) → P s → Created (ok r) (record s { log = created p r ∷ s.log })
  unfolding owned
  created_lem done s v = record { kept = kc done s v; mine = rw (beq_self p) refl }
  created_lem already_exists s v = kc already_exists s v
  created_lem not_found s v = kc not_found s v
  created_lem failed s v = kc failed s v

  os_create-Created : Ensures P (os_create os p) Created
  unfolding os_create
  os_create-Created =
      Ensures-call Created (λ log. os.create log p) (created p) λ s a v. created_lem a s v

  -- After the read-back, for the status that it gives.
  reported :
      (a : Option (List ℕ)) (s : Run)
      → Mine s
      → Reported P p bytes
          (ok (read_back rt os bytes job_id a))
          (record s { log = read p a ∷ s.log })
  unfolding read_back ReadBack
  reported none s v = q.event (read p none) refl s v.kept
  reported (some raw) s v = go (raw == bytes) (valid_record rt os job_id (rt.loads_bytes raw)) refl
    where
      go :
          (c b : Bool)
          → (raw == bytes) ≡ c
          → Reported P p bytes
              (ok (if c && b then written else written_unverified))
              (record s { log = read p (some raw) ∷ s.log })
      go true true e = (
        q.event (read p (some raw)) refl s v.kept,
        inl (refl, ((list_beq_iff raw bytes).0 e, v.mine)),
      )
      go true false e = q.event (read p (some raw)) refl s v.kept
      go false b e = q.event (read p (some raw)) refl s v.kept

  abbrev Read : Result (Option (List ℕ)) → Run → Type 0
  Read (ok a) s = Reported P p bytes (ok (read_back rt os bytes job_id a)) s
  Read (err e) s = P s

  os_read_all-Read : Ensures Mine (os_read_all os p) Read
  unfolding os_read_all
  os_read_all-Read = Ensures-call Read (λ log. os.content log p) (read p) λ s a v. reported a s v

  read_back_if-Reported :
      (complete : Bool)
      → Ensures Mine (read_back_if rt os p job_id bytes complete) (Reported P p bytes)
  unfolding read_back_if
  read_back_if-Reported false = Ensures-pure (Reported P p bytes) write_failed λ s v. v.kept
  read_back_if-Reported true =
      Ensures-bind Read (os_read_all os p) _ os_read_all-Read
        (λ a. Ensures-pure (Reported P p bytes) (read_back rt os bytes job_id a) λ s v. v)
        λ e s v. v

  no_progress-Keeps : (e : Exn) → Keeps Mine (no_progress rt os e)
  unfolding no_progress
  no_progress-Keeps e = search keeps

  write_once-Keeps :
      Keeps Mine (attempt (do u ← write_fd os p bytes; pure true) (no_progress rt os))
  write_once-Keeps = search (keeps, no_progress-Keeps, write_fd-Keeps Mine-Quiet os p Mine-write)

  abbrev Ended : Result Bool → Run → Type 0
  Ended r s = Mine s

  write_created-Reported :
      (r : Reply)
      → Ensures (Created (ok r)) (write_created rt os p job_id bytes r) (Reported P p bytes)
  unfolding write_created
  write_created-Reported done =
      Ensures-bind Ended _ _ (Ensures-Keeps Ended _ write_once-Keeps λ r s v. v)
        read_back_if-Reported λ e s v. v.kept
  write_created-Reported already_exists = Ensures-pure (Reported P p bytes) collision λ s v. v
  write_created-Reported not_found = Ensures-pure (Reported P p bytes) write_failed λ s v. v
  write_created-Reported failed = Ensures-pure (Reported P p bytes) write_failed λ s v. v

  create_or_not :
      (b : Bool)
      → Ensures P
          (if b then pure write_failed else (os_create os p >>= write_created rt os p job_id bytes))
          (Reported P p bytes)
  create_or_not true = Ensures-pure (Reported P p bytes) write_failed λ s v. v
  create_or_not false =
      Ensures-bind Created (os_create os p) _ os_create-Created write_created-Reported λ e s v. v

  write_in-Reported : (r : Reply) → Ensures P (write_in rt os p job_id bytes r) (Reported P p bytes)
  unfolding write_in
  write_in-Reported not_found = Ensures-raise (Reported P p bytes) Exn.os_error λ s v. v
  write_in-Reported failed = Ensures-raise (Reported P p bytes) Exn.os_error λ s v. v
  write_in-Reported done = create_or_not (ltb max_record_bytes (length bytes))
  write_in-Reported already_exists = create_or_not (ltb max_record_bytes (length bytes))

pub write_job_record-Reported :
    {P : Run → Type 0} (q : Quiet P) (rt : Runtime) (os : Os) (workspace : FilePath)
    (job_id : String) (document : Json)
    → KeptByCreate P (record_path workspace job_id)
    → KeptByWrite P (record_path workspace job_id)
    → Ensures P
        (write_job_record rt os workspace job_id document)
        (Reported P (record_path workspace job_id) (rt.encode_utf8 (rt.dumps document)))
unfolding write_job_record
write_job_record-Reported {P} q rt os workspace job_id document kc kw =
    Ensures-bind (λ r s. P s) (os_mkdir os (dispatch_dir workspace)) _
      (Ensures-Keeps (λ r s. P s) _ (search (quiet, q)) λ r s v. v)
      (write_in-Reported q rt os (record_path workspace job_id) kc kw job_id
        (rt.encode_utf8 (rt.dumps document)))
      λ e s v. v
