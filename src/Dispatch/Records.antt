-- ===== src/Dispatch/Records.antt =====
-- workstream_dispatch/records.py: the job records of a workspace. The loop that writes a record is
-- the one of filesystem.py, but for what becomes of a write that takes no byte.
pub mod Recorded
use arjim.Base.{
  ℕ, String, Option, none, some, Bool, true, false, not, ◌&&◌, ◌||◌, List, [], ◌∷◌, ◌<>◌,
  if◌then◌else◌, ◌==◌, ◌!=◌, nat_eq, string_eq, list_eq, length, ltb, leb, codes,
}
use Prim.Native.String.{compare}
use Prim.Native.Nat.{Ordering}
use arjim.Json.{Json, str, get, is_dict}
use arjim.Errors.{Exn, Result, ok, err}
use arjim.Runtime.{Runtime, SchemaName, SchemaError, Loaded, document, decode_error, other_error}
use arjim.Effects.{
  FilePath, Reply, done, already_exists, not_found, failed, StatReply, found, Os, M, pure, raise,
  ◌>>=◌, ◌>>◌, attempt, os_mkdir, os_create, os_read_all, os_stat, os_listdir,
}
use arjim.Filesystem.{parent_path}
use arjim.Filesystem.Writes.{write_fd}

abbrev pub dispatch_dir : FilePath → FilePath
dispatch_dir workspace = "dispatch" ∷ parent_path workspace

abbrev pub record_path : FilePath → String → FilePath
record_path workspace job_id = (job_id <> ".json") ∷ dispatch_dir workspace

abbrev pub max_record_bytes : ℕ
max_record_bytes = 262144

pub data WriteStatus : Type 0 where
  written collision write_failed written_unverified : WriteStatus

pub record ReadResult : Type 0 where
  pub job_id : String
  pub document : Json
  pub path : FilePath
  pub bytes : List ℕ

abbrev pub has_text : String → Option Json → Bool
has_text text (some (str s)) = s == text
has_text text _ = false

-- `validator.validate(data)`: whether it raises nothing
pub no_errors : Option (List SchemaError) → Bool
no_errors (some []) = true
no_errors (some (e ∷ es)) = false
no_errors none = false

-- The form of a job id: a lower-case UUID of version 4. A `$` also matches before a last newline.
data Part : Type 0 where
  hex dash four variant : Part

is_hex : ℕ → Bool
is_hex c = (leb b'0' c && leb c b'9') || (leb b'a' c && leb c b'f')

fits : Part → ℕ → Bool
unfolding is_hex
fits hex c = is_hex c
fits dash c = c == b'-'
fits four c = c == b'4'
fits variant c = c == b'8' || c == b'9' || c == b'a' || c == b'b'

matches : List Part → List ℕ → Bool
unfolding fits
matches [] [] = true
matches [] (c ∷ cs) = c == 10 && length cs == 0
matches (p ∷ ps) [] = false
matches (p ∷ ps) (c ∷ cs) = fits p c && matches ps cs

abbrev job_id_pattern : List Part
job_id_pattern =
    hex ∷ hex ∷ hex ∷ hex ∷ hex ∷ hex ∷ hex ∷ hex ∷ dash ∷ hex ∷ hex ∷ hex ∷ hex ∷ dash ∷ four ∷ hex
    ∷ hex ∷ hex ∷ dash ∷ variant ∷ hex ∷ hex ∷ hex ∷ dash ∷ hex ∷ hex ∷ hex ∷ hex ∷ hex ∷ hex ∷ hex
    ∷ hex ∷ hex ∷ hex ∷ hex ∷ hex ∷ []

-- What is before a last ".json"
stem_of : String → Option String
stem_of String.[] = none
stem_of (String.◌∷◌ c s) =
    let rest = stem_of s in
    if String.◌∷◌ c s == ".json"
    then some ""
    else elim rest [ none ↦ none | some t ↦ some (String.◌∷◌ c t) ]

-- The job id of a file's name, if the name is that of a record
id_of : Option String → Option String
unfolding matches
id_of none = none
id_of (some stem) = if matches job_id_pattern (codes stem) then some stem else none

created_at : ReadResult → String
created_at r = elim (get "created_at" r.document) [ some (str s) ↦ s | _ ↦ "" ]

abbrev earlier : String → String → Bool
earlier a b = elim (compare a b) [ Ordering.lt ↦ true | _ ↦ false ]

insert_record : ReadResult → List ReadResult → List ReadResult
unfolding created_at
insert_record r [] = r ∷ []
insert_record r (other ∷ rest) =
    let more = insert_record r rest in
    if earlier (created_at other) (created_at r) then other ∷ more else r ∷ other ∷ rest

-- `results.sort(key=…)`, which is stable
sort_records : List ReadResult → List ReadResult
unfolding insert_record
sort_records [] = []
sort_records (r ∷ rest) = insert_record r (sort_records rest)

abbrev is_write_failed : Exn → Bool
is_write_failed Exn.write_failed = true
is_write_failed e = false

module _ (rt : Runtime) (os : Os) where
  -- The read-back: whether the file has the bytes, and they are a valid record with the job id
  valid_record : String → Loaded → Bool
  unfolding no_errors
  valid_record job_id (document d) =
      no_errors (rt.iter_errors SchemaName.job_record_schema d) && has_text job_id (get "job_id" d)
  valid_record job_id _ = false

  unfoldable pub read_back : List ℕ → String → Option (List ℕ) → WriteStatus
  unfolding valid_record
  read_back record_bytes job_id none = WriteStatus.written_unverified
  read_back record_bytes job_id (some raw) =
      if raw == record_bytes && valid_record job_id (rt.loads_bytes raw)
      then WriteStatus.written
      else WriteStatus.written_unverified

  no_progress : Exn → M Bool
  no_progress e = if is_write_failed e then pure false else raise e

  read_back_if : FilePath → String → List ℕ → Bool → M WriteStatus
  unfolding read_back
  read_back_if target job_id record_bytes false = pure WriteStatus.write_failed
  read_back_if target job_id record_bytes true = do
    raw ← os_read_all os target
    pure (read_back record_bytes job_id raw)

  write_created : FilePath → String → List ℕ → Reply → M WriteStatus
  unfolding no_progress read_back_if
  write_created target job_id record_bytes done = do
    complete ← attempt (do u ← write_fd os target record_bytes; pure true) no_progress
    read_back_if target job_id record_bytes complete
  write_created target job_id record_bytes already_exists = pure WriteStatus.collision
  write_created target job_id record_bytes _ = pure WriteStatus.write_failed

  write_in : FilePath → String → List ℕ → Reply → M WriteStatus
  unfolding write_created
  write_in target job_id record_bytes not_found = raise Exn.os_error
  write_in target job_id record_bytes failed = raise Exn.os_error
  write_in target job_id record_bytes _ =
      if ltb max_record_bytes (length record_bytes)
      then pure WriteStatus.write_failed
      else do reply ← os_create os target; write_created target job_id record_bytes reply

  -- `write_job_record`, of a record with its job id
  pub write_job_record : FilePath → String → Json → M WriteStatus
  unfolding write_in
  write_job_record workspace job_id job_record = do
    reply ← os_mkdir os (dispatch_dir workspace)
    write_in (record_path workspace job_id) job_id (rt.encode_utf8 (rt.dumps job_record)) reply

  parsed_record : FilePath → String → List ℕ → Json → M (Option ReadResult)
  parsed_record target job_id raw d =
      if not (is_dict d)
      then raise Exn.type_error
      else if has_text job_id (get "job_id" d)
      then pure (some (record { job_id = job_id; document = d; path = target; bytes = raw }))
      else pure none

  loaded_record : FilePath → String → List ℕ → Loaded → M (Option ReadResult)
  unfolding parsed_record no_errors
  loaded_record target job_id raw (document d) =
      if no_errors (rt.iter_errors SchemaName.job_record_schema d)
      then parsed_record target job_id raw d
      else pure none
  loaded_record target job_id raw _ = pure none

  read_record_from : FilePath → String → Option (List ℕ) → M (Option ReadResult)
  unfolding loaded_record
  read_record_from target job_id none = pure none
  read_record_from target job_id (some raw) = loaded_record target job_id raw (rt.loads_bytes raw)

  pub read_job_record : FilePath → String → M (Option ReadResult)
  unfolding read_record_from
  read_job_record workspace job_id = do
    raw ← os_read_all os (record_path workspace job_id)
    read_record_from (record_path workspace job_id) job_id raw

  read_named : FilePath → Option String → M (Option ReadResult)
  unfolding read_job_record
  read_named workspace none = pure none
  read_named workspace (some job_id) = read_job_record workspace job_id

  abbrev with_record : Option ReadResult → List ReadResult → List ReadResult
  with_record none results = results
  with_record (some r) results = r ∷ results

  read_entries : FilePath → List String → M (List ReadResult)
  unfolding read_named id_of stem_of
  read_entries workspace [] = pure []
  read_entries workspace (name ∷ names) = do
    first ← read_named workspace (id_of (stem_of name))
    rest ← read_entries workspace names
    pure (with_record first rest)

  read_listed : FilePath → Option (List String) → M (List ReadResult)
  unfolding read_entries sort_records
  read_listed workspace none = raise Exn.os_error
  read_listed workspace (some names) = do
    results ← read_entries workspace names
    pure (sort_records results)

  read_dir : FilePath → StatReply → M (List ReadResult)
  unfolding read_listed
  read_dir workspace (found st) =
      if not st.is_dir
      then pure []
      else do names ← os_listdir os (dispatch_dir workspace); read_listed workspace names
  read_dir workspace _ = pure []

  pub read_all_records : FilePath → M (List ReadResult)
  unfolding read_dir
  read_all_records workspace = do
    reply ← os_stat os (dispatch_dir workspace)
    read_dir workspace reply
