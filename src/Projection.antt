-- ===== src/Projection.antt =====
-- workstream_registration/projection.py: the store of the projection, one table in a database of
-- its own. The table is passed explicitly, since it outlives an exception; what SQLite makes of
-- the statements of the source on the rows is written out, and whether it commits is a parameter.
pub mod Transactions
pub mod Rows
pub mod Updates
pub mod Replacing
pub mod Rebuild
use arjim.Base.{
  ℕ, String, Option, none, some, ◌⊎◌, inl, inr, Bool, true, false, not, ◌&&◌, List, [], ◌∷◌, ◌++◌,
  if◌then◌else◌, ◌==◌, ◌!=◌, any, map, string_eq, nat_eq, list_eq, contains,
}
use arjim.Errors.{Exn, Result, ok, err}
use arjim.Runtime.{Runtime}
use arjim.Effects.{
  FilePath, Reply, done, already_exists, Os, M, pure, raise, lift, ◌>>=◌, ◌>>◌, attempt, os_exists,
  os_mkdir, os_owner_only, time_now, transaction,
}
use arjim.Registration.{ProjectionInput}

-- A row of the table, with its columns. The source gives every row the same state.
pub record Row : Type 0 where
  pub identity : String
  pub label : String
  pub marker_version : String
  pub target_handle : List ℕ
  pub workspace_path : FilePath
  pub state : String
  pub ordinal : ℕ
  pub updated_at : String

-- `STATUS_…` of an update or a removal
pub data Status : Type 0 where
  linked unlinked projection_failed conflict : Status

pub record ProjectionResult : Type 0 where
  pub status : Status
  pub identity : String
  pub target_handle : List ℕ
  pub ordinal : Option ℕ

-- `SELECT … WHERE target_handle = ?` and `WHERE identity = ?`, the first row
unfoldable pub select_target : List ℕ → List Row → Option Row
select_target target [] = none
select_target target (r ∷ rows) =
    if r.target_handle == target then some r else select_target target rows

unfoldable pub select_identity : String → List Row → Option Row
select_identity identity [] = none
select_identity identity (r ∷ rows) =
    if r.identity == identity then some r else select_identity identity rows

abbrev pub same_key : Row → Row → Bool
same_key new r = r.identity == new.identity && r.target_handle == new.target_handle

-- `DO UPDATE SET` on the row of the key, which keeps its place
unfoldable pub update_row : Row → List Row → List Row
update_row new [] = []
update_row new (r ∷ rows) = (if same_key new r then new else r) ∷ update_row new rows

abbrev pub targets : List Row → List (List ℕ)
targets rows = map (λ r. r.target_handle) rows

insert_by : Row → List Row → Bool → Bool → Result (List Row)
insert_by new rows true taken = ok (update_row new rows)
insert_by new rows false true = err Exn.integrity_error
insert_by new rows false false = ok (rows ++ new ∷ [])

-- `INSERT … ON CONFLICT(identity, target_handle) DO UPDATE SET …`, where the unique index on the
-- target handle refuses a second row for it.
unfoldable pub insert_row : Row → List Row → Result (List Row)
unfolding insert_by
insert_row new rows =
    insert_by new rows (any (same_key new) rows) (contains (targets rows) new.target_handle)

-- `DELETE … WHERE identity = ? AND target_handle = ?`
unfoldable pub delete_row : String → List ℕ → List Row → List Row
delete_row identity target [] = []
delete_row identity target (r ∷ rows) =
    let rest = delete_row identity target rows in
    if r.identity == identity && r.target_handle == target then rest else r ∷ rest

-- `DELETE … WHERE target_handle NOT IN (…)`
unfoldable pub keep_targets : List (List ℕ) → List Row → List Row
keep_targets keys [] = []
keep_targets keys (r ∷ rows) =
    let rest = keep_targets keys rows in if contains keys r.target_handle then r ∷ rest else rest

unfoldable pub row_of : ProjectionInput → String → Row
row_of input now = record {
  identity = input.identity;
  label = input.label;
  marker_version = input.marker_version;
  target_handle = input.target_handle;
  workspace_path = input.workspace_path;
  state = "linked";
  ordinal = input.ordinal;
  updated_at = now;
}

unfoldable pub has_other : String → Option Row → Bool
has_other identity none = false
has_other identity (some r) = r.identity != identity

-- `_upsert` of `update`
unfoldable pub upsert_entry : ProjectionInput → String → List Row → Result (List Row)
unfolding has_other
upsert_entry input now rows =
    if has_other input.identity (select_target input.target_handle rows)
    then err Exn.conflict_on_target
    else insert_row (row_of input now) rows

ordinal_of : Option Row → Option ℕ
ordinal_of none = none
ordinal_of (some r) = some r.ordinal

-- The row of both columns of the key
select_row : String → List ℕ → List Row → Option Row
select_row identity target [] = none
select_row identity target (r ∷ rows) =
    if r.identity == identity && r.target_handle == target
    then some r
    else select_row identity target rows

update_status : Result (Unit {0}) → Status
update_status (ok u) = Status.linked
update_status (err Exn.conflict_on_target) = Status.conflict
update_status (err Exn.integrity_error) = Status.conflict
update_status (err e) = Status.projection_failed

removed_result : Result (Unit {0}) → Option Row → String → List ℕ → ProjectionResult
unfolding ordinal_of
removed_result (ok u) row identity target = record {
  status = Status.unlinked;
  identity = identity;
  target_handle = target;
  ordinal = ordinal_of row;
}
removed_result (err e) row identity target = record {
  status = Status.projection_failed;
  identity = identity;
  target_handle = target;
  ordinal = none;
}

-- The value or the exception of an action, which goes on.
abbrev pub caught {ℓ} : {A : Type ℓ} → M A → M (Result A)
caught m = attempt (do a ← m; pure (ok a)) λ e. pure (err e)

module _ (os : Os) where
  enforce_owner_only : FilePath → M (Unit {0})
  enforce_owner_only path = do
    good ← os_owner_only os path
    if good then pure tt else raise Exn.projection_store_error

  store_made : FilePath → Reply → M (Unit {0})
  unfolding enforce_owner_only
  store_made store_dir done = enforce_owner_only store_dir
  store_made store_dir already_exists = enforce_owner_only store_dir
  store_made store_dir _ = raise Exn.projection_store_error

  -- `_ensure_store`
  pub ensure_store : FilePath → M (Unit {0})
  unfolding store_made enforce_owner_only
  ensure_store store_dir = do
    there ← os_exists os store_dir
    if there
        then enforce_owner_only store_dir
        else do reply ← os_mkdir os store_dir; store_made store_dir reply

  verify_sidecar : FilePath → M (Unit {0})
  unfolding enforce_owner_only
  verify_sidecar path = do
    there ← os_exists os path
    if there then enforce_owner_only path else pure tt

  verify_sidecars : FilePath → M (Unit {0})
  unfolding verify_sidecar
  verify_sidecars store_dir = do
    wal ← verify_sidecar ("projection.db-wal" ∷ store_dir)
    shm ← verify_sidecar ("projection.db-shm" ∷ store_dir)
    verify_sidecar ("projection.db-journal" ∷ store_dir)

  -- `_connect`: the database and its table, if it is new
  connect : FilePath → M (Unit {0})
  unfolding enforce_owner_only
  connect store_dir = do
    there ← os_exists os ("projection.db" ∷ store_dir)
    opened ← transaction os
    if opened
        then enforce_owner_only ("projection.db" ∷ store_dir)
        else raise Exn.projection_store_error

  pub open_store : FilePath → M (Unit {0})
  unfolding ensure_store connect verify_sidecars
  open_store store_dir = do
    ensured ← ensure_store store_dir
    connected ← connect store_dir
    verify_sidecars store_dir

  committed : List Row → Result (List Row) → M (Result (Unit {0}) × List Row)
  committed rows (err e) = pure (err e, rows)
  committed rows (ok changed) = do
    good ← transaction os
    pure (if good then (ok tt, changed) else (err Exn.sqlite_error, rows))

  -- The close of the connection: its sidecars are verified again, and an exception of that
  -- replaces what the transaction gave. The table is what it is.
  closed_with : Result (Unit {0}) × List Row → Result (Unit {0}) → Result (Unit {0}) × List Row
  closed_with answer (ok u) = answer
  closed_with answer (err e) = (err e, answer.1)

  transact :
      FilePath
      → List Row
      → (String → Result (List Row))
      → String
      → Result (Unit {0})
      → M (Result (Unit {0}) × List Row)
  unfolding committed closed_with verify_sidecars
  transact store_dir rows fn now (err e) = pure (err e, rows)
  transact store_dir rows fn now (ok u) = do
    answer ← committed rows (fn now)
    verified ← caught (verify_sidecars store_dir)
    pure (closed_with answer verified)

  -- `_run_transaction`: what it returns or raises, and the table afterwards
  pub run_transaction :
      Runtime
      → FilePath
      → List Row
      → (String → Result (List Row))
      → M (Result (Unit {0}) × List Row)
  unfolding transact open_store
  run_transaction rt store_dir rows fn = do
    now ← time_now os
    opened ← caught (open_store store_dir)
    transact store_dir rows fn (rt.format_timestamp now) opened

module _ (rt : Runtime) (os : Os) (store_dir : FilePath) where
  -- `Projection.update`, with the table afterwards
  pub update : ProjectionInput → List Row → M (ProjectionResult × List Row)
  unfolding update_status
  update input rows = do
    answer ← run_transaction os rt store_dir rows (λ now. upsert_entry input now rows)
    pure (
      record {
        status = update_status answer.0;
        identity = input.identity;
        target_handle = input.target_handle;
        ordinal = some input.ordinal;
      },
      answer.1,
    )

  -- `Projection.remove`
  pub remove : String → List ℕ → List Row → M (ProjectionResult × List Row)
  unfolding removed_result select_row
  remove identity target rows = do
    answer ← run_transaction os rt store_dir rows (λ now. ok (delete_row identity target rows))
    pure (removed_result answer.0 (select_row identity target rows) identity target, answer.1)
