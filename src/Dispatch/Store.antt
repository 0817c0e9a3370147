-- ===== src/Dispatch/Store.antt =====
-- workstream_dispatch/store.py: the two tables of the local store. SQLite is a parameter: it
-- commits a transaction, or it rolls it back and raises. The store is passed explicitly; a caller
-- that catches the exception goes on with the store that it had.
pub mod Refinement
use arjim.Base.{String, Option, none, some, Bool, true, false, [], if◌then◌else◌, string_eq}
use arjim.Base.Table.{Table, select, upsert, delete}
use arjim.Errors.{Exn}
use arjim.Effects.{
  FilePath, Reply, done, not_found, already_exists, failed, Os, M, pure, raise, ◌>>=◌, transaction,
  os_unlink, OpenReply, store_opened, no_directory, open_failed, os_open_store,
}

pub record Binding : Type 0 where
  pub agent_id : String
  pub dispatch_timestamp : String

pub record Baseline : Type 0 where
  pub head_oid : String
  pub worktree_digest : String
  pub updated_at : String

pub record Store : Type 0 where
  pub bindings : Table String Binding
  pub baselines : Table String Baseline

abbrev pub empty_store : Store
empty_store = record { bindings = []; baselines = [] }

destroyed : Store → Reply → M Store
destroyed store done = pure empty_store
destroyed store not_found = pure empty_store
destroyed store _ = raise Exn.store_error

module _ (os : Os) where
  abbrev pub connected_from : OpenReply → M (Unit {0})
  connected_from store_opened = pure tt
  connected_from no_directory = raise Exn.os_error
  connected_from open_failed = raise Exn.store_error

  -- `_connect`: an OSError of `_ensure_store` goes on, an error of sqlite3 is a StoreError
  unfoldable pub connect : M (Unit {0})
  connect = do reply ← os_open_store os; connected_from reply

  -- `_run_transaction`: an error of sqlite3 in the transaction is raised again as it is
  unfoldable pub run_transaction {ℓ} : {A : Type ℓ} → A → M A
  unfolding connect
  run_transaction result = do
    conn ← connect
    committed ← transaction os
    if committed then pure result else raise Exn.sqlite_error

  -- A read, where an error of sqlite3 is a StoreError
  unfoldable pub run_query {ℓ} : {A : Type ℓ} → A → M A
  unfolding connect
  run_query result = do
    conn ← connect
    good ← transaction os
    if good then pure result else raise Exn.store_error

  unfoldable pub bind_job : Store → String → String → String → M Store
  unfolding run_transaction
  bind_job store job_id agent_id dispatch_timestamp = run_transaction (record store {
    bindings =
        upsert job_id (record { agent_id = agent_id; dispatch_timestamp = dispatch_timestamp })
          store.bindings;
  })

  unfoldable pub get_binding : Store → String → M (Option Binding)
  unfolding run_query
  get_binding store job_id = run_query (select job_id store.bindings)

  unfoldable pub delete_binding : Store → String → M Store
  unfolding run_transaction
  delete_binding store job_id =
      run_transaction (record store { bindings = delete job_id store.bindings })

  unfoldable pub set_baseline : Store → String → String → String → String → M Store
  unfolding run_transaction
  set_baseline store workspace_handle head_oid worktree_digest updated_at =
      run_transaction (record store {
        baselines =
            upsert workspace_handle
              (record {
                head_oid = head_oid;
                worktree_digest = worktree_digest;
                updated_at = updated_at;
              })
              store.baselines;
      })

  unfoldable pub get_baseline : Store → String → M (Option Baseline)
  unfolding run_query
  get_baseline store workspace_handle = run_query (select workspace_handle store.baselines)

  unfoldable pub delete_baseline : Store → String → M Store
  unfolding run_transaction
  delete_baseline store workspace_handle =
      run_transaction (record store { baselines = delete workspace_handle store.baselines })

  -- `destroy`: the database file is removed, or is not there
  unfoldable pub destroy : FilePath → Store → M Store
  unfolding destroyed
  destroy db_path store = do reply ← os_unlink os db_path; destroyed store reply
