-- ===== src/Dispatch/Store/Refinement.antt =====
-- store.py: the store as two maps, and its operations as updates of them.
use arjim.Base.{
  String, Option, none, some, ◌⊎◌, inl, inr, Bool, true, false, ◌≡◌, refl, if◌then◌else◌, ◌==◌,
  string_eq, List, ◌∷◌,
}
use arjim.Base.Table.{select, upsert, delete, select-upsert, select-delete}
use arjim.Errors.{Exn, Result, ok, err}
use arjim.Effects.{
  FilePath, Reply, done, not_found, already_exists, failed, Os, Run, M, pure, raise, ◌>>=◌, call,
  transaction, os_unlink, unlinked, connected, continue, OpenReply, store_opened, no_directory,
  open_failed, os_open_store,
}
use arjim.Dispatch.Store.{
  Binding, Baseline, Store, connected_from, connect, run_transaction, bind_job, delete_binding,
  set_baseline, delete_baseline, destroyed, destroy,
}

-- The abstract store.
pub record View : Type 0 where
  pub binding : String → Option Binding
  pub baseline : String → Option Baseline

pub data Op : Type 0 where
  bind_op : String → Binding → Op
  unbind_op : String → Op
  set_op : String → Baseline → Op
  unset_op : String → Op
  destroy_op : FilePath → Op

abbrev change {ℓ} : {V : Type ℓ} → (String → Option V) → String → Option V → String → Option V
change map key value other = if key == other then value else map other

-- What each operation means for the maps.
abbrev pub meaning : Op → View → View
meaning (bind_op job b) v = record v { binding = change v.binding job (some b) }
meaning (unbind_op job) v = record v { binding = change v.binding job none }
meaning (set_op handle b) v = record v { baseline = change v.baseline handle (some b) }
meaning (unset_op handle) v = record v { baseline = change v.baseline handle none }
meaning (destroy_op path) v = record { binding = λ job. none; baseline = λ handle. none }

unfoldable pub perform : Os → Op → Store → M Store
perform os (bind_op job b) store = bind_job os store job b.agent_id b.dispatch_timestamp
perform os (unbind_op job) store = delete_binding os store job
perform os (set_op handle b) store =
    set_baseline os store handle b.head_oid b.worktree_digest b.updated_at
perform os (unset_op handle) store = delete_baseline os store handle
perform os (destroy_op path) store = destroy os path store

pub record Represents (store : Store) (v : View) : Type 0 where
  pub bindings : (job : String) → select job store.bindings ≡ v.binding job
  pub baselines : (handle : String) → select handle store.baselines ≡ v.baseline handle

-- The exceptions of an operation: StoreError, the OSError of `mkdir`, an error of sqlite3. The
-- removal of the file raises StoreError only.
abbrev pub MayRaise : Op → Exn → Type 0
MayRaise (destroy_op path) e = e ≡ Exn.store_error
MayRaise _ e = (e ≡ Exn.store_error) ⊎ ((e ≡ Exn.os_error) ⊎ (e ≡ Exn.sqlite_error))

abbrev pub Performed : Op → View → Result Store → Type 0
Performed op v (ok store) = Represents store (meaning op v)
Performed op v (err e) = MayRaise op e

committed_lem {ℓ} :
    {A : Type ℓ} (os : Os) (result : A) (P : Result A → Type 0) (s : Run)
    → P (ok result)
    → ((e : Exn)
        → (e ≡ Exn.store_error) ⊎ ((e ≡ Exn.os_error) ⊎ (e ≡ Exn.sqlite_error))
        → P (err e))
    → P (run_transaction os result s).0
unfolding run_transaction connect os_open_store transaction call ◌>>=◌ raise pure
committed_lem os result P s good bad = go (os.open_store s.log)
  where
    ends : (b : Bool) (t : Run) → P ((if b then pure result else raise Exn.sqlite_error) t).0
    ends true t = good
    ends false t = bad Exn.sqlite_error (inr (inr refl))

    go :
        (r : OpenReply)
        → P
            (continue
              (connected_from os r (record s { log = connected ∷ s.log })).0
              (λ conn. transaction os >>= λ committed.
                if committed then pure result else raise Exn.sqlite_error)
              (connected_from os r (record s { log = connected ∷ s.log })).1).0
    go store_opened = ends (os.commits (connected ∷ s.log)) _
    go no_directory = bad Exn.os_error (inr (inl refl))
    go open_failed = bad Exn.store_error (inl refl)

-- The two tables answer as changed maps.
upsert-change {ℓ} :
    {V : Type ℓ} (key : String) (row : V) (rows : List (String × V)) (map : String → Option V)
    → ((k : String) → select k rows ≡ map k)
    → (k : String) → select k (upsert key row rows) ≡ change map key (some row) k
upsert-change key row rows map same k = rw (select-upsert key k row rows, same k) refl

delete-change {ℓ} :
    {V : Type ℓ} (key : String) (rows : List (String × V)) (map : String → Option V)
    → ((k : String) → select k rows ≡ map k)
    → (k : String) → select k (delete key rows) ≡ change map key none k
delete-change key rows map same k = rw (select-delete key k rows, same k) refl

destroyed_lem :
    (path : FilePath) (store : Store) (v : View) (reply : Reply) (s : Run)
    → Performed (destroy_op path) v (destroyed store reply s).0
unfolding destroyed raise pure select
destroyed_lem path store v done s = record { bindings = λ job. refl; baselines = λ handle. refl }
destroyed_lem path store v not_found s = record {
  bindings = λ job. refl;
  baselines = λ handle. refl;
}
destroyed_lem path store v already_exists s = refl
destroyed_lem path store v failed s = refl

-- In every environment, an operation of the store that returns has made the change that it means
-- to the maps that the tables represent, and no other. One that raises has raised StoreError, the
-- OSError of the directory or an error of sqlite3, and the removal of the file only StoreError.
pub perform-Performed :
    (os : Os) (op : Op) (store : Store) (v : View) (s : Run)
    → Represents store v
    → Performed op v (perform os op store s).0
unfolding perform bind_job delete_binding set_baseline delete_baseline destroy os_unlink call ◌>>=◌
perform-Performed os (bind_op job b) store v s rep =
    committed_lem os _ (Performed (bind_op job b) v) s
      (record {
        bindings = upsert-change job b store.bindings v.binding rep.bindings;
        baselines = rep.baselines;
      })
      (λ e h. h)
perform-Performed os (unbind_op job) store v s rep =
    committed_lem os _ (Performed (unbind_op job) v) s
      (record {
        bindings = delete-change job store.bindings v.binding rep.bindings;
        baselines = rep.baselines;
      })
      (λ e h. h)
perform-Performed os (set_op handle b) store v s rep =
    committed_lem os _ (Performed (set_op handle b) v) s
      (record {
        bindings = rep.bindings;
        baselines = upsert-change handle b store.baselines v.baseline rep.baselines;
      })
      (λ e h. h)
perform-Performed os (unset_op handle) store v s rep =
    committed_lem os _ (Performed (unset_op handle) v) s
      (record {
        bindings = rep.bindings;
        baselines = delete-change handle store.baselines v.baseline rep.baselines;
      })
      (λ e h. h)
perform-Performed os (destroy_op path) store v s rep =
    destroyed_lem path store v (os.unlink s.log path)
      (record s { log = unlinked path (os.unlink s.log path) ∷ s.log })
