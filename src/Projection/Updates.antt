-- ===== src/Projection/Updates.antt =====
-- projection.py: `update` and `remove`, by what they answer and what they leave in the table.
use arjim.Base.{
  ℕ, String, ◌⊎◌, inl, inr, Bool, true, false, ◌≡◌, refl, sym, ◌∙◌, List, [], ◌∷◌, if◌then◌else◌,
  string_eq, nat_eq, list_eq, contains, any, arith, list_beq_iff, eq_iff,
}
use mathlib.Core.Path.{subst}
use arjim.Errors.{Exn, Result, ok, err}
use arjim.Runtime.{Runtime}
use arjim.Effects.{Os, Run, FilePath}
use arjim.Effects.Returns.{OkIs, Returns-after, Returns-pure}
use arjim.Effects.Raises.{ErrIs}
use arjim.Registration.{ProjectionInput}
use arjim.Projection.{
  Row, Status, ProjectionResult, select_target, same_key, targets, insert_by, insert_row, row_of,
  has_other, upsert_entry, update_status, run_transaction, update,
}
use arjim.Projection.Rows.{IsUnique, insert_row-IsUnique, insert_row-select, put}
use arjim.Projection.Transactions.{IsStoreError, Transacted, run_transaction-Transacted}

-- The target belongs to a row of another identity.
unfoldable pub IsTaken : ProjectionInput → List Row → Type 0
IsTaken input rows = has_other input.identity (select_target input.target_handle rows) ≡ true

-- The input's row is the one for its target, and every other target has the row it had.
unfoldable pub Put : ProjectionInput → List Row → List Row → Type 0
Put input rows after =
    (now : String) × ((t : List ℕ) → select_target t after ≡ put (row_of input now) rows t)

abbrev pub StatusHolds : ProjectionInput → List Row → Status → List Row → Type 0
StatusHolds input rows Status.linked after = Put input rows after
StatusHolds input rows Status.conflict after = IsTaken input rows × (after ≡ rows)
StatusHolds input rows Status.projection_failed after = (after ≡ rows) ⊎ Put input rows after
StatusHolds input rows Status.unlinked after = ⊥

abbrev pub Updated : ProjectionInput → List Row → ProjectionResult × List Row → Type 0
Updated input rows (r, after) = IsUnique after × StatusHolds input rows r.status after

module _ (input : ProjectionInput) (rows : List Row) (u : IsUnique rows) where
  -- A target of the table whose row has the input's identity has the input's key.
  any_key-true :
      (now : String) (tail : List Row)
      → contains (targets tail) input.target_handle ≡ true
      → has_other input.identity (select_target input.target_handle tail) ≡ false
      → any (same_key (row_of input now)) tail ≡ true
  unfolding has_other select_target row_of
  any_key-true now [] c h = cc
  any_key-true now (r ∷ tail) c h = ground (
    arith,
    list_beq_iff r.target_handle input.target_handle,
    list_beq_iff input.target_handle r.target_handle,
    eq_iff r.identity input.identity,
    any_key-true now tail,
  )

  false-true : false ≡ true → ⊥
  false-true e = cc

  insert_row-NoError :
      (now : String)
      → has_other input.identity (select_target input.target_handle rows) ≡ false
      → ErrIs (λ _. ⊥) (insert_row (row_of input now) rows)
  unfolding insert_row insert_by row_of
  insert_row-NoError now h =
      go (any (same_key (row_of input now)) rows) (contains (targets rows) input.target_handle) refl
        refl
    where
      go :
          (b c : Bool)
          → any (same_key (row_of input now)) rows ≡ b
          → contains (targets rows) input.target_handle ≡ c
          → ErrIs (λ _. ⊥) (insert_by (row_of input now) rows b c)
      go true c e k = tt
      go false true e k = absurd (false-true (sym e ∙ any_key-true now rows k h))
      go false false e k = tt

  abbrev EntryHolds : Result (List Row) → Type 0
  EntryHolds (ok after) = IsUnique after × Put input rows after
  EntryHolds (err e) = (e ≡ Exn.conflict_on_target) × IsTaken input rows

  inserted :
      (now : String) (r : Result (List Row))
      → OkIs IsUnique r
      → ((t : List ℕ) → OkIs (λ after. select_target t after ≡ put (row_of input now) rows t) r)
      → ErrIs (λ _. ⊥) r
      → EntryHolds r
  unfolding Put
  inserted now (ok after) k f n = (k, (now, f))
  inserted now (err e) k f n = absurd n

  entry-Holds : (now : String) → EntryHolds (upsert_entry input now rows)
  unfolding upsert_entry IsTaken
  entry-Holds now = go (has_other input.identity (select_target input.target_handle rows)) refl
    where
      go :
          (b : Bool)
          → has_other input.identity (select_target input.target_handle rows) ≡ b
          → EntryHolds
              (if b then err Exn.conflict_on_target else insert_row (row_of input now) rows)
      go true h = (refl, h)
      go false h =
          inserted now (insert_row (row_of input now) rows)
            (insert_row-IsUnique (row_of input now) rows u)
            (λ t. insert_row-select (row_of input now) rows t u) (insert_row-NoError now h)

  abbrev StatusOf : Result (Unit {0}) → List Row → Type 0
  StatusOf r after = IsUnique after × StatusHolds input rows (update_status r) after

  store_failed :
      (e : Exn) (after : List Row)
      → IsStoreError e
      → IsUnique after × ((after ≡ rows) ⊎ Put input rows after)
      → StatusOf (err e) after
  unfolding update_status
  store_failed e after (inl p) h = (h.0, rw p h.1)
  store_failed e after (inr p) h = (h.0, rw p h.1)

  entry_of : (r : Result (List Row)) (now : String) → upsert_entry input now rows ≡ r → EntryHolds r
  entry_of r now e = subst EntryHolds e (entry-Holds now)

  status-Holds :
      (answer : Result (Unit {0}) × List Row)
      → Transacted (λ now. upsert_entry input now rows) rows answer
      → StatusOf answer.0 answer.1
  unfolding update_status
  status-Holds (ok tt, after) (now, e) = entry_of (ok after) now e
  status-Holds (err e, after) (inl (h, inl same)) = store_failed e after h (rw same u, inl same)
  status-Holds (err e, after) (inl (h, inr (now, done))) =
      let k = entry_of (ok after) now done in store_failed e after h (k.0, inr k.1)
  status-Holds (err e, after) (inr (same, (now, raised))) =
      let k = entry_of (err e) now raised in (rw same u, rw k.0 (k.1, same))

-- In every environment, from a table with one row for each target: `update` leaves one row for
-- each target, and its status tells what became of the table. A linked input's row is the one for
-- its target, and no other target has another row; a conflict is with a row of another identity,
-- and leaves the table as it was; after a failure the table is as it was, or as after a link.
pub update-Updated :
    (rt : Runtime) (os : Os) (store_dir : FilePath) (input : ProjectionInput) (rows : List Row)
    (s : Run)
    → IsUnique rows
    → OkIs (Updated input rows) (update rt os store_dir input rows s).0
unfolding update
update-Updated rt os store_dir input rows s u =
    (Returns-after (Transacted (λ now. upsert_entry input now rows) rows)
        (run_transaction os rt store_dir rows (λ now. upsert_entry input now rows)) _
        (run_transaction-Transacted os (λ now. upsert_entry input now rows) rows rt store_dir)
        λ answer t. Returns-pure _ (status-Holds input rows u answer t)).at
      s
