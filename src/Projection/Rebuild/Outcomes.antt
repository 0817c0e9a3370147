-- ===== src/Projection/Rebuild/Outcomes.antt =====
-- projection.py: the table that `rebuild` leaves.
use arjim.Base.{String, ◌⊎◌, inl, inr, ◌≡◌, refl, ap, List, [], nat_eq, list_eq, arith}
use mathlib.Core.Path.{subst}
use arjim.Errors.{Result, ok, err}
use arjim.Runtime.{Runtime}
use arjim.Effects.{FilePath, Os, Run, M, pure, ◌>>=◌, attempt, continue, handle}
use arjim.Effects.Returns.{OkIs, Returns, Returns-after, Returns-bind, Returns-pure}
use arjim.Projection.{Row, caught, run_transaction}
use arjim.Projection.Rows.{IsUnique, Distinct}
use arjim.Projection.Transactions.{Transacted, run_transaction-Transacted}
use arjim.Projection.Replacing.{Root, replace}
use arjim.Projection.Replacing.Retained.{Replaced, replace-Replaced}
use arjim.Projection.Rebuild.{
  ProjectionEntry, RebuildResult, rebuilt, failed, Detail, store_failed, root_failed,
  invalid_marker, rebuild_failed, resolve_roots, listed, rebuilt_from, replaced, ensured, rebuild,
}
use arjim.Projection.Rebuild.Roots.{nth, Retained, AllRetained, resolve_roots-Retained}

caught-OkIs {ℓ} :
    {A : Type ℓ} (F : A → Type 0) (m : M A) → Returns F m → Returns (OkIs F) (caught m)
unfolding attempt pure ◌>>=◌
caught-OkIs {A} F m k = record { at = λ s. let (r, s') = m s in go r s' (k.at s) }
  where
    go :
        (r : Result A) (s : Run)
        → OkIs F r
        → OkIs
            (OkIs F)
            (handle
              (continue r (λ a. pure (ok a)) s).0
              (λ e. pure (err e))
              (continue r (λ a. pure (ok a)) s).1).0
    go (ok a) s h = h
    go (err e) s h = tt

module _ (rt : Runtime) (os : Os) (store_dir : FilePath) (inputs : List FilePath) where
  -- What a rebuild leaves in the table, by what it returns or raises.
  abbrev Exchanged : List Row → List Row → Type 0
  Exchanged rows after =
      (roots : List Root) × (Retained rt os inputs roots
        × ((now : String) × Replaced rt now roots rows after))

  abbrev pub Rebuilt : List Row → Result RebuildResult × List Row → Type 0
  Rebuilt rows (ok (rebuilt entries), after) = Exchanged rows after
  Rebuilt rows (ok (failed (rebuild_failed e)), after) = (after ≡ rows) ⊎ Exchanged rows after
  Rebuilt rows (ok (failed _), after) = after ≡ rows
  Rebuilt rows (err e, after) = (after ≡ rows) ⊎ Exchanged rows after

  listed-Rebuilt :
      {rows : List Row} (after : List Row) (entries : Result (List ProjectionEntry))
      → Exchanged rows after
      → Rebuilt rows (listed rt os store_dir after entries)
  unfolding listed
  listed-Rebuilt after (ok entries) x = x
  listed-Rebuilt after (err e) x = inr x

  module _ (rows : List Row) (u : IsUnique rows) (roots : List Root)
      (r : Retained rt os inputs roots) where
    exchanged :
        (now : String) (after : List Row)
        → replace rt roots now rows ≡ ok after
        → Exchanged rows after
    exchanged now after e = (
      roots,
      (
        r,
        (
          now,
          subst (OkIs (Replaced rt now roots rows)) e (replace-Replaced rt now roots rows u r.0.0),
        ),
      ),
    )

    rebuilt_from-Rebuilt :
        (answer : Result (Unit {0}) × List Row)
        → Transacted (λ now. replace rt roots now rows) rows answer
        → Returns (Rebuilt rows) (rebuilt_from rt os store_dir answer)
    unfolding rebuilt_from
    rebuilt_from-Rebuilt (err e, after) t =
        Returns-pure (ok (failed (rebuild_failed e)), after) (left t)
      where
        left :
            Transacted (λ now. replace rt roots now rows) rows (err e, after)
            → (after ≡ rows) ⊎ Exchanged rows after
        left (inl (h, inl same)) = inl same
        left (inl (h, inr (now, done))) = inr (exchanged now after done)
        left (inr (same, rest)) = inl same
    rebuilt_from-Rebuilt (ok tt, after) (now, e) =
        Returns-bind _ _
          λ entries. Returns-pure _ (listed-Rebuilt after entries (exchanged now after e))

  unchanged : (rows : List Row) (d : Detail) → Rebuilt rows (ok (failed d), rows)
  unchanged rows (store_failed e) = refl
  unchanged rows (root_failed path e) = refl
  unchanged rows (invalid_marker path) = refl
  unchanged rows (rebuild_failed e) = inl refl

  replaced-Rebuilt :
      (rows : List Row)
      → IsUnique rows
      → (answer : Result (List Root ⊎ Detail)) → OkIs (AllRetained rt os store_dir inputs) answer
      → Returns (Rebuilt rows) (replaced rt os store_dir rows answer)
  unfolding replaced
  replaced-Rebuilt rows u (err e) h = Returns-pure (err e, rows) (inl refl)
  replaced-Rebuilt rows u (ok (inr d)) h = Returns-pure (ok (failed d), rows) (unchanged rows d)
  replaced-Rebuilt rows u (ok (inl roots)) h =
      Returns-after (Transacted (λ now. replace rt roots now rows) rows)
        (run_transaction os rt store_dir rows (λ now. replace rt roots now rows)) _
        (run_transaction-Transacted os (λ now. replace rt roots now rows) rows rt store_dir)
        (rebuilt_from-Rebuilt rows u roots h)

  no_root : Distinct []
  unfolding Distinct
  no_root = tt

  ensured-Rebuilt :
      (rows : List Row) (answer : Result (Unit {0}))
      → IsUnique rows
      → Returns (Rebuilt rows) (ensured rt os store_dir inputs rows answer)
  unfolding ensured
  ensured-Rebuilt rows (err e) u = Returns-pure (ok (failed (store_failed e)), rows) refl
  ensured-Rebuilt rows (ok u') u =
      Returns-after (OkIs (AllRetained rt os store_dir inputs))
        (caught (resolve_roots rt os store_dir [] 1 inputs)) _
        (caught-OkIs (AllRetained rt os store_dir inputs) _ (
          resolve_roots-Retained rt os store_dir inputs [] 0 inputs
            ((no_root, tt), λ i p l e. absurd (omega arith)) λ i. ap (nth inputs) (omega arith)))
        (replaced-Rebuilt rows u)

-- In every environment, from a table with one row for each target: a rebuild that fails at a root,
-- or before it, leaves the table as it was. One that is done, or fails or raises in or after its
-- transaction, has exchanged the table or left it as it was; done, it has exchanged it. The
-- exchanged table has one row for each root that the rebuild retains, and no other. Each retained
-- root is an input path with its ordinal, with a handle that the environment gives for the path and
-- a marker that the guard and the schema accept, no two with one handle; and each input path has,
-- by the environment, the handle of a retained root.
pub rebuild-Rebuilt :
    (rt : Runtime) (os : Os) (store_dir : FilePath) (paths : List FilePath) (rows : List Row)
    (s : Run)
    → IsUnique rows
    → OkIs (Rebuilt rt os store_dir paths rows) (rebuild rt os store_dir paths rows s).0
unfolding rebuild
rebuild-Rebuilt rt os store_dir paths rows s u =
    (Returns-bind _ _ λ answer. ensured-Rebuilt rt os store_dir paths rows answer u).at s
