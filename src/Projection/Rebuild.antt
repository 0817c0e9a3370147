-- ===== src/Projection/Rebuild.antt =====
-- projection.py: `rebuild`, and the queries of the table.
pub mod Roots
pub mod Outcomes
use arjim.Base.{
  ℕ, suc, String, Option, none, some, ◌⊎◌, inl, inr, Bool, true, false, ◌&&◌, ◌||◌, List, [], ◌∷◌,
  ◌++◌, if◌then◌else◌, ◌==◌, ltb, map, contains, nat_eq, list_eq, string_eq,
}
use Prim.Native.String.{compare}
use Prim.Native.Nat.{Ordering}
use arjim.Json.{Json}
use arjim.Errors.{Exn, Result, ok, err}
use arjim.Runtime.{Runtime}
use arjim.Effects.{FilePath, Os, M, pure, raise, lift, ◌>>=◌, attempt, transaction}
use arjim.Filesystem.{TargetHandle, handle_to_bytes, capture_target_handle}
use arjim.Filesystem.Marker.{read_marker}
use arjim.Registration.Stages.{Stage, read_stage, accepted}
use arjim.Projection.{
  Row, caught, ensure_store, open_store, run_transaction, select_target, select_identity,
}
use arjim.Projection.Replacing.{Root, root_key, replace}

-- A row as a query gives it.
pub record ProjectionEntry : Type 0 where
  pub identity : String
  pub label : String
  pub marker_version : String
  pub target_handle : String
  pub workspace_path : FilePath
  pub state : String
  pub ordinal : ℕ
  pub updated_at : String

-- `detail`: the failing root with what failed there, or what the transaction raised
pub data Detail : Type 0 where
  store_failed : Exn → Detail
  root_failed : FilePath → Exn → Detail
  invalid_marker : FilePath → Detail
  rebuild_failed : Exn → Detail

pub data RebuildResult : Type 0 where
  rebuilt : List ProjectionEntry → RebuildResult
  failed : Detail → RebuildResult

abbrev before : String → String → Bool
before a b = elim (compare a b) [ Ordering.lt ↦ true | _ ↦ false ]

-- `ORDER BY ordinal, identity`
abbrev comes_before : Row → Row → Bool
comes_before a b =
    ltb a.ordinal b.ordinal || (a.ordinal == b.ordinal && before a.identity b.identity)

insert_sorted : Row → List Row → List Row
insert_sorted r [] = r ∷ []
insert_sorted r (other ∷ rows) =
    let rest = insert_sorted r rows in
    if comes_before other r then other ∷ rest else r ∷ other ∷ rows

sort_rows : List Row → List Row
unfolding insert_sorted
sort_rows [] = []
sort_rows (r ∷ rows) = insert_sorted r (sort_rows rows)

module _ (rt : Runtime) where
  row_to_entry : Row → ProjectionEntry
  row_to_entry r = record {
    identity = r.identity;
    label = r.label;
    marker_version = r.marker_version;
    target_handle = rt.b64encode r.target_handle;
    workspace_path = r.workspace_path;
    state = r.state;
    ordinal = r.ordinal;
    updated_at = r.updated_at;
  }

  entry_of : Option Row → Option ProjectionEntry
  unfolding row_to_entry
  entry_of none = none
  entry_of (some r) = some (row_to_entry r)

  accepted_marker : Stage → Option Json
  accepted_marker (accepted d) = some d
  accepted_marker _ = none

  parse_marker : List ℕ → M (Option Json)
  unfolding accepted_marker
  parse_marker raw = do stage ← lift (read_stage rt raw); pure (accepted_marker stage)

module _ (rt : Runtime) (os : Os) (store_dir : FilePath) where
  -- A query: the store is opened and verified, and an error of SQLite is a ProjectionStoreError.
  query {ℓ} : {A : Type ℓ} → A → M A
  query answer = do
    opened ← open_store os store_dir
    good ← transaction os
    if good then pure answer else raise Exn.projection_store_error

  pub list_projection : List Row → M (List ProjectionEntry)
  unfolding query sort_rows row_to_entry
  list_projection rows = query (map (row_to_entry rt) (sort_rows rows))

  pub find_by_target : List ℕ → List Row → M (Option ProjectionEntry)
  unfolding query entry_of
  find_by_target target rows = query (entry_of rt (select_target target rows))

  pub find_by_identity : String → List Row → M (Option ProjectionEntry)
  unfolding query entry_of
  find_by_identity identity rows = query (entry_of rt (select_identity identity rows))

  -- A step of the loop: a root, an alias of a root that was seen, or the failure.
  capture_failed : FilePath → Exn → M (TargetHandle ⊎ Detail)
  capture_failed path Exn.identity_unavailable =
      pure (inr (root_failed path Exn.identity_unavailable))
  capture_failed path Exn.target_alias_mismatch =
      pure (inr (root_failed path Exn.target_alias_mismatch))
  capture_failed path Exn.redirected_marker_component =
      pure (inr (root_failed path Exn.redirected_marker_component))
  capture_failed path e = raise e

  read_failed : FilePath → Exn → M (List ℕ ⊎ Detail)
  read_failed path Exn.read_back_failed = pure (inr (root_failed path Exn.read_back_failed))
  read_failed path e = raise e

  root_of : ℕ → FilePath → TargetHandle → Option Json → Option Root ⊎ Detail
  root_of ordinal path handle none = inr (invalid_marker path)
  root_of ordinal path handle (some marker) =
      inl (some (record { ordinal = ordinal; path = path; handle = handle; marker = marker }))

  parse_root : ℕ → FilePath → TargetHandle → List ℕ ⊎ Detail → M (Option Root ⊎ Detail)
  unfolding root_of parse_marker
  parse_root ordinal path handle (inr d) = pure (inr d)
  parse_root ordinal path handle (inl raw) = do
    marker ← parse_marker rt raw
    pure (root_of ordinal path handle marker)

  read_root : List Root → ℕ → FilePath → TargetHandle ⊎ Detail → M (Option Root ⊎ Detail)
  unfolding parse_root read_failed
  read_root resolved ordinal path (inr d) = pure (inr d)
  read_root resolved ordinal path (inl handle) =
      if contains (map (root_key rt) resolved) (handle_to_bytes rt handle)
      then pure (inl none)
      else do
        raw ← attempt (do b ← read_marker os path; pure (inl b)) (read_failed path)
        parse_root ordinal path handle raw

  resolve_root : List Root → ℕ → FilePath → M (Option Root ⊎ Detail)
  unfolding read_root capture_failed
  resolve_root resolved ordinal path = do
    handle ← attempt (do h ← capture_target_handle rt os path; pure (inl h)) (capture_failed path)
    read_root resolved ordinal path handle

  advance :
      List Root
      → Option Root ⊎ Detail
      → (List Root → M (List Root ⊎ Detail))
      → M (List Root ⊎ Detail)
  advance resolved (inr d) go_on = pure (inr d)
  advance resolved (inl none) go_on = go_on resolved
  advance resolved (inl (some root)) go_on = go_on (resolved ++ root ∷ [])

  -- The loop over the paths, from the given ordinal on.
  pub resolve_roots : List Root → ℕ → List FilePath → M (List Root ⊎ Detail)
  unfolding resolve_root advance
  resolve_roots resolved ordinal [] = pure (inl resolved)
  resolve_roots resolved ordinal (path ∷ paths) = do
    step ← resolve_root resolved ordinal path
    advance resolved step (λ roots. resolve_roots roots (suc ordinal) paths)

  listed : List Row → Result (List ProjectionEntry) → Result RebuildResult × List Row
  listed after (ok entries) = (ok (rebuilt entries), after)
  listed after (err e) = (err e, after)

  rebuilt_from : Result (Unit {0}) × List Row → M (Result RebuildResult × List Row)
  unfolding list_projection listed
  rebuilt_from (err e, after) = pure (ok (failed (rebuild_failed e)), after)
  rebuilt_from (ok u, after) = do
    entries ← caught (list_projection after)
    pure (listed after entries)

  replaced : List Row → Result (List Root ⊎ Detail) → M (Result RebuildResult × List Row)
  unfolding rebuilt_from
  replaced rows (err e) = pure (err e, rows)
  replaced rows (ok (inr d)) = pure (ok (failed d), rows)
  replaced rows (ok (inl roots)) = do
    answer ← run_transaction os rt store_dir rows (λ now. replace rt roots now rows)
    rebuilt_from answer

  ensured : List FilePath → List Row → Result (Unit {0}) → M (Result RebuildResult × List Row)
  unfolding replaced
  ensured paths rows (err e) = pure (ok (failed (store_failed e)), rows)
  ensured paths rows (ok u) = do roots ← caught (resolve_roots [] 1 paths); replaced rows roots

  -- `Projection.rebuild`: what it returns or raises, and the table afterwards
  pub rebuild : List FilePath → List Row → M (Result RebuildResult × List Row)
  unfolding ensured
  rebuild paths rows = do r ← caught (ensure_store os store_dir); ensured paths rows r
