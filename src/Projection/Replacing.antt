-- ===== src/Projection/Replacing.antt =====
-- projection.py: the statements of the one transaction of `rebuild`, on the rows of the table.
-- The rows of a transaction have one time.
pub mod Inserting
pub mod Retained
use arjim.Base.{ℕ, String, List, [], ◌∷◌, map}
use arjim.Json.{Json}
use arjim.Errors.{Exn, Result, ok, err, ◌>>=◌}
use arjim.Runtime.{Runtime}
use arjim.Effects.{FilePath}
use arjim.Filesystem.{TargetHandle, handle_to_bytes}
use arjim.Registration.Inspect.{item_text}
use arjim.Projection.{Row, insert_row, keep_targets}

-- A root that `rebuild` retains: its place in the input, counted from 1, and what was read of it.
pub record Root : Type 0 where
  pub ordinal : ℕ
  pub path : FilePath
  pub handle : TargetHandle
  pub marker : Json

module _ (rt : Runtime) where
  abbrev pub root_key : Root → List ℕ
  root_key root = handle_to_bytes rt root.handle

  unfoldable pub root_row : String → Root → Result Row
  root_row now root = do
    identity ← item_text rt "identity" root.marker
    label ← item_text rt "label" root.marker
    version ← item_text rt "version" root.marker
    ok (record {
      identity = identity;
      label = label;
      marker_version = version;
      target_handle = root_key root;
      workspace_path = root.path;
      state = "linked";
      ordinal = root.ordinal;
      updated_at = now;
    })

  pub insert_roots : String → List Root → List Row → Result (List Row)
  unfolding root_row
  insert_roots now [] rows = ok rows
  insert_roots now (root ∷ roots) rows = do
    row ← root_row now root
    inserted ← insert_row row rows
    insert_roots now roots inserted

  purge : List Root → List Row → List Row
  purge [] rows = []
  purge (root ∷ roots) rows = keep_targets (map root_key (root ∷ roots)) rows

  -- `_replace`
  pub replace : List Root → String → List Row → Result (List Row)
  unfolding purge
  replace roots now rows = do inserted ← insert_roots now roots rows; ok (purge roots inserted)
