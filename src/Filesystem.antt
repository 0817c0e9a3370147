-- ===== src/Filesystem.antt =====
-- workstream_registration/filesystem.py: paths, filesystem identities and the target handle.
-- The children have the lock, the marker primitives and what holds of them.
pub mod Metadata
pub mod Writes
pub mod Lock
pub mod Marker
pub mod Capture
pub mod Handles
use arjim.Base.{
  ℕ, String, Option, none, some, Bool, true, false, ◌≡◌, ◌↔◌, refl, ◌&&◌, ◌||◌, List, [], ◌∷◌, ◌++◌,
  codes, if◌then◌else◌, ◌==◌, ◌!=◌, Eq, nat_eq, string_eq, list_eq, option_eq, list_beq_iff,
  option_beq_iff, list_beq, option_beq, arith,
}
use arjim.Json.{Json, Fields, str, obj, field, end, get}
use arjim.Errors.{Exn, Result, ok, err}
use arjim.Runtime.{Runtime}
use arjim.Effects.{
  FilePath, Stat, StatReply, found, missing, stat_failed, Os, M, pure, raise, ◌>>=◌, attempt,
  os_stat, os_resolve,
}

abbrev pub max_marker_read_bytes : ℕ
max_marker_read_bytes = 262145

abbrev pub max_lock_metadata_bytes : ℕ
max_lock_metadata_bytes = 4096

abbrev pub parent_path : FilePath → FilePath
parent_path workspace = ".workstream" ∷ workspace

abbrev pub marker_path : FilePath → FilePath
marker_path workspace = "manifest.json" ∷ parent_path workspace

abbrev pub lock_path : FilePath → FilePath
lock_path workspace = ".registration.lock" ∷ parent_path workspace

-- `path.parent`; the root is its own parent
abbrev directory : FilePath → FilePath
directory [] = []
directory (name ∷ path) = path

-- `path in other.parents`
abbrev is_above : FilePath → FilePath → Bool
is_above path [] = false
is_above path (name ∷ other) = path == other || is_above path other

pub record TargetHandle : Type 0 where
  pub workspace : List ℕ
  -- `none` is the sentinel ABSENT
  pub parent : Option (List ℕ)

abbrev pub handle_beq : TargetHandle → TargetHandle → Bool
handle_beq a b = a.workspace == b.workspace && a.parent == b.parent

pub handle_beq_iff : (a b : TargetHandle) → (handle_beq a b ≡ true) ↔ (a ≡ b)
handle_beq_iff a b =
    ground (arith, list_beq_iff a.workspace b.workspace, option_beq_iff a.parent b.parent)

instance abbrev pub handle_eq : Eq TargetHandle
handle_eq = record { beq = handle_beq; beq_iff = handle_beq_iff }

abbrev pub parent_absent : TargetHandle → Bool
parent_absent h = elim h.parent [ none ↦ true | some _ ↦ false ]

module _ (rt : Runtime) where
  parent_text : Option (List ℕ) → String
  parent_text none = "ABSENT"
  parent_text (some identity) = rt.b64encode identity

  -- `TargetHandle.to_bytes`: an ASCII text, by its code points
  unfoldable pub handle_to_bytes : TargetHandle → List ℕ
  unfolding parent_text
  handle_to_bytes h = codes (rt.b64encode h.workspace) ++ b':' ∷ codes (parent_text h.parent)

  -- `TargetHandle.to_dict`
  unfoldable pub handle_to_dict : TargetHandle → Json
  unfolding parent_text
  handle_to_dict h = obj (
      field "workspace" (str (rt.b64encode h.workspace))
        (field "parent" (str (parent_text h.parent)) end))

  decode_parent : String → Option (Option (List ℕ))
  decode_parent text =
      if text == "ABSENT"
      then some none
      else elim (rt.b64decode text) [ none ↦ none | some b ↦ some (some b) ]

  join_handle : Option (List ℕ) → Option (Option (List ℕ)) → Option TargetHandle
  join_handle none p = none
  join_handle (some w) none = none
  join_handle (some w) (some p) = some (record { workspace = w; parent = p })

  handle_of : Option Json → Option Json → Option TargetHandle
  unfolding join_handle decode_parent
  handle_of (some (str w)) (some (str p)) = join_handle (rt.b64decode w) (decode_parent p)
  handle_of _ _ = none

  -- `TargetHandle.from_dict`, where `none` is its ValueError
  unfoldable pub handle_from_dict : Json → Option TargetHandle
  unfolding handle_of get
  handle_from_dict d = handle_of (get "workspace" d) (get "parent" d)

module _ (rt : Runtime) (os : Os) where
  -- `dev is None or ino is None`, and the identifiers that are both 0, fail closed.
  identity_of : Option ℕ → Option ℕ → M (List ℕ)
  identity_of (some dev) (some ino) =
      if dev == 0 && ino == 0
      then raise Exn.identity_unavailable
      else pure (rt.pack_identity dev ino)
  identity_of _ _ = raise Exn.identity_unavailable

  identity_from : StatReply → M (List ℕ)
  unfolding identity_of
  identity_from (found st) = identity_of st.dev st.ino
  identity_from missing = raise Exn.identity_unavailable
  identity_from stat_failed = raise Exn.identity_unavailable

  capture_identity : FilePath → M (List ℕ)
  unfolding identity_from
  capture_identity p = do reply ← os_stat os p; identity_from reply

  contained : Option FilePath → Option FilePath → Bool
  contained (some workspace) (some marker) =
      directory marker == workspace || is_above workspace (directory marker)
  contained _ _ = false

  -- `workspace_path.resolve()` fails first, so the marker is resolved only after it.
  resolve_marker : FilePath → Option FilePath → M Bool
  unfolding contained
  resolve_marker workspace none = pure false
  resolve_marker workspace (some w) = do
    m ← os_resolve os (marker_path workspace)
    pure (contained (some w) m)

  marker_resolves_inside : FilePath → M Bool
  unfolding resolve_marker
  marker_resolves_inside workspace = do w ← os_resolve os workspace; resolve_marker workspace w

  capture_parent : FilePath → List ℕ → StatReply → M TargetHandle
  unfolding capture_identity
  capture_parent workspace identity missing = pure (record { workspace = identity; parent = none })
  capture_parent workspace identity stat_failed = raise Exn.identity_unavailable
  capture_parent workspace identity (found st) = do
    p ← capture_identity (parent_path workspace)
    pure (record { workspace = identity; parent = some p })

  capture_inside : FilePath → List ℕ → Bool → M TargetHandle
  unfolding capture_parent
  capture_inside workspace identity false = raise Exn.redirected_marker_component
  capture_inside workspace identity true = do
    reply ← os_stat os (parent_path workspace)
    capture_parent workspace identity reply

  capture_resolved : FilePath → List ℕ → Option FilePath → M TargetHandle
  unfolding capture_identity capture_inside marker_resolves_inside
  capture_resolved workspace given none = raise Exn.identity_unavailable
  capture_resolved workspace given (some path) = do
    identity ← capture_identity path
    if given != identity
        then raise Exn.target_alias_mismatch
        else do inside ← marker_resolves_inside workspace; capture_inside workspace identity inside

  pub capture_target_handle : FilePath → M TargetHandle
  unfolding capture_identity capture_resolved
  capture_target_handle workspace = do
    given ← capture_identity workspace
    path ← os_resolve os workspace
    capture_resolved workspace given path
