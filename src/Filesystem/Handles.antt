-- ===== src/Filesystem/Handles.antt =====
-- filesystem.py: the round trip of a target handle through its dict.
use arjim.Base.{Option, none, some, false, ◌==◌, string_eq, List, ℕ, ◌≡◌, refl}
use arjim.Runtime.{Runtime}
use arjim.Filesystem.{
  TargetHandle, handle_to_dict, handle_from_dict, parent_text, decode_parent, join_handle,
  handle_of,
}

module _ (rt : Runtime) where
  decode_parent-parent_text :
      (p : Option (List ℕ))
      → ((raw : List ℕ) → p ≡ some raw → rt.b64decode (rt.b64encode raw) ≡ some raw)
      → ((raw : List ℕ) → p ≡ some raw → (rt.b64encode raw == "ABSENT") ≡ false)
      → decode_parent rt (parent_text rt p) ≡ some p
  unfolding decode_parent parent_text
  decode_parent-parent_text none decodes apart = refl
  decode_parent-parent_text (some raw) decodes apart = rw (apart raw refl, decodes raw refl) refl

  -- `TargetHandle.from_dict` gives back every handle that `to_dict` has written, if base64 decodes
  -- the texts that it has made of the handle's identities, and none of them is the text "ABSENT".
  pub handle_from_dict-to_dict :
      (h : TargetHandle)
      → rt.b64decode (rt.b64encode h.workspace) ≡ some h.workspace
      → ((raw : List ℕ) → h.parent ≡ some raw → rt.b64decode (rt.b64encode raw) ≡ some raw)
      → ((raw : List ℕ) → h.parent ≡ some raw → (rt.b64encode raw == "ABSENT") ≡ false)
      → handle_from_dict rt (handle_to_dict rt h) ≡ some h
  unfolding handle_from_dict handle_to_dict handle_of join_handle
  handle_from_dict-to_dict h own decodes apart =
      rw (own, decode_parent-parent_text h.parent decodes apart) refl
