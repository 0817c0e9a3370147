-- ===== src/Dispatch/Notes.antt =====
-- workstream_dispatch/records.py: the outcome note of a job, read by a path that its job id gives.
pub mod Present
use arjim.Base.{
  ℕ, String, Option, none, some, ◌⊎◌, inl, inr, Bool, true, false, not, ◌&&◌, ◌||◌, List, [], ◌∷◌,
  ◌<>◌, if◌then◌else◌, ◌==◌, ◌!=◌, nat_eq, string_eq, list_eq,
}
use arjim.Json.{Json, str, get, get_or, truthy, is_dict}
use arjim.Errors.{Exn}
use arjim.Runtime.{Runtime, SchemaName, Loaded, document, decode_error, other_error}
use arjim.Effects.{
  FilePath, ReadReply, bytes_read, no_file, read_error, Os, M, pure, raise, ◌>>=◌, os_resolve,
  os_reparse, os_read_bytes,
}
use arjim.Dispatch.Intent.{GuardCode, guard_instruction}
use arjim.Dispatch.Records.{dispatch_dir, has_text, no_errors}

abbrev pub note_path : FilePath → String → FilePath
note_path workspace job_id = (job_id <> ".note.json") ∷ dispatch_dir workspace

-- The status of a `NoteResult`, with the note where it is present
pub data NoteResult : Type 0 where
  path_refused absent unreadable schema_invalid mismatched guard_failed : NoteResult
  present : Json → NoteResult

-- `path.parent`; the root is its own parent
abbrev directory : FilePath → FilePath
directory [] = []
directory (name ∷ path) = path

module _ (rt : Runtime) (os : Os) where
  -- A component of the path, up to the root, is a link or a junction.
  pub reparse_above : FilePath → M Bool
  reparse_above [] = pure false
  reparse_above (name ∷ path) = do
    here ← os_reparse os (name ∷ path)
    elim here [ true ↦ pure true | false ↦ reparse_above path ]

  summary_result : Json → Json → M NoteResult
  summary_result d (str s) =
      pure (elim (guard_instruction rt s) [ none ↦ present d | some c ↦ guard_failed ])
  summary_result d other = raise Exn.type_error

  checked_summary : Json → Json → M NoteResult
  unfolding summary_result
  checked_summary d summary = if truthy summary then summary_result d summary else pure (present d)

  parsed_note : String → Json → M NoteResult
  unfolding checked_summary
  parsed_note job_id d =
      if not (is_dict d)
      then pure unreadable
      else if not (no_errors (rt.iter_errors SchemaName.outcome_note_schema d))
      then pure schema_invalid
      else if not (has_text job_id (get "job_id" d))
      then pure mismatched
      else checked_summary d (elim (get "summary" d) [ none ↦ str "" | some v ↦ v ])

  loaded_note : String → Loaded → M NoteResult
  unfolding parsed_note
  loaded_note job_id (document d) = parsed_note job_id d
  loaded_note job_id decode_error = pure unreadable
  loaded_note job_id other_error = raise Exn.value_error

  opened_note : String → ReadReply → M NoteResult
  unfolding loaded_note
  opened_note job_id no_file = pure absent
  opened_note job_id read_error = pure unreadable
  opened_note job_id (bytes_read raw) = loaded_note job_id (rt.loads_bytes raw)

  -- The reparse points from the resolved directory down to the note, and the open
  open_resolved : String → FilePath → FilePath → M NoteResult
  unfolding opened_note
  open_resolved job_id note dispatch = do
    above ← os_reparse os dispatch
    if above then pure path_refused else do
      here ← os_reparse os note
      if here then pure path_refused else do reply ← os_read_bytes os note; opened_note job_id reply

  contained_note : String → Option FilePath → Option FilePath → M NoteResult
  unfolding open_resolved
  contained_note job_id (some note) (some dispatch) =
      if directory note != dispatch then pure path_refused else open_resolved job_id note dispatch
  contained_note job_id _ _ = pure path_refused

  resolved_note : FilePath → String → Option FilePath → M NoteResult
  unfolding contained_note
  resolved_note workspace job_id none = pure path_refused
  resolved_note workspace job_id (some note) = do
    dispatch ← os_resolve os (dispatch_dir workspace)
    contained_note job_id (some note) dispatch

  resolve_note_path : FilePath → String → M NoteResult
  unfolding resolved_note
  resolve_note_path workspace job_id = do
    note ← os_resolve os (note_path workspace job_id)
    resolved_note workspace job_id note

  pub read_outcome_note : FilePath → String → M NoteResult
  unfolding resolve_note_path reparse_above
  read_outcome_note workspace job_id = do
    note_linked ← reparse_above (note_path workspace job_id)
    if note_linked then pure path_refused else do
      dir_linked ← reparse_above (dispatch_dir workspace)
      if dir_linked then pure path_refused else resolve_note_path workspace job_id
