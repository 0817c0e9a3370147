-- ===== src/Dispatch/Notes/Present.antt =====
-- records.py: the notes that are reported as present.
use arjim.Base.{
  String, Option, none, some, ◌⊎◌, inl, inr, Bool, true, false, not, ◌≡◌, refl, if◌then◌else◌,
  string_eq, Bool-cases, Option-cases,
}
use arjim.Json.{Json, str, get, truthy, is_dict}
use arjim.Errors.{Exn}
use arjim.Runtime.{Runtime, SchemaName, Loaded, document, decode_error, other_error}
use arjim.Effects.{FilePath, ReadReply, bytes_read, no_file, read_error, Os, Run, pure}
use arjim.Effects.Returns.{OkIs, Returns, Returns-pure, Returns-raise, Returns-if, Returns-bind}
use arjim.Dispatch.Intent.{guard_instruction}
use arjim.Dispatch.Records.{has_text, no_errors}
use arjim.Dispatch.Notes.{
  NoteResult, path_refused, absent, unreadable, schema_invalid, mismatched, guard_failed, present,
  summary_result, checked_summary, parsed_note, loaded_note, opened_note, open_resolved,
  contained_note, resolved_note, resolve_note_path, read_outcome_note,
}

-- The summary of the note, if it has one, has passed the guard of the instructions.
abbrev pub SummaryPasses : Runtime → Json → Type 0
SummaryPasses rt (str s) = (truthy (str s) ≡ false) ⊎ (guard_instruction rt s ≡ none)
SummaryPasses rt other = truthy other ≡ false

abbrev pub summary_of : Json → Json
summary_of d = elim (get "summary" d) [ none ↦ str "" | some v ↦ v ]

abbrev pub Reported : Runtime → String → NoteResult → Type 0
Reported rt job_id (present d) =
    (no_errors (rt.iter_errors SchemaName.outcome_note_schema d) ≡ true)
    × ((has_text job_id (get "job_id" d) ≡ true) × SummaryPasses rt (summary_of d))
Reported rt job_id _ = Unit {0}

module _ (rt : Runtime) (os : Os) (job_id : String) where
  abbrev Good : NoteResult → Type 0
  Good r = Reported rt job_id r

  abbrev Valid : Json → Type 0
  Valid d =
      (no_errors (rt.iter_errors SchemaName.outcome_note_schema d) ≡ true)
      × (has_text job_id (get "job_id" d) ≡ true)

  passes_falsy : (d : Json) → truthy d ≡ false → SummaryPasses rt d
  passes_falsy (str s) e = inl e
  passes_falsy Json.null e = e
  passes_falsy (Json.bool b) e = e
  passes_falsy (Json.int n) e = e
  passes_falsy (Json.negative n) e = e
  passes_falsy (Json.float s) e = e
  passes_falsy (Json.arr items) e = e
  passes_falsy (Json.obj fields) e = e

  summary_result-Good :
      (d summary : Json)
      → summary_of d ≡ summary
      → Valid d
      → Returns Good (summary_result rt os d summary)
  unfolding summary_result
  summary_result-Good d (str s) e v = elim (Option-cases (guard_instruction rt s)) [
    | inl g ↦ rw g (Returns-pure (present d) (v.0, (v.1, rw e (inr g))))
    | inr (c, g) ↦ rw g (Returns-pure guard_failed tt)
  ]
  summary_result-Good d Json.null e v = Returns-raise Exn.type_error
  summary_result-Good d (Json.bool b) e v = Returns-raise Exn.type_error
  summary_result-Good d (Json.int n) e v = Returns-raise Exn.type_error
  summary_result-Good d (Json.negative n) e v = Returns-raise Exn.type_error
  summary_result-Good d (Json.float s) e v = Returns-raise Exn.type_error
  summary_result-Good d (Json.arr items) e v = Returns-raise Exn.type_error
  summary_result-Good d (Json.obj fields) e v = Returns-raise Exn.type_error

  checked_summary-Good :
      (d : Json) → Valid d → Returns Good (checked_summary rt os d (summary_of d))
  unfolding checked_summary
  checked_summary-Good d v = elim (Bool-cases (truthy (summary_of d))) [
    | inl e ↦ rw e (summary_result-Good d (summary_of d) refl v)
    | inr e ↦ rw e (Returns-pure (present d) (v.0, (v.1, passes_falsy (summary_of d) e)))
  ]

  parsed_note-Good : (d : Json) → Returns Good (parsed_note rt os job_id d)
  unfolding parsed_note
  parsed_note-Good d =
      go (is_dict d) (no_errors (rt.iter_errors SchemaName.outcome_note_schema d))
        (has_text job_id (get "job_id" d)) refl refl
    where
      go :
          (a b c : Bool)
          → no_errors (rt.iter_errors SchemaName.outcome_note_schema d) ≡ b
          → has_text job_id (get "job_id" d) ≡ c
          → Returns Good (
              if not a
              then pure unreadable
              else if not b
              then pure schema_invalid
              else if not c
              then pure mismatched
              else checked_summary rt os d (summary_of d))
      go false b c e h = Returns-pure unreadable tt
      go true false c e h = Returns-pure schema_invalid tt
      go true true false e h = Returns-pure mismatched tt
      go true true true e h = checked_summary-Good d (e, h)

  opened_note-Good : (r : ReadReply) → Returns Good (opened_note rt os job_id r)
  unfolding opened_note loaded_note
  opened_note-Good no_file = Returns-pure absent tt
  opened_note-Good read_error = Returns-pure unreadable tt
  opened_note-Good (bytes_read raw) = loaded (rt.loads_bytes raw)
    where
      loaded : (l : Loaded) → Returns Good (loaded_note rt os job_id l)
      loaded (document d) = parsed_note-Good d
      loaded decode_error = Returns-pure unreadable tt
      loaded other_error = Returns-raise Exn.value_error

  refused : Returns Good (pure path_refused)
  refused = Returns-pure path_refused tt

  open_resolved-Good :
      (note dispatch : FilePath) → Returns Good (open_resolved rt os job_id note dispatch)
  unfolding open_resolved
  open_resolved-Good note dispatch = Returns-bind _ _ λ above.
      Returns-if above _ _ refused
        (Returns-bind _ _ λ here. Returns-if here _ _ refused (Returns-bind _ _ opened_note-Good))

  contained_note-Good :
      (note dispatch : Option FilePath) → Returns Good (contained_note rt os job_id note dispatch)
  unfolding contained_note
  contained_note-Good none dispatch = refused
  contained_note-Good (some note) none = refused
  contained_note-Good (some note) (some dispatch) =
      Returns-if _ _ _ refused (open_resolved-Good note dispatch)

  resolved_note-Good :
      (workspace : FilePath) (note : Option FilePath)
      → Returns Good (resolved_note rt os workspace job_id note)
  unfolding resolved_note
  resolved_note-Good workspace none = refused
  resolved_note-Good workspace (some note) = Returns-bind _ _ (contained_note-Good (some note))

  resolve_note_path-Good :
      (workspace : FilePath) → Returns Good (resolve_note_path rt os workspace job_id)
  unfolding resolve_note_path
  resolve_note_path-Good workspace = Returns-bind _ _ (resolved_note-Good workspace)

-- In every environment, a note that `read_outcome_note` reports as present is valid by the schema,
-- names the job, and its summary, if it is not empty, is a text that has passed the guard of the
-- instructions.
pub read_outcome_note-Reported :
    (rt : Runtime) (os : Os) (workspace : FilePath) (job_id : String) (s : Run)
    → OkIs (Reported rt job_id) (read_outcome_note rt os workspace job_id s).0
unfolding read_outcome_note
read_outcome_note-Reported rt os workspace job_id s =
    (Returns-bind _ _ λ linked. Returns-if linked _ _ (refused rt os job_id) (
        Returns-bind _ _ λ dir_linked.
          Returns-if dir_linked _ _ (refused rt os job_id)
            (resolve_note_path-Good rt os job_id workspace))).at
      s
