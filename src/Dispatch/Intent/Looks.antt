-- ===== src/Dispatch/Intent/Looks.antt =====
-- intent.py: drafting without an adapter changes no file and starts no process.
use arjim.Base.{String, Option, none, some}
use arjim.Effects.{FilePath, Os, Run}
use arjim.Effects.Rules.{Keeps}
use arjim.Trace.Quiet.{Quiet, keeps, quiet}
use arjim.Runtime.{Runtime}
use arjim.Dispatch.Intent.{
  GuardCode, Posture, check_posture, check_live, make_draft, drafted, draft_instruction,
  guard_instruction, normalize_newlines,
}

module _ {P : Run → Type 0} (q : Quiet P) (rt : Runtime) (os : Os) where
  check_posture-Keeps : (p : Posture) → Keeps P (check_posture rt os p)
  unfolding check_posture
  check_posture-Keeps p = search keeps

  make_draft-Keeps :
      (w : FilePath) (identity label instruction normalized : String) (p : Posture)
      (follows : Option String)
      → Keeps P (make_draft rt os w identity label instruction normalized p follows)
  unfolding make_draft
  make_draft-Keeps w identity label instruction normalized p follows = search (keeps, quiet)

  drafted-Keeps :
      (w : FilePath) (identity label instruction normalized : String) (p : Posture)
      (follows : Option String) (g : Option GuardCode)
      → Keeps P (drafted rt os w identity label instruction normalized p follows none g)
  unfolding drafted check_live
  drafted-Keeps w identity label instruction normalized p follows none =
      search (keeps, check_posture-Keeps, make_draft-Keeps)
  drafted-Keeps w identity label instruction normalized p follows (some c) = search keeps

  pub draft_instruction-Keeps :
      (w : FilePath) (identity label instruction : String) (p : Posture) (follows : Option String)
      → Keeps P (draft_instruction rt os w identity label instruction p follows none)
  unfolding draft_instruction
  draft_instruction-Keeps w identity label instruction p follows =
      drafted-Keeps w identity label instruction (normalize_newlines instruction) p follows
        (guard_instruction rt (normalize_newlines instruction))
