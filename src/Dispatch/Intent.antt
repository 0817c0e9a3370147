-- ===== src/Dispatch/Intent.antt =====
-- workstream_dispatch/intent.py: the guard of an instruction, its draft and the confirmation.
pub mod Drafted
pub mod Looks
use arjim.Base.{
  ℕ, String, Option, none, some, ◌⊎◌, inl, inr, Bool, true, false, ◌&&◌, ◌||◌, not, List, [], ◌∷◌,
  ◌<>◌, if◌then◌else◌, ◌==◌, ◌!=◌, nat_eq, string_eq, contains, any, codes, length, ltb, leb,
}
use Prim.Native.Char.{Char, code}
use arjim.Errors.{Exn}
use arjim.Runtime.{Runtime}
use arjim.Effects.{FilePath, Os, M, pure, raise, ◌>>=◌, ◌>>◌, fresh_uuid}
use arjim.Dispatch.Adapter.{PaseoAdapter, PostureValidation, is_valid}
use arjim.Dispatch.Posture.{validate_posture}

abbrev pub between : ℕ → ℕ → ℕ → Bool
between low high cp = leb low cp && leb cp high

-- `_ZERO_WIDTH` and `_BIDI_CONTROL`
abbrev zero_width : List ℕ
zero_width = 0x200b ∷ 0x200c ∷ 0x200d ∷ 0x2060 ∷ 0xfeff ∷ []

abbrev bidi_control : List ℕ
bidi_control =
    0x200e ∷ 0x200f ∷ 0x202a ∷ 0x202b ∷ 0x202c ∷ 0x202d ∷ 0x202e ∷ 0x2066 ∷ 0x2067 ∷ 0x2068 ∷ 0x2069
    ∷ []

-- `_C0_CONTROL_EXCEPT_WHITESPACE`
abbrev pub c0_control_except_whitespace : ℕ → Bool
c0_control_except_whitespace cp =
    between 0 8 cp || between 11 12 cp || between 14 0x1f cp || cp == 0x7f || between 0x80 0x9f cp

-- `_DANGEROUS_CODEPOINTS`, with `_TAG_BLOCK` and the two sets of variation selectors
unfoldable pub is_dangerous : ℕ → Bool
is_dangerous cp =
    c0_control_except_whitespace cp
    || contains bidi_control cp
    || between 0xe0000 0xe007f cp
    || contains zero_width cp
    || between 0xfe00 0xfe0f cp
    || between 0xe0100 0xe01ef cp

abbrev pub instruction_max_bytes : ℕ
instruction_max_bytes = 65536

starts_with_lf : String → Bool
starts_with_lf String.[] = false
starts_with_lf (String.◌∷◌ c s) = code c == 10

-- `text.replace("\r\n", "\n")`
pub crlf_to_lf : String → String
unfolding starts_with_lf
crlf_to_lf String.[] = String.[]
crlf_to_lf (String.◌∷◌ c s) =
    let rest = crlf_to_lf s in if code c == 13 && starts_with_lf s then rest else String.◌∷◌ c rest

-- `text.replace("\r", "\n")`
pub cr_to_lf : String → String
cr_to_lf String.[] = String.[]
cr_to_lf (String.◌∷◌ c s) = String.◌∷◌ (if code c == 13 then "\n" else c) (cr_to_lf s)

pub normalize_newlines : String → String
unfolding cr_to_lf crlf_to_lf
normalize_newlines text = cr_to_lf (crlf_to_lf text)

-- `GuardResult`: its code, or `none` if the instruction has passed
pub data GuardCode : Type 0 where
  instruction_too_long dangerous_codepoint : GuardCode

module _ (rt : Runtime) where
  pub guard_instruction : String → Option GuardCode
  unfolding normalize_newlines
  guard_instruction text =
      if ltb instruction_max_bytes (length (rt.encode_utf8 (codes (normalize_newlines text))))
      then some instruction_too_long
      else if any is_dangerous (codes (normalize_newlines text))
      then some dangerous_codepoint
      else none

abbrev pub code_text : GuardCode → String
code_text instruction_too_long = "instruction-too-long"
code_text dangerous_codepoint = "dangerous-codepoint"

pub record Posture : Type 0 where
  pub provider : String
  pub model : String
  pub mode : String
  pub thinking : String

-- The `Draft` of a dispatch; its record sources are not used.
pub record Draft : Type 0 where
  pub workspace_path : FilePath
  pub workstream_identity : String
  pub workstream_label : String
  pub instruction : String
  pub normalized_instruction : String
  pub digest : String
  pub job_id : String
  pub dispatch_posture : Posture
  pub follows : Option String

module _ (rt : Runtime) (os : Os) where
  check_posture : Posture → M (Unit {0})
  check_posture p =
      if p.provider == "" || p.model == "" || p.mode == ""
      then raise (Exn.draft_error "incomplete-posture")
      else if p.thinking == ""
      then raise (Exn.draft_error "missing-thinking")
      else pure tt

  check_live : Option PaseoAdapter → Posture → M (Unit {0})
  check_live none p = pure tt
  check_live (some adapter) p = do
    v ← validate_posture rt os adapter p.model p.mode p.thinking
    if is_valid v then pure tt else raise (Exn.draft_error "invalid-posture")

  make_draft : FilePath → String → String → String → String → Posture → Option String → M Draft
  make_draft workspace identity label instruction normalized posture follows = do
    job_id ← fresh_uuid os
    pure (record {
      workspace_path = workspace;
      workstream_identity = identity;
      workstream_label = label;
      instruction = instruction;
      normalized_instruction = normalized;
      digest = rt.hmac_digest (rt.encode_utf8 (codes normalized));
      job_id = job_id;
      dispatch_posture = posture;
      follows = follows;
    })

  drafted :
      FilePath
      → String
      → String
      → String
      → String
      → Posture
      → Option String
      → Option PaseoAdapter
      → Option GuardCode
      → M Draft
  unfolding check_posture check_live make_draft
  drafted workspace identity label instruction normalized posture follows adapter (some c) =
      raise (Exn.draft_error (code_text c))
  drafted workspace identity label instruction normalized posture follows adapter none = do
    complete ← check_posture posture
    live ← check_live adapter posture
    make_draft workspace identity label instruction normalized posture follows

  pub draft_instruction :
      FilePath → String → String → String → Posture → Option String → Option PaseoAdapter → M Draft
  unfolding drafted
  draft_instruction workspace identity label instruction posture follows adapter =
      drafted workspace identity label instruction (normalize_newlines instruction) posture follows
        adapter (guard_instruction rt (normalize_newlines instruction))

-- `confirm`: whether the text is the confirmation of the draft. What it returns is consumed.
unfoldable pub confirm : Runtime → Draft → String → Bool
confirm rt d input_text = rt.strip input_text == ("confirm " <> d.digest)
