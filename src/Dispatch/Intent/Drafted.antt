-- ===== src/Dispatch/Intent/Drafted.antt =====
-- intent.py: what holds of an instruction that is drafted.
use arjim.Base.{
  ℕ, ◌≤◌, String, Option, none, some, inl, inr, Bool, true, false, ◌≡◌, refl, ap, ◌∙◌, ◌||◌,
  if◌then◌else◌, ◌==◌, nat_eq, string_eq, any, codes, length, ltb, arith, Bool-cases,
}
use Prim.Native.Char.{code}
use mathlib.Core.Path.{subst}
use arjim.Errors.{Exn}
use arjim.Runtime.{Runtime}
use arjim.Effects.{FilePath, Os, Run}
use arjim.Effects.Returns.{OkIs, Returns, Returns-pure, Returns-raise, Returns-bind}
use arjim.RawGuard.{is_prohibited_control}
use arjim.Dispatch.Adapter.{PaseoAdapter}
use arjim.Dispatch.Intent.{
  is_dangerous, instruction_max_bytes, crlf_to_lf, cr_to_lf, normalize_newlines, guard_instruction,
  GuardCode, code_text, Posture, Draft, make_draft, drafted, draft_instruction,
}

-- No carriage return is left.
abbrev pub NoReturn : String → Type 0
NoReturn s = any (λ c. c == 13) (codes s) ≡ false

cr_to_lf-NoReturn : (s : String) → NoReturn (cr_to_lf s)
unfolding cr_to_lf
cr_to_lf-NoReturn String.[] = refl
cr_to_lf-NoReturn (String.◌∷◌ c s) = elim (Bool-cases (code c == 13)) [
  | inl e ↦ rw e (cr_to_lf-NoReturn s)
  | inr e ↦ rw (e, e) (cr_to_lf-NoReturn s)
]

cr_to_lf-same : (s : String) → NoReturn s → cr_to_lf s ≡ s
unfolding cr_to_lf
cr_to_lf-same String.[] h = refl
cr_to_lf-same (String.◌∷◌ c s) h = elim (Bool-cases (code c == 13)) [
  | inl e ↦ ground (arith, e)
  | inr e ↦ rw e (ap (λ t. String.◌∷◌ c t) (cr_to_lf-same s (ground (arith, e))))
]

crlf_to_lf-same : (s : String) → NoReturn s → crlf_to_lf s ≡ s
unfolding crlf_to_lf
crlf_to_lf-same String.[] h = refl
crlf_to_lf-same (String.◌∷◌ c s) h = elim (Bool-cases (code c == 13)) [
  | inl e ↦ ground (arith, e)
  | inr e ↦ rw e (ap (λ t. String.◌∷◌ c t) (crlf_to_lf-same s (ground (arith, e))))
]

normalize_newlines-NoReturn : (s : String) → NoReturn (normalize_newlines s)
unfolding normalize_newlines
normalize_newlines-NoReturn s = cr_to_lf-NoReturn (crlf_to_lf s)

-- A normalised text is normalised.
normalize_newlines_idem :
    (s : String) → normalize_newlines (normalize_newlines s) ≡ normalize_newlines s
unfolding normalize_newlines
normalize_newlines_idem s =
    ap cr_to_lf (crlf_to_lf-same (normalize_newlines s) (normalize_newlines-NoReturn s))
    ∙ cr_to_lf-same (normalize_newlines s) (normalize_newlines-NoReturn s)

-- The control characters and the bidirectional controls that the raw guard of the registration
-- prohibits are dangerous in an instruction, but for tab, line feed and carriage return.
pub is_dangerous-prohibited :
    (cp : ℕ)
    → is_prohibited_control cp ≡ true
    → (cp == 9 || cp == 10 || cp == 13) ≡ false
    → is_dangerous cp ≡ true
unfolding is_dangerous is_prohibited_control
is_dangerous-prohibited cp h k = ground arith

module _ (rt : Runtime) where
  -- A text that the guard has passed.
  pub record Guarded (text : String) : Type 0 where
    no_return : NoReturn text
    short : length (rt.encode_utf8 (codes text)) ≤ instruction_max_bytes
    harmless : any is_dangerous (codes text) ≡ false

  both_passed :
      (b c : Bool)
      → (if b
          then some GuardCode.instruction_too_long
          else if c
          then some GuardCode.dangerous_codepoint
          else none)
        ≡ none
      → (b ≡ false) × (c ≡ false)
  both_passed b c h = ground arith

  not_long : (n : ℕ) → ltb instruction_max_bytes n ≡ false → n ≤ instruction_max_bytes
  not_long n h = ground arith

  guard_instruction-Guarded :
      (s : String)
      → guard_instruction rt (normalize_newlines s) ≡ none
      → Guarded (normalize_newlines s)
  unfolding guard_instruction
  guard_instruction-Guarded s h =
      let (short, harmless) =
        both_passed
          (ltb instruction_max_bytes
            (length (rt.encode_utf8 (codes (normalize_newlines (normalize_newlines s))))))
          (any is_dangerous (codes (normalize_newlines (normalize_newlines s)))) h in
      record {
        no_return = normalize_newlines-NoReturn s;
        short = not_long _ (
            subst (λ t. ltb instruction_max_bytes (length (rt.encode_utf8 (codes t))) ≡ false)
              (normalize_newlines_idem s) short);
        harmless =
            subst (λ t. any is_dangerous (codes t) ≡ false) (normalize_newlines_idem s) harmless;
      }

  -- A draft that may be confirmed: what is dispatched is guarded, it is the instruction with its
  -- newlines normalised, and the digest is of its bytes.
  unfoldable pub Drafted : String → Draft → Type 0
  Drafted instruction d =
      Guarded d.normalized_instruction
      × ((d.normalized_instruction ≡ normalize_newlines instruction)
          × (d.digest ≡ rt.hmac_digest (rt.encode_utf8 (codes d.normalized_instruction))))

  drafted-Returns :
      (os : Os) (w : FilePath) (identity label instruction : String) (p : Posture)
      (follows : Option String) (adapter : Option PaseoAdapter) (g : Option GuardCode)
      → guard_instruction rt (normalize_newlines instruction) ≡ g
      → Returns (Drafted instruction) (
          drafted rt os w identity label instruction
            (normalize_newlines instruction)
            p
            follows
            adapter
            g)
  unfolding drafted make_draft Drafted
  drafted-Returns os w identity label instruction p follows adapter (some c) e =
      Returns-raise (Exn.draft_error (code_text c))
  drafted-Returns os w identity label instruction p follows adapter none e =
      Returns-bind _ _ λ complete. Returns-bind _ _ λ live.
        Returns-bind _ _
          λ job_id. Returns-pure _ (guard_instruction-Guarded instruction e, (refl, refl))

-- In every environment, a draft that `draft_instruction` returns has the instruction with its
-- newlines normalised; that has no carriage return, no dangerous code point and at most 65,536
-- bytes, and the digest to confirm is of exactly these bytes.
pub draft_instruction-Drafted :
    (rt : Runtime) (os : Os) (w : FilePath) (identity label instruction : String) (p : Posture)
    (follows : Option String) (adapter : Option PaseoAdapter) (s : Run)
    → OkIs
        (Drafted rt instruction)
        (draft_instruction rt os w identity label instruction p follows adapter s).0
unfolding draft_instruction
draft_instruction-Drafted rt os w identity label instruction p follows adapter s =
    (drafted-Returns rt os w identity label instruction p follows adapter
        (guard_instruction rt (normalize_newlines instruction)) refl).at
      s
