-- ===== src/Validation/Outcome.antt =====
-- What `validate_marker` answers, on every branch.
use arjim.Base.{
  Option, none, some, true, false, ◌≡◌, ◌≢◌, ◌⊎◌, inl, inr, refl, List, [], ◌∷◌, arith, length,
  Option-cases, Bool-cases, nat_eq,
}
use arjim.Json.{Json, int, get, is_dict}
use arjim.Vocabulary.{Phase, Code}
use arjim.Runtime.{Runtime, SchemaError, marker_schema}
use arjim.Diagnostics.{Diagnostic, single}
use arjim.Diagnostics.Bounds.{normalize-OnlyOf, OnlyOf}
use arjim.Validation.{
  Validity, ValidationResult, validate_marker, validate_against, unsupported_version, fail_closed,
  first_code, from_errors, or_else, is_version, check_version,
}

-- The version lets a document go on to the schema: there is none, or it is the integer 1.
abbrev pub Dispatches : Option Json → Type 0
Dispatches none = Unit
Dispatches (some (int n)) = n ≡ 1
Dispatches (some _) = ⊥

-- The answer to a document that does not have a dispatching version, and the coded answers.
pub data Answer (rt : Runtime) (document : Json) (r : ValidationResult) : Type 0 where
  accepted :
      is_dict document ≡ true
      → Dispatches (get "version" document)
      → rt.iter_errors marker_schema document ≡ some []
      → r.validity ≡ Validity.valid
      → r.code ≡ none
      → r.diagnostics.count ≡ 0
      → Answer rt document r
  unsupported :
      is_dict document ≡ true
      → ¬ Dispatches (get "version" document)
      → r.validity ≡ Validity.invalid
      → r.code ≡ some Code.unsupported_version
      → r.diagnostics.count ≡ 1
      → Answer rt document r
  malformed :
      (is_dict document ≡ false)
        ⊎ (Dispatches (get "version" document) × (rt.iter_errors marker_schema document ≢ some []))
      → r.validity ≡ Validity.invalid
      → r.code ≡ some Code.schema_invalid
      → r.diagnostics.count ≢ 0
      → Answer rt document r

first_code-OnlyOf :
    (c : Code) (items : List Diagnostic)
    → length items ≢ 0
    → OnlyOf Phase.schema c items
    → first_code items ≡ some c
unfolding first_code
first_code-OnlyOf c [] h o = absurd (h refl)
first_code-OnlyOf c (d ∷ ds) h o = ground arith

from_errors-code :
    (e : SchemaError) (es : List SchemaError)
    → ((from_errors (some (e ∷ es))).code ≡ some Code.schema_invalid)
      × ((from_errors (some (e ∷ es))).diagnostics.count ≢ 0)
unfolding from_errors
from_errors-code e es =
    let n = normalize-OnlyOf Phase.schema (e ∷ es) in
    (first_code-OnlyOf Code.schema_invalid _ (omega (arith, n.0, n.1)) n.2, omega (arith, n.0))

version-cases :
    (v : Json)
    → ((is_version 1 v ≡ true) × Dispatches (some v))
      ⊎ ((is_version 1 v ≡ false) × ¬ Dispatches (some v))
version-cases (int n) = ground arith
version-cases _ = inr (refl, λ h. absurd h)

module _ (rt : Runtime) where
  -- The answer where the schema is reached.
  from_errors-Answer :
      (document : Json) (o : Option (List SchemaError))
      → rt.iter_errors marker_schema document ≡ o
      → is_dict document ≡ true
      → Dispatches (get "version" document)
      → Answer rt document (from_errors o)
  unfolding from_errors fail_closed single
  from_errors-Answer document none e d v = malformed (inr (v, λ h. cc)) refl refl (omega arith)
  from_errors-Answer document (some []) e d v = accepted d v e refl refl refl
  from_errors-Answer document (some (x ∷ xs)) e d v =
      malformed (inr (v, λ h. cc)) refl (from_errors-code x xs).0 (from_errors-code x xs).1

  versioned-Answer :
      (document : Json)
      → is_dict document ≡ true
      → Answer rt document
          (or_else (unsupported_version document 1) (validate_against rt marker_schema document))
  unfolding unsupported_version or_else validate_against single
  versioned-Answer document d = elim (Option-cases (get "version" document)) [
    | inl e ↦ rw (e, check_version, or_else) (from_errors-Answer document _ refl d (rw e tt))
    | inr (v, e) ↦ elim (version-cases v) [
      | inl (h, k) ↦ rw (e, check_version, h) (from_errors-Answer document _ refl d (rw e k))
      | inr (h, k) ↦ rw (e, check_version, h) (unsupported d (rw e k) refl refl (omega arith))
    ]
  ]

  -- `validate_marker` accepts exactly the dicts with no version or version 1 in which the schema
  -- finds no error; it answers UNSUPPORTED_VERSION to a dict with any other version, and
  -- SCHEMA_INVALID otherwise. Only an accepted document has no diagnostics.
  pub validate_marker-Answer : (document : Json) → Answer rt document (validate_marker rt document)
  unfolding validate_marker fail_closed single
  validate_marker-Answer document = elim (Bool-cases (is_dict document)) [
    | inl e ↦ rw e (versioned-Answer document e)
    | inr e ↦ rw e (malformed (inl e) refl refl (omega arith))
  ]
