-- ===== src/Validation.antt =====
-- workstream_registration/validation.py: the dispatch on the version and the validation of a
-- decoded document against a bundled schema. The validator itself is `Runtime.iter_errors`.
pub mod Outcome
use arjim.Base.{
  ℕ, Option, none, some, Bool, true, false, List, [], ◌∷◌, if◌then◌else◌, ◌==◌, nat_eq,
}
use arjim.Json.{Json, int, obj, get, is_dict}
use arjim.Vocabulary.{Phase, Code}
use arjim.Runtime.{Runtime, SchemaError, SchemaName, marker_schema, result_schema}
use arjim.Diagnostics.{Diagnostic, Diagnostics, single, normalize, empty}

pub data Validity : Type 0 where
  valid invalid not_applicable : Validity

abbrev supported_marker_version : ℕ
supported_marker_version = 1

abbrev supported_result_version : ℕ
supported_result_version = 1

pub record ValidationResult : Type 0 where
  pub validity : Validity
  pub diagnostics : Diagnostics
  pub code : Option Code

-- `ValidationResult.valid`
abbrev pub is_valid : ValidationResult → Bool
is_valid r = elim r.validity [ Validity.valid ↦ true | _ ↦ false ]

abbrev rejected : Code → ValidationResult
rejected c = record {
  validity = Validity.invalid;
  diagnostics = single Phase.schema c;
  code = some c;
}

-- `type(version) is int and version == supported`
abbrev is_version : ℕ → Json → Bool
is_version supported (int n) = n == supported
is_version supported _ = false

check_version : ℕ → Option Json → Option ValidationResult
check_version supported none = none
check_version supported (some version) =
    if is_version supported version then none else some (rejected Code.unsupported_version)

unsupported_version : Json → ℕ → Option ValidationResult
unfolding get check_version
unsupported_version document supported = check_version supported (get "version" document)

fail_closed : ValidationResult
fail_closed = rejected Code.schema_invalid

-- `normalized.items[0].code`; a list of errors that is not empty leaves an item.
first_code : List Diagnostic → Option Code
first_code [] = none
first_code (d ∷ ds) = some d.code

from_errors : Option (List SchemaError) → ValidationResult
unfolding fail_closed first_code
from_errors none = fail_closed
from_errors (some []) = record { validity = Validity.valid; diagnostics = empty; code = none }
from_errors (some (e ∷ es)) =
    let normalized = normalize Phase.schema (e ∷ es) in
    record {
      validity = Validity.invalid;
      diagnostics = normalized;
      code = first_code normalized.items;
    }

or_else : Option ValidationResult → ValidationResult → ValidationResult
or_else (some r) rest = r
or_else none rest = rest

module _ (rt : Runtime) where
  validate_against : SchemaName → Json → ValidationResult
  unfolding from_errors
  validate_against name document = from_errors (rt.iter_errors name document)

  pub validate_marker : Json → ValidationResult
  unfolding validate_against unsupported_version fail_closed or_else
  validate_marker document =
      if is_dict document
      then or_else (unsupported_version document supported_marker_version)
          (validate_against marker_schema document)
      else fail_closed

  pub validate_result_envelope : Json → ValidationResult
  unfolding validate_against unsupported_version fail_closed or_else
  validate_result_envelope document =
      if is_dict document
      then or_else (unsupported_version document supported_result_version)
          (validate_against result_schema document)
      else fail_closed
