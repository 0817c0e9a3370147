-- ===== src/Vocabulary.antt =====
-- The closed vocabularies of diagnostics.py and raw_guard.py: phases and codes as enumerations,
-- with the texts that the source writes.
use arjim.Base.{String}

-- `PHASES` of diagnostics.py; the first seven are the phases of raw_guard.py.
pub data Phase : Type 0 where
  read utf8 depth duplicates nonfinite controls schema write read_back link projection operation :
      Phase

-- The codes of raw_guard.py.
pub data GuardCode : Type 0 where
  read_over_limit utf8_bom_prefix utf8_decode_error depth_exceeded duplicate_name nonfinite_constant
        control_character :
      GuardCode

-- `CODES` of diagnostics.py.
pub data Code : Type 0 where
  read_limit utf8_invalid depth_limit duplicate_keys non_finite control_char schema_invalid
        unsupported_version marker_invalid workspace_inaccessible identity_api_unavailable
        path_redirected target_alias_mismatch write_failed confirmation_rejected
        confirmation_mismatch confirmation_expired draft_changed target_changed lock_unavailable
        read_back_failed read_back_target_mismatch projection_link_failed projection_conflict
        delete_failed absence_read_back_failed marker_changed identity_mismatch
        safe_internal_error :
      Code

unfoldable pub phase_text : Phase → String
phase_text read = "read"
phase_text utf8 = "utf8"
phase_text depth = "depth"
phase_text duplicates = "duplicates"
phase_text nonfinite = "nonfinite"
phase_text controls = "controls"
phase_text schema = "schema"
phase_text write = "write"
phase_text read_back = "read-back"
phase_text link = "link"
phase_text projection = "projection"
phase_text operation = "operation"

unfoldable pub code_text : Code → String
code_text read_limit = "READ_LIMIT"
code_text utf8_invalid = "UTF8_INVALID"
code_text depth_limit = "DEPTH_LIMIT"
code_text duplicate_keys = "DUPLICATE_KEYS"
code_text non_finite = "NON_FINITE"
code_text control_char = "CONTROL_CHARACTER"
code_text schema_invalid = "SCHEMA_INVALID"
code_text unsupported_version = "UNSUPPORTED_VERSION"
code_text marker_invalid = "MARKER_INVALID"
code_text workspace_inaccessible = "WORKSPACE_INACCESSIBLE"
code_text identity_api_unavailable = "IDENTITY_API_UNAVAILABLE"
code_text path_redirected = "PATH_REDIRECTED"
code_text target_alias_mismatch = "TARGET_ALIAS_MISMATCH"
code_text write_failed = "WRITE_FAILED"
code_text confirmation_rejected = "CONFIRMATION_REJECTED"
code_text confirmation_mismatch = "CONFIRMATION_MISMATCH"
code_text confirmation_expired = "CONFIRMATION_EXPIRED"
code_text draft_changed = "DRAFT_CHANGED"
code_text target_changed = "TARGET_CHANGED"
code_text lock_unavailable = "LOCK_UNAVAILABLE"
code_text read_back_failed = "READ_BACK_FAILED"
code_text read_back_target_mismatch = "READ_BACK_TARGET_MISMATCH"
code_text projection_link_failed = "PROJECTION_LINK_FAILED"
code_text projection_conflict = "PROJECTION_CONFLICT"
code_text delete_failed = "DELETE_FAILED"
code_text absence_read_back_failed = "ABSENCE_READ_BACK_FAILED"
code_text marker_changed = "MARKER_CHANGED"
code_text identity_mismatch = "IDENTITY_MISMATCH"
code_text safe_internal_error = "SAFE_INTERNAL_ERROR"

pub Phase-discrete : Discrete Phase
Phase-discrete = hlevel

pub Code-discrete : Discrete Code
Code-discrete = hlevel
