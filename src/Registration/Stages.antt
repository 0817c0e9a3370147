-- ===== src/Registration/Stages.antt =====
-- The steps that `_classify_marker`, `_collision_result` and `_readback_and_project` of
-- registration.py and `_parse_marker` of projection.py have in common: the raw guard, the
-- decoding, the test for a dict and the validation, each with what ends it.
use arjim.Base.{ℕ, Option, none, some, List, if◌then◌else◌}
use arjim.Json.{Json, is_dict}
use arjim.Errors.{Exn, Result, ok, err, ◌>>=◌}
use arjim.Runtime.{Runtime, Loaded, document, decode_error, other_error}
use arjim.RawGuard.{RawGuardResult, guard, passed}
use arjim.Validation.{ValidationResult, validate_marker, is_valid}

pub data Stage : Type 0 where
  guard_failed : RawGuardResult → Stage
  undecodable : Stage
  not_dict : Json → Stage
  schema_rejected : Json → ValidationResult → Stage
  accepted : Json → Stage

module _ (rt : Runtime) where
  validated : Json → ValidationResult → Stage
  validated d r = if is_valid r then accepted d else schema_rejected d r

  check_document : Json → Stage
  unfolding validated
  check_document d = if is_dict d then validated d (validate_marker rt d) else not_dict d

  -- A `ValueError` that is no `JSONDecodeError` is not caught.
  loaded : Loaded → Result Stage
  unfolding check_document
  loaded (document d) = ok (check_document d)
  loaded decode_error = ok undecodable
  loaded other_error = err Exn.value_error

  decoded : Option (List ℕ) → Result Stage
  unfolding loaded
  decoded none = ok undecodable
  decoded (some text) = loaded (rt.loads text)

  pub read_stage : List ℕ → Result Stage
  unfolding decoded
  read_stage raw = do
    g ← guard rt raw
    if passed g then decoded (rt.decode_utf8 raw) else ok (guard_failed g)
