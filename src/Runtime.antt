-- ===== src/Runtime.antt =====
-- What the source calls of Python's standard library and of the package `jsonschema`: functions
-- that the model takes as a parameter. Bytes and texts are lists of numbers (bytes, code points).
use arjim.Base.{ℕ, String, Option, List, Bool}
use arjim.Json.{Json, str}

-- A call that `json.loads` makes of its hooks: `object_pairs_hook` with the member names of one
-- object, or `parse_constant` (for NaN, Infinity and -Infinity).
pub data HookCall : Type 0 where
  pairs : List String → HookCall
  constant : HookCall

-- `json.loads`: a document, `JSONDecodeError`, or another `ValueError` (such as the limit on the
-- digits of an integer).
pub data Loaded : Type 0 where
  document : Json → Loaded
  decode_error : Loaded
  other_error : Loaded

-- The fields of a `jsonschema` `ValidationError` that the source reads.
pub record SchemaError : Type 0 where
  pub path : List String
  pub validator : String

-- The bundled schemas that the source loads.
pub data SchemaName : Type 0 where
  marker_schema result_schema job_record_schema outcome_note_schema : SchemaName

pub record Runtime : Type 0 where
  -- `raw.decode("utf-8")`, where `none` is `UnicodeDecodeError`, and `text.encode("utf-8")`
  pub decode_utf8 : List ℕ → Option (List ℕ)
  pub encode_utf8 : List ℕ → List ℕ
  -- The hook calls of `json.loads(text, …)` in their order, up to the end or the first error of
  -- the decoder, and its result where no hook raises.
  pub hook_calls : List ℕ → List HookCall
  pub loads : List ℕ → Loaded
  -- whether `json.loads` of a text nests too deep, so that it raises RecursionError
  pub too_deep : List ℕ → Bool
  -- `json.dumps` with compact separators; `dumps_sorted` has `sort_keys=True`
  pub dumps : Json → List ℕ
  pub dumps_sorted : Json → List ℕ
  -- `str(value)` of a decoded value that is no str
  pub render : Json → String
  -- `hashlib.sha256(…).digest()` and `.hexdigest()`, and the HMAC under the key of the process
  pub sha256 : List ℕ → List ℕ
  pub sha256_hex : List ℕ → String
  pub hmac_digest : List ℕ → String
  -- `base64.b64encode(…).decode("ascii")`, and `base64.b64decode(…, validate=True)`
  pub b64encode : List ℕ → String
  pub b64decode : String → Option (List ℕ)
  -- `struct.pack("<QQ", dev, ino)`
  pub pack_identity : ℕ → ℕ → List ℕ
  -- `json.dumps` with its default `ensure_ascii=True`
  pub dumps_ascii : Json → List ℕ
  -- `int(value)`, where `none` is an exception; a negative result is given as 0
  pub to_int : Json → Option ℕ
  -- `datetime.fromtimestamp(…).isoformat()` and `datetime.fromisoformat(…).timestamp()`
  pub format_timestamp : ℕ → String
  pub parse_timestamp : String → Option ℕ
  -- `json.loads` of bytes, where `decode_error` is also UnicodeDecodeError
  pub loads_bytes : List ℕ → Loaded
  -- a decoded text, as a str
  pub text_of : List ℕ → String
  -- `text.strip()` and `text.lower()`
  pub strip : String → String
  pub lower : String → String
  -- `list(Draft202012Validator(schema).iter_errors(document))`, where `none` is `Unresolvable`
  pub iter_errors : SchemaName → Json → Option (List SchemaError)

-- `str(value)` of a decoded value
unfoldable pub to_str : Runtime → Json → String
to_str rt (str s) = s
to_str rt v = rt.render v
