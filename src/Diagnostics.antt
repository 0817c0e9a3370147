-- ===== src/Diagnostics.antt =====
-- workstream_registration/diagnostics.py: bounded structured diagnostics.
pub mod Bounds
pub mod Serialized
use arjim.Base.{
  ℕ, String, Option, none, some, Bool, true, false, ◌||◌, ◌&&◌, List, [], ◌∷◌, ◌++◌, map, length,
  take, codes, str_length, str_take, ltb, leb, if◌then◌else◌, ◌==◌, nat_eq, string_eq,
}
use arjim.Json.{Json, Fields, int, str, arr, obj, end, field, to_items}
use arjim.Vocabulary.{Phase, Code, GuardCode, phase_text, code_text}
use arjim.Runtime.{Runtime, SchemaError}

abbrev pub safe_path_marker : String
safe_path_marker = ".workstream/manifest.json"

abbrev pub max_diagnostic_count : ℕ
max_diagnostic_count = 32

abbrev pub max_safe_path_length : ℕ
max_safe_path_length = 256

abbrev pub max_label_length : ℕ
max_label_length = 256

abbrev pub max_affected_local_path_length : ℕ
max_affected_local_path_length = 1024

abbrev pub max_serialized_bytes : ℕ
max_serialized_bytes = 65536

pub record Diagnostic : Type 0 where
  pub phase : Phase
  pub code : Code
  pub safe_path : String
  pub label : Option String
  pub affected_local_path : Option String

pub record Diagnostics : Type 0 where
  pub count : ℕ
  pub items : List Diagnostic

abbrev pub empty : Diagnostics
empty = record { count = 0; items = [] }

pub truncate : String → ℕ → String
truncate value limit = if leb (str_length value) limit then value else str_take limit value

-- `_truncate(value, limit) if value else None`: the empty text is dropped too.
pub truncate_optional : Option String → ℕ → Option String
unfolding truncate
truncate_optional none limit = none
truncate_optional (some value) limit = if value == "" then none else some (truncate value limit)

-- `Diagnostic.bounded`. The texts of a phase and a code are within their limits of 16 and 32
-- characters, so cutting them there changes nothing.
pub bound_item : Diagnostic → Diagnostic
unfolding truncate truncate_optional
bound_item d = record d {
  safe_path = truncate d.safe_path max_safe_path_length;
  label = truncate_optional d.label max_label_length;
  affected_local_path = truncate_optional d.affected_local_path max_affected_local_path_length;
}

-- `Diagnostics.bounded`
unfoldable pub bounded : Diagnostics → Diagnostics
bounded d =
    let kept = map bound_item (take max_diagnostic_count d.items) in
    record { count = length kept; items = kept }

abbrev optional_field : String → Option String → Fields → Fields
optional_field key none rest = rest
optional_field key (some value) rest = field key (str value) rest

-- `Diagnostic.to_dict`
pub item_to_dict : Diagnostic → Json
unfolding phase_text code_text
item_to_dict d = obj (
    field "phase" (str (phase_text d.phase)) (
      field "code" (str (code_text d.code)) (
        field "safe_path" (str d.safe_path) (
          optional_field "label" d.label
            (optional_field "affected_local_path" d.affected_local_path end)))))

abbrev pub counted : List Json → Json
counted items = obj (field "count" (int (length items)) (field "items" (arr (to_items items)) end))

-- `Diagnostics.to_dict`
pub to_dict : Diagnostics → Json
unfolding bounded
to_dict d =
    let b = bounded d in
    obj
      (field "count" (int b.count) (field "items" (arr (to_items (map item_to_dict b.items))) end))

module _ (rt : Runtime) where
  encoded_size : List ℕ → ℕ
  encoded_size text = length (rt.encode_utf8 text)

  -- The loop of `serialize`: items are taken while the document with the next one fits.
  fit_items : List Json → List Diagnostic → List Json
  unfolding encoded_size
  fit_items kept [] = kept
  fit_items kept (d ∷ ds) =
      let candidate = kept ++ item_to_dict d ∷ [] in
      let rest = fit_items candidate ds in
      if ltb max_serialized_bytes (encoded_size (rt.dumps (counted candidate))) then kept else rest

  -- `Diagnostics.serialize`
  pub serialize : Diagnostics → List ℕ
  unfolding encoded_size fit_items
  serialize d =
      let b = bounded d in
      let text = rt.dumps (to_dict b) in
      if leb (encoded_size text) max_serialized_bytes
      then text
      else rt.dumps (counted (fit_items [] b.items))

-- Python's order on str, and on the tuple of `_error_key`.
codes_lt : List ℕ → List ℕ → Bool
codes_lt [] [] = false
codes_lt [] (y ∷ ys) = true
codes_lt (x ∷ xs) [] = false
codes_lt (x ∷ xs) (y ∷ ys) = ltb x y || (x == y && codes_lt xs ys)

path_lt : List String → List String → Bool
unfolding codes_lt
path_lt [] [] = false
path_lt [] (q ∷ qs) = true
path_lt (p ∷ ps) [] = false
path_lt (p ∷ ps) (q ∷ qs) = codes_lt (codes p) (codes q) || (p == q && path_lt ps qs)

-- `_error_key(a) < _error_key(b)`
error_key_lt : SchemaError → SchemaError → Bool
unfolding codes_lt path_lt
error_key_lt a b =
    path_lt a.path b.path
    || (if path_lt b.path a.path then false else codes_lt (codes a.validator) (codes b.validator))

-- Python's `sorted`, which is stable.
insert_error : SchemaError → List SchemaError → List SchemaError
insert_error e [] = e ∷ []
insert_error e (f ∷ fs) = if error_key_lt f e then f ∷ insert_error e fs else e ∷ f ∷ fs

sort_errors : List SchemaError → List SchemaError
unfolding insert_error
sort_errors [] = []
sort_errors (e ∷ es) = insert_error e (sort_errors es)

-- Every schema keyword has the one code.
unfoldable pub code_for_validator : String → Code
code_for_validator validator = Code.schema_invalid

abbrev pub diagnostic : Phase → Code → Diagnostic
diagnostic p c = record {
  phase = p;
  code = c;
  safe_path = safe_path_marker;
  label = none;
  affected_local_path = none;
}

pub normalize : Phase → List SchemaError → Diagnostics
unfolding sort_errors insert_error code_for_validator
normalize p errors =
    let items =
      map (λ e. diagnostic p (code_for_validator e.validator))
        (take max_diagnostic_count (sort_errors errors)) in
    record { count = length items; items = items }

unfoldable pub single : Phase → Code → Diagnostics
single p c = record { count = 1; items = diagnostic p c ∷ [] }

-- `GUARD_CODE_MAP`
unfoldable pub guard_code_map : GuardCode → Code
guard_code_map GuardCode.read_over_limit = Code.read_limit
guard_code_map GuardCode.utf8_bom_prefix = Code.utf8_invalid
guard_code_map GuardCode.utf8_decode_error = Code.utf8_invalid
guard_code_map GuardCode.depth_exceeded = Code.depth_limit
guard_code_map GuardCode.duplicate_name = Code.duplicate_keys
guard_code_map GuardCode.nonfinite_constant = Code.non_finite
guard_code_map GuardCode.control_character = Code.control_char

-- `GUARD_CODE_MAP.get(code or "", CODE_SCHEMA_INVALID)`
unfoldable pub from_guard_result : Phase → Option GuardCode → Diagnostics
unfolding single guard_code_map
from_guard_result p none = single p Code.schema_invalid
from_guard_result p (some c) = single p (guard_code_map c)
