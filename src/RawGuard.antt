-- ===== src/RawGuard.antt =====
-- workstream_registration/raw_guard.py: the bounded pipeline that runs on raw input before the
-- schema validation. A text is its list of code points.
pub mod Depth
pub mod Controls
pub mod Pipeline
use arjim.Base.{
  ℕ, zero, suc, ◌-◌, ◌+◌, String, Option, none, some, Bool, true, false, ◌&&◌, ◌||◌, not, List, [],
  ◌∷◌, length, any, codes, ltb, leb, if◌then◌else◌, ◌==◌, ◌!=◌, nat_eq, string_eq, contains,
}
use arjim.Json.{
  Json, Items, Fields, null, bool, int, negative, float, str, arr, obj, nil, cons, end, field, size,
}
use arjim.Vocabulary.{Phase, GuardCode}
use arjim.Runtime.{Runtime, HookCall, pairs, constant, Loaded, document, decode_error, other_error}
use arjim.Errors.{Result, ok, err, Exn}

abbrev pub max_read_bytes : ℕ
max_read_bytes = 262144

abbrev pub max_depth : ℕ
max_depth = 8

pub record RawGuardResult : Type 0 where
  pub phase : Phase
  pub code : Option GuardCode

-- `RawGuardResult.passed`
abbrev pub is_schema : Phase → Bool
is_schema Phase.schema = true
is_schema _ = false

abbrev pub passed : RawGuardResult → Bool
passed r = is_schema r.phase

abbrev pub reject : Phase → GuardCode → RawGuardResult
reject p c = record { phase = p; code = some c }

abbrev pub clean : RawGuardResult
clean = record { phase = Phase.schema; code = none }

abbrev starts : List ℕ → List ℕ → Bool
starts [] raw = true
starts (b ∷ bs) [] = false
starts (b ∷ bs) (x ∷ xs) = b == x && starts bs xs

-- `_UTF8_BOM`, `_UTF32_BOMS` and `_UTF16_BOMS`
abbrev utf8_bom : List ℕ
utf8_bom = 0xef ∷ 0xbb ∷ 0xbf ∷ []

abbrev utf32_boms : List (List ℕ)
utf32_boms = (0xff ∷ 0xfe ∷ 0x00 ∷ 0x00 ∷ []) ∷ (0x00 ∷ 0x00 ∷ 0xfe ∷ 0xff ∷ []) ∷ []

abbrev utf16_boms : List (List ℕ)
utf16_boms = (0xff ∷ 0xfe ∷ []) ∷ (0xfe ∷ 0xff ∷ []) ∷ []

bom_phase : List ℕ → Option RawGuardResult
bom_phase raw =
    if starts utf8_bom raw
    then some (reject Phase.utf8 GuardCode.utf8_bom_prefix)
    else if any (λ bom. starts bom raw) utf32_boms
    then some (reject Phase.utf8 GuardCode.utf8_bom_prefix)
    else if any (λ bom. starts bom raw) utf16_boms
    then some (reject Phase.utf8 GuardCode.utf8_bom_prefix)
    else none

abbrev pub is_open : ℕ → Bool
is_open ch = ch == b'[' || ch == b'{'

abbrev pub is_close : ℕ → Bool
is_close ch = ch == b']' || ch == b'}'

abbrev pub quote : ℕ
quote = 34

abbrev pub backslash : ℕ
backslash = 92

-- The loop of `_depth_scan` over its variables `depth`, `in_string` and `escaped`.
depth_loop : ℕ → Bool → Bool → List ℕ → Option RawGuardResult
depth_loop depth in_string escaped [] = none
depth_loop depth true true (ch ∷ text) = depth_loop depth true false text
depth_loop depth true false (ch ∷ text) = depth_loop depth (ch != quote) (ch == backslash) text
depth_loop depth false escaped (ch ∷ text) =
    let entered = depth_loop (suc depth) false escaped text in
    let left = depth_loop (depth - 1) false escaped text in
    let quoted = depth_loop depth true escaped text in
    let same = depth_loop depth false escaped text in
    if ch == quote
    then quoted
    else if is_open ch
    then (if ltb max_depth (suc depth)
        then some (reject Phase.depth GuardCode.depth_exceeded)
        else entered)
    else if is_close ch
    then left
    else same

pub depth_scan : List ℕ → Option RawGuardResult
unfolding depth_loop
depth_scan text = depth_loop 0 false false text

-- `len(names)` after building the set, of a list of names.
abbrev distinct : List String → List String
distinct [] = []
distinct (n ∷ ns) = if contains ns n then distinct ns else n ∷ distinct ns

-- `pairs_hook` raises where a name is repeated, `parse_constant` always.
hook : HookCall → Option RawGuardResult
hook (pairs names) =
    if length (distinct names) != length names
    then some (reject Phase.duplicates GuardCode.duplicate_name)
    else none
hook constant = some (reject Phase.nonfinite GuardCode.nonfinite_constant)

-- The first hook call that raises ends the decoding.
first_raise : List HookCall → Option RawGuardResult
unfolding hook
first_raise [] = none
first_raise (c ∷ cs) = elim (hook c) [ some r ↦ some r | none ↦ first_raise cs ]

abbrev bidi_control_points : List ℕ
bidi_control_points =
    0x200e ∷ 0x200f ∷ 0x202a ∷ 0x202b ∷ 0x202c ∷ 0x202d ∷ 0x202e ∷ 0x2066 ∷ 0x2067 ∷ 0x2068 ∷ 0x2069
    ∷ []

unfoldable pub is_prohibited_control : ℕ → Bool
is_prohibited_control cp =
    leb cp 0x1f || (leb 0x7f cp && leb cp 0x9f) || contains bidi_control_points cp

abbrev pub control_result : RawGuardResult
control_result = reject Phase.controls GuardCode.control_character

pub text_controls_scan : List ℕ → Option RawGuardResult
text_controls_scan text = if any is_prohibited_control text then some control_result else none

-- `any(_is_prohibited_control(ch) for ch in text)` on a decoded str
abbrev pub has_control : String → Bool
has_control s = any is_prohibited_control (codes s)

-- `stack.extend(node)` and the loop over `node.items()`. The top of the stack is the list's head,
-- so the last value is on top. `none`: a name has a control.
push_items : Items → List Json → List Json
push_items nil stack = stack
push_items (cons x xs) stack = push_items xs (x ∷ stack)

push_fields : Fields → List Json → Option (List Json)
push_fields end stack = some stack
push_fields (field name v fs) stack =
    let rest = push_fields fs (v ∷ stack) in if has_control name then none else rest

-- What one node does to the stack below it; `none` ends the loop with a rejection.
visit : Json → List Json → Option (List Json)
unfolding push_items push_fields
visit (obj fs) stack = push_fields fs stack
visit (arr xs) stack = some (push_items xs stack)
visit (str s) stack = if has_control s then none else some stack
visit _ stack = some stack

-- The loop of `_controls_scan`; `none` means that the fuel ran out, `some found` how it ended.
stack_loop : ℕ → List Json → Option Bool
unfolding visit
stack_loop zero stack = none
stack_loop (suc fuel) [] = some false
stack_loop (suc fuel) (node ∷ stack) = elim (visit node stack) [
  | none ↦ some true
  | some stack' ↦ stack_loop fuel stack'
]

-- Each node is popped once, so its size and one round for the end are enough.
scan_result : Option Bool → Result (Option RawGuardResult)
scan_result none = err Exn.unfinished
scan_result (some found) = ok (if found then some control_result else none)

pub controls_scan : Json → Result (Option RawGuardResult)
unfolding stack_loop scan_result size
controls_scan node = scan_result (stack_loop (suc (size node)) (node ∷ []))

abbrev result_or : Option RawGuardResult → Result RawGuardResult → Result RawGuardResult
result_or (some r) rest = ok r
result_or none rest = rest

abbrev scanned : Result (Option RawGuardResult) → Result RawGuardResult
scanned (ok r) = result_or r (ok clean)
scanned (err e) = err e

-- `_decode_with_hooks`: a result of the guard, a document, or neither (`null` is Python's None
-- as well). A `ValueError` that is no `JSONDecodeError` is not caught.
data Decoded : Type 0 where
  terminated : RawGuardResult → Decoded
  parsed : Json → Decoded
  absent : Decoded

from_loaded : Loaded → Result Decoded
from_loaded (document null) = ok absent
from_loaded (document d) = ok (parsed d)
from_loaded decode_error = ok absent
from_loaded other_error = err Exn.value_error

after_decode : List ℕ → Result Decoded → Result RawGuardResult
after_decode text (err e) = err e
after_decode text (ok (terminated r)) = ok r
after_decode text (ok absent) = result_or (text_controls_scan text) (ok clean)
after_decode text (ok (parsed d)) = scanned (controls_scan d)

module _ (rt : Runtime) where
  decode_with_hooks : List ℕ → Result Decoded
  unfolding first_raise from_loaded
  decode_with_hooks text = elim (first_raise (rt.hook_calls text)) [
    | some r ↦ ok (terminated r)
    | none ↦ from_loaded (rt.loads text)
  ]

  guard_text : List ℕ → Result RawGuardResult
  unfolding after_decode decode_with_hooks
  guard_text text = result_or (depth_scan text) (after_decode text (decode_with_hooks text))

  guard_bytes : List ℕ → Option (List ℕ) → Result RawGuardResult
  guard_bytes raw none = ok (reject Phase.utf8 GuardCode.utf8_decode_error)
  guard_bytes raw (some text) = guard_text text

  pub guard : List ℕ → Result RawGuardResult
  unfolding guard_bytes
  guard raw =
      if ltb max_read_bytes (length raw)
      then ok (reject Phase.read GuardCode.read_over_limit)
      else result_or (bom_phase raw) (guard_bytes raw (rt.decode_utf8 raw))

  pub guard_decoded_text : List ℕ → Result RawGuardResult
  unfolding guard_text
  guard_decoded_text text = guard_text text
