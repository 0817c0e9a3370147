-- ===== src/Errors.antt =====
-- The exceptions that the source raises and catches, and the result of code that may raise.
use arjim.Base.{String}
use arjim.Diagnostics.{Diagnostics}

pub data Exn : Type 0 where
  -- Python's
  value_error type_error key_error file_exists file_not_found os_error : Exn
  -- `FilesystemError` of filesystem.py and its subclasses
  filesystem_error identity_unavailable target_alias_mismatch redirected_marker_component
        lock_unavailable lock_not_recoverable create_collision write_failed read_back_failed :
      Exn
  -- registration.py and unregister.py
  draft_input_error : Diagnostics → Exn
  resolution_envelope_error unregister_envelope_error : Exn
  -- the package workstream_dispatch, and projection.py
  draft_error : String → Exn
  -- UnicodeDecodeError of the output of a subprocess, and RecursionError of `json.loads`
  unicode_error recursion_error : Exn
  store_error adapter_error conflict_on_target projection_store_error integrity_error sqlite_error :
      Exn
  -- no exception: a loop of the model has used up its fuel
  unfinished : Exn

pub data Result {ℓ} (A : Type ℓ) : Type ℓ where
  ok : A → Result A
  err : Exn → Result A

infixl 5 ◌>>=◌
abbrev pub ◌>>=◌ {ℓ κ} : {A : Type ℓ} {B : Type κ} → Result A → (A → Result B) → Result B
ok a >>= f = f a
err e >>= f = err e
