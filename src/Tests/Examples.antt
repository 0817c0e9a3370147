-- ===== src/Tests/Examples.antt =====
-- Each theorem on the code, applied to concrete inputs.
use arjim.Base.{
  ◌⊎◌, false, true, refl, arith, none, some, [], ◌∷◌, codes, ◌≡◌, ◌↔◌, length, leb, if◌then◌else◌,
  min, ◌++◌,
}
use arjim.Errors.{ok}
use arjim.Runtime.{SchemaError}
use arjim.Effects.{Os, already_exists}
use arjim.Effects.Raises.{ErrIs}
use arjim.Vocabulary.{Phase, Code, GuardCode}
use arjim.Diagnostics.{serialize, bounded, single, normalize}
use arjim.Diagnostics.Bounds.{IsBounded, OnlyOf, bounded-IsBounded, normalize-OnlyOf}
use arjim.Diagnostics.Serialized.{Serialized, serialize-Serialized}
use arjim.RawGuard.{guard, clean, depth_scan, controls_scan, reject, control_result}
use arjim.RawGuard.Depth.{peak, brackets, depth_scan-verdict}
use arjim.RawGuard.Controls.{tainted, controls_scan-tainted}
use arjim.RawGuard.Pipeline.{Admitted, guard-Admitted}
use arjim.Validation.{validate_marker}
use arjim.Validation.Outcome.{Answer, validate_marker-Answer}
use arjim.Filesystem.{marker_path, handle_to_dict, handle_from_dict}
use arjim.Filesystem.Handles.{handle_from_dict-to_dict}
use arjim.Filesystem.Lock.{acquire_lock}
use arjim.Filesystem.Lock.Attempts.{IsRaised}
use arjim.Filesystem.Lock.Deadline.{Ticks, acquire_lock-Ended}
use arjim.Filesystem.Lock.Recovery.{recover_lock}
use arjim.Filesystem.Lock.Recovery.Replaced.{Recovered, recover_lock-Recovered}
use arjim.Filesystem.Marker.{conditional_delete_marker}
use arjim.Filesystem.Marker.Conditional.{Verdict, conditional_delete_marker-Verdict}
use arjim.Filesystem.Writes.{write_fd}
use arjim.Filesystem.Writes.Complete.{taken, Wrote, write_fd-Wrote}
use arjim.Trace.{CreateOnly}
use arjim.Registration.{cancelled}
use arjim.Registration.Register.{register}
use arjim.Registration.Register.Spending.{register-once}
use arjim.Trace.Touched.{touched}
use arjim.Registration.Register.Safety.{register-CreateOnly}
use arjim.Registration.Claims.{Truth}
use arjim.Registration.Register.Claims.{register-Claimed}
use arjim.Registration.Resolve.{register_interactive}
use arjim.Registration.Resolve.Interactive.{register_interactive-Claimed}
use arjim.Unregister.{unregister}
use arjim.Unregister.Claims.{Deleted, unregister-Deleted}
use arjim.Tests.{
  unregistration, a_handle, runtime, system, workspace, start, a_draft, confirmation, linking,
  marker_document,
}

register-CreateOnly_example :
    CreateOnly workspace
      (register runtime system linking workspace a_draft (some confirmation) 0 4 start).1.log
unfolding CreateOnly
register-CreateOnly_example =
    register-CreateOnly runtime system linking workspace a_draft (some confirmation) 0 4 start tt

write_fd-Wrote_example :
    Wrote
      (marker_path workspace)
      (taken (marker_path workspace) [] ++ codes "manifest")
      (write_fd system (marker_path workspace) (codes "manifest") start).0
      (write_fd system (marker_path workspace) (codes "manifest") start).1
write_fd-Wrote_example = write_fd-Wrote system (marker_path workspace) (codes "manifest") start

guard-Admitted_example : (guard runtime (codes "[]") ≡ ok clean) ↔ Admitted runtime (codes "[]")
guard-Admitted_example = guard-Admitted runtime (codes "[]")

depth_scan-verdict_example : depth_scan (codes "[[[[[[[[[]]]]]]]]]") ≡ (
    if leb (peak 0 (brackets (codes "[[[[[[[[[]]]]]]]]]"))) 8
    then none
    else some (reject Phase.depth GuardCode.depth_exceeded))
depth_scan-verdict_example = depth_scan-verdict (codes "[[[[[[[[[]]]]]]]]]")

controls_scan-tainted_example :
    controls_scan marker_document
    ≡ ok (if tainted marker_document then some control_result else none)
controls_scan-tainted_example = controls_scan-tainted marker_document

validate_marker-Answer_example :
    Answer runtime marker_document (validate_marker runtime marker_document)
validate_marker-Answer_example = validate_marker-Answer runtime marker_document

bounded-IsBounded_example : IsBounded (bounded (single Phase.schema Code.schema_invalid))
bounded-IsBounded_example = bounded-IsBounded (single Phase.schema Code.schema_invalid)

an_error : SchemaError
an_error = record { path = "label" ∷ []; validator = "maxLength" }

normalize-OnlyOf_example :
    ((normalize Phase.schema (an_error ∷ [])).count ≡ min 32 1)
    × ((normalize Phase.schema (an_error ∷ [])).count
        ≡ length (normalize Phase.schema (an_error ∷ [])).items)
    × OnlyOf Phase.schema Code.schema_invalid (normalize Phase.schema (an_error ∷ [])).items
normalize-OnlyOf_example = normalize-OnlyOf Phase.schema (an_error ∷ [])

serialize-Serialized_example :
    Serialized runtime (serialize runtime (single Phase.schema Code.schema_invalid)) 32
serialize-Serialized_example =
    serialize-Serialized runtime (single Phase.schema Code.schema_invalid) (omega arith)

handle_from_dict-to_dict_example :
    handle_from_dict runtime (handle_to_dict runtime a_handle) ≡ some a_handle
handle_from_dict-to_dict_example =
    handle_from_dict-to_dict runtime a_handle refl (λ raw e. e) (λ raw e. refl)

conditional_delete_marker-Verdict_example :
    Verdict workspace
      (codes "manifest")
      start
      (conditional_delete_marker system workspace (codes "manifest") start)
conditional_delete_marker-Verdict_example =
    conditional_delete_marker-Verdict system workspace (codes "manifest") start

register-once_example :
    (touched (register runtime system linking workspace a_draft (some confirmation) 0 4 start).1.log
      ≡ false)
    ⊎ (register runtime system linking workspace a_draft
          (some confirmation)
          0
          4
          (register runtime system linking workspace a_draft (some confirmation) 0 4 start).1
        ≡ (
          ok (cancelled Code.confirmation_expired),
          (register runtime system linking workspace a_draft (some confirmation) 0 4 start).1,
        ))
unfolding touched
register-once_example =
    register-once runtime system linking workspace a_draft confirmation 0 4 0 4 start refl

-- A system where another process holds the lock, and where each call takes time.
abbrev busy : Os
busy = record system { create = λ log path. already_exists }

busy-Ticks : Ticks busy
unfolding system
busy-Ticks = record { forward = λ e log. omega arith; waits = λ log. omega arith }

acquire_lock-Ended_example :
    ErrIs IsRaised (acquire_lock runtime busy workspace "owner" a_handle 60 4 true start).0
unfolding system
acquire_lock-Ended_example =
    acquire_lock-Ended runtime busy workspace "owner" a_handle 60 4 true start busy-Ticks
      (omega arith)

register-Claimed_example :
    Truth workspace
      (register runtime system linking workspace a_draft (some confirmation) 0 4 start).0
      (register runtime system linking workspace a_draft (some confirmation) 0 4 start).1
register-Claimed_example =
    register-Claimed runtime system linking workspace a_draft (some confirmation) 0 4 start refl

register_interactive-Claimed_example :
    Truth workspace
      (register_interactive runtime system linking workspace "A workspace" [] "project" none 0
        start).0
      (register_interactive runtime system linking workspace "A workspace" [] "project" none 0
        start).1
register_interactive-Claimed_example =
    register_interactive-Claimed runtime system linking workspace "A workspace" [] "project" none 0
      start refl

recover_lock-Recovered_example :
    Recovered runtime system workspace a_handle
      (recover_lock runtime system workspace a_handle none 60 start).0
      (recover_lock runtime system workspace a_handle none 60 start).1
recover_lock-Recovered_example =
    recover_lock-Recovered runtime system workspace a_handle none 60 start refl

unregister-Deleted_example :
    Deleted workspace unregistration.envelope.marker_bytes
      (unregister runtime system workspace (some unregistration) 4 start).0
      (unregister runtime system workspace (some unregistration) 4 start).1
unregister-Deleted_example = unregister-Deleted runtime system workspace unregistration 4 start
