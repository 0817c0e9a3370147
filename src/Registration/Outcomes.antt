-- ===== src/Registration/Outcomes.antt =====
-- The table of the results: what each outcome of registration.py and unregister.py says of the
-- effects, the identity and the validity. The dataclass `Effects` does not tie them.
use arjim.Base.{String, Option, none, some, Bool, true, false, not, ◌&&◌, ◌≡◌, refl}
use arjim.Vocabulary.{Code}
use arjim.Diagnostics.{Diagnostics}
use arjim.Lifecycle.{Outcome, Link}
use arjim.Registration.{
  Effects, RegistrationResult, cancelled, stopped, written_unverified, occupied_invalid,
  invalid_marker_resolved,
}

abbrev same_link : Link → Link → Bool
same_link Link.linked Link.linked = true
same_link Link.unlinked Link.unlinked = true
same_link Link.conflict Link.conflict = true
same_link Link.none Link.none = true
same_link _ _ = false

-- The four facts of the file and the projection.
abbrev facts : Bool → Bool → Bool → Bool → Link → Effects → Bool
facts written deleted read_back absence link e =
    same e.marker_written written
    && same e.marker_deleted deleted
    && same e.read_back_verified read_back
    && same e.absence_verified absence
    && same e.linked (same_link link Link.linked)
    && same_link e.projection link
  where
    same : Bool → Bool → Bool
    same true b = b
    same false b = not b

abbrev nothing : Effects → Bool
nothing e = facts false false false false Link.none e

abbrev expected_effects : Outcome → Effects → Bool
expected_effects Outcome.registered e = facts true false true false Link.linked e
expected_effects Outcome.linked_existing e = facts false false true false Link.linked e
expected_effects Outcome.registered_unlinked e = facts true false true false Link.unlinked e
expected_effects Outcome.conflict e = facts e.marker_written false true false Link.conflict e
expected_effects Outcome.written_unverified e = facts true false false false Link.none e
expected_effects Outcome.invalid_marker_resolved e = facts false true false true Link.none e
expected_effects Outcome.unregistered e = facts false true false true Link.none e
expected_effects Outcome.invalid_deleted_unverified e = facts false true false false Link.none e
expected_effects Outcome.cancelled e = nothing e
expected_effects Outcome.stopped e = nothing e
expected_effects Outcome.occupied_invalid e = nothing e
expected_effects Outcome.changed_marker_stopped e = nothing e

-- An identity is given exactly with a read-back that has succeeded.
abbrev expected_identity : Option String → Effects → Bool
expected_identity none e = not e.read_back_verified
expected_identity (some i) e = e.read_back_verified

unfoldable pub Consistent : RegistrationResult → Type 0
Consistent r =
    (expected_effects r.outcome r.effects && expected_identity r.identity r.effects) ≡ true

-- The same, of a result that claims a written marker, or claims none.
unfoldable pub Says : Bool → RegistrationResult → Type 0
unfolding Consistent
Says written r = Consistent r × (r.effects.marker_written ≡ written)

pub cancelled-Says : (c : Code) → Says false (cancelled c)
unfolding Says Consistent cancelled
cancelled-Says c = (refl, refl)

pub stopped-Says : (c : Code) → Says false (stopped c)
unfolding Says Consistent stopped
stopped-Says c = (refl, refl)

pub occupied_invalid-Says : (d : Diagnostics) → Says false (occupied_invalid d)
unfolding Says Consistent occupied_invalid
occupied_invalid-Says d = (refl, refl)

pub written_unverified-Says : (c : Code) → Says true (written_unverified c)
unfolding Says Consistent written_unverified
written_unverified-Says c = (refl, refl)

pub cancelled-Consistent : (c : Code) → Consistent (cancelled c)
unfolding Consistent cancelled
cancelled-Consistent c = refl

pub stopped-Consistent : (c : Code) → Consistent (stopped c)
unfolding Consistent stopped
stopped-Consistent c = refl

pub written_unverified-Consistent : (c : Code) → Consistent (written_unverified c)
unfolding Consistent written_unverified
written_unverified-Consistent c = refl

pub occupied_invalid-Consistent : (d : Diagnostics) → Consistent (occupied_invalid d)
unfolding Consistent occupied_invalid
occupied_invalid-Consistent d = refl

pub invalid_marker_resolved-Consistent : Consistent invalid_marker_resolved
unfolding Consistent invalid_marker_resolved
invalid_marker_resolved-Consistent = refl
