-- ===== src/Registration/Claims.antt =====
-- registration.py: what a result claims of the marker, against the events of the run.
use arjim.Base.{true, false, ◌⊎◌, inl, inr, ◌≡◌, sym, ◌∙◌, ◌∷◌, list_eq, string_eq}
use arjim.Errors.{Result, ok, err}
use arjim.Vocabulary.{Code}
use arjim.Effects.{FilePath, Run, M, Event}
use arjim.Effects.Returns.{OkIs, Returns}
use arjim.Effects.Rules.{Keeps, Ensures}
use arjim.Filesystem.{marker_path}
use arjim.Trace.{owned}
use arjim.Filesystem.Marker.Attempts.{Fresh, Mine, owned-beside, Mine-Beside}
use arjim.Trace.Steady.{Beside, makes_marker}
use arjim.Registration.{RegistrationResult, stopped}
use arjim.Registration.Outcomes.{Consistent, Says}

-- A marker is claimed to be written exactly if the run has created it. The exception is a stop for
-- a write that has failed after the creation. Of a stop for the lock nothing is said.
abbrev pub Claim : FilePath → RegistrationResult → Run → Type 0
Claim w r s =
    (r.effects.marker_written ≡ owned (marker_path w) s.log)
    ⊎ (((r ≡ stopped Code.write_failed) ⊎ (r ≡ stopped Code.lock_unavailable)) × Mine w s)

abbrev pub Truth : FilePath → Result RegistrationResult → Run → Type 0
Truth w (ok r) s = Consistent r × Claim w r s
Truth w (err e) s = Unit

Claim-event :
    (w : FilePath) (r : RegistrationResult) (e : Event)
    → makes_marker w e ≡ false
    → (s : Run) → Claim w r s
    → Claim w r (record s { log = e ∷ s.log })
Claim-event w r e m s (inl c) = inl (c ∙ sym (owned-beside w e s.log m))
Claim-event w r e m s (inr (x, v)) = inr (x, Mine-Beside.event e m s v)

Claim-flag :
    (w : FilePath) (r : RegistrationResult) (s : Run)
    → Claim w r s
    → Claim w r (record s { consumed = true })
Claim-flag w r s (inl c) = inl c
Claim-flag w r s (inr (x, v)) = inr (x, Mine-Beside.flag s v)

pub Truth-Beside : {w : FilePath} (r : Result RegistrationResult) → Beside w (Truth w r)
Truth-Beside {w} (ok r) = record {
  event = λ e m s v. (v.0, Claim-event w r e m s v.1);
  flag = λ s v. (v.0, Claim-flag w r s v.1);
}
Truth-Beside (err e) = record { event = λ x m s v. tt; flag = λ s v. tt }

-- A result that claims no write, where no marker was created, and one that claims it, where one
-- was.
module _ {w : FilePath} where
  pub said_early : (r : RegistrationResult) (s : Run) → Says false r → Fresh w s → Truth w (ok r) s
  unfolding Says
  said_early r s (c, e) v = (c, inl (e ∙ sym v.fresh))

  said_late : (r : RegistrationResult) (s : Run) → Says true r → Mine w s → Truth w (ok r) s
  unfolding Says
  said_late r s (c, e) v = (c, inl (e ∙ sym v.mine))

  pub early :
      (m : M RegistrationResult)
      → Returns (Says false) m
      → Keeps (Fresh w) m
      → Ensures (Fresh w) m (Truth w)
  early m says kept = record { at = λ s v. go (m s).0 (m s).1 (says.at s) (kept.at s v) }
    where
      go : (r : Result RegistrationResult) (s : Run) → OkIs (Says false) r → Fresh w s → Truth w r s
      go (ok r) s f v = said_early r s f v
      go (err e) s f v = tt

  pub late :
      (m : M RegistrationResult)
      → Returns (Says true) m
      → Keeps (Mine w) m
      → Ensures (Mine w) m (Truth w)
  late m says kept = record { at = λ s v. go (m s).0 (m s).1 (says.at s) (kept.at s v) }
    where
      go : (r : Result RegistrationResult) (s : Run) → OkIs (Says true) r → Mine w s → Truth w r s
      go (ok r) s f v = said_late r s f v
      go (err e) s f v = tt
