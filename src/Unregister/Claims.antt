-- ===== src/Unregister/Claims.antt =====
-- unregister.py: the result of an unregistration claims a deletion only if the run has made it.
use arjim.Base.{
  String, ◌≡◌, refl, ◌!=◌, Option, none, some, Bool, true, false, List, ℕ, zero, suc, ◌⊎◌, inl, inr,
  if◌then◌else◌, nat_eq, list_eq, string_eq,
}
use arjim.Errors.{Exn, Result, ok, err}
use arjim.Json.{Json}
use arjim.Vocabulary.{Code}
use arjim.Effects.{
  FilePath, Os, M, Run, pure, ◌>>=◌, consume, get_consumed, lift, sleep, removed_projection,
}
use arjim.Effects.Returns.{OkIs, Returns, OrIs, Returns-pure, Returns-attempt, Returns-inl, returns}
use arjim.Effects.Rules.{
  Ensures, Ensures-bind, Ensures-pure, Ensures-raise, Ensures-attempt, Ensures-Keeps, Keeps,
  Keeps-call,
}
use arjim.Runtime.{Runtime}
use arjim.Filesystem.{TargetHandle, handle_eq}
use arjim.Filesystem.Lock.Flag.{with_lock-Ensures}
use arjim.Filesystem.Marker.{conditional_delete_marker, verify_marker_absent, read_marker}
use arjim.Filesystem.Marker.Deleted.{
  Removed, Missed, Deletes, Verifies, conditional_delete_marker-Deletes,
  verify_marker_absent-Verifies,
}
use arjim.Filesystem.Metadata.Evidence.{Happened-Steady, Quiet-both}
use arjim.Trace.Quiet.{Quiet, keeps, Keeps-sleep}
use arjim.Trace.Steady.{Steady, Steady-Beside, Steady-Quiet}
use arjim.Filesystem.Marker.Looks.{verify_marker_absent-Keeps}
use arjim.Lifecycle.{State}
use arjim.Registration.{Inspection, RegistrationResult, cancelled, stopped}
use arjim.Registration.Inspect.{inspect, item_text}
use arjim.Registration.Outcomes.{Consistent}
use arjim.Unregister.{
  UnregisterEnvelope, UnregisterConfirmation, unregistered, changed_marker_stopped,
  occupied_inspection, capture_stop, capture_handle_or_stop, changed_from, read_refused, compared,
  read_compared, remove_projection, verify_absence, after_conditional, delete_and_verify,
  locked_captured, locked, lock_refused, consume_and_lock, present, inspected, unregister,
}

-- A result that claims no deletion.
unfoldable Idle : RegistrationResult → Type 0
unfolding Consistent
Idle r = Consistent r × (r.effects.marker_deleted ≡ false)

cancelled-Idle : (c : Code) → Idle (cancelled c)
unfolding Idle Consistent cancelled
cancelled-Idle c = (refl, refl)

stopped-Idle : (c : Code) → Idle (stopped c)
unfolding Idle Consistent stopped
stopped-Idle c = (refl, refl)

changed-Idle : (c : Code) → Idle (changed_marker_stopped c)
unfolding Idle Consistent changed_marker_stopped
changed-Idle c = (refl, refl)

occupied-Idle : (i : Inspection) → Idle (occupied_inspection i)
unfolding Idle Consistent occupied_inspection
occupied-Idle i = (refl, refl)

unregistered-Consistent : Consistent unregistered
unfolding Consistent unregistered
unregistered-Consistent = refl

ruleset leaves = (returns, stopped-Idle, cancelled-Idle, changed-Idle, occupied-Idle)

-- A deletion is claimed only if the run has removed the marker, right after a read that gave the
-- confirmed bytes, and has seen it missing.
abbrev pub Deleted : FilePath → List ℕ → Result RegistrationResult → Run → Type 0
Deleted w bytes (ok r) s =
    Consistent r × (r.effects.marker_deleted ≡ true → Removed w bytes s × Missed w s)
Deleted w bytes (err e) s = Unit {0}

Removed-Steady : (w : FilePath) (bytes : List ℕ) → Steady (Removed w bytes)
Removed-Steady w bytes = Happened-Steady _

Missed-Steady : (w : FilePath) → Steady (Missed w)
Missed-Steady w = Happened-Steady _

Deleted-Steady :
    (w : FilePath) (bytes : List ℕ) (r : Result RegistrationResult) → Steady (Deleted w bytes r)
Deleted-Steady w bytes (ok r) = record {
  event = λ e s v. (
    v.0,
    λ h. let d = v.1 h in ((Removed-Steady w bytes).event e s d.0, (Missed-Steady w).event e s d.1),
  );
  flag = λ s v. (
    v.0,
    λ h. let d = v.1 h in ((Removed-Steady w bytes).flag s d.0, (Missed-Steady w).flag s d.1),
  );
}
Deleted-Steady w bytes (err e) = record { event = λ x s v. tt; flag = λ s v. tt }

module _ (w : FilePath) (bytes : List ℕ) where
  idle_lem : (r : RegistrationResult) (s : Run) → Idle r → Deleted w bytes (ok r) s
  unfolding Idle
  idle_lem r s (c, e) = (c, λ h. absurd (clash _ h e))
    where
      clash : (b : Bool) → b ≡ true → b ≡ false → ⊥
      clash true h e = cc
      clash false h e = cc

  idle :
      {P : Run → Type 0} (m : M RegistrationResult) → Returns Idle m → Ensures P m (Deleted w bytes)
  idle m f = record { at = λ s v. go (m s).0 (m s).1 (f.at s) }
    where
      go : (r : Result RegistrationResult) (s : Run) → OkIs Idle r → Deleted w bytes r s
      go (ok r) s h = idle_lem r s h
      go (err e) s h = tt

  then_any {ℓ} :
      {A : Type ℓ} (m : M A) (f : A → M RegistrationResult)
      → ((a : A) → Ensures (λ s. Unit {0}) (f a) (Deleted w bytes))
      → Ensures (λ s. Unit {0}) (m >>= f) (Deleted w bytes)
  then_any m f k = Ensures-bind (λ r s. Unit {0}) m f (record { at = λ s v. tt }) k λ e s v. tt

  then_or {ℓ} :
      {A : Type ℓ} (m : M (A ⊎ RegistrationResult))
      (f : A ⊎ RegistrationResult → M RegistrationResult)
      → Returns (OrIs Idle) m
      → ((r : A ⊎ RegistrationResult)
          → OrIs Idle r
          → Ensures (λ s. Unit {0}) (f r) (Deleted w bytes))
      → Ensures (λ s. Unit {0}) (m >>= f) (Deleted w bytes)
  then_or m f says k =
      Ensures-bind (λ r s. OkIs (OrIs Idle) r) m f (record { at = λ s v. says.at s })
        (λ a. record { at = λ s v. (k a v).at s tt }) λ e s v. tt

  either_way :
      {P : Run → Type 0} (b : Bool) (m n : M RegistrationResult)
      → Ensures P m (Deleted w bytes)
      → Ensures P n (Deleted w bytes)
      → Ensures P (if b then m else n) (Deleted w bytes)
  either_way true m n em en = em
  either_way false m n em en = en

module _ (rt : Runtime) (os : Os) where
  capture_stop-Or : (e : Exn) → Returns (OrIs Idle) (capture_stop rt os e)
  capture_stop-Or Exn.identity_unavailable = search leaves
  capture_stop-Or Exn.target_alias_mismatch = search leaves
  capture_stop-Or Exn.redirected_marker_component = search leaves
  capture_stop-Or _ = search leaves

  capture_handle-Or : (w : FilePath) → Returns (OrIs Idle) (capture_handle_or_stop rt os w)
  unfolding capture_handle_or_stop
  capture_handle-Or w = search (Returns-attempt, Returns-inl, capture_stop-Or)

  changed_from-Returns : (a b : List ℕ) → Returns Idle (changed_from rt os a b)
  unfolding changed_from
  changed_from-Returns a b = search leaves

  read_refused-Or : (e : Exn) → Returns (OrIs Idle) (read_refused rt os e)
  read_refused-Or Exn.read_back_failed = search leaves
  read_refused-Or _ = search leaves

module _ (rt : Runtime) (os : Os) (w : FilePath) (bytes : List ℕ) where
  abbrev Goal : M RegistrationResult → Type 0
  Goal m = Ensures (λ s. Unit {0}) m (Deleted w bytes)

  compared-Deleted :
      (rest : M RegistrationResult) (r : List ℕ ⊎ RegistrationResult)
      → Goal rest
      → OrIs Idle r
      → Goal (compared rt os bytes rest r)
  unfolding compared
  compared-Deleted rest (inl raw) k f =
      either_way w bytes (raw != bytes) _ _ (idle w bytes _ (changed_from-Returns rt os bytes raw))
        k
  compared-Deleted rest (inr r) k f = idle w bytes _ (Returns-pure r f)

  read_compared-Deleted :
      (rest : M RegistrationResult) → Goal rest → Goal (read_compared rt os w bytes rest)
  unfolding read_compared
  read_compared-Deleted rest k =
      then_or w bytes _ _
        (Returns-attempt _ _ (Returns-inl (read_marker os w)) (read_refused-Or rt os))
        λ r f. compared-Deleted rest r k f

  remove_projection-Keeps :
      {P : Run → Type 0}
      → Quiet P
      → (identity : String) → Keeps P (remove_projection rt os identity)
  unfolding remove_projection
  remove_projection-Keeps q identity =
      Keeps-call (λ log. tt) (λ a. removed_projection identity)
        λ s a v. q.event (removed_projection identity) refl s v

  verify_absence-Deleted :
      (n : ℕ) (m : Json) → Ensures (Removed w bytes) (verify_absence rt os n w m) (Deleted w bytes)
  unfolding verify_absence
  verify_absence-Deleted zero m = idle w bytes _ (search leaves)
  verify_absence-Deleted (suc n) m =
      Ensures-bind Seen (verify_marker_absent os w) _ seen (after (verify_absence-Deleted n m))
        λ e s v. tt
    where
      Seen : Result Bool → Run → Type 0
      Seen r s = Removed w bytes s × Verifies w r s

      seen : Ensures (Removed w bytes) (verify_marker_absent os w) Seen
      seen = record {
        at = λ s v. (
          (verify_marker_absent-Keeps (Steady-Quiet (Removed-Steady w bytes)) os w).at s v,
          (verify_marker_absent-Verifies os w).at s tt,
        );
      }

      Both : Run → Type 0
      Both s = Removed w bytes s × Missed w s

      Both-Quiet : Quiet Both
      Both-Quiet = Quiet-both (Steady-Quiet (Removed-Steady w bytes)) (Missed-Steady w)

      after :
          Ensures (Removed w bytes) (verify_absence rt os n w m) (Deleted w bytes)
          → (absent : Bool)
          → Ensures
              (Seen (ok absent))
              (if absent
                then (lift (item_text rt "identity" m) >>= λ identity.
                    remove_projection rt os identity >>= λ u. pure unregistered)
                else (sleep os >>= λ u. verify_absence rt os n w m))
              (Deleted w bytes)
      after again true =
          Ensures-bind (λ r. Both) _ _ (Ensures-Keeps _ _ (search keeps) λ r s v. v)
            (λ identity.
              Ensures-bind (λ r. Both) _ _
                (Ensures-Keeps _ _ (remove_projection-Keeps Both-Quiet identity) λ r s v. v)
                (λ u.
                  Ensures-pure (Deleted w bytes) unregistered
                    λ s v. (unregistered-Consistent, λ h. v))
                λ e s v. tt)
            λ e s v. tt
      after again false =
          Ensures-bind (λ r. Removed w bytes) (sleep os) _
            (record {
              at = λ s v. (Keeps-sleep (Steady-Quiet (Removed-Steady w bytes)) os).at s v.0;
            })
            (λ u. again) λ e s v. tt

  after_conditional-Deleted :
      (m : Json) (b : Bool)
      → Ensures (Deletes w bytes (ok b)) (after_conditional rt os w m b) (Deleted w bytes)
  unfolding after_conditional
  after_conditional-Deleted m true = verify_absence-Deleted 3 m
  after_conditional-Deleted m false = idle w bytes _ (search leaves)

module _ (rt : Runtime) (os : Os) (w : FilePath) (e : UnregisterEnvelope) where
  abbrev Aim : M RegistrationResult → Type 0
  Aim m = Ensures (λ s. Unit {0}) m (Deleted w e.marker_bytes)

  delete_and_verify-Deleted : Aim (delete_and_verify rt os w e)
  unfolding delete_and_verify
  delete_and_verify-Deleted =
      Ensures-bind (Deletes w e.marker_bytes) (conditional_delete_marker os w e.marker_bytes) _
        (conditional_delete_marker-Deletes os w e.marker_bytes)
        (after_conditional-Deleted rt os w e.marker_bytes e.marker) λ x s v. tt

  locked_captured-Deleted :
      (r : TargetHandle ⊎ RegistrationResult) → OrIs Idle r → Aim (locked_captured rt os w e r)
  unfolding locked_captured
  locked_captured-Deleted (inl h) f =
      either_way w e.marker_bytes (h != e.handle) _ _
        (idle w e.marker_bytes _ (Returns-pure _ (changed-Idle _)))
        (read_compared-Deleted rt os w e.marker_bytes _
          (read_compared-Deleted rt os w e.marker_bytes _ delete_and_verify-Deleted))
  locked_captured-Deleted (inr r) f = idle w e.marker_bytes _ (Returns-pure r f)

  locked-Deleted : Aim (locked rt os w e)
  unfolding locked
  locked-Deleted = then_or w e.marker_bytes _ _ (capture_handle-Or rt os w) locked_captured-Deleted

  lock_refused-Deleted : (x : Exn) → Aim (lock_refused rt os x)
  lock_refused-Deleted Exn.lock_unavailable =
      idle w e.marker_bytes _ (Returns-pure _ (changed-Idle _))
  lock_refused-Deleted x = Ensures-raise (Deleted w e.marker_bytes) _ λ s v. tt

  consume_and_lock-Deleted :
      (h : TargetHandle) (timeout : ℕ) → Aim (consume_and_lock rt os w e h timeout)
  unfolding consume_and_lock
  consume_and_lock-Deleted h timeout = then_any w e.marker_bytes consume _ λ u.
      Ensures-attempt (Deleted w e.marker_bytes) _ _
        (with_lock-Ensures (Deleted w e.marker_bytes) (λ x s. tt) rt os h timeout (locked rt os w e)
          (record { event = λ x m s v. tt; flag = λ s v. tt })
          (λ r. Steady-Beside (Deleted-Steady w e.marker_bytes r)) locked-Deleted)
        (λ r s v. v) lock_refused-Deleted

  present-Deleted :
      (timeout : ℕ) (h : Option TargetHandle) (raw : Option (List ℕ))
      → Aim (present rt os w e timeout h raw)
  unfolding present
  present-Deleted timeout (some h) (some raw) =
      either_way w e.marker_bytes (h != e.handle) _ _
        (idle w e.marker_bytes _ (Returns-pure _ (changed-Idle _)))
        (either_way w e.marker_bytes (raw != e.marker_bytes) _ _
          (idle w e.marker_bytes _ (changed_from-Returns rt os e.marker_bytes raw))
          (consume_and_lock-Deleted h timeout))
  present-Deleted timeout (some h) none = idle w e.marker_bytes _ (search leaves)
  present-Deleted timeout none raw = idle w e.marker_bytes _ (search leaves)

  inspected-Deleted :
      (timeout : ℕ) (st : State) (i : Inspection) → Aim (inspected rt os w e timeout st i)
  unfolding inspected
  inspected-Deleted timeout State.stopped i = idle w e.marker_bytes _ (search leaves)
  inspected-Deleted timeout State.occupied_invalid i = idle w e.marker_bytes _ (search leaves)
  inspected-Deleted timeout State.draft_ready i = idle w e.marker_bytes _ (search leaves)
  inspected-Deleted timeout State.linked_existing i =
      present-Deleted timeout i.handle i.marker_bytes

-- In every environment, a result of `unregister` with a confirmation has the effects and the
-- identity of its outcome, and it claims a deletion only if the run has removed the marker, as the
-- next call after a read that gave the confirmed bytes, and has seen it missing.
pub unregister-Deleted :
    (rt : Runtime) (os : Os) (w : FilePath) (c : UnregisterConfirmation) (timeout : ℕ) (s : Run)
    → Deleted w c.envelope.marker_bytes
        (unregister rt os w (some c) timeout s).0
        (unregister rt os w (some c) timeout s).1
unfolding unregister
unregister-Deleted rt os w c timeout s =
    (then_any w c.envelope.marker_bytes get_consumed _ λ consumed.
        either_way w c.envelope.marker_bytes consumed _ _
          (idle w c.envelope.marker_bytes _ (Returns-pure _ (cancelled-Idle _)))
          (either_way w c.envelope.marker_bytes (c.envelope.workspace_path != w) _ _
            (idle w c.envelope.marker_bytes _ (Returns-pure _ (cancelled-Idle _)))
            (then_any w c.envelope.marker_bytes (inspect rt os w) _
              λ i. inspected-Deleted rt os w c.envelope timeout i.state i))).at
      s tt
