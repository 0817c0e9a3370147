-- ===== src/Registration/Register/Claims.antt =====
-- registration.py: the result of a registration claims a write exactly if the run has made one.
use arjim.Base.{
  ℕ, ◌≡◌, refl, ◌!=◌, ◌⊎◌, inl, inr, Option, none, some, Bool, true, false, List, [], if◌then◌else◌,
  arith, list_eq, string_eq, nat_eq, option_eq, Bool-cases, not,
}
use arjim.Errors.{Exn, Result, ok, err}
use arjim.Vocabulary.{Code}
use arjim.Runtime.{Runtime}
use arjim.Effects.{FilePath, Os, Run, M, pure, ◌>>=◌, consume, get_consumed, os_exists}
use arjim.Effects.Returns.{OkIs, OrIs, Returns}
use arjim.Effects.Rules.{
  Keeps, Ensures, Ensures-bind, Ensures-pure, Ensures-raise, Ensures-Keeps, Ensures-attempt,
  Ensures-from,
}
use arjim.Trace.{owned}
use arjim.Trace.Quiet.{Keeps-consume, Keeps-get_consumed, Keeps-os_exists}
use arjim.Trace.Steady.{Beside-Quiet}
use arjim.Filesystem.{TargetHandle, marker_path, parent_absent, parent_path}
use arjim.Filesystem.Lock.Flag.{with_lock-Ensures}
use arjim.Filesystem.Marker.{write_marker_create_only}
use arjim.Registration.{Hook, Draft, Confirmation, RegistrationResult, stopped}
use arjim.Registration.Drafting.{marker_to_bytes}
use arjim.Registration.Outcomes.{Says, cancelled-Says, stopped-Says}
use arjim.Filesystem.Marker.Attempts.{
  Fresh, Mine, Fresh-Beside, Mine-Beside, Attempted, write-Attempted,
}
use arjim.Registration.Claims.{Truth, Truth-Beside, said_early, early, late}
use arjim.Registration.Inspect.{marker_present}
use arjim.Registration.Inspect.Looks.{marker_present-Keeps}
use arjim.Registration.Projecting.{capture_or_stop}
use arjim.Registration.Projecting.Looks.{capture_or_stop-Keeps}
use arjim.Registration.Projecting.Outcomes.{capture_or_stop-Or}
use arjim.Registration.Register.Looks.{collision_result-Keeps, readback_and_project-Keeps}
use arjim.Registration.Register.Outcomes.{collision_result-Returns, readback_and_project-Returns}
use arjim.Registration.Register.{
  bound_to, collision_result, write_refused, after_write, write_marker, created_parent, locked,
  lock_refused, consume_and_lock, parent_kept, check_parent, revalidate, register,
}

abbrev Next : FilePath → Result (Unit {0} ⊎ RegistrationResult) → Run → Type 0
Next w (ok (inl u)) s = Mine w s
Next w (ok (inr r)) s = Truth w (ok r) s
Next w (err e) s = Unit

module _ (os : Os) (w : FilePath) where
  -- A step that changes no file, and a test.
  pub first {ℓ} :
      {A : Type ℓ} (m : M A) (f : A → M RegistrationResult)
      → Keeps (Fresh w) m
      → ((a : A) → Ensures (Fresh w) (f a) (Truth w))
      → Ensures (Fresh w) (m >>= f) (Truth w)
  first m f k kf = Ensures-bind (λ r. Fresh w) m f (Ensures-Keeps _ m k λ r s v. v) kf λ e s v. tt

  pub either_way :
      (b : Bool) (m n : M RegistrationResult)
      → Ensures (Fresh w) m (Truth w)
      → Ensures (Fresh w) n (Truth w)
      → Ensures (Fresh w) (if b then m else n) (Truth w)
  either_way true m n em en = em
  either_way false m n em en = en

  pub answer : (r : RegistrationResult) → Says false r → Ensures (Fresh w) (pure r) (Truth w)
  answer r f = Ensures-pure (Truth w) r λ s v. said_early r s f v

  -- A step that gives a value to go on from, or a result that claims no write.
  pub or_else {ℓ} :
      {A : Type ℓ} (m : M (A ⊎ RegistrationResult))
      (f : A ⊎ RegistrationResult → M RegistrationResult)
      → Returns (OrIs (Says false)) m
      → Keeps (Fresh w) m
      → ((r : A ⊎ RegistrationResult) → OrIs (Says false) r → Ensures (Fresh w) (f r) (Truth w))
      → Ensures (Fresh w) (m >>= f) (Truth w)
  or_else {A = A} m f says k kf =
      Ensures-bind Both m f (record { at = λ s v. go (m s).0 (m s).1 (says.at s) (k.at s v) })
        (λ a. record { at = λ s v. (kf a v.0).at s v.1 }) λ e s v. tt
    where
      Both : Result (A ⊎ RegistrationResult) → Run → Type 0
      Both (ok a) s = OrIs (Says false) a × Fresh w s
      Both (err e) s = Unit

      go :
          (r : Result (A ⊎ RegistrationResult)) (s : Run)
          → OkIs (OrIs (Says false)) r
          → Fresh w s
          → Both r s
      go (ok a) s f v = (f, v)
      go (err e) s f v = tt

module _ (rt : Runtime) (os : Os) (hook : Hook) (w : FilePath) where
  collision-Next :
      (h : TargetHandle) (n : ℕ)
      → Ensures (Fresh w) (collision_result rt os hook w h n >>= λ r. pure (inr r)) (Next w)
  collision-Next h n =
      Ensures-bind (Truth w) (collision_result rt os hook w h n) _
        (early _ (collision_result-Returns rt os hook w h n)
          (collision_result-Keeps (Beside-Quiet Fresh-Beside) rt os hook w h n))
        (λ r. Ensures-pure (Next w) (inr r) λ s v. v) λ e s v. tt

  unwritten : (s : Run) → Fresh w s ⊎ (Mine w s × (false ≡ true)) → Fresh w s
  unwritten s (inl v) = v
  unwritten s (inr (v, h)) = ground (arith, h)

  failed_write :
      (s : Run)
      → Fresh w s ⊎ (Mine w s × (true ≡ true))
      → Truth w (ok (stopped Code.write_failed)) s
  unfolding Says
  failed_write s (inl v) =
      said_early (stopped Code.write_failed) s (stopped-Says Code.write_failed) v
  failed_write s (inr (v, h)) = ((stopped-Says Code.write_failed).0, inr (inl refl, v))

  write_refused-Next :
      (h : TargetHandle) (n : ℕ) (e : Exn)
      → Ensures (Attempted w (err e)) (write_refused rt os hook w h n e) (Next w)
  write_refused-Next h n Exn.create_collision =
      Ensures-from (Next w) _ unwritten (collision-Next h n)
  write_refused-Next h n Exn.write_failed = Ensures-pure (Next w) _ failed_write
  write_refused-Next h n e = Ensures-raise (Next w) _ λ s v. tt

  after_write-Truth :
      (d : Draft) (x : TargetHandle) (n : ℕ) (r : Unit {0} ⊎ RegistrationResult)
      → Ensures (Next w (ok r)) (after_write rt os hook w d x n r) (Truth w)
  unfolding after_write
  after_write-Truth d x n (inl u) =
      late _ (readback_and_project-Returns rt os hook w d x n)
        (readback_and_project-Keeps (Beside-Quiet Mine-Beside) rt os hook w d x n)
  after_write-Truth d x n (inr r) = Ensures-pure (Truth w) r λ s v. v

  write_marker-Truth :
      (d : Draft) (bytes : List ℕ) (h x : TargetHandle) (n : ℕ)
      → Ensures (Fresh w) (write_marker rt os hook w d bytes h x n) (Truth w)
  unfolding write_marker
  write_marker-Truth d bytes h x n =
      Ensures-bind (Next w) _ _
        (Ensures-attempt Tried _ _
          (Ensures-bind (Attempted w) (write_marker_create_only os w bytes) _
            (write-Attempted os w bytes) (λ u. Ensures-pure Tried (inl tt) λ s v. v) λ e s v. v)
          (λ r s v. v) (write_refused-Next h n))
        (after_write-Truth d x n) λ e s v. tt
    where
      Tried : Result (Unit {0} ⊎ RegistrationResult) → Run → Type 0
      Tried (ok r) s = Next w (ok r) s
      Tried (err e) s = Attempted w (err e) s

  created_parent-Truth :
      (d : Draft) (bytes : List ℕ) (h : TargetHandle) (n : ℕ)
      (r : TargetHandle ⊎ RegistrationResult)
      → OrIs (Says false) r
      → Ensures (Fresh w) (created_parent rt os hook w d bytes h n r) (Truth w)
  unfolding created_parent
  created_parent-Truth d bytes h n (inr r) f = answer os w r f
  created_parent-Truth d bytes h n (inl c) f =
      either_way os w (parent_absent c) _ _ (answer os w _ (cancelled-Says _)) (
        either_way os w (c.workspace != d.handle.workspace) _ _ (answer os w _ (cancelled-Says _))
          (write_marker-Truth d bytes h c n))

  capture-first :
      (f : TargetHandle ⊎ RegistrationResult → M RegistrationResult)
      → ((r : TargetHandle ⊎ RegistrationResult)
          → OrIs (Says false) r
          → Ensures (Fresh w) (f r) (Truth w))
      → Ensures (Fresh w) (capture_or_stop rt os w >>= f) (Truth w)
  capture-first f k =
      or_else os w _ f (capture_or_stop-Or rt stopped-Says os w)
        (capture_or_stop-Keeps (Beside-Quiet Fresh-Beside) rt os w) k

  locked-Truth :
      (d : Draft) (bytes : List ℕ) (h : TargetHandle) (n : ℕ)
      → Ensures (Fresh w) (locked rt os hook w d bytes h n) (Truth w)
  unfolding locked
  locked-Truth d bytes h n =
      either_way os w (parent_absent d.handle) _ _
        (capture-first _ (created_parent-Truth d bytes h n)) (write_marker-Truth d bytes h h n)

  lock_refused-Truth : (e : Exn) → Ensures (λ s. Unit {0}) (lock_refused rt os hook e) (Truth w)
  unfolding Says
  lock_refused-Truth Exn.lock_unavailable =
      Ensures-pure (Truth w) (stopped Code.lock_unavailable) λ s v. go s
    where
      go : (s : Run) → Truth w (ok (stopped Code.lock_unavailable)) s
      go s = elim (Bool-cases (owned (marker_path w) s.log)) [
        | inl e ↦ ((stopped-Says Code.lock_unavailable).0, inr (inr refl, record { mine = e }))
        | inr e ↦ said_early _ s (stopped-Says Code.lock_unavailable) (record { fresh = e })
      ]
  lock_refused-Truth e = Ensures-raise (Truth w) _ λ s v. tt

  consume-Keeps : Keeps (Fresh w) consume
  consume-Keeps = Keeps-consume (Beside-Quiet (Fresh-Beside {w = w}))

  consume_and_lock-Truth :
      (d : Draft) (h : TargetHandle) (n timeout : ℕ)
      → Ensures (Fresh w) (consume_and_lock rt os hook w d h n timeout) (Truth w)
  unfolding consume_and_lock
  consume_and_lock-Truth d h n timeout = first os w consume _ consume-Keeps λ u.
      Ensures-attempt (Truth w) _ _
        (with_lock-Ensures (Truth w) (λ e s. tt) rt os h timeout
          (locked rt os hook w d (marker_to_bytes rt d.marker) h n) Fresh-Beside Truth-Beside
          (locked-Truth d (marker_to_bytes rt d.marker) h n))
        (λ r s v. v) lock_refused-Truth

  parent_kept-Truth :
      (d : Draft) (h : TargetHandle) (n timeout : ℕ) (r : TargetHandle ⊎ RegistrationResult)
      → OrIs (Says false) r
      → Ensures (Fresh w) (parent_kept rt os hook w d h n timeout r) (Truth w)
  unfolding parent_kept
  parent_kept-Truth d h n timeout (inr r) f = answer os w r f
  parent_kept-Truth d h n timeout (inl c) f =
      either_way os w (c.parent != d.handle.parent) _ _ (answer os w _ (cancelled-Says _))
        (consume_and_lock-Truth d h n timeout)

  check_parent-Truth :
      (d : Draft) (h : TargetHandle) (n timeout : ℕ) (b : Bool)
      → Ensures (Fresh w) (check_parent rt os hook w d h n timeout b) (Truth w)
  unfolding check_parent
  check_parent-Truth d h n timeout b =
      either_way os w (parent_absent d.handle) _ _
        (either_way os w b _ _ (answer os w _ (cancelled-Says _))
          (consume_and_lock-Truth d h n timeout))
        (either_way os w (not b) _ _ (answer os w _ (cancelled-Says _))
          (capture-first _ (parent_kept-Truth d h n timeout)))

  revalidate-Truth :
      (d : Draft) (n timeout : ℕ) (r : TargetHandle ⊎ RegistrationResult)
      → OrIs (Says false) r
      → Ensures (Fresh w) (revalidate rt os hook w d n timeout r) (Truth w)
  unfolding revalidate
  revalidate-Truth d n timeout (inr r) f = answer os w r f
  revalidate-Truth d n timeout (inl h) f =
      either_way os w (h.workspace != d.handle.workspace) _ _ (answer os w _ (cancelled-Says _)) (
        first os w (marker_present rt os w) _
          (marker_present-Keeps (Beside-Quiet Fresh-Beside) rt os w)
          λ observed. either_way os w observed _ _ (answer os w _ (cancelled-Says _)) (
            first os w (os_exists os (parent_path w)) _
              (Keeps-os_exists (Beside-Quiet (Fresh-Beside {w = w})) os (parent_path w))
              (check_parent-Truth d h n timeout)))

  pub register-Truth :
      (d : Draft) (c : Option Confirmation) (n timeout : ℕ)
      → Ensures (Fresh w) (register rt os hook w d c n timeout) (Truth w)
  unfolding register
  register-Truth d none n timeout = answer os w _ (cancelled-Says _)
  register-Truth d (some c) n timeout =
      first os w get_consumed _ (Keeps-get_consumed (Beside-Quiet (Fresh-Beside {w = w})))
        λ consumed. either_way os w consumed _ _ (answer os w _ (cancelled-Says _)) (
          either_way os w (not (bound_to c.draft d w)) _ _ (answer os w _ (cancelled-Says _))
            (capture-first _ (revalidate-Truth d n timeout)))

  pub new_run-Fresh : (s : Run) → s.log ≡ [] → Fresh w s
  unfolding owned
  new_run-Fresh s e = record { fresh = rw e refl }

  -- From a new run, in every environment and with every answer of the projection: a result of
  -- `register` has the effects and the identity of its outcome, and it claims a written marker
  -- exactly if the run has created the marker. The exception is a stop with the code of a failed
  -- write, which may follow the creation; of a stop with the code of the lock, which claims no
  -- write, nothing more is said.
  pub register-Claimed :
      (d : Draft) (c : Option Confirmation) (n timeout : ℕ) (s : Run)
      → s.log ≡ []
      → Truth w (register rt os hook w d c n timeout s).0 (register rt os hook w d c n timeout s).1
  register-Claimed d c n timeout s e = (register-Truth d c n timeout).at s (new_run-Fresh s e)
