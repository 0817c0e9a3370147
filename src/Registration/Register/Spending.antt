-- ===== src/Registration/Register/Spending.antt =====
-- registration.py: a confirmation stands for at most one registration that changes files.
use arjim.Trace.Touched.{touched, touched-quiet}
use arjim.Base.{
  arith, ◌≡◌, refl, Option, none, some, Bool, true, false, List, ℕ, Bool-cases, ◌⊎◌, inl, inr,
}
use arjim.Errors.{Exn, ok}
use arjim.Vocabulary.{Code}
use arjim.Effects.{FilePath, Os, Run, consume, ◌>>=◌, get_consumed, attempt, pure}
use arjim.Effects.Rules.{Keeps}
use arjim.Runtime.{Runtime}
use arjim.Trace.Quiet.{Quiet, keeps, quiet}
use arjim.Trace.Steady.{Steady, Steady-Beside, steady}
use arjim.Filesystem.{TargetHandle}
use arjim.Filesystem.Marker.Flag.{write_marker_create_only-Steady}
use arjim.Filesystem.Lock.{with_lock}
use arjim.Registration.Drafting.{marker_to_bytes}
use arjim.Filesystem.Lock.Flag.{with_lock-Steady}
use arjim.Registration.{Hook, Draft, Confirmation, RegistrationResult, cancelled}
use arjim.Registration.Inspect.Looks.{marker_present-Keeps}
use arjim.Registration.Projecting.Looks.{capture_or_stop-Keeps}
use arjim.Registration.Register.Looks.{collision_result-Keeps, readback_and_project-Keeps}
use arjim.Registration.Register.{
  write_refused, after_write, write_marker, created_parent, locked, lock_refused, consume_and_lock,
  parent_kept, check_parent, revalidate, register,
}

-- A run that has changed a file has consumed its confirmation.
record Spent (s : Run) : Type 0 where
  spent : touched s.log ≡ true → s.consumed ≡ true

record Consumed (s : Run) : Type 0 where
  flag : s.consumed ≡ true

Consumed-Steady : Steady Consumed
Consumed-Steady = record {
  event = λ e s c. record { flag = c.flag };
  flag = λ s c. record { flag = refl };
}

Spent-Quiet : Quiet Spent
Spent-Quiet = record {
  event = λ e q s v. record { spent = λ h. v.spent (touched-quiet e s.log q h) };
  flag = λ s v. record { spent = λ h. refl };
}

module _ {P : Run → Type 0} (t : Steady P) (rt : Runtime) (os : Os) (hook : Hook)
    (w : FilePath) where
  write_refused-Steady :
      (h : TargetHandle) (n : ℕ) (e : Exn) → Keeps P (write_refused rt os hook w h n e)
  write_refused-Steady h n Exn.create_collision = search (keeps, steady, collision_result-Keeps)
  write_refused-Steady h n Exn.write_failed = search keeps
  write_refused-Steady h n _ = search keeps

  after_write-Steady :
      (d : Draft) (x : TargetHandle) (n : ℕ) (r : Unit {0} ⊎ RegistrationResult)
      → Keeps P (after_write rt os hook w d x n r)
  unfolding after_write
  after_write-Steady d x n (inl u) = search (steady, readback_and_project-Keeps)
  after_write-Steady d x n (inr r) = search keeps

  write_marker-Steady :
      (d : Draft) (bytes : List ℕ) (h x : TargetHandle) (n : ℕ)
      → Keeps P (write_marker rt os hook w d bytes h x n)
  unfolding write_marker
  write_marker-Steady d bytes h x n =
      search (keeps, write_marker_create_only-Steady, write_refused-Steady, after_write-Steady)

  created_parent-Steady :
      (d : Draft) (bytes : List ℕ) (h : TargetHandle) (n : ℕ)
      (r : TargetHandle ⊎ RegistrationResult)
      → Keeps P (created_parent rt os hook w d bytes h n r)
  unfolding created_parent
  created_parent-Steady d bytes h n (inl c) = search (keeps, write_marker-Steady)
  created_parent-Steady d bytes h n (inr r) = search keeps

  locked-Steady :
      (d : Draft) (bytes : List ℕ) (h : TargetHandle) (n : ℕ)
      → Keeps P (locked rt os hook w d bytes h n)
  unfolding locked
  locked-Steady d bytes h n =
      search (keeps, steady, capture_or_stop-Keeps, created_parent-Steady, write_marker-Steady)

  lock_refused-Steady : (e : Exn) → Keeps P (lock_refused rt os hook e)
  lock_refused-Steady Exn.lock_unavailable = search keeps
  lock_refused-Steady _ = search keeps

module _ (rt : Runtime) (os : Os) (hook : Hook) (w : FilePath) where
  consume_and_lock-Spent :
      (d : Draft) (h : TargetHandle) (n timeout : ℕ)
      → Keeps Spent (consume_and_lock rt os hook w d h n timeout)
  unfolding consume_and_lock consume ◌>>=◌
  consume_and_lock-Spent d h n timeout = record {
    at = λ s v. record {
      spent = λ x. (after.at (record s { consumed = true }) (record { flag = refl })).flag;
    };
  }
    where
      after : Keeps Consumed (
          attempt
            (with_lock rt os w h timeout (locked rt os hook w d (marker_to_bytes rt d.marker) h n))
            (lock_refused rt os hook))
      after = search (
        keeps,
        with_lock-Steady,
        Steady-Beside,
        locked-Steady Consumed-Steady,
        lock_refused-Steady,
        Consumed-Steady,
      )

  parent_kept-Spent :
      (d : Draft) (h : TargetHandle) (n timeout : ℕ) (r : TargetHandle ⊎ RegistrationResult)
      → Keeps Spent (parent_kept rt os hook w d h n timeout r)
  unfolding parent_kept
  parent_kept-Spent d h n timeout (inl c) = search (keeps, consume_and_lock-Spent)
  parent_kept-Spent d h n timeout (inr r) = search keeps

  check_parent-Spent :
      (d : Draft) (h : TargetHandle) (n timeout : ℕ) (b : Bool)
      → Keeps Spent (check_parent rt os hook w d h n timeout b)
  unfolding check_parent
  check_parent-Spent d h n timeout b =
      search (keeps, Spent-Quiet, consume_and_lock-Spent, parent_kept-Spent, capture_or_stop-Keeps)

  revalidate-Spent :
      (d : Draft) (n timeout : ℕ) (r : TargetHandle ⊎ RegistrationResult)
      → Keeps Spent (revalidate rt os hook w d n timeout r)
  unfolding revalidate
  revalidate-Spent d n timeout (inl c) =
      search (keeps, quiet, Spent-Quiet, marker_present-Keeps, check_parent-Spent) depth 8
  revalidate-Spent d n timeout (inr r) = search keeps

  register-Spent :
      (d : Draft) (c : Option Confirmation) (n timeout : ℕ)
      → Keeps Spent (register rt os hook w d c n timeout)
  unfolding register
  register-Spent d none n timeout = search keeps
  register-Spent d (some c) n timeout =
      search (keeps, quiet, Spent-Quiet, capture_or_stop-Keeps, revalidate-Spent) depth 8

  consumed-refused :
      (d : Draft) (c : Confirmation) (n timeout : ℕ) (s : Run)
      → s.consumed ≡ true
      → register rt os hook w d (some c) n timeout s ≡ (ok (cancelled Code.confirmation_expired), s)
  unfolding register get_consumed ◌>>=◌ pure
  consumed-refused d c n timeout s h = rw h refl

  -- A confirmation stands for at most one registration that changes files: after a registration
  -- from a run that has changed no file, either still no file has been changed, or every further
  -- registration with that confirmation is cancelled as expired, without a single call.
  pub register-once :
      (d : Draft) (c : Confirmation) (n timeout m later : ℕ) (s : Run)
      → touched s.log ≡ false
      → (touched (register rt os hook w d (some c) n timeout s).1.log ≡ false)
        ⊎ (register rt os hook w d (some c) m later (register rt os hook w d (some c) n timeout s).1
            ≡ (
              ok (cancelled Code.confirmation_expired),
              (register rt os hook w d (some c) n timeout s).1,
            ))
  register-once d c n timeout m later s h = elim (Bool-cases (touched after.log)) [
    | inl e ↦ inr (consumed-refused d c m later after (kept.spent e))
    | inr e ↦ inl e
  ]
    where
      after : Run
      after = (register rt os hook w d (some c) n timeout s).1

      kept : Spent after
      kept =
          (register-Spent d (some c) n timeout).at s (record { spent = λ x. ground (arith, h, x) })
