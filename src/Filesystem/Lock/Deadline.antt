-- ===== src/Filesystem/Lock/Deadline.antt =====
-- filesystem.py: the wait for the lock ends at its deadline.
use arjim.Base.{
  ℕ, zero, suc, ◌+◌, ◌≤◌, ◌<◌, ◌≡◌, refl, String, Bool, true, false, ◌∷◌, leb, if◌then◌else◌, arith,
}
use arjim.Errors.{Exn, Result, ok, err}
use arjim.Runtime.{Runtime}
use arjim.Effects.{
  FilePath, Os, Run, M, raise, ◌>>=◌, ◌>>◌, call, Log, Event, slept, timed, time_monotonic, sleep,
}
use arjim.Effects.Raises.{Raises, ErrIs}
use arjim.Effects.Rules.{Ensures, Ensures-bind, Ensures-attempt, Ensures-raise, Ensures-from, Keeps}
use arjim.Trace.Steady.{Steady, Steady-Beside}
use arjim.Filesystem.{TargetHandle}
use arjim.Filesystem.Lock.{acquire_lock_once, retry, acquire_loop, acquire_lock}
use arjim.Filesystem.Lock.Flag.{acquire_lock_once-Steady}
use arjim.Filesystem.Lock.Attempts.{IsRaised, acquire_lock_once-Raises}

-- The clock of the deadlines never goes back, and a wait moves it on.
pub record Ticks (os : Os) : Type 0 where
  pub forward : (e : Event) (log : Log) → os.monotonic log ≤ os.monotonic (e ∷ log)
  pub waits : (log : Log) → suc (os.monotonic log) ≤ os.monotonic (slept ∷ log)

-- It is `k` or later.
record AtLeast (os : Os) (k : ℕ) (s : Run) : Type 0 where
  reached : k ≤ os.monotonic s.log

abbrev Ended : Result (Unit {0}) → Run → Type 0
Ended r s = ErrIs IsRaised r

module _ (os : Os) (ticks : Ticks os) where
  AtLeast-Steady : (k : ℕ) → Steady (AtLeast os k)
  AtLeast-Steady k = record {
    event = λ e s h.
        let f = ticks.forward e s.log in let b = h.reached in record { reached = omega arith };
    flag = λ s h. record { reached = h.reached };
  }

  abbrev Known : ℕ → Result ℕ → Run → Type 0
  Known k (ok now) s = (k ≤ now) × (now ≤ os.monotonic s.log)
  Known k (err e) s = ⊥

  time_monotonic-Known : (k : ℕ) → Ensures (AtLeast os k) (time_monotonic os) (Known k)
  unfolding time_monotonic call
  time_monotonic-Known k = record { at = λ s h. (h.reached, ticks.forward timed s.log) }

  abbrev Later : ℕ → Result (Unit {0}) → Run → Type 0
  Later k (ok u) s = AtLeast os (suc k) s
  Later k (err e) s = ⊥

  sleep-Later : (k : ℕ) → Ensures (AtLeast os k) (sleep os) (Later k)
  unfolding sleep call
  sleep-Later k = record {
    at = λ s h. let f = ticks.waits s.log in let b = h.reached in record { reached = omega arith };
  }

  abbrev Tried : ℕ → Result (Unit {0}) → Run → Type 0
  Tried k r s = ErrIs IsRaised r × AtLeast os k s

  module _ (rt : Runtime) where
    -- Where the deadline is not reached, it is at least one later after the wait.
    waited :
        (deadline k now : ℕ) (again : M (Unit {0})) (b : Bool)
        → leb deadline now ≡ b
        → k ≤ now
        → (k < deadline → Ensures (AtLeast os (suc k)) again Ended)
        → Ensures
            (AtLeast os now)
            (if b then raise Exn.lock_unavailable else (sleep os >> again))
            Ended
    waited deadline k now again true e h a = Ensures-raise Ended Exn.lock_unavailable λ s v. refl
    waited deadline k now again false e h a =
        Ensures-bind (Later now) (sleep os) _ (sleep-Later now)
          (λ u.
            Ensures-from Ended again (λ s v. let b = v.reached in record { reached = omega arith })
              (a (ground arith)))
          λ e s v. absurd v

    retry-Ended :
        (deadline k : ℕ) (again : M (Unit {0})) (e : Exn)
        → (k < deadline → Ensures (AtLeast os (suc k)) again Ended)
        → Ensures (Tried k (err e)) (retry rt os deadline again e) Ended
    retry-Ended deadline k again Exn.lock_unavailable a =
        Ensures-from Ended _ (λ s v. v.1)
          (Ensures-bind (Known k) (time_monotonic os) _ (time_monotonic-Known k)
            (λ now. record {
              at = λ s v.
                  (waited deadline k now again (leb deadline now) refl v.0 a).at s
                    (record { reached = v.1 });
            })
            λ e s v. absurd v)
    retry-Ended deadline k again e a = Ensures-raise Ended e λ s v. v.0

    acquire_loop-Ended :
        (fuel deadline k : ℕ) (once : M (Unit {0}))
        → Raises IsRaised once
        → ((n : ℕ) → Keeps (AtLeast os n) once)
        → deadline ≤ k + fuel
        → Ensures (AtLeast os k) (acquire_loop rt os (suc fuel) deadline once) Ended
    unfolding acquire_loop
    acquire_loop-Ended zero deadline k once raised keeps h =
        Ensures-attempt (Tried k) once _ (record { at = λ s v. (raised.at s, (keeps k).at s v) })
          (λ u s v. tt) λ e. retry-Ended deadline k _ e λ l. absurd (omega arith)
    acquire_loop-Ended (suc fuel) deadline k once raised keeps h =
        Ensures-attempt (Tried k) once _ (record { at = λ s v. (raised.at s, (keeps k).at s v) })
          (λ u s v. tt)
          λ e.
            retry-Ended deadline k _ e
              λ l. acquire_loop-Ended fuel deadline (suc k) once raised keeps (omega arith)

    acquired :
        (rounds timeout : ℕ) (once : M (Unit {0}))
        → Raises IsRaised once
        → ((n : ℕ) → Keeps (AtLeast os n) once)
        → timeout < rounds
        → Ensures
            (AtLeast os 0)
            (time_monotonic os >>= λ start. acquire_loop rt os rounds (start + timeout) once)
            Ended
    acquired zero timeout once raised keeps l = absurd (omega arith)
    acquired (suc fuel) timeout once raised keeps l =
        Ensures-bind (Known 0) (time_monotonic os) _ (time_monotonic-Known 0)
          (λ start.
            Ensures-from Ended _ (λ s v. record { reached = v.1 })
              (acquire_loop-Ended fuel (start + timeout) start once raised keeps (omega arith)))
          λ e s v. absurd v

-- In every environment whose clock never goes back, and is moved on by a wait: where the rounds of
-- the model are more than the time limit, the loop of `acquire_lock` never uses them up, so it
-- returns or raises an exception of the source.
pub acquire_lock-Ended :
    (rt : Runtime) (os : Os) (w : FilePath) (owner : String) (h : TargetHandle) (lease timeout : ℕ)
    (recover : Bool) (s : Run)
    → Ticks os
    → timeout < os.rounds
    → ErrIs IsRaised (acquire_lock rt os w owner h lease timeout recover s).0
unfolding acquire_lock
acquire_lock-Ended rt os w owner h lease timeout recover s ticks l =
    (acquired os ticks rt os.rounds timeout (acquire_lock_once rt os w owner h lease recover)
        (acquire_lock_once-Raises rt os w owner h lease recover)
        (λ n.
          acquire_lock_once-Steady (Steady-Beside (AtLeast-Steady os ticks n)) rt os owner h lease
            recover)
        l).at
      s (record { reached = omega arith })
