-- ===== src/Filesystem/Writes/Complete.antt =====
-- filesystem.py: a file that is reported as written has been given its bytes, all and in order.
use arjim.Base.{
  arith, ap, ◌∙◌, ℕ, zero, suc, ◌≤◌, Option, none, some, Bool, true, false, ◌≡◌, refl, List, [],
  ◌∷◌, ◌++◌, length, take, drop, leb, if◌then◌else◌, append_take-drop, length-drop-le, sym, ◌==◌,
  beq_self, list_eq, string_eq,
}
use mathlib.Core.List.{append_assoc, append-nil}
use arjim.Errors.{Exn, Result, ok, err}
use arjim.Effects.{
  FilePath, Log, Os, Run, M, wrote, os_write, os_fsync, os_close, finally, call, synced, closed,
  ◌>>=◌, ◌>>◌,
}
use arjim.Effects.Rules.{Ensures, Ensures-bind, Ensures-call, Ensures-pure, Ensures-raise}
use arjim.Filesystem.Writes.{wrote_from, write_loop, synced_from, write_fd}

-- The bytes that the operating system has taken for a file, in their order.
unfoldable pub taken : FilePath → Log → List ℕ
taken p [] = []
taken p (wrote q chunk (some n) ∷ log) = if q == p then taken p log ++ take n chunk else taken p log
taken p (_ ∷ log) = taken p log

-- The exceptions of a write: an OSError of the system, or a round that has written nothing.
abbrev pub of_write : Exn → Bool
of_write Exn.os_error = true
of_write Exn.write_failed = true
of_write _ = false

-- The end of the writing of `bytes`: they are all taken, or an exception of a write.
unfoldable pub Wrote : FilePath → List ℕ → Result (Unit {0}) → Run → Type 0
Wrote p bytes (ok u) s = taken p s.log ≡ bytes
Wrote p bytes (err e) s = of_write e ≡ true

-- What is taken and what is left make the goal.
record Left (p : FilePath) (goal view : List ℕ) (s : Run) : Type 0 where
  sum : taken p s.log ++ view ≡ goal

positive : (n : ℕ) → leb (suc n) 0 ≡ false
positive n = ground arith

module _ (os : Os) (p : FilePath) (goal : List ℕ) where
  -- One `os.write`, of which the operating system takes some bytes.
  abbrev Advanced : List ℕ → Result (Option ℕ) → Run → Type 0
  Advanced view (ok (some n)) s = Left p goal (drop n view) s
  Advanced view (ok none) s = Unit {0}
  Advanced view (err e) s = false ≡ true

  advance :
      (view : List ℕ) (s : Run) (a : Option ℕ)
      → Left p goal view s
      → Advanced view (ok a) (record s { log = wrote p view a ∷ s.log })
  unfolding taken
  advance view s none l = tt
  advance view s (some n) l = record {
    sum = rw (beq_self p) (
        append_assoc (taken p s.log) (take n view) (drop n view)
        ∙ ap (λ v. taken p s.log ++ v) (append_take-drop n view)
        ∙ l.sum);
  }

  os_write-Advanced :
      (view : List ℕ) → Ensures (Left p goal view) (os_write os p view) (Advanced view)
  unfolding os_write
  os_write-Advanced view =
      Ensures-call (Advanced view) (λ log. os.write log p view) (wrote p view) (advance view)

  wrote_from-Wrote :
      (again : List ℕ → M (Unit {0})) (b : ℕ) (bs : List ℕ) (a : Option ℕ)
      → ((v : List ℕ) → length v ≤ length bs → Ensures (Left p goal v) (again v) (Wrote p goal))
      → Ensures (Advanced (b ∷ bs) (ok a)) (wrote_from os again (b ∷ bs) a) (Wrote p goal)
  unfolding wrote_from Wrote
  wrote_from-Wrote again b bs none k = Ensures-raise (Wrote p goal) Exn.os_error λ s v. refl
  wrote_from-Wrote again b bs (some zero) k =
      Ensures-raise (Wrote p goal) Exn.write_failed λ s v. refl
  wrote_from-Wrote again b bs (some (suc n)) k = record {
    at = λ s v. rw (positive n) ((k (drop n bs) (length-drop-le n bs)).at s v);
  }

  -- As much fuel as there are bytes, and one round more, is enough.
  write_loop-Wrote :
      (fuel : ℕ) (view : List ℕ)
      → suc (length view) ≤ fuel
      → Ensures (Left p goal view) (write_loop os p fuel view) (Wrote p goal)
  unfolding write_loop Wrote
  write_loop-Wrote zero view h = absurd (omega arith)
  write_loop-Wrote (suc fuel) [] h =
      Ensures-pure (Wrote p goal) tt λ s l. sym (append-nil (taken p s.log)) ∙ l.sum
  write_loop-Wrote (suc fuel) (b ∷ bs) h =
      let again : (v : List ℕ)
          → length v ≤ length bs
          → Ensures (Left p goal v) (write_loop os p fuel v) (Wrote p goal) =
        λ v k. write_loop-Wrote fuel v (omega arith) in
      Ensures-bind (Advanced (b ∷ bs)) (os_write os p (b ∷ bs))
        (wrote_from os (write_loop os p fuel) (b ∷ bs)) (os_write-Advanced (b ∷ bs))
        (λ a. wrote_from-Wrote (write_loop os p fuel) b bs a again)
        λ e s v. absurd (ground (arith, v))

  -- What follows the loop: taking no more, and raising no more than the code does.
  synced_from-Wrote :
      (b : Bool) → Ensures (λ s. taken p s.log ≡ goal) (synced_from os b) (Wrote p goal)
  unfolding synced_from Wrote
  synced_from-Wrote true = Ensures-pure (Wrote p goal) tt λ s h. h
  synced_from-Wrote false = Ensures-raise (Wrote p goal) Exn.os_error λ s h. refl

  abbrev Synced : Result Bool → Run → Type 0
  Synced (ok b) s = taken p s.log ≡ goal
  Synced (err e) s = false ≡ true

  fsync-taken : Ensures (λ s. taken p s.log ≡ goal) (os_fsync os p) Synced
  unfolding os_fsync taken
  fsync-taken = Ensures-call Synced (λ log. os.fsync log p) (synced p) λ s a h. h

  body : List ℕ → M (Unit {0})
  body payload =
      write_loop os p (suc (length payload)) payload >> (os_fsync os p >>= synced_from os)

  body-Wrote : (payload : List ℕ) → Ensures (Left p goal payload) (body payload) (Wrote p goal)
  unfolding body Wrote
  body-Wrote payload =
      Ensures-bind (Wrote p goal) _ _
        (write_loop-Wrote (suc (length payload)) payload (omega arith))
        (λ u.
          Ensures-bind Synced (os_fsync os p) (synced_from os) fsync-taken synced_from-Wrote
            λ e s h. absurd (ground (arith, h)))
        λ e s h. h

  close-Wrote :
      (r : Result (Unit {0})) (s : Run)
      → Wrote p goal r s
      → Wrote p goal r (record s { log = closed p ∷ s.log })
  unfolding Wrote taken
  close-Wrote (ok u) s h = h
  close-Wrote (err e) s h = h

-- `write_fd` ends in every environment, never for lack of fuel: if it raises, it raises an OSError of
-- the system or the failure of a round that has written nothing. If it returns, then the operating
-- system has taken exactly the payload for the file, in its order, after what the run had written
-- to it before.
pub write_fd-Wrote :
    (os : Os) (p : FilePath) (payload : List ℕ) (s : Run)
    → Wrote p (taken p s.log ++ payload) (write_fd os p payload s).0 (write_fd os p payload s).1
unfolding write_fd finally os_close call body
write_fd-Wrote os p payload s =
    let end = body os p (taken p s.log ++ payload) payload s in
    close-Wrote os p (taken p s.log ++ payload) end.0 end.1
      ((body-Wrote os p (taken p s.log ++ payload) payload).at s (record { sum = refl }))
