-- ===== src/Filesystem/Writes/Kept.antt =====
-- filesystem.py: what writing a file keeps.
use arjim.Base.{ℕ, zero, suc, Option, none, some, Bool, true, false, List, [], ◌∷◌}
use arjim.Effects.{FilePath, Os, Run, M, wrote, os_write}
use arjim.Effects.Rules.{Keeps, Keeps-call, Keeps-bind, Keeps-finally}
use arjim.Trace.Quiet.{Quiet, keeps, quiet}
use arjim.Trace.Creation.{Own, Own-Quiet, Own-write}
use arjim.Filesystem.Writes.{wrote_from, write_loop, synced_from, write_fd}

-- A predicate that a write to the file keeps.
abbrev pub KeptByWrite : (Run → Type 0) → FilePath → Type 0
KeptByWrite P p =
    (chunk : List ℕ) (a : Option ℕ) (s : Run) → P s → P (record s { log = wrote p chunk a ∷ s.log })

module _ {P : Run → Type 0} (q : Quiet P) (os : Os) (p : FilePath) (k : KeptByWrite P p) where
  os_write-Keeps : (chunk : List ℕ) → Keeps P (os_write os p chunk)
  unfolding os_write
  os_write-Keeps chunk = Keeps-call (λ log. os.write log p chunk) (wrote p chunk) λ s a. k chunk a s

  wrote_from-Keeps :
      (again : List ℕ → M (Unit {0})) (view : List ℕ) (a : Option ℕ)
      → ((v : List ℕ) → Keeps P (again v))
      → Keeps P (wrote_from os again view a)
  unfolding wrote_from
  wrote_from-Keeps again view none k = search keeps
  wrote_from-Keeps again view (some n) k = search (keeps, k)

  write_loop-Keeps : (fuel : ℕ) (view : List ℕ) → Keeps P (write_loop os p fuel view)
  unfolding write_loop
  write_loop-Keeps zero view = search keeps
  write_loop-Keeps (suc fuel) [] = search keeps
  write_loop-Keeps (suc fuel) (b ∷ bs) =
      let again = write_loop-Keeps fuel in
      Keeps-bind (os_write os p (b ∷ bs)) (wrote_from os (write_loop os p fuel) (b ∷ bs))
        (os_write-Keeps (b ∷ bs)) λ a. wrote_from-Keeps (write_loop os p fuel) (b ∷ bs) a again

  synced_from-Keeps : (b : Bool) → Keeps P (synced_from os b)
  unfolding synced_from
  synced_from-Keeps true = search keeps
  synced_from-Keeps false = search keeps

  pub write_fd-Keeps : (payload : List ℕ) → Keeps P (write_fd os p payload)
  unfolding write_fd
  write_fd-Keeps payload = search (keeps, quiet, Keeps-finally, write_loop-Keeps, synced_from-Keeps)

pub write_fd-Own :
    (os : Os) (w p : FilePath) (h : Bool) (payload : List ℕ)
    → Keeps (Own w h p) (write_fd os p payload)
write_fd-Own os w p h payload = write_fd-Keeps Own-Quiet os p Own-write payload
