-- ===== src/Trace/Creation.antt =====
-- The files that a run has created itself, which it may write to.
use arjim.Base.{
  ℕ, arith, Option, Bool, true, false, ◌&&◌, not, ◌≡◌, refl, List, ◌∷◌, beq_self, list_eq,
  string_eq,
}
use arjim.Errors.{Result, ok}
use arjim.Effects.{
  FilePath, Event, Log, Os, Run, created, wrote, os_create, Reply, done, already_exists, not_found,
  failed,
}
use arjim.Effects.Rules.{Ensures, Ensures-call}
use arjim.Filesystem.{lock_path}
use arjim.Trace.{Safe, CreateOnly, Allowed, holding, owned, is_marker}
use arjim.Trace.Quiet.{Quiet, is_quiet, Safe-Quiet}

-- The file is safe to write to: the invariant holds, and the run has created the file.
pub record Own (w : FilePath) (h : Bool) (p : FilePath) (s : Run) : Type 0 where
  pub safe : Safe w h s
  pub mine : owned p s.log ≡ true

pub owned-quiet :
    (p : FilePath) (e : Event)
    → is_quiet e ≡ true
    → (log : Log) → owned p log ≡ true
    → owned p (e ∷ log) ≡ true
unfolding owned
owned-quiet p _ q log v = first_of (ground arith, search)

module _ {w p : FilePath} {h : Bool} where
  pub Own-Quiet : Quiet (Own w h p)
  Own-Quiet = record {
    event = λ e q s v. record {
      safe = Safe-Quiet.event e q s v.safe;
      mine = owned-quiet p e q s.log v.mine;
    };
    flag = λ s v. record { safe = Safe-Quiet.flag s v.safe; mine = v.mine };
  }

  pub Own-write :
      (chunk : List ℕ) (a : Option ℕ) (s : Run)
      → Own w h p s
      → Own w h p (record s { log = wrote p chunk a ∷ s.log })
  unfolding owned CreateOnly Allowed holding
  Own-write chunk a s v = record {
    safe = record { create_only = (v.mine, v.safe.create_only); lock = v.safe.lock };
    mine = v.mine;
  }

-- What an attempt to create a file ends in.
abbrev pub Made : FilePath → Bool → FilePath → Result Reply → Run → Type 0
Made w h p (ok done) s = Own w h p s
Made w h p _ s = Safe w h s

module _ (os : Os) (w : FilePath) (h : Bool) (p : FilePath)
    (free : (is_marker w p && not h) ≡ false) where
  may_create : (b : Bool) → (h ≡ true → b ≡ true) → (is_marker w p && not b) ≡ false
  may_create true k = ground arith
  may_create false k = ground (arith, k)

  made : (r : Reply) (s : Run) → Safe w h s → Safe w h (record s { log = created p r ∷ s.log })
  unfolding CreateOnly Allowed holding
  made r s v = record {
    create_only = (may_create (holding w s.log) v.lock, v.create_only);
    lock = λ e. ground (arith, v.lock e);
  }

  made_lem :
      (r : Reply) (s : Run)
      → Safe w h s
      → Made w h p (ok r) (record s { log = created p r ∷ s.log })
  unfolding owned
  made_lem done s v = record { safe = made done s v; mine = rw (beq_self p) refl }
  made_lem already_exists s v = made already_exists s v
  made_lem not_found s v = made not_found s v
  made_lem failed s v = made failed s v

  pub os_create-Made : Ensures (Safe w h) (os_create os p) (Made w h p)
  unfolding os_create
  os_create-Made =
      Ensures-call (Made w h p) (λ log. os.create log p) (created p) λ s a v. made_lem a s v

-- A lock file that the run has created is a lock that it holds.
abbrev pub MadeLock : FilePath → Result Reply → Run → Type 0
MadeLock w (ok done) s = Own w true (lock_path w) s
MadeLock w _ s = Safe w false s

pub os_create-MadeLock :
    (os : Os) (w : FilePath) → Ensures (Safe w false) (os_create os (lock_path w)) (MadeLock w)
unfolding os_create CreateOnly Allowed holding owned
os_create-MadeLock os w =
    Ensures-call (MadeLock w) (λ log. os.create log (lock_path w)) (created (lock_path w)) made_lock
  where
    made_lock :
        (s : Run) (r : Reply)
        → Safe w false s
        → MadeLock w (ok r) (record s { log = created (lock_path w) r ∷ s.log })
    made_lock s done v = record {
      safe = record { create_only = (refl, v.create_only); lock = λ e. rw (beq_self w) refl };
      mine = rw (beq_self w) refl;
    }
    made_lock s already_exists v = record {
      create_only = (refl, v.create_only);
      lock = λ e. ground (arith, e);
    }
    made_lock s not_found v = record {
      create_only = (refl, v.create_only);
      lock = λ e. ground (arith, e);
    }
    made_lock s failed v = record {
      create_only = (refl, v.create_only);
      lock = λ e. ground (arith, e);
    }
