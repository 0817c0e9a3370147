-- ===== src/Trace/Quiet.antt =====
-- The calls that change no file, and the predicates of runs that they keep: an interface that
-- each invariant fills, and that the code which only looks at files is proved against once.
use arjim.Base.{Bool, true, false, ◌≡◌, refl, ◌∷◌, ℕ, arith}
use arjim.Effects.{
  FilePath, Event, Os, Run, consume, new_ref, get_consumed, os_stat, os_resolve, os_exists,
  os_mkdir, os_fsync, os_close, os_read, os_read_all, os_kill, time_now, time_monotonic, sleep,
  token, fresh_uuid, statted, resolved, checked, made_dir, created, wrote, unlinked, replaced, ran,
  synced, closed, read, killed, slept, timed, tokened, first, transaction, transacted,
  os_open_store, connected,
}
use arjim.Effects.Rules.{
  Keeps, Keeps-call, Keeps-bind, Keeps-pure, Keeps-raise, Keeps-lift, Keeps-if, Keeps-attempt,
}
use arjim.Trace.{Safe, CreateOnly, Allowed, holding}

abbrev pub is_quiet : Event → Bool
is_quiet (created _ _) = false
is_quiet (wrote _ _ _) = false
is_quiet (unlinked _ _) = false
is_quiet (replaced _ _ _) = false
is_quiet (ran _) = false
is_quiet _ = true

pub record Quiet (P : Run → Type 0) : Type 0 where
  pub event : (e : Event) → is_quiet e ≡ true → (s : Run) → P s → P (record s { log = e ∷ s.log })
  pub flag : (s : Run) → P s → P (record s { consumed = true })

pub ruleset keeps = (Keeps-bind, Keeps-pure, Keeps-raise, Keeps-lift, Keeps-if, Keeps-attempt)

module _ {P : Run → Type 0} (q : Quiet P) where
  pub Keeps-consume : Keeps P consume
  unfolding consume
  Keeps-consume = record { at = q.flag }

  pub Keeps-get_consumed : Keeps P get_consumed
  unfolding get_consumed
  Keeps-get_consumed = record { at = λ s p. p }

  pub Keeps-new_ref : Keeps P new_ref
  unfolding new_ref
  Keeps-new_ref = record { at = λ s p. p }

module _ {P : Run → Type 0} (q : Quiet P) (os : Os) where
  pub Keeps-os_stat : (p : FilePath) → Keeps P (os_stat os p)
  unfolding os_stat
  Keeps-os_stat p =
      Keeps-call (λ log. os.stat log p) (statted p) λ s a. q.event (statted p a) refl s

  pub Keeps-os_resolve : (p : FilePath) → Keeps P (os_resolve os p)
  unfolding os_resolve
  Keeps-os_resolve p =
      Keeps-call (λ log. os.resolve log p) (resolved p) λ s a. q.event (resolved p a) refl s

  pub Keeps-os_exists : (p : FilePath) → Keeps P (os_exists os p)
  unfolding os_exists
  Keeps-os_exists p =
      Keeps-call (λ log. os.exists log p) (checked p) λ s a. q.event (checked p a) refl s

  pub Keeps-os_mkdir : (p : FilePath) → Keeps P (os_mkdir os p)
  unfolding os_mkdir
  Keeps-os_mkdir p =
      Keeps-call (λ log. os.mkdir log p) (made_dir p) λ s a. q.event (made_dir p a) refl s

  pub Keeps-os_fsync : (p : FilePath) → Keeps P (os_fsync os p)
  unfolding os_fsync
  Keeps-os_fsync p =
      Keeps-call (λ log. os.fsync log p) (synced p) λ s a. q.event (synced p a) refl s

  pub Keeps-os_close : (p : FilePath) → Keeps P (os_close os p)
  unfolding os_close
  Keeps-os_close p = Keeps-call (λ log. tt) (λ _. closed p) λ s a. q.event (closed p) refl s

  pub Keeps-os_read : (p : FilePath) (n : ℕ) → Keeps P (os_read os p n)
  unfolding os_read
  Keeps-os_read p n =
      Keeps-call (λ log. first os n (os.content log p)) (read p) λ s a. q.event (read p a) refl s

  pub Keeps-os_read_all : (p : FilePath) → Keeps P (os_read_all os p)
  unfolding os_read_all
  Keeps-os_read_all p =
      Keeps-call (λ log. os.content log p) (read p) λ s a. q.event (read p a) refl s

  pub Keeps-os_kill : (pid : ℕ) → Keeps P (os_kill os pid)
  unfolding os_kill
  Keeps-os_kill pid =
      Keeps-call (λ log. os.kill log pid) (killed pid) λ s a. q.event (killed pid a) refl s

  pub Keeps-time_now : Keeps P (time_now os)
  unfolding time_now
  Keeps-time_now = Keeps-call os.now (λ _. timed) λ s a. q.event timed refl s

  pub Keeps-time_monotonic : Keeps P (time_monotonic os)
  unfolding time_monotonic
  Keeps-time_monotonic = Keeps-call os.monotonic (λ _. timed) λ s a. q.event timed refl s

  pub Keeps-sleep : Keeps P (sleep os)
  unfolding sleep
  Keeps-sleep = Keeps-call (λ _. tt) (λ _. slept) λ s a. q.event slept refl s

  pub Keeps-token : Keeps P (token os)
  unfolding token
  Keeps-token = Keeps-call os.token_hex (λ _. tokened) λ s a. q.event tokened refl s

  pub Keeps-fresh_uuid : Keeps P (fresh_uuid os)
  unfolding fresh_uuid
  Keeps-fresh_uuid = Keeps-call os.uuid4 (λ _. tokened) λ s a. q.event tokened refl s

module _ {P : Run → Type 0} (q : Quiet P) (os : Os) where
  pub Keeps-transaction : Keeps P (transaction os)
  unfolding transaction
  Keeps-transaction = Keeps-call os.commits transacted λ s a. q.event (transacted a) refl s

  pub Keeps-os_open_store : Keeps P (os_open_store os)
  unfolding os_open_store
  Keeps-os_open_store = Keeps-call os.open_store (λ _. connected) λ s a. q.event connected refl s

pub ruleset quiet = (
  Keeps-transaction, Keeps-os_open_store, Keeps-consume, Keeps-get_consumed, Keeps-new_ref,
  Keeps-os_stat, Keeps-os_resolve, Keeps-os_exists, Keeps-os_mkdir, Keeps-os_fsync, Keeps-os_close,
  Keeps-os_read, Keeps-os_read_all, Keeps-os_kill, Keeps-time_now, Keeps-time_monotonic,
  Keeps-sleep, Keeps-token, Keeps-fresh_uuid,
)

module _ {w : FilePath} {h : Bool} where
  allowed-quiet :
      (e : Event)
      → is_quiet e ≡ true
      → (s : Run) → Safe w h s
      → Safe w h (record s { log = e ∷ s.log })
  unfolding CreateOnly Allowed holding
  allowed-quiet _ q s v = first_of (ground arith, search (v.create_only, v.lock) parts 3)

  pub Safe-Quiet : Quiet (Safe w h)
  Safe-Quiet = record {
    event = allowed-quiet;
    flag = λ s v. record { create_only = v.create_only; lock = v.lock };
  }
