-- ===== src/Effects.antt =====
-- The operating system as the source sees it. Every call is an event, and the answer to a call is
-- an arbitrary function of the events so far: so an environment of the model may change files
-- between any two calls, as other processes do. The state of a run is its events, newest first,
-- and the flag `consumed` of the one confirmation that the operation was given.
pub mod Rules
pub mod Returns
pub mod Raises
use arjim.Base.{
  ℕ, suc, String, Option, none, some, Bool, true, false, List, [], ◌∷◌, take, length, if◌then◌else◌,
}
use arjim.Errors.{Exn, Result, ok, err}

-- The parts of a path, the last one first.
abbrev pub FilePath : Type 0
FilePath = List String

-- The fields of `os.stat_result` that the source reads. A platform may not fill the identifiers.
pub record Stat : Type 0 where
  pub is_dir : Bool
  pub dev : Option ℕ
  pub ino : Option ℕ

pub data StatReply : Type 0 where
  found : Stat → StatReply
  missing : StatReply
  stat_failed : StatReply

-- `done`, FileExistsError, FileNotFoundError, or any other OSError.
pub data Reply : Type 0 where
  done already_exists not_found failed : Reply

-- `os.kill(pid, 0)`
pub data KillReply : Type 0 where
  delivered no_such_process kill_failed : KillReply

-- A `subprocess.CompletedProcess`: whether the return code is 0, and the text of its output.
pub record Process : Type 0 where
  pub success : Bool
  pub stdout : List ℕ

-- `subprocess.run(…, text=True)`: a process that has ended, an OSError or a timeout, or a
-- UnicodeDecodeError for an output that is no text.
pub data RunReply : Type 0 where
  exited : Process → RunReply
  not_run not_text : RunReply

-- The opening of a database, the directory of its file included: an OSError of `mkdir`, or an
-- error of sqlite3.
pub data OpenReply : Type 0 where
  store_opened no_directory open_failed : OpenReply

-- `path.read_bytes()`: the bytes, FileNotFoundError, or any other OSError
pub data ReadReply : Type 0 where
  bytes_read : List ℕ → ReadReply
  no_file read_error : ReadReply

-- A call with its answer.
pub data Event : Type 0 where
  statted : FilePath → StatReply → Event
  resolved : FilePath → Option FilePath → Event
  checked : FilePath → Bool → Event
  made_dir : FilePath → Reply → Event
  -- `os.open` with O_CREAT | O_EXCL | O_WRONLY
  created : FilePath → Reply → Event
  -- `os.write(fd, chunk)`, with the number of bytes taken, or an OSError
  wrote : FilePath → List ℕ → Option ℕ → Event
  synced : FilePath → Bool → Event
  closed : FilePath → Event
  -- what was read, or an OSError
  read : FilePath → Option (List ℕ) → Event
  unlinked : FilePath → Reply → Event
  replaced : FilePath → FilePath → Reply → Event
  killed : ℕ → KillReply → Event
  slept timed tokened : Event
  -- a call of the projection: an update for an identity, a removal
  projected removed_projection : String → Event
  -- a subprocess, by its arguments
  ran : List String → Event
  -- a listing of a directory, and a look at a path that does not follow links
  listed looked : FilePath → Event
  -- the owner-only permissions of a path, enforced or verified, and whether they hold
  guarded : FilePath → Bool → Event
  -- a transaction of a database, and whether it was committed
  transacted : Bool → Event
  -- the opening of the database of the dispatch
  connected : Event

abbrev pub Log : Type 0
Log = List Event

pub record Os : Type 0 where
  pub stat : Log → FilePath → StatReply
  pub resolve : Log → FilePath → Option FilePath
  pub exists : Log → FilePath → Bool
  pub mkdir : Log → FilePath → Reply
  pub create : Log → FilePath → Reply
  pub write : Log → FilePath → List ℕ → Option ℕ
  pub fsync : Log → FilePath → Bool
  -- the bytes of a file; `handle.read(n)` returns the first n of them
  pub content : Log → FilePath → Option (List ℕ)
  -- whether a file that cannot be read is not there
  pub gone : Log → FilePath → Bool
  pub unlink : Log → FilePath → Reply
  pub replace : Log → FilePath → FilePath → Reply
  pub kill : Log → ℕ → KillReply
  pub pid : ℕ
  -- the two clocks, in a small unit of time
  pub now : Log → ℕ
  pub monotonic : Log → ℕ
  -- `secrets.token_hex` and `str(uuid.uuid4())`
  pub token_hex : Log → String
  pub uuid4 : Log → String
  pub run : Log → List String → RunReply
  -- the names in a directory, or an OSError
  pub listdir : Log → FilePath → Option (List String)
  -- a symbolic link, a junction or another reparse point
  pub reparse : Log → FilePath → Bool
  -- whether the permissions of a path can be made, or are, for the owner only
  pub owner_only : Log → FilePath → Bool
  pub open_store : Log → OpenReply
  -- whether SQLite commits the next transaction
  pub commits : Log → Bool
  -- how many rounds the model gives the loop that waits for the lock
  pub rounds : ℕ

pub record Run : Type 0 where
  pub log : Log
  pub consumed : Bool

abbrev pub M {ℓ} : Type ℓ → Type ℓ
M A = Run → Result A × Run

module _ {ℓ} {A : Type ℓ} where
  unfoldable pub pure : A → M A
  pure a s = (ok a, s)

  unfoldable pub raise : Exn → M A
  raise e s = (err e, s)

  -- A call: its answer, and its event.
  unfoldable pub call : (Log → A) → (A → Event) → M A
  call answer event s = let a = answer s.log in (ok a, record s { log = event a ∷ s.log })

  -- Pure code that may raise.
  unfoldable pub lift : Result A → M A
  lift r s = (r, s)

module _ {ℓ κ} {A : Type ℓ} {B : Type κ} where
  abbrev pub continue : Result A → (A → M B) → M B
  continue (ok a) f s = f a s
  continue (err e) f s = (err e, s)

  infixl 10 ◌>>=◌ ◌>>◌
  unfoldable pub ◌>>=◌ : M A → (A → M B) → M B
  ◌>>=◌ m f s = let (r, s') = m s in continue r f s'

  abbrev pub ◌>>◌ : M A → M B → M B
  m >> n = m >>= λ _. n

module _ {ℓ} {A : Type ℓ} where
  abbrev pub handle : Result A → (Exn → M A) → M A
  handle (ok a) h s = (ok a, s)
  handle (err e) h s = h e s

  -- `try: m; except …: h`, where `h` raises again what it does not catch.
  unfoldable pub attempt : M A → (Exn → M A) → M A
  attempt m h s = let (r, s') = m s in handle r h s'

  abbrev pub keep : Result A → Result (Unit {0}) × Run → Result A × Run
  keep r (ok u, s) = (r, s)
  keep r (err e, s) = (err e, s)

  -- `try: m; finally: c`
  unfoldable pub finally : M A → M (Unit {0}) → M A
  finally m c s = let (r, s') = m s in keep r (c s')

-- `confirmation.consumed = True`
unfoldable pub consume : M (Unit {0})
consume s = (ok tt, record s { consumed = true })

-- A new confirmation, which is not consumed.
unfoldable pub issue : M (Unit {0})
issue s = (ok tt, record s { consumed = false })

-- The object identity of a draft: the number of calls before it. Each draft draws a token, so
-- no two drafts have one identity.
unfoldable pub new_ref : M ℕ
new_ref s = (ok (length s.log), s)

unfoldable pub get_consumed : M Bool
get_consumed s = (ok s.consumed, s)

module _ (os : Os) where
  unfoldable pub os_stat : FilePath → M StatReply
  unfolding call
  os_stat p = call (λ log. os.stat log p) (statted p)

  unfoldable pub os_resolve : FilePath → M (Option FilePath)
  unfolding call
  os_resolve p = call (λ log. os.resolve log p) (resolved p)

  unfoldable pub os_exists : FilePath → M Bool
  unfolding call
  os_exists p = call (λ log. os.exists log p) (checked p)

  unfoldable pub os_mkdir : FilePath → M Reply
  unfolding call
  os_mkdir p = call (λ log. os.mkdir log p) (made_dir p)

  unfoldable pub os_create : FilePath → M Reply
  unfolding call
  os_create p = call (λ log. os.create log p) (created p)

  unfoldable pub os_write : FilePath → List ℕ → M (Option ℕ)
  unfolding call
  os_write p chunk = call (λ log. os.write log p chunk) (wrote p chunk)

  unfoldable pub os_fsync : FilePath → M Bool
  unfolding call
  os_fsync p = call (λ log. os.fsync log p) (synced p)

  unfoldable pub os_close : FilePath → M (Unit {0})
  unfolding call
  os_close p = call (λ log. tt) (λ _. closed p)

  abbrev pub first : ℕ → Option (List ℕ) → Option (List ℕ)
  first n none = none
  first n (some bytes) = some (take n bytes)

  unfoldable pub os_read : FilePath → ℕ → M (Option (List ℕ))
  unfolding call
  os_read p n = call (λ log. first n (os.content log p)) (read p)

  -- `path.read_bytes()`
  unfoldable pub os_read_all : FilePath → M (Option (List ℕ))
  unfolding call
  os_read_all p = call (λ log. os.content log p) (read p)

  abbrev pub read_reply : Option (List ℕ) → Bool → ReadReply
  read_reply (some bytes) gone = bytes_read bytes
  read_reply none true = no_file
  read_reply none false = read_error

  abbrev pub read_answer : ReadReply → Option (List ℕ)
  read_answer (bytes_read bytes) = some bytes
  read_answer _ = none

  -- The same, where the code tells a missing file from other errors.
  unfoldable pub os_read_bytes : FilePath → M ReadReply
  unfolding call
  os_read_bytes p =
      call (λ log. read_reply (os.content log p) (os.gone log p)) (λ a. read p (read_answer a))

  unfoldable pub os_unlink : FilePath → M Reply
  unfolding call
  os_unlink p = call (λ log. os.unlink log p) (unlinked p)

  unfoldable pub os_replace : FilePath → FilePath → M Reply
  unfolding call
  os_replace p q = call (λ log. os.replace log p q) (replaced p q)

  unfoldable pub os_kill : ℕ → M KillReply
  unfolding call
  os_kill pid = call (λ log. os.kill log pid) (killed pid)

  unfoldable pub time_now : M ℕ
  unfolding call
  time_now = call os.now (λ _. timed)

  unfoldable pub time_monotonic : M ℕ
  unfolding call
  time_monotonic = call os.monotonic (λ _. timed)

  unfoldable pub sleep : M (Unit {0})
  unfolding call
  sleep = call (λ _. tt) (λ _. slept)

  unfoldable pub token : M String
  unfolding call
  token = call os.token_hex (λ _. tokened)

  unfoldable pub fresh_uuid : M String
  unfolding call
  fresh_uuid = call os.uuid4 (λ _. tokened)

  unfoldable pub os_run : List String → M RunReply
  unfolding call
  os_run args = call (λ log. os.run log args) (λ _. ran args)

  -- `none` is an OSError or a timeout; a UnicodeDecodeError goes on, and the process has run.
  abbrev pub replied : RunReply → M (Option Process)
  replied (exited p) = pure (some p)
  replied not_run = pure none
  replied not_text = raise Exn.unicode_error

  unfoldable pub run_process : List String → M (Option Process)
  run_process args = do reply ← os_run args; replied reply

  unfoldable pub os_listdir : FilePath → M (Option (List String))
  unfolding call
  os_listdir p = call (λ log. os.listdir log p) (λ _. listed p)

  unfoldable pub os_reparse : FilePath → M Bool
  unfolding call
  os_reparse p = call (λ log. os.reparse log p) (λ _. looked p)

  unfoldable pub os_owner_only : FilePath → M Bool
  unfolding call
  os_owner_only p = call (λ log. os.owner_only log p) (guarded p)

  -- One transaction: it is committed, or it is rolled back and the exception goes on.
  unfoldable pub transaction : M Bool
  unfolding call
  transaction = call os.commits transacted

  unfoldable pub os_open_store : M OpenReply
  unfolding call
  os_open_store = call os.open_store (λ _. connected)
