-- ===== src/Tests.antt =====
-- A concrete environment and concrete inputs: a workspace in which a registration goes through,
-- with a file system that keeps what the run has written.
pub mod Examples
pub mod Dispatching
use arjim.Base.{
  ℕ, arith, String, Option, none, some, Bool, true, false, List, [], ◌∷◌, if◌then◌else◌, ◌==◌, ◌≡◌,
  refl, list_eq, string_eq, nat_eq, leb, length, ◌++◌, min, any,
}
use arjim.Errors.{Result, ok, err}
use arjim.Json.{Json, int, str, obj, field, end}
use arjim.Runtime.{Runtime, Loaded, document, decode_error, HookCall, pairs, SchemaError}
use arjim.Effects.{
  FilePath, Event, Log, made_dir, Os, Run, Stat, StatReply, found, missing, done, already_exists,
  no_such_process, exited, store_opened,
}
use arjim.Effects.Returns.{OkIs}
use arjim.Vocabulary.{Phase, Code, GuardCode}
use arjim.Diagnostics.{Diagnostic, Diagnostics, serialize, counted, bounded, single, normalize}
use arjim.Diagnostics.Bounds.{IsBounded, OnlyOf, bounded-IsBounded, normalize-OnlyOf}
use arjim.Diagnostics.Serialized.{Fits, Serialized, serialize-Serialized}
use arjim.Filesystem.{TargetHandle, marker_path, parent_path}
use arjim.Filesystem.Writes.{write_fd}
use arjim.Filesystem.Writes.Complete.{taken, Wrote, write_fd-Wrote}
use arjim.Trace.{owned, CreateOnly}
use arjim.Filesystem.{TargetHandle}
use arjim.Lifecycle.{Transition, ProjectionStatus}
use arjim.Registration.{Draft, Confirmation, Hook, ProjectionInput}
use arjim.Projection.{Row}
use arjim.Projection.Replacing.{Root}
use arjim.Dispatch.Adapter.{PaseoAdapter}
use arjim.Dispatch.Intent.{Posture, Draft as JobDraft}
use arjim.Dispatch.Store.{Store}
use arjim.Dispatch.Chain.{Job}
use arjim.Dispatch.States.{Observed}
use arjim.Unregister.{UnregisterConfirmation}

-- The documents of the lock and of the marker; every text stands for one of them.
abbrev pub lock_document : Json
lock_document = obj (
    field "owner_id" (str "owner") (
      field "pid" (int 5) (
        field "target_handle"
          (obj (field "workspace" (str "id") (field "parent" (str "ABSENT") end)))
          (field "started_at" (str "now") (field "lease_until" (str "later") end)))))

abbrev pub marker_document : Json
marker_document = obj (
    field "version" (int 1) (
      field "identity" (str "11111111-1111-4111-8111-111111111111")
        (field "label" (str "A workspace") end)))

abbrev pub parse : List ℕ → Loaded
parse raw =
    if raw == 1 ∷ []
    then document lock_document
    else if raw == 2 ∷ []
    then document marker_document
    else decode_error

abbrev pub runtime : Runtime
runtime = record {
  decode_utf8 = λ raw. some raw;
  encode_utf8 = λ text. text;
  hook_calls = λ text. pairs ("version" ∷ "identity" ∷ "label" ∷ []) ∷ [];
  loads = parse;
  too_deep = λ text. false;
  dumps = λ d. 2 ∷ [];
  dumps_sorted = λ d. 2 ∷ [];
  dumps_ascii = λ d. 1 ∷ [];
  render = λ d. "1";
  sha256 = λ raw. raw;
  sha256_hex = λ raw. "digest";
  hmac_digest = λ raw. "digest";
  b64encode = λ raw. "id";
  b64decode = λ text. some (7 ∷ 7 ∷ []);
  pack_identity = λ dev ino. dev ∷ ino ∷ [];
  to_int = λ d. some 5;
  format_timestamp = λ t. "now";
  parse_timestamp = λ text. some 100;
  loads_bytes = parse;
  text_of = λ text. "text";
  strip = λ text. text;
  lower = λ text. text;
  iter_errors = λ name d. some [];
}

abbrev pub workspace : FilePath
workspace = "project" ∷ "home" ∷ []

abbrev pub is_made : FilePath → Event → Bool
is_made path (made_dir q done) = q == path
is_made path _ = false

abbrev pub a_directory : StatReply
a_directory = found (record { is_dir = true; dev = some 7; ino = some 7 })

-- A path is there if it is the workspace, or if the run has made it.
abbrev pub stat_of : Log → FilePath → StatReply
unfolding owned
stat_of log p =
    if p == workspace
    then a_directory
    else if any (is_made p) log
    then a_directory
    else if owned p log
    then found (record { is_dir = false; dev = some 7; ino = some 8 })
    else missing

abbrev pub system : Os
unfolding owned taken
system = record {
  stat = stat_of;
  resolve = λ log p. some p;
  exists = λ log p. any (is_made p) log;
  mkdir = λ log p. if any (is_made p) log then already_exists else done;
  create = λ log p. if owned p log then already_exists else done;
  write = λ log p chunk. some (min 3 (length chunk));
  fsync = λ log p. true;
  content = λ log p. if owned p log then some (taken p log) else none;
  gone = λ log p. true;
  unlink = λ log p. done;
  replace = λ log p q. done;
  kill = λ log pid. no_such_process;
  pid = 5;
  now = length;
  monotonic = length;
  token_hex = λ log. "owner";
  uuid4 = λ log. "11111111-1111-4111-8111-111111111111";
  run = λ log args. exited (record { success = true; stdout = 2 ∷ [] });
  open_store = λ log. store_opened;
  listdir = λ log p. some [];
  reparse = λ log p. false;
  owner_only = λ log path. true;
  commits = λ log. true;
  rounds = 8;
}

abbrev pub start : Run
start = record { log = []; consumed = false }

abbrev pub a_draft : Draft
a_draft = record {
  ref = 4;
  workspace_path = workspace;
  handle = record { workspace = 7 ∷ 7 ∷ []; parent = none };
  marker = marker_document;
  parent_transition = Transition.absent_to_created;
  envelope = 2 ∷ [];
  digest = "digest";
}

abbrev pub confirmation : Confirmation
confirmation = record { digest = "digest"; draft = some a_draft; resolution = none }

abbrev pub linking : Hook
linking = some (λ log input. some ProjectionStatus.linked)

abbrev pub resolution : Confirmation
resolution = record {
  digest = "digest";
  draft = none;
  resolution = some (record {
    workspace_path = workspace;
    handle = record { workspace = 7 ∷ 7 ∷ []; parent = none };
    marker_identity = none;
    marker_length = 1;
    marker_digest = 3 ∷ [];
    lock_status = "absent";
    envelope = 2 ∷ [];
    digest = "digest";
  });
}

abbrev pub unregistration : UnregisterConfirmation
unregistration = record {
  digest = "digest";
  envelope = record {
    workspace_path = workspace;
    handle = record { workspace = 7 ∷ 7 ∷ []; parent = some (7 ∷ 7 ∷ []) };
    marker = marker_document;
    marker_bytes = 2 ∷ [];
    envelope = 2 ∷ [];
    digest = "digest";
  };
}

abbrev pub a_handle : TargetHandle
a_handle = record { workspace = 7 ∷ 7 ∷ []; parent = some (7 ∷ 7 ∷ []) }

-- A workspace that is registered: its marker is there, and the records are read as valid.
abbrev pub job_document : Json
job_document = obj (
    field "job_id" (str "job") (
      field "identity" (str "11111111-1111-4111-8111-111111111111")
        (field "label" (str "A workspace") (field "summary" (str "Done") end))))

abbrev pub job_runtime : Runtime
job_runtime = record runtime {
  loads = λ raw. document job_document;
  loads_bytes = λ raw. document job_document;
}

abbrev pub job_system : Os
unfolding owned taken
job_system = record system {
  uuid4 = λ log. "job";
  content = λ log p. if owned p log then some (taken p log) else some (2 ∷ []);
}

abbrev pub paseo : PaseoAdapter
paseo = record { node = "node"; cli_js = "paseo"; init_error = false }

abbrev pub posture : Posture
posture = record { provider = "opencode"; model = "m"; mode = "build"; thinking = "high" }

abbrev pub job_draft : JobDraft
job_draft = record {
  workspace_path = workspace;
  workstream_identity = "11111111-1111-4111-8111-111111111111";
  workstream_label = "A workspace";
  instruction = "Run the tests";
  normalized_instruction = "Run the tests";
  digest = "digest";
  job_id = "job";
  dispatch_posture = posture;
  follows = none;
}

abbrev pub a_store : Store
a_store = record {
  bindings = ("old", record { agent_id = "a"; dispatch_timestamp = "now" }) ∷ [];
  baselines = ("text", record { head_oid = "h"; worktree_digest = "w"; updated_at = "now" }) ∷ [];
}

abbrev pub a_row : Row
a_row = record {
  identity = "first";
  label = "A workspace";
  marker_version = "1";
  target_handle = 7 ∷ [];
  workspace_path = workspace;
  state = "linked";
  ordinal = 1;
  updated_at = "then";
}

abbrev pub an_input : ProjectionInput
an_input = record {
  identity = "first";
  label = "The workspace";
  marker_version = "1";
  target_handle = 7 ∷ [];
  workspace_path = workspace;
  ordinal = 2;
}

abbrev pub jobs : List Job
jobs =
    record { job_id = "a"; follows = none; document = job_document }
    ∷ record { job_id = "b"; follows = some "a"; document = job_document }
    ∷ record { job_id = "c"; follows = some "b"; document = job_document }
    ∷ []

abbrev pub an_observation : Observed
an_observation = record {
  binding_exists = true;
  agent_resolved = true;
  agent_status = some "running";
  agent_archived = false;
  has_pending_permissions = false;
  paseo_reachable = true;
}

abbrev pub a_root : Root
a_root = record {
  ordinal = 1;
  path = workspace;
  handle = record { workspace = 7 ∷ 7 ∷ []; parent = none };
  marker = marker_document;
}
