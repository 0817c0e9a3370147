-- ===== src/Dispatch/Adapter.antt =====
-- workstream_dispatch/paseo_adapter.py and git_adapter.py: the subprocesses. The node entry that
-- the adapter resolves on the PATH is a parameter.
use arjim.Base.{
  ℕ, String, Option, none, some, Bool, true, false, List, [], ◌∷◌, ◌++◌, ◌<>◌, if◌then◌else◌, ◌==◌,
  not, string_eq, str_length, str_drop, starts_with,
}
use arjim.Json.{
  Json, str, bool, null, arr, obj, nil, Fields, field, end, get, get_or, truthy, is_dict, of_items,
}
use arjim.Errors.{Exn}
use arjim.Runtime.{Runtime, Loaded, document, decode_error, other_error, to_str}
use arjim.Effects.{FilePath, Process, Os, M, pure, raise, ◌>>=◌, run_process}

-- `PaseoAdapter` after its `__init__`
pub record PaseoAdapter : Type 0 where
  pub node : String
  pub cli_js : String
  pub init_error : Bool

-- `unreachable` with its error code, or the agent id that the output names
pub data SpawnResult : Type 0 where
  unreachable : String → SpawnResult
  spawned : Json → SpawnResult

pub record AgentInfo : Type 0 where
  pub agent_id : String
  pub job_id : String
  pub status : String
  pub cwd : String

pub record AgentDetail : Type 0 where
  pub agent_id : String
  pub status : String
  pub archived : Bool
  pub has_pending_permissions : Bool

pub data PostureError : Type 0 where
  adapter_init_failed unknown_model unknown_mode unknown_thinking : PostureError

pub record PostureValidation : Type 0 where
  pub errors : List PostureError
  pub available_models : List String
  pub available_modes : List String
  pub default_mode : Json
  pub thinking_options : List String

-- `valid`
abbrev pub is_valid : PostureValidation → Bool
is_valid v = elim v.errors [ [] ↦ true | ◌∷◌ e es ↦ false ]

abbrev pub document_of : Loaded → Option Json
document_of (document d) = some d
document_of decode_error = none
document_of other_error = none

thinking_args : String → List String
thinking_args thinking = if thinking == "" then [] else "--thinking" ∷ thinking ∷ []

-- The arguments of `paseo run`: the instruction is the last one, after `--`.
unfoldable pub spawn_args : String → String → String → String → String → String → List String
unfolding thinking_args
spawn_args instruction provider model mode thinking job_id =
    ("run"
      ∷ "--background"
      ∷ "--title"
      ∷ ("Arjim job " <> job_id)
      ∷ "--provider"
      ∷ provider
      ∷ "--model"
      ∷ model
      ∷ "--mode"
      ∷ mode
      ∷ [])
    ++ thinking_args thinking
    ++ ("--label" ∷ ("arjim.job=" <> job_id) ∷ "--" ∷ instruction ∷ [])

-- `data.get("id") or data.get("agentId") or data.get("Id")`, where no dict has an AttributeError
pub agent_id_of : Option Json → Json
agent_id_of none = null
agent_id_of (some d) = elim (get "Id" d) [
  | none ↦ get_or ("id" ∷ "agentId" ∷ []) null d
  | some last ↦ get_or ("id" ∷ "agentId" ∷ []) last d
]

label_job : Fields → Option String
label_job end = none
label_job (field key v rest) =
    let others = label_job rest in
    if starts_with key "arjim.job=" then some (str_drop (str_length "arjim.job=") key) else others

labels_of : Json → Fields
labels_of (obj fs) = fs
labels_of _ = end

module _ (rt : Runtime) where
  agent_of : Json → Option String → List AgentInfo
  agent_of item none = []
  agent_of item (some job_id) =
      record {
        agent_id = to_str rt (get_or ("id" ∷ "Id" ∷ []) (str "") item);
        job_id = job_id;
        status = rt.lower (to_str rt (get_or ("status" ∷ "Status" ∷ []) (str "unknown") item));
        cwd = to_str rt (get_or ("cwd" ∷ "Cwd" ∷ []) (str "") item);
      }
      ∷ []

  agents_of : List Json → List AgentInfo
  unfolding agent_of label_job labels_of
  agents_of [] = []
  agents_of (item ∷ items) =
      let rest = agents_of items in
      if is_dict item
      then agent_of item (label_job (labels_of (get_or ("labels" ∷ "Labels" ∷ []) (obj end) item)))
        ++ rest
      else rest

  detail_of : Json → AgentDetail
  detail_of data_of = record {
    agent_id = to_str rt (get_or ("Id" ∷ "id" ∷ []) (str "") data_of);
    status = rt.lower (to_str rt (get_or ("Status" ∷ "status" ∷ []) (str "unknown") data_of));
    archived = truthy (get_or ("Archived" ∷ "archived" ∷ []) (bool false) data_of);
    has_pending_permissions =
        truthy (get_or ("PendingPermissions" ∷ "pendingPermissions" ∷ []) (arr nil) data_of);
  }

module _ (rt : Runtime) (os : Os) (adapter : PaseoAdapter) where
  -- `_run_cli`, where `none` is its AdapterError; a UnicodeDecodeError is not caught
  unfoldable pub run_cli : List String → M (Option Process)
  run_cli args = run_process os (adapter.node ∷ adapter.cli_js ∷ args)

  -- `json.loads` of an output, where `none` is a ValueError; a RecursionError is not caught
  unfoldable pub parse_output : List ℕ → M (Option Json)
  parse_output text =
      if rt.too_deep text then raise Exn.recursion_error else pure (document_of (rt.loads text))

  json_of : Option Process → M (Option Json)
  unfolding parse_output
  json_of none = pure none
  json_of (some proc) = if proc.success then parse_output proc.stdout else pure none

  pub run_cli_json : List String → M (Option Json)
  unfolding run_cli json_of
  run_cli_json args = do proc ← run_cli args; json_of proc

  unfoldable pub spawned_from : Option Process → M SpawnResult
  unfolding agent_id_of parse_output
  spawned_from none = pure (unreachable "cli-failed")
  spawned_from (some proc) =
      if not proc.success
      then pure (unreachable "spawn-failed")
      else do data_of ← parse_output proc.stdout; pure (spawned (agent_id_of data_of))

  -- `spawn`; the source does not use the `cwd` that it is given.
  unfoldable pub spawn :
      String → FilePath → String → String → String → String → String → M SpawnResult
  unfolding run_cli spawned_from
  spawn instruction cwd provider model mode thinking job_id =
      if adapter.init_error then pure (unreachable "adapter-init-failed") else do
        proc ← run_cli (spawn_args instruction provider model mode thinking job_id)
        spawned_from proc

  listed_from : Option Json → M (List AgentInfo)
  unfolding agents_of
  listed_from none = raise Exn.adapter_error
  listed_from (some (arr items)) = pure (agents_of rt (of_items items))
  listed_from (some _) = pure []

  pub list_agents : M (List AgentInfo)
  unfolding listed_from run_cli_json
  list_agents =
      if adapter.init_error
      then pure []
      else do found ← run_cli_json ("ls" ∷ "--json" ∷ "-a" ∷ "-g" ∷ []); listed_from found

  inspected_from : Option Json → Option AgentDetail
  unfolding detail_of
  inspected_from none = none
  inspected_from (some d) = if is_dict d then some (detail_of rt d) else none

  pub inspect_agent : String → M (Option AgentDetail)
  unfolding inspected_from run_cli_json
  inspect_agent agent_id = if adapter.init_error then pure none else do
    found ← run_cli_json ("inspect" ∷ "--json" ∷ agent_id ∷ [])
    pure (inspected_from found)
