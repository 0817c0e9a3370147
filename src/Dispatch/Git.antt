-- ===== src/Dispatch/Git.antt =====
-- workstream_dispatch/git_adapter.py: the state of a workspace, by two runs of git.
use arjim.Base.{
  String, Option, none, some, List, [], ◌∷◌, ◌++◌, if◌then◌else◌, ◌==◌, string_eq, str_take,
}
use arjim.Runtime.{Runtime}
use arjim.Effects.{FilePath, Process, Os, M, pure, ◌>>=◌, run_process}

pub record GitState : Type 0 where
  pub head_oid : String
  pub worktree_digest : String

-- `_GIT_NO_FSMONITOR`
abbrev no_fsmonitor : List String
no_fsmonitor = "-c" ∷ "core.fsmonitor=false" ∷ "-c" ∷ "core.untrackedCache=false" ∷ []

module _ (rt : Runtime) (os : Os) where
  state_of : String → Option Process → Option GitState
  state_of head_oid none = none
  state_of head_oid (some status) =
      if status.success
      then some (record {
        head_oid = head_oid;
        worktree_digest = str_take 16 (rt.sha256_hex (rt.encode_utf8 status.stdout));
      })
      else none

  head_from : Option Process → Option String
  head_from none = none
  head_from (some proc) =
      if proc.success
      then (let head_oid = rt.strip (rt.text_of proc.stdout) in
          if head_oid == "" then none else some head_oid)
      else none

  status_from : Option String → M (Option GitState)
  unfolding state_of
  status_from none = pure none
  status_from (some head_oid) = do
    status ← run_process os ("git" ∷ no_fsmonitor ++ ("status" ∷ "--porcelain" ∷ []))
    pure (state_of head_oid status)

  pub capture_git_state : FilePath → M (Option GitState)
  unfolding status_from head_from
  capture_git_state workspace = do
    proc ← run_process os ("git" ∷ no_fsmonitor ++ ("rev-parse" ∷ "HEAD" ∷ []))
    status_from (head_from proc)
