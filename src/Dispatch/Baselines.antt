-- ===== src/Dispatch/Baselines.antt =====
-- workstream_dispatch/activity.py: the change signal of a workspace, against its baseline.
pub mod Signals
use arjim.Base.{
  ℕ, suc, ◌+◌, String, Option, none, some, Bool, true, false, not, ◌&&◌, ◌||◌, List, [], ◌∷◌, ◌<>◌,
  if◌then◌else◌, ◌==◌, ◌!=◌, string_eq, length,
}
use arjim.Base.Table.{Table, select, upsert}
use arjim.Json.{Json, str, obj, end, get, truthy, is_dict}
use arjim.Errors.{Exn}
use arjim.Runtime.{Runtime, to_str}
use arjim.Effects.{FilePath, Os, M, pure, raise, ◌>>=◌, ◌>>◌, attempt, os_read_all, time_now}
use arjim.Filesystem.{marker_path}
use arjim.Dispatch.Store.{Store, Baseline, Binding, get_binding, get_baseline, set_baseline}
use arjim.Dispatch.Adapter.{PaseoAdapter, AgentInfo, AgentDetail, list_agents, inspect_agent}
use arjim.Dispatch.Git.{GitState, capture_git_state}
use arjim.Dispatch.Records.{ReadResult, read_all_records, has_text}
use arjim.Dispatch.Notes.{
  NoteResult, path_refused, absent, unreadable, schema_invalid, mismatched, guard_failed, present,
  read_outcome_note,
}
use arjim.Dispatch.Ordering.{manifest_of}

pub data ChangeSignal : Type 0 where
  changed unchanged bootstrap unsupported : ChangeSignal

module _ (rt : Runtime) (os : Os) where
  -- A baseline is kept by the path of its workspace, as a text.
  advance_baseline : Store → String → GitState → ChangeSignal → M (ChangeSignal × Store)
  advance_baseline store handle git signal = do
    now ← time_now os
    after ← set_baseline os store handle git.head_oid git.worktree_digest (rt.format_timestamp now)
    pure (signal, after)

  compare_baseline : Store → String → GitState → Option Baseline → M (ChangeSignal × Store)
  unfolding advance_baseline
  compare_baseline store handle git none = advance_baseline store handle git bootstrap
  compare_baseline store handle git (some b) =
      if git.head_oid == b.head_oid && git.worktree_digest == b.worktree_digest
      then pure (unchanged, store)
      else advance_baseline store handle git changed

  change_signal_from : Store → String → Option GitState → M (ChangeSignal × Store)
  unfolding compare_baseline
  change_signal_from store handle none = pure (unsupported, store)
  change_signal_from store handle (some git) = do
    baseline ← get_baseline os store handle
    compare_baseline store handle git baseline

  -- `_compute_change_signal`
  pub compute_change_signal : (FilePath → String) → FilePath → Store → M (ChangeSignal × Store)
  unfolding change_signal_from
  compute_change_signal text workspace store = do
    git ← capture_git_state rt os workspace
    change_signal_from store (text workspace) git
