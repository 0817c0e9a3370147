-- ===== src/Dispatch/Baselines/Signals.antt =====
-- activity.py: the change signal of a workspace, and the baseline that it leaves.
use arjim.Base.{
  String, Option, none, some, inl, inr, Bool, true, false, ◌&&◌, ◌≡◌, refl, sym, ◌==◌, string_eq,
  Bool-cases,
}
use arjim.Base.Table.{select, upsert}
use arjim.Errors.{Exn, Result, ok, err}
use arjim.Runtime.{Runtime}
use arjim.Effects.{FilePath, Os, Run, continue, ◌>>=◌, pure, raise, transaction, time_now}
use arjim.Effects.Returns.{
  OkIs, Returns, Returns-pure, Returns-raise, Returns-if, Returns-bind, Returns-after,
}
use arjim.Dispatch.Store.{
  Store, Baseline, connect, run_query, run_transaction, get_baseline, set_baseline,
}
use arjim.Dispatch.Git.{GitState, capture_git_state}
use arjim.Dispatch.Baselines.{
  ChangeSignal, advance_baseline, compare_baseline, change_signal_from, compute_change_signal,
}

run_transaction-Returns {ℓ} :
    {A : Type ℓ} (F : A → Type 0) (os : Os) (a : A) → F a → Returns F (run_transaction os a)
unfolding run_transaction
run_transaction-Returns F os a f = Returns-bind (connect os) _ λ conn.
    Returns-bind (transaction os) _ λ good.
      Returns-if good (pure a) (raise Exn.sqlite_error) (Returns-pure a f)
        (Returns-raise Exn.sqlite_error)

run_query-Returns {ℓ} :
    {A : Type ℓ} (F : A → Type 0) (os : Os) (a : A) → F a → Returns F (run_query os a)
unfolding run_query
run_query-Returns F os a f = Returns-bind (connect os) _ λ conn.
    Returns-bind (transaction os) _ λ good.
      Returns-if good (pure a) (raise Exn.store_error) (Returns-pure a f)
        (Returns-raise Exn.store_error)

abbrev same_state : GitState → Baseline → Bool
same_state git b = git.head_oid == b.head_oid && git.worktree_digest == b.worktree_digest

module _ (store : Store) (handle : String) where
  -- The state is the baseline of the workspace now; the other baselines and the bindings are as
  -- they were.
  abbrev Advanced : GitState → Store → Type 0
  Advanced git after =
      (now : String) × (after ≡ record store {
        baselines =
            upsert handle
              (record {
                head_oid = git.head_oid;
                worktree_digest = git.worktree_digest;
                updated_at = now;
              })
              store.baselines;
      })

  -- What a signal says, against the state that git gives in this run, if it gives one.
  abbrev pub Signalled : Option GitState → ChangeSignal × Store → Type 0
  Signalled none (ChangeSignal.unsupported, after) = after ≡ store
  Signalled (some git) (ChangeSignal.bootstrap, after) =
      (select handle store.baselines ≡ none) × Advanced git after
  Signalled (some git) (ChangeSignal.unchanged, after) =
      (after ≡ store)
      × ((b : Baseline) × ((select handle store.baselines ≡ some b) × (same_state git b ≡ true)))
  Signalled (some git) (ChangeSignal.changed, after) =
      Advanced git after
      × ((b : Baseline) × ((select handle store.baselines ≡ some b) × (same_state git b ≡ false)))
  Signalled _ _ = ⊥

  -- The answer, by what `capture_git_state` gives in this run.
  abbrev pub Answered : Result (Option GitState) → Result (ChangeSignal × Store) → Type 0
  Answered (ok git) r = OkIs (Signalled git) r
  Answered (err e) r = r ≡ err e

  module _ (rt : Runtime) (os : Os) where
    advance_baseline-Returns :
        (git : GitState) (signal : ChangeSignal)
        → ((after : Store) → Advanced git after → Signalled (some git) (signal, after))
        → Returns (Signalled (some git)) (advance_baseline rt os store handle git signal)
    unfolding advance_baseline set_baseline
    advance_baseline-Returns git signal k = Returns-bind (time_now os) _ λ now.
        Returns-after (Advanced git) _ _
          (run_transaction-Returns (Advanced git) os _ (rt.format_timestamp now, refl))
          λ after a. Returns-pure (signal, after) (k after a)

    compare_baseline-Returns :
        (git : GitState) (b : Option Baseline)
        → b ≡ select handle store.baselines
        → Returns (Signalled (some git)) (compare_baseline rt os store handle git b)
    unfolding compare_baseline
    compare_baseline-Returns git none e =
        advance_baseline-Returns git ChangeSignal.bootstrap λ after a. (sym e, a)
    compare_baseline-Returns git (some b) e = elim (Bool-cases (same_state git b)) [
      | inl s ↦ rw s (Returns-pure (ChangeSignal.unchanged, store) (refl, (b, (sym e, s))))
      | inr s ↦
          rw s (advance_baseline-Returns git ChangeSignal.changed λ after a. (a, (b, (sym e, s))))
    ]

    change_signal_from-Returns :
        (git : Option GitState)
        → Returns (Signalled git) (change_signal_from rt os store handle git)
    unfolding change_signal_from get_baseline
    change_signal_from-Returns none = Returns-pure (ChangeSignal.unsupported, store) refl
    change_signal_from-Returns (some git) =
        Returns-after (λ b. b ≡ select handle store.baselines) _ _
          (run_query-Returns (λ b. b ≡ select handle store.baselines) os
            (select handle store.baselines) refl)
          (compare_baseline-Returns git)

-- In every environment, `_compute_change_signal` raises what `capture_git_state` raises, and a signal
-- that it returns is true of the store and of the state that `capture_git_state` gives in this run:
-- unsupported where it gives none; otherwise bootstrap where the workspace has no baseline,
-- unchanged where its baseline is that state, changed where it is another one. After bootstrap and
-- changed the state is the baseline of the workspace, after the other signals the store is as it
-- was; no other entry changes.
pub compute_change_signal-Signalled :
    (rt : Runtime) (os : Os) (text : FilePath → String) (workspace : FilePath) (store : Store)
    (s : Run)
    → Answered store
        (text workspace)
        (capture_git_state rt os workspace s).0
        (compute_change_signal rt os text workspace store s).0
unfolding compute_change_signal ◌>>=◌
compute_change_signal-Signalled rt os text workspace store s =
    let (r, s') = capture_git_state rt os workspace s in go r s'
  where
    go :
        (r : Result (Option GitState)) (s' : Run)
        → Answered store
            (text workspace)
            r
            (continue r (change_signal_from rt os store (text workspace)) s').0
    go (ok git) s' = (change_signal_from-Returns store (text workspace) rt os git).at s'
    go (err e) s' = refl
