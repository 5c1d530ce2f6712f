-- ===== src/Core/Tracked/Commit.antt =====
-- Resets, staged restores, the commit gate and the pending changes of `TrackedFileSystem`
-- (src/core/tracked-file-system.ts).
use supabash_fs.Prelude.{
  List, Option, Result, Text, [], commit_in_progress, err, false, if◌then◌else◌, none, ok, some,
  supabash_error, true, ◌∷◌,
}
use supabash_fs.Prelude.Exec.{gets, lift, ◌>>=◌, ◌>>◌}
use supabash_fs.Prelude.Dict.{Dict, get, values}
use supabash_fs.Core.RuntimePaths.{persistent}
use supabash_fs.Core.Entries.{Bytes, PendingChanges, RemoteEntry, WorkspaceEntryKind}
use supabash_fs.Core.Tracked.State.{Tracking}
use supabash_fs.Core.Tracked.Restore.{
  by_path, deletions_against, rebuild_live_tree, upserts_against,
}
use supabash_fs.Core.Tracked.Pending.{pending_preview}
use supabash_fs.Core.Tracked.Operations.{Action, Host, TrackedFileSystem, assert_mutable}

-- The bookkeeping after `reset`.
abbrev pub clean_tracking : List RemoteEntry → Dict WorkspaceEntryKind → Tracking
clean_tracking entries kinds = record {
  baseline = by_path entries;
  baseline_hashes = [];
  commit_in_progress = false;
  deletions = [];
  kinds = kinds;
  moves = [];
  upserts = [];
}

-- The bookkeeping after `stageRemoteTree`.
abbrev pub staged_tracking : List RemoteEntry → Dict WorkspaceEntryKind → Tracking → Tracking
staged_tracking entries kinds t = record t {
  kinds = kinds;
  deletions = deletions_against t.baseline entries;
  moves = [];
  upserts = upserts_against t.baseline [] entries;
}

-- The new baseline's entry for a deleted path, if it has one
abbrev pub kept_deletion : Text → Option RemoteEntry → Dict RemoteEntry → Dict RemoteEntry
kept_deletion path none rest = rest
kept_deletion path (some entry) rest = (path, entry) ∷ rest

-- Deletions are looked up in the new baseline, and those it lacks are dropped.
unfoldable pub refreshed_deletions : Dict RemoteEntry → Dict RemoteEntry → Dict RemoteEntry
refreshed_deletions next [] = []
refreshed_deletions next ((path, old) ∷ deletions) =
    kept_deletion path (get next path) (refreshed_deletions next deletions)

module _ {F : Type 0} (host : Host F) where
  abbrev pub install : List RemoteEntry → Result (Dict WorkspaceEntryKind) × F → Action F (Unit {0})
  install entries (err e, files) s = (err e, s)
  install entries (ok kinds, files) s =
      (ok tt, record s { tracking = clean_tracking entries kinds; inner = files })

  unfoldable pub reset : List RemoteEntry → Action F (Unit {0})
  reset entries s =
      (do
        stored ← lift (persistent (λ e. e.path) entries)
        install stored (
            rebuild_live_tree host.fs host.download host.compare_paths stored false
              s.max_total_bytes))
        s

  abbrev pub stage : List RemoteEntry → Result (Dict WorkspaceEntryKind) × F → Action F (Unit {0})
  stage entries (err e, files) s = (err e, s)
  stage entries (ok kinds, files) s =
      (ok tt, record s { tracking = staged_tracking entries kinds s.tracking; inner = files })

  -- The bodies of the staged tree come from `from_revision`.
  unfoldable pub stage_remote_tree :
      List RemoteEntry → (RemoteEntry → Result Bytes) → Action F (Unit {0})
  stage_remote_tree entries from_revision = do
    assert_mutable
    stored ← lift (persistent (λ e. e.path) entries)
    limit ← gets (λ s. s.max_total_bytes)
    stage stored (rebuild_live_tree host.fs from_revision host.compare_paths stored true limit)

  unfoldable pub begin_commit : Action F PendingChanges
  begin_commit s =
      if s.commit_in_progress
      then (err (supabash_error commit_in_progress none), s)
      else (let t = record s { tracking = record s.tracking { commit_in_progress = true } } in
          (pending_preview host t, t))

  abbrev pub finish_commit : List RemoteEntry → Action F (Unit {0})
  finish_commit = reset

  unfoldable pub discard_changes : Action F (Unit {0})
  discard_changes = do assert_mutable; entries ← gets (λ s. values s.baseline); reset entries

module _ {F : Type 0} where
  unfoldable pub fail_commit : TrackedFileSystem F → TrackedFileSystem F
  fail_commit s = record s { tracking = record s.tracking { commit_in_progress = false } }

  unfoldable pub refresh_baseline : List RemoteEntry → TrackedFileSystem F → TrackedFileSystem F
  refresh_baseline entries s =
      let next = by_path entries in
      record s {
        tracking = record s.tracking {
          baseline = next;
          baseline_hashes = [];
          deletions = refreshed_deletions next s.deletions;
        };
      }
