-- ===== src/Tests/Commits.antt =====
-- A commit (src/core/workspace.ts) of a changed file into a storage in memory.
use supabash_fs.History.Storage.{on_history, on_visible}
use supabash_fs.Core.Tracked.Operations.{TrackedFileSystem}
use supabash_fs.History.Records.{HistoryRecord, history_record}
use supabash_fs.History.Publish.{
  complete_of, finalize_publish, head_of, idempotency_of, intent_record, revision_of,
  revision_record_of, write_intent,
}
use supabash_fs.Core.Uploads.{
  content_hash_for, entry_for_audit, prepare_upload, resolved_commit_context, upload_draft_for,
}
use supabash_fs.Core.Changes.{
  change_for_upload, committed_workspace_changes, merge_audit_baseline, same_remote_version,
  visible_entry_count, visible_paths,
}
use supabash_fs.Prelude.Dict.{get, of_entries, set}
use supabash_fs.History.Snapshot.{overlay_by_path}
use supabash_fs.History.Receipts.{existing_idempotent_receipt}
use supabash_fs.History.Lease.{with_lease}
use supabash_fs.History.Bodies.{ensure_object, revision_entries_from, stored_entry}
use supabash_fs.Core.Tracked.State.{set_directories}
use supabash_fs.Core.Tracked.Restore.{
  by_path, rebuild_live_tree, restore_entries, restore_remote_entry,
}
use supabash_fs.Core.RuntimePaths.{is_runtime_owned_path, persistent}
use supabash_fs.Core.Path.{
  absolute_segments, encoded_at, has_encoded, normalize_virtual_path, parent_paths, render, resolve,
}
use supabash_fs.Prelude.{
  List, Option, Result, Text, [], err, false, join, none, ok, refl, some, sort, split, starts_with,
  text, ◌===◌, ◌∷◌, ◌≡◌,
}
use supabash_fs.Prelude.Exec.{for_each, gets, lift, modify, pure, reads, ◌>>=◌}
use supabash_fs.Core.Entries.{PendingChanges, RemoteEntry, order_remote_entries, sort_by_path}
use supabash_fs.Core.Tracked.Commit.{begin_commit, reset}
use supabash_fs.Core.Tracked.Pending.{pending_preview}
use supabash_fs.Core.Workspace.{
  CommitHost, StorageWorkspace, assert_no_conflicts, attempt, audit_baseline, commit, commit_body,
  commit_leased, finish_published_commit, on_fs, on_scoped, publish_changes,
}
use supabash_fs.Core.Workspace.Laws.{Unlocked, commit-Unlocked}
use supabash_fs.History.Quota.{assert_commit_quotas, assert_paths, no_limits, staged_bytes}
use supabash_fs.History.Store.{HistoryStore, put}
use supabash_fs.Tests.Tracked.{Files, disk, loaded, note}
use supabash_fs.Tests.Storages.{memory}

abbrev nothing_stored : HistoryStore
nothing_stored = record {
  aborts = [];
  ancestry = [];
  checkpoints = [];
  completes = [];
  head = none;
  idempotency = [];
  intents = [];
  objects = [];
  revisions = [];
}

abbrev local_host : CommitHost Files (List RemoteEntry)
local_host = record {
  host = disk;
  more = record { modified_of = λ p files. ok 0; target_of = λ p files. ok [] };
  storage = memory;
  recover = pure false;
  coordinator = none;
  utf8 = λ t. t;
  version_of = λ draft hash. hash;
  content_type_for = λ path. path;
  fingerprint_of = λ changes context. text "f";
  metadata_size = λ fields. 0;
  limits = no_limits;
  scope = text "local";
}

-- The stored note, changed
abbrev changed_files : TrackedFileSystem Files
changed_files = record (loaded false) {
  tracking = record (loaded false).tracking { upserts = text "/note" ∷ [] };
}

abbrev opened : StorageWorkspace Files (List RemoteEntry)
opened = record {
  fs = changed_files;
  intent_written = false;
  partial_transaction_id = none;
  restore_source_revision = none;
  scoped = record { visible = note ∷ []; world = record { faults = []; store = nothing_stored } };
}

abbrev pending_in : Result PendingChanges → PendingChanges
pending_in (ok pending) = pending
pending_in (err e) = record { deletions = []; moves = []; upserts = [] }

commits : Unit {0}
unfolding commit begin_commit pending_preview persistent is_runtime_owned_path commit_body
    commit_leased publish_changes assert_no_conflicts finish_published_commit audit_baseline
    entry_for_audit upload_draft_for prepare_upload content_hash_for resolved_commit_context
    with_lease write_intent intent_record finalize_publish complete_of revision_record_of
    idempotency_of head_of history_record assert_commit_quotas staged_bytes assert_paths
    visible_entry_count visible_paths same_remote_version merge_audit_baseline
    committed_workspace_changes change_for_upload sort_by_path sort reset rebuild_live_tree
    restore_entries restore_remote_entry order_remote_entries parent_paths by_path
    revision_entries_from stored_entry ensure_object overlay_by_path existing_idempotent_receipt
    for_each attempt on_fs on_scoped on_visible on_history put pure gets reads lift modify ◌>>=◌ get
    set of_entries set_directories normalize_virtual_path has_encoded encoded_at resolve
    absolute_segments split starts_with ◌===◌ render join
commits = tt

begins : (begin_commit disk changed_files).0 ≡ ok (pending_in (begin_commit disk changed_files).0)
unfolding commits
begins = refl

commit-Unlocked_example :
    Unlocked
      (commit local_host none (text "c") (text "t") (text "r") (text "now") (ok false) opened).1
commit-Unlocked_example =
    commit-Unlocked local_host none (text "c") (text "t") (text "r") (text "now") (ok false) opened
      (pending_in (begin_commit disk changed_files).0) tt begins

abbrev head_after : Result HistoryRecord × StorageWorkspace Files (List RemoteEntry) → Option Text
head_after (ok receipt, s) = revision_of s.scoped.world.store.head
head_after (err e, s) = none

commit_publishes :
    head_after
      (commit local_host none (text "c") (text "t") (text "r") (text "now") (ok false) opened)
    ≡ some (text "r")
unfolding commits
commit_publishes = refl
