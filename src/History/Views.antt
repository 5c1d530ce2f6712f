-- ===== src/History/Views.antt =====
-- src/history/readonly.ts and src/history/restore.ts: a revision to read, and one to restore.
use supabash_fs.History.Quota.{no_limits}
use supabash_fs.Prelude.{
  List, Option, Ordering, Result, SupabashError, Text, err, find_first, history_corruption, map,
  none, ok, revision_not_found, some, supabash_error, ◌===◌, ◌>>=◌,
}
use supabash_fs.Prelude.Dict.{get}
use supabash_fs.Core.Path.{normalize_virtual_path}
use supabash_fs.Core.Entries.{Bytes, RemoteEntry, WorkspaceEntryKind, file}
use supabash_fs.History.Records.{RevisionEntry, RevisionRecord}
use supabash_fs.History.Store.{HistoryStore}
use supabash_fs.History.Query.{revision_not_found_error}
use supabash_fs.History.Checkpoints.{require_head_revision}
use supabash_fs.History.Diff.{RevisionDiff, at_revision, diff_revisions}

abbrev pub not_found_at : Text → SupabashError
not_found_at path = supabash_error revision_not_found (some path)

abbrev pub retained_body : Text → Option Bytes → Result Bytes
retained_body path none = err (not_found_at path)
retained_body path (some body) = ok body

abbrev pub body_of_hash : HistoryStore → Text → Option Text → Result Bytes
body_of_hash s path none = err (not_found_at path)
body_of_hash s path (some hash) = retained_body path (get s.objects hash)

abbrev pub body_of_entry : HistoryStore → Text → RevisionEntry → WorkspaceEntryKind → Result Bytes
body_of_entry s path entry file = body_of_hash s path entry.content_hash
body_of_entry s path entry _ = err (not_found_at path)

abbrev pub body_found : HistoryStore → Text → Option RevisionEntry → Result Bytes
body_found s path none = err (not_found_at path)
body_found s path (some entry) = body_of_entry s path entry entry.entry_kind

unfoldable pub read_revision_file_buffer : HistoryStore → List RevisionEntry → Text → Result Bytes
read_revision_file_buffer s entries path = do
  normalized ← normalize_virtual_path path
  body_found s normalized (find_first (λ (e : RevisionEntry). e.path === normalized) entries)

-- `ReadonlyWorkspaceView`: its entries, and how it reads a file
pub record ReadonlyWorkspaceView : Type 0 where
  pub entries : List RevisionEntry
  pub read_file_buffer : Text → Result Bytes
  pub revision : Text

abbrev pub view_of : HistoryStore → Text → Option RevisionRecord → Result ReadonlyWorkspaceView
view_of s revision none = err revision_not_found_error
view_of s revision (some found) = ok (record {
  entries = found.entries;
  read_file_buffer = read_revision_file_buffer s found.entries;
  revision = revision;
})

unfoldable pub read_revision_view : HistoryStore → Text → Result ReadonlyWorkspaceView
read_revision_view s revision = view_of s revision (get s.revisions revision)

abbrev pub remote_from_revision : RevisionEntry → RemoteEntry
remote_from_revision entry = record {
  content_hash = entry.content_hash;
  content_type = none;
  etag = entry.etag;
  kind = entry.entry_kind;
  mode = entry.mode;
  modified_at = 0;
  path = entry.path;
  size = entry.size;
  target = entry.target;
  version_hash = none;
}

abbrev pub download_hash : HistoryStore → Text → Option Text → Result Bytes
download_hash s path none = err (supabash_error history_corruption (some path))
download_hash s path (some hash) = retained_body path (get s.objects hash)

unfoldable pub download_revision : HistoryStore → RemoteEntry → Result Bytes
download_revision s entry = download_hash s entry.path entry.content_hash

abbrev pub restore_target : Option RevisionRecord → Result (List RevisionEntry)
restore_target none = err revision_not_found_error
restore_target (some found) = ok found.entries

-- What `planRestore` hands to `stageRemoteTree`, and the difference that it returns
unfoldable pub plan_restore :
    (Text → Bytes)
    → (Bytes → Option Text)
    → (Text → Text → Ordering)
    → HistoryStore
    → Text
    → Result (RevisionDiff × List RemoteEntry)
plan_restore encode decode compare_paths s revision = do
  current ← require_head_revision s
  target ← restore_target (get s.revisions revision)
  diff ←
      diff_revisions encode decode compare_paths s
        (record {
          from = at_revision current;
          paths = none;
          preview_bytes = none;
          to = at_revision revision;
        })
        none no_limits
  ok (diff, map remote_from_revision target)
