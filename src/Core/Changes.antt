-- ===== src/Core/Changes.antt =====
-- src/core/workspace-changes.ts: the changes of a commit, as they are shown before it and recorded
-- after it, and what the audit compares.
pub mod Laws
use supabash_fs.Prelude.{
  Bool, List, Option, Ordering, Result, SupabashError, Text, [], any, each, err, if◌then◌else◌,
  includes, is_some, keep, length, map, none, not, ok, or_else, same_option, some, storage,
  supabash_error, ℕ, ◌&&◌, ◌++◌, ◌===◌, ◌==◌, ◌>>=◌, ◌>>◌, ◌||◌, ◌∷◌,
}
use supabash_fs.Prelude.Dict.{get, of_entries}
use supabash_fs.Core.Entries.{
  Bytes, PendingChanges, RemoteEntry, UploadEntry, WorkspaceEntryKind, sort_by_path,
}
use supabash_fs.Core.Tracked.Restore.{by_path}

pub data WorkspaceChangeKind : Type 0 where
  delete_change move_change upsert_change : WorkspaceChangeKind

pub record WorkspaceChange : Type 0 where
  pub after_etag : Option Text
  pub after_hash : Option Text
  pub after_size : Option ℕ
  pub before_etag : Option Text
  pub before_hash : Option Text
  pub before_size : Option ℕ
  pub content_hash : Option Text
  pub entry_kind : WorkspaceEntryKind
  pub etag : Option Text
  pub kind : WorkspaceChangeKind
  pub move_from : Option Text
  pub move_to : Option Text
  pub path : Text

-- A change of which only the kinds and the path are known.
abbrev pub bare_change : WorkspaceChangeKind → WorkspaceEntryKind → Text → WorkspaceChange
bare_change kind entry_kind path = record {
  after_etag = none;
  after_hash = none;
  after_size = none;
  before_etag = none;
  before_hash = none;
  before_size = none;
  content_hash = none;
  entry_kind = entry_kind;
  etag = none;
  kind = kind;
  move_from = none;
  move_to = none;
  path = path;
}

-- What a commit holds of an entry after it: a stored entry, or an upload.
pub data Stored : Type 0 where
  remote : RemoteEntry → Stored
  upload : UploadEntry → Stored

abbrev pub stored_path : Stored → Text
stored_path (remote e) = e.path
stored_path (upload u) = u.path

abbrev pub stored_kind : Stored → WorkspaceEntryKind
stored_kind (remote e) = e.kind
stored_kind (upload u) = u.kind

abbrev pub stored_hash : Stored → Option Text
stored_hash (remote e) = e.content_hash
stored_hash (upload u) = u.content_hash

abbrev pub stored_etag : Stored → Option Text
stored_etag (remote e) = e.etag
stored_etag (upload u) = none

abbrev pub body_length : Option Bytes → Option ℕ
body_length none = none
body_length (some body) = some (length body)

abbrev pub stored_size : Stored → Option ℕ
stored_size (remote e) = some e.size
stored_size (upload u) = body_length u.body

abbrev pub missing_from_commit : SupabashError
missing_from_commit = supabash_error storage none

unfoldable pub change_for_delete : RemoteEntry → WorkspaceChange
change_for_delete entry = record (bare_change delete_change entry.kind entry.path) {
  before_hash = entry.content_hash;
  content_hash = entry.content_hash;
  before_etag = entry.etag;
  etag = entry.etag;
  before_size = some entry.size;
}

abbrev pub hash_before : Option RemoteEntry → Option Text
hash_before none = none
hash_before (some e) = e.content_hash

abbrev pub etag_before : Option RemoteEntry → Option Text
etag_before none = none
etag_before (some e) = e.etag

abbrev pub size_before : Option RemoteEntry → Option ℕ
size_before none = none
size_before (some e) = some e.size

unfoldable pub change_for_upload : Option Stored → Option RemoteEntry → Result WorkspaceChange
change_for_upload none before = err missing_from_commit
change_for_upload (some entry) before =
    ok (record (bare_change upsert_change (stored_kind entry) (stored_path entry)) {
      after_hash = stored_hash entry;
      content_hash = stored_hash entry;
      before_hash = hash_before before;
      before_etag = etag_before before;
      before_size = size_before before;
      after_etag = stored_etag entry;
      etag = stored_etag entry;
      after_size = stored_size entry;
    })

-- `contentHash` stands only beside `beforeHash`: the hash after, or else the hash before.
abbrev pub moved_hash : Option Text → Option Text → Option Text
moved_hash none after = none
moved_hash (some before) none = some before
moved_hash (some before) (some after) = some after

unfoldable pub change_for_move :
    Option RemoteEntry → Option Stored → Text → Text → Result WorkspaceChange
change_for_move (some before) (some after) from to =
    ok (record (bare_change move_change (stored_kind after) to) {
      move_from = some from;
      move_to = some to;
      before_hash = before.content_hash;
      content_hash = moved_hash before.content_hash (stored_hash after);
      after_hash = stored_hash after;
      before_etag = before.etag;
      after_etag = stored_etag after;
      before_size = some before.size;
      after_size = stored_size after;
    })
change_for_move _ _ from to = err missing_from_commit

abbrev pub moved_from : PendingChanges → Text → Bool
moved_from pending p = any (λ m. m.from === p) pending.moves

abbrev pub moved_to : PendingChanges → Text → Bool
moved_to pending p = any (λ m. m.to === p) pending.moves

module _ (compare_paths : Text → Text → Ordering) where
  unfoldable pub preview_workspace_changes :
      PendingChanges → (Text → Result WorkspaceEntryKind) → Result (List WorkspaceChange)
  preview_workspace_changes pending kind_of = do
    moves ←
        each
          (λ m. do
            kind ← kind_of m.to
            ok (record (bare_change move_change kind m.to) {
              move_from = some m.from;
              move_to = some m.to;
            }))
          pending.moves
    upserts ←
        each (λ path. do kind ← kind_of path; ok (bare_change upsert_change kind path))
          (keep (λ path. not (moved_to pending path)) pending.upserts)
    ok (
        sort_by_path compare_paths (λ c. c.path)
          (moves
            ++ (map change_for_delete
                  (keep (λ (e : RemoteEntry). not (moved_from pending e.path)) pending.deletions)
                ++ upserts)))

  -- `x ?? y`, where `y` may throw
  abbrev pub or_read : {A : Type 0} → Option A → Result (Option A) → Result (Option A)
  or_read none r = r
  or_read (some a) r = ok (some a)

  abbrev pub as_stored : Option RemoteEntry → Option Stored
  as_stored none = none
  as_stored (some e) = some (remote e)

  abbrev pub stored_baseline : Result (Option RemoteEntry) → Result (Option Stored)
  stored_baseline r = do entry ← r; ok (as_stored entry)

  unfoldable pub committed_workspace_changes :
      PendingChanges
      → List Stored
      → List RemoteEntry
      → (Text → Result (Option RemoteEntry))
      → Result (List WorkspaceChange)
  committed_workspace_changes pending uploads baseline baseline_entry =
      let before = by_path baseline in
      let uploaded = of_entries [] (map (λ u. (stored_path u, u)) uploads) in
      do
        moves ←
            each
              (λ m. do
                from ← or_read (get before m.from) (baseline_entry m.from)
                to ← or_read (get uploaded m.to) (stored_baseline (baseline_entry m.to))
                change_for_move from to m.from m.to)
              pending.moves
        upserts ←
            each
              (λ path. do
                stored ← or_read (get uploaded path) (stored_baseline (baseline_entry path))
                change_for_upload stored (get before path))
              (keep (λ path. not (moved_to pending path)) pending.upserts)
        ok (
            sort_by_path compare_paths (λ c. c.path)
              (moves
                ++ (map (λ (e : RemoteEntry). change_for_delete (or_else (get before e.path) e))
                      (keep (λ (e : RemoteEntry). not (moved_from pending e.path))
                        pending.deletions)
                    ++ upserts)))

-- The paths of the tree after the commit, each once.
unfoldable pub visible_paths : List Text → List RemoteEntry → List UploadEntry → List Text
visible_paths deleted [] [] = []
visible_paths deleted [] (u ∷ us) =
    let rest = visible_paths deleted [] us in if includes rest u.path then rest else u.path ∷ rest
visible_paths deleted (e ∷ es) uploads =
    let rest = visible_paths deleted es uploads in
    if includes deleted e.path || includes rest e.path then rest else e.path ∷ rest

unfoldable pub visible_entry_count : List RemoteEntry → List RemoteEntry → List UploadEntry → ℕ
visible_entry_count baseline deletions uploads =
    length (visible_paths (map (λ (e : RemoteEntry). e.path) deletions) baseline uploads)

abbrev pub audited_hash : Option Text → Option RemoteEntry → Option Text
audited_hash (some hash) prior = some hash
audited_hash none none = none
audited_hash none (some prior) = prior.content_hash

unfoldable pub merge_audit_baseline : List RemoteEntry → List RemoteEntry → List RemoteEntry
merge_audit_baseline current audited =
    map
      (λ (entry : RemoteEntry). record entry {
        content_hash = audited_hash entry.content_hash (get (by_path audited) entry.path);
      })
      current

unfoldable pub same_remote_version : RemoteEntry → RemoteEntry → Bool
same_remote_version baseline current =
    if is_some baseline.etag || is_some current.etag
    then same_option ◌===◌ baseline.etag current.etag
    else if is_some baseline.version_hash || is_some current.version_hash
    then same_option ◌===◌ baseline.version_hash current.version_hash
    else baseline.size == current.size && baseline.modified_at == current.modified_at
