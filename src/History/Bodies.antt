-- ===== src/History/Bodies.antt =====
-- src/history/snapshot.ts: the entries of a revision, with their bodies stored by hash.
-- `sha256` and `utf8` stand for WebCrypto and TextEncoder.
use supabash_fs.Prelude.{List, Option, Ordering, Text, [], map, none, or_else, some, ◌∷◌}
use supabash_fs.Prelude.Dict.{get}
use supabash_fs.Prelude.Exec.{Exec, gets, pure, ◌>>=◌, ◌>>◌}
use supabash_fs.Core.Entries.{
  Bytes, RemoteEntry, WorkspaceEntryKind, directory, file, sort_by_path, symlink,
}
use supabash_fs.History.Records.{RevisionEntry}
use supabash_fs.History.Store.{put, with_object}
use supabash_fs.History.Storage.{Scoped, ScopedStorage, on_history, on_visible}
use supabash_fs.History.Snapshot.{overlay_by_path}

module _ {V : Type 0} (storage : ScopedStorage V) (sha256 : Bytes → Text) (utf8 : Text → Bytes)
    (compare_paths : Text → Text → Ordering) where
  abbrev pub object_of : Text → Exec (Scoped V) (Option Bytes)
  object_of hash = gets (λ s. get s.world.store.objects hash)

  abbrev pub put_object : Text → Bytes → Option Bytes → Exec (Scoped V) (Unit {0})
  put_object hash body (some stored) = pure tt
  put_object hash body none = on_history (put (with_object hash body))

  -- The body is downloaded and stored unless it is there.
  abbrev pub store_body : RemoteEntry → Exec (Scoped V) (Option Text)
  store_body entry = do
    body ← on_visible (storage.download entry)
    let hash = or_else entry.content_hash (sha256 body)
    stored ← object_of hash
    put_object hash body stored
    pure (some hash)

  abbrev pub unless_stored : RemoteEntry → Text → Option Bytes → Exec (Scoped V) (Option Text)
  unless_stored entry hash (some body) = pure (some hash)
  unless_stored entry hash none = store_body entry

  abbrev pub ensure_file : RemoteEntry → Option Text → Exec (Scoped V) (Option Text)
  ensure_file entry none = store_body entry
  ensure_file entry (some hash) = do stored ← object_of hash; unless_stored entry hash stored

  abbrev pub ensure_kind : RemoteEntry → WorkspaceEntryKind → Exec (Scoped V) (Option Text)
  ensure_kind entry directory = pure none
  ensure_kind entry symlink = pure (some (sha256 (utf8 (or_else entry.target []))))
  ensure_kind entry file = ensure_file entry entry.content_hash

  unfoldable pub ensure_object : RemoteEntry → Exec (Scoped V) (Option Text)
  ensure_object entry = ensure_kind entry entry.kind

  unfoldable pub stored_entry : RemoteEntry → Exec (Scoped V) RevisionEntry
  stored_entry entry = do
    hash ← ensure_object entry
    pure (record {
      content_hash = hash;
      entry_kind = entry.kind;
      etag = entry.etag;
      mode = entry.mode;
      path = entry.path;
      size = entry.size;
      target = entry.target;
    })

  abbrev pub stored_entries : List RemoteEntry → Exec (Scoped V) (List RevisionEntry)
  stored_entries [] = pure []
  stored_entries (entry ∷ entries) = do
    first ← stored_entry entry
    rest ← stored_entries entries
    pure (first ∷ rest)

  unfoldable pub revision_entries_from :
      List RemoteEntry → List RemoteEntry → List RemoteEntry → Exec (Scoped V) (List RevisionEntry)
  revision_entries_from baseline deletions uploads = stored_entries (
      sort_by_path compare_paths (λ (e : RemoteEntry). e.path)
        (overlay_by_path (λ (e : RemoteEntry). e.path) baseline
          (map (λ (e : RemoteEntry). e.path) deletions) uploads))
