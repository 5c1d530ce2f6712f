-- ===== src/Core/Tracked/Restore.antt =====
-- src/core/tracked-restore.ts: the live tree of a set of entries, and what it changes of a baseline.
use supabash_fs.Prelude.Exec.{Exec, lift, pure, ◌>>=◌, ◌>>◌}
use supabash_fs.Core.Tracked.State.{add, set_directories}
use supabash_fs.Prelude.{
  Bool, List, Option, Ordering, Result, Text, [], any, false, if◌then◌else◌, is_some, map, none, ok,
  or_else, same_option, some, true, ℕ, ◌&&◌, ◌===◌, ◌==◌, ◌||◌, ◌∷◌,
}
use supabash_fs.Prelude.Dict.{Dict, get, of_entries, set}
use supabash_fs.Core.Path.{parent_paths, root_path}
use supabash_fs.Core.Entries.{
  Bytes, RemoteEntry, WorkspaceEntryKind, directory, file, order_remote_entries, same_kind, symlink,
}

-- The baseline by path: `new Map(entries.map((entry) => [entry.path, entry]))`
unfoldable pub by_path : List RemoteEntry → Dict RemoteEntry
by_path entries = of_entries [] (map (λ e. (e.path, e)) entries)

unfoldable pub same_staged_entry : Option RemoteEntry → RemoteEntry → Bool
same_staged_entry none target = false
same_staged_entry (some baseline) target =
    if same_kind baseline.kind target.kind
    then (elim target.kind [
      | directory ↦ baseline.mode == target.mode
      | symlink ↦ same_option ◌===◌ baseline.target target.target
      | file ↦
          is_some baseline.content_hash
          && same_option ◌===◌ baseline.content_hash target.content_hash
    ])
    else false

unfoldable pub deletions_against : Dict RemoteEntry → List RemoteEntry → Dict RemoteEntry
deletions_against [] entries = []
deletions_against ((path, remote) ∷ baseline) entries =
    let rest = deletions_against baseline entries in
    if path === root_path || any (λ e. e.path === path) entries then rest else (path, remote) ∷ rest

unfoldable pub upserts_against : Dict RemoteEntry → List Text → List RemoteEntry → List Text
upserts_against baseline found [] = found
upserts_against baseline found (entry ∷ entries) =
    upserts_against baseline
      (if entry.path === root_path || same_staged_entry (get baseline entry.path) entry
        then found
        else add found entry.path)
      entries

-- just-bash's `InMemoryFs`, as far as the tree calls it: a call changes the files `F` or throws.
pub record InMemoryFs (F : Type 0) : Type 0 where
  pub fresh : Option ℕ → F
  pub write_file_lazy : Text → Result Bytes → ℕ → ℕ → Exec F (Unit {0})
  pub write_file : Text → Bytes → Exec F (Unit {0})
  pub append_file : Text → Bytes → Exec F (Unit {0})
  pub mkdir : Text → Bool → Exec F (Unit {0})
  pub rm : Text → Bool → Bool → Exec F (Unit {0})
  pub cp : Text → Text → Bool → Exec F (Unit {0})
  pub mv : Text → Text → Exec F (Unit {0})
  pub chmod : Text → ℕ → Exec F (Unit {0})
  pub symlink : Text → Text → Exec F (Unit {0})
  pub link : Text → Text → Exec F (Unit {0})
  pub utimes : Text → ℕ → ℕ → Exec F (Unit {0})
  pub realpath : Text → F → Result Text
  pub read_file_buffer : Text → F → Result Bytes
  pub mode_of : Text → F → Result ℕ
  pub get_all_paths : F → List Text

abbrev pub root_kinds : Dict WorkspaceEntryKind
root_kinds = (root_path, directory) ∷ []

module _ {F : Type 0} (fs : InMemoryFs F) (download : RemoteEntry → Result Bytes) where
  unfoldable pub restore_remote_entry : Bool → RemoteEntry → Exec F (Unit {0})
  restore_remote_entry eager entry = elim entry.kind [
    | file ↦
        if eager
        then (do
          body ← lift (download entry)
          fs.write_file_lazy entry.path (ok body) entry.mode entry.modified_at)
        else fs.write_file_lazy entry.path (download entry) entry.mode entry.modified_at
    | directory ↦ do
      fs.mkdir entry.path true
      fs.chmod entry.path entry.mode
      fs.utimes entry.path entry.modified_at entry.modified_at
    | symlink ↦ fs.symlink (or_else entry.target []) entry.path
  ]

  -- The loop of `rebuildLiveTree`: the kinds found, beside the files.
  unfoldable pub restore_entries :
      Bool → Dict WorkspaceEntryKind → List RemoteEntry → Exec F (Dict WorkspaceEntryKind)
  restore_entries eager kinds [] = pure kinds
  restore_entries eager kinds (entry ∷ entries) = do
    parents ← lift (parent_paths entry.path)
    restore_remote_entry eager entry
    restore_entries eager (set (set_directories kinds parents) entry.path entry.kind) entries

  module _ (compare_paths : Text → Text → Ordering) where
    -- The kinds and the files of the new tree, if nothing throws.
    unfoldable pub rebuild_live_tree :
        List RemoteEntry → Bool → Option ℕ → Result (Dict WorkspaceEntryKind) × F
    rebuild_live_tree entries eager max_total_bytes =
        restore_entries eager root_kinds (order_remote_entries compare_paths entries)
          (fs.fresh max_total_bytes)
