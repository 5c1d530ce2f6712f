-- ===== src/Tests/Tracked.antt =====
-- Sessions of src/core/tracked-file-system.ts on a small tree, and the changes it reports.
use supabash_fs.Prelude.{
  Bool, List, Ordering, Result, Text, [], any, arith, commit_in_progress, err, false, includes,
  join, none, not, ok, or_else, refl, some, sort, split, starts_with, supabash_error, text, true,
  ◌&&◌, ◌++◌, ◌===◌, ◌||◌, ◌∷◌, ◌≡◌,
}
use supabash_fs.Prelude.Dict.{Dict, delete, get, has, keys, set}
use supabash_fs.Prelude.Exec.{Exec, ◌>>=◌}
use supabash_fs.Core.Path.{
  absolute_segments, encoded_at, has_encoded, normalize_virtual_path, parent_paths, render, resolve,
  root_path,
}
use supabash_fs.Core.RuntimePaths.{is_runtime_owned_path, persistent}
use supabash_fs.Core.Entries.{
  Bytes, PendingChanges, RemoteEntry, WorkspaceEntryKind, file, order_remote_entries, sort_by_path,
}
use supabash_fs.Core.Changes.{
  WorkspaceChange, bare_change, move_change, preview_workspace_changes, upsert_change,
}
use supabash_fs.Core.Changes.Laws.{names, preview-names, touches}
use supabash_fs.Core.Tracked.Restore.{
  InMemoryFs, by_path, deletions_against, rebuild_live_tree, restore_entries, restore_remote_entry,
  root_kinds, upserts_against,
}
use supabash_fs.Core.Tracked.Operations.{Host, TrackedFileSystem}
use supabash_fs.Core.Tracked.Calls.{Call, InOrder, run, run_locked}
use supabash_fs.Core.Tracked.Commit.{clean_tracking, finish_commit, reset}
use supabash_fs.Core.Tracked.Pending.{pending_preview}
use supabash_fs.Core.Tracked.Staging.{clean-IsTracked, lists, staged_paths}
use supabash_fs.Core.Tracked.Resets.{
  Event, begin, call, exact_session, fail, finish_commit_clean, nothing_pending, refresh, session,
  session-InOrder,
}

abbrev pub Files : Type 0
Files = Dict Bytes

abbrev update : (Files → Files) → Exec Files (Unit {0})
update change files = (ok tt, change files)

abbrev body_at : Files → Text → Bytes
body_at files path = or_else (get files path) []

-- A tree of files: directories, modes, times and links are not kept.
abbrev files_only : InMemoryFs Files
files_only = record {
  fresh = λ limit. [];
  write_file_lazy = λ path body mode time files. (ok tt, set files path []);
  write_file = λ path body. update (λ files. set files path body);
  append_file = λ path body. update (λ files. set files path (body_at files path ++ body));
  mkdir = λ path recursive. update (λ files. files);
  rm = λ path recursive force. update (λ files. delete files path);
  cp = λ from to recursive. update (λ files. set files to (body_at files from));
  mv = λ from to. update (λ files. set (delete files from) to (body_at files from));
  chmod = λ path mode. update (λ files. files);
  symlink = λ target path. update (λ files. files);
  link = λ from to. update (λ files. files);
  utimes = λ path accessed modified. update (λ files. files);
  realpath = λ path files. ok path;
  read_file_buffer = λ path files. ok (body_at files path);
  mode_of = λ path files. ok 420;
  get_all_paths = λ files. keys files;
}

abbrev any_order : Text → Text → Ordering
any_order a b = Ordering.eq

abbrev pub disk : Host Files
disk = record {
  fs = files_only;
  download = λ entry. ok [];
  sha256 = λ body. body;
  compare_paths = any_order;
}

abbrev pub note : RemoteEntry
note = record {
  content_hash = some (text "h");
  content_type = none;
  etag = none;
  kind = file;
  mode = 420;
  modified_at = 0;
  path = text "/note";
  size = 1;
  target = none;
  version_hash = none;
}

abbrev pub loaded : Bool → TrackedFileSystem Files
loaded committing = record {
  tracking = record (clean_tracking (note ∷ []) ((text "/note", file) ∷ root_kinds)) {
    commit_in_progress = committing;
  };
  inner = [];
  max_total_bytes = none;
}

run_locked_example :
    run disk (Call.write_file (text "/a") []) (loaded true)
    ≡ (err (supabash_error commit_in_progress none), loaded true)
run_locked_example = run_locked disk (Call.write_file (text "/a") []) (loaded true) refl

loaded-InOrder : InOrder true (loaded false)
loaded-InOrder =
    clean-IsTracked (note ∷ []) ((text "/note", file) ∷ root_kinds)
      (λ p h. unfold get in ground arith)

abbrev working_day : List Event
working_day =
    call (Call.write_file (text "/a") (1 ∷ []))
    ∷ call (Call.mv (text "/note") (text "/b"))
    ∷ begin
    ∷ refresh (note ∷ [])
    ∷ fail
    ∷ call (Call.rm (text "/a") false false)
    ∷ []

session-InOrder_example :
    InOrder
      (exact_session disk working_day (loaded false) true)
      (session disk working_day (loaded false))
session-InOrder_example = session-InOrder disk working_day (loaded false) true loaded-InOrder

abbrev other : RemoteEntry
other = record note { path = text "/other" }

other_not_root : (text "/other" === root_path) ≡ false
unfolding ◌===◌
other_not_root = refl

staged_paths_example :
    ((has (by_path (note ∷ [])) (text "/other")
        && not (has (deletions_against (by_path (note ∷ [])) (other ∷ [])) (text "/other")))
      || includes (upserts_against (by_path (note ∷ [])) [] (other ∷ [])) (text "/other"))
    ≡ lists (other ∷ []) (text "/other")
staged_paths_example =
    staged_paths (by_path (note ∷ [])) (other ∷ []) (text "/other") other_not_root

other_persists : persistent (λ (e : RemoteEntry). e.path) (other ∷ []) ≡ ok (other ∷ [])
unfolding persistent is_runtime_owned_path normalize_virtual_path has_encoded encoded_at resolve
    absolute_segments split starts_with ◌===◌ render join
other_persists = refl

other_finishes : (finish_commit disk (other ∷ []) (loaded false)).0 ≡ ok tt
unfolding reset ◌>>=◌ rebuild_live_tree restore_entries order_remote_entries sort
    restore_remote_entry parent_paths persistent is_runtime_owned_path normalize_virtual_path
    has_encoded encoded_at resolve absolute_segments split starts_with ◌===◌ render join
other_finishes = refl

finish_commit_clean_example :
    (pending_preview disk (finish_commit disk (other ∷ []) (loaded false)).1
      ≡ ok (nothing_pending disk))
    × ((finish_commit disk (other ∷ []) (loaded false)).1.commit_in_progress ≡ false)
    × ((finish_commit disk (other ∷ []) (loaded false)).1.baseline ≡ by_path (other ∷ []))
finish_commit_clean_example =
    finish_commit_clean disk (other ∷ []) (other ∷ []) (loaded false) other_persists other_finishes

abbrev staged : PendingChanges
staged = record {
  deletions = note ∷ [];
  moves = record { from = text "/note"; to = text "/b" } ∷ [];
  upserts = text "/b" ∷ text "/c" ∷ [];
}

abbrev always_file : Text → Result WorkspaceEntryKind
always_file path = ok file

abbrev staged_preview : List WorkspaceChange
staged_preview =
    record (bare_change move_change file (text "/b")) {
      move_from = some (text "/note");
      move_to = some (text "/b");
    }
    ∷ bare_change upsert_change file (text "/c")
    ∷ []

staged_previews : preview_workspace_changes any_order staged always_file ≡ ok staged_preview
unfolding preview_workspace_changes sort_by_path sort ◌===◌
staged_previews = refl

preview-names_example : any (λ c. names c (text "/c")) staged_preview ≡ touches staged (text "/c")
preview-names_example = preview-names any_order staged always_file (text "/c") staged_previews
