-- ===== src/Core/Tracked/Operations.antt =====
-- The methods of `TrackedFileSystem` (src/core/tracked-file-system.ts).
use supabash_fs.Prelude.Exec.{Exec, for_each, gets, lift, modify, pure, reads, throw, ◌>>=◌, ◌>>◌}
use supabash_fs.Core.Tracked.State.{
  Tracking, entries_within, record_deletion, record_move, record_upsert, remove,
}
use supabash_fs.Prelude.{
  Bool, List, Option, Ordering, Result, Text, commit_in_progress, err, false, if◌then◌else◌,
  includes, invalid_path, keep, none, not, ok, some, supabash_error, ℕ, ◌&&◌, ◌===◌, ◌==◌, ◌||◌,
}
use supabash_fs.Prelude.Dict.{delete, get, has, set}
use supabash_fs.Core.Path.{move_descendant, normalize_virtual_path}
use supabash_fs.Core.Entries.{Bytes, RemoteEntry, WorkspaceEntryKind, directory, file, same_kind}
use supabash_fs.Core.Tracked.Restore.{InMemoryFs}

pub record TrackedFileSystem (F : Type 0) : Type 0 where
  pub tracking : Tracking
  pub open tracking use *
  pub inner : F
  pub max_total_bytes : Option ℕ

-- What the tree takes from outside: the files, downloads, hashes and the collation.
pub record Host (F : Type 0) : Type 0 where
  pub fs : InMemoryFs F
  pub download : RemoteEntry → Result Bytes
  pub sha256 : Bytes → Text
  pub compare_paths : Text → Text → Ordering

abbrev pub Action : Type 0 → Type 0 → Type 0
Action F A = Exec (TrackedFileSystem F) A

module _ {F : Type 0} where
  unfoldable pub assert_mutable : Action F (Unit {0})
  assert_mutable s =
      if s.commit_in_progress then (err (supabash_error commit_in_progress none), s) else (ok tt, s)

  -- A call on the in-memory tree.
  unfoldable pub on_inner : {A : Type 0} → Exec F A → Action F A
  on_inner m s = let (r, files) = m s.inner in (r, record s { inner = files })

  abbrev reading : {A : Type 0} → (F → Result A) → Action F A
  reading f = reads (λ s. f s.inner)

  abbrev pub tracked : Result Tracking → Action F (Unit {0})
  tracked (ok t) s = (ok tt, record s { tracking = t })
  tracked (err e) s = (err e, s)

  unfoldable pub track_upsert : Text → WorkspaceEntryKind → Action F (Unit {0})
  track_upsert path kind s = tracked (record_upsert path kind s.tracking) s

  unfoldable pub track_deletion : Text → Action F (Unit {0})
  track_deletion path s = tracked (record_deletion path s.tracking) s

  unfoldable pub track_move : Text → Text → Action F (Unit {0})
  track_move from to s = tracked (ok (record_move from to s.tracking)) s

  abbrev pub upsert_known : Text → Option WorkspaceEntryKind → Action F (Unit {0})
  upsert_known path none = throw (supabash_error invalid_path (some path))
  upsert_known path (some kind) = track_upsert path kind

  unfoldable pub track_existing_upsert : Text → Action F (Unit {0})
  track_existing_upsert path s = upsert_known path (get s.kinds path) s

  abbrev pub within : Text → Action F (List (Text × WorkspaceEntryKind))
  within path = reads (λ s. entries_within s.kinds path)

  abbrev pub was_changed : Text → TrackedFileSystem F → Bool
  was_changed path s = includes s.upserts path || has s.deletions path

  module _ (host : Host F) where
    open host use {fs, download, sha256, compare_paths}

    -- The hash that an entry states, or that of its body.
    abbrev pub stated_hash : RemoteEntry → Option Text → Result Text
    stated_hash entry (some known) = ok known
    stated_hash entry none = elim (download entry) [ ok body ↦ ok (sha256 body) | err e ↦ err e ]

    abbrev pub cached_hash : RemoteEntry → Option (Result Text) → Action F Text
    cached_hash entry (some existing) s = (existing, s)
    cached_hash entry none s =
        let hash = stated_hash entry entry.content_hash in
        (
          hash,
          record s {
            tracking = record s.tracking {
              baseline_hashes = set s.baseline_hashes entry.path hash;
            };
          },
        )

    -- The result of `hashForRemote`, and the cache after it.
    unfoldable pub hash_for_remote : RemoteEntry → Action F Text
    hash_for_remote entry s = cached_hash entry (get s.baseline_hashes entry.path) s

    unfoldable pub matches_file : RemoteEntry → Action F Bool
    matches_file baseline = do
      mode ← reading (fs.mode_of baseline.path)
      body ← reading (fs.read_file_buffer baseline.path)
      hash ← hash_for_remote baseline
      pure ((sha256 body === hash) && (mode == baseline.mode))

    unfoldable pub file_matches_baseline : Option RemoteEntry → Action F Bool
    file_matches_baseline none = pure false
    file_matches_baseline (some baseline) =
        if same_kind baseline.kind file then matches_file baseline else pure false

    abbrev pub unchanged : Text → Tracking → Tracking
    unchanged path t = record t {
      deletions = delete t.deletions path;
      upserts = remove t.upserts path;
    }

    unfoldable pub reconcile_file : Text → Action F (Unit {0})
    reconcile_file path = do
      baseline ← gets (λ s. get s.baseline path)
      same ← file_matches_baseline baseline
      if same then modify (λ s. record s { tracking = unchanged path s.tracking }) else pure tt

    -- What `writeFile` and `appendFile` share.
    unfoldable pub write_with :
        (Text → Bytes → Exec F (Unit {0})) → Text → Bytes → Action F (Unit {0})
    write_with write path content = do
      assert_mutable
      normalized ← lift (normalize_virtual_path path)
      changed ← gets (was_changed normalized)
      on_inner (write normalized content)
      track_upsert normalized file
      if changed then reconcile_file normalized else pure tt

    abbrev pub write_file : Text → Bytes → Action F (Unit {0})
    write_file = write_with fs.write_file

    abbrev pub append_file : Text → Bytes → Action F (Unit {0})
    append_file = write_with fs.append_file

    unfoldable pub mkdir : Text → Bool → Action F (Unit {0})
    mkdir path recursive = do
      assert_mutable
      before ← gets (λ s. fs.get_all_paths s.inner)
      normalized ← lift (normalize_virtual_path path)
      on_inner (fs.mkdir normalized recursive)
      after ← gets (λ s. fs.get_all_paths s.inner)
      for_each (λ created. track_upsert created directory)
          (keep (λ p. not (includes before p)) after)

    unfoldable pub rm : Text → Bool → Bool → Action F (Unit {0})
    rm path recursive force = do
      assert_mutable
      normalized ← lift (normalize_virtual_path path)
      removed ← within normalized
      on_inner (fs.rm normalized recursive force)
      for_each (λ entry. track_deletion entry.0) removed

    -- The upserts of `cp` and `mv` at the destination
    abbrev pub upsert_below : Text → Text → Text × WorkspaceEntryKind → Action F (Unit {0})
    upsert_below source destination entry = do
      to ← lift (move_descendant entry.0 source destination)
      track_upsert to entry.1

    unfoldable pub cp : Text → Text → Bool → Action F (Unit {0})
    cp source destination recursive = do
      assert_mutable
      from ← lift (normalize_virtual_path source)
      to ← lift (normalize_virtual_path destination)
      copied ← within from
      on_inner (fs.cp from to recursive)
      for_each (upsert_below from to) copied

    abbrev pub move_out : Text → Text → Text × WorkspaceEntryKind → Action F (Unit {0})
    move_out source destination entry = do
      to ← lift (move_descendant entry.0 source destination)
      track_move entry.0 to
      track_deletion entry.0

    unfoldable pub mv : Text → Text → Action F (Unit {0})
    mv source destination = do
      assert_mutable
      from ← lift (normalize_virtual_path source)
      to ← lift (normalize_virtual_path destination)
      moving ← within from
      on_inner (fs.mv from to)
      for_each (move_out from to) moving
      for_each (upsert_below from to) moving

    unfoldable pub chmod : Text → ℕ → Action F (Unit {0})
    chmod path mode = do
      assert_mutable
      normalized ← lift (normalize_virtual_path path)
      on_inner (fs.chmod normalized mode)
      track_existing_upsert normalized

    unfoldable pub symlink : Text → Text → Action F (Unit {0})
    symlink target link_path = do
      assert_mutable
      normalized ← lift (normalize_virtual_path link_path)
      on_inner (fs.symlink target normalized)
      track_upsert normalized WorkspaceEntryKind.symlink

    unfoldable pub link : Text → Text → Action F (Unit {0})
    link existing_path new_path = do
      assert_mutable
      normalized ← lift (normalize_virtual_path new_path)
      existing ← lift (normalize_virtual_path existing_path)
      on_inner (fs.link existing normalized)
      track_upsert normalized file

    unfoldable pub utimes : Text → ℕ → ℕ → Action F (Unit {0})
    utimes path atime mtime = do
      assert_mutable
      normalized ← lift (normalize_virtual_path path)
      real ← reading (fs.realpath normalized)
      changed ← lift (normalize_virtual_path real)
      on_inner (fs.utimes normalized atime mtime)
      track_existing_upsert changed
