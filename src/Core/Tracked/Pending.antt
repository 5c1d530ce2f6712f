-- ===== src/Core/Tracked/Pending.antt =====
-- The pending changes and the kinds of `TrackedFileSystem` (src/core/tracked-file-system.ts).
use supabash_fs.Prelude.{
  List, Result, Text, err, invalid_path, map, none, ok, some, supabash_error, ◌>>=◌,
}
use supabash_fs.Prelude.Dict.{Dict, get, values}
use supabash_fs.Core.Path.{normalize_virtual_path}
use supabash_fs.Core.RuntimePaths.{persistent}
use supabash_fs.Core.Entries.{PendingChanges, PendingMove, WorkspaceEntryKind, sort_by_path}
use supabash_fs.Core.Tracked.Operations.{Host, TrackedFileSystem}

-- The moves as `from` and `to`.
abbrev pub pending_moves : Dict Text → List PendingMove
pending_moves moves = map (λ m. record { from = m.0; to = m.1 }) moves

module _ {F : Type 0} (host : Host F) where
  unfoldable pub pending_preview : TrackedFileSystem F → Result PendingChanges
  pending_preview s = do
    deletions ← persistent (λ e. e.path) (values s.deletions)
    from_stored ← persistent (λ m. m.from) (pending_moves s.moves)
    moves ← persistent (λ m. m.to) from_stored
    upserts ← persistent (λ p. p) s.upserts
    ok (record {
      deletions = sort_by_path host.compare_paths (λ e. e.path) deletions;
      moves = sort_by_path host.compare_paths (λ m. m.from) moves;
      upserts = sort_by_path host.compare_paths (λ p. p) upserts;
    })

module _ {F : Type 0} where
  unfoldable pub kind_of : Text → TrackedFileSystem F → Result WorkspaceEntryKind
  kind_of path s = do
    normalized ← normalize_virtual_path path
    elim (get s.kinds normalized) [
      | none ↦ err (supabash_error invalid_path (some path))
      | some kind ↦ ok kind
    ]
