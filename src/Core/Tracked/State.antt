-- ===== src/Core/Tracked/State.antt =====
-- The fields of `TrackedFileSystem`, and how src/core/tracked-inspection.ts records an upsert, a
-- deletion and a move.
use supabash_fs.Prelude.{
  Bool, List, Option, Result, Text, [], false, if◌then◌else◌, includes, none, not, ok, some, ◌&&◌,
  ◌++◌, ◌===◌, ◌>>=◌, ◌∷◌,
}
use supabash_fs.Prelude.Dict.{Dict, delete, get, has, set}
use supabash_fs.Core.Path.{is_same_or_descendant, normalize_virtual_path, parent_paths, root_path}
use supabash_fs.Core.Entries.{RemoteEntry, WorkspaceEntryKind, directory}

-- The bookkeeping of the filesystem: all fields but the in-memory tree and the download function.
-- A cached hash is the outcome of its promise, a rejection too.
pub record Tracking : Type 0 where
  pub baseline : Dict RemoteEntry
  pub baseline_hashes : Dict (Result Text)
  pub commit_in_progress : Bool
  pub deletions : Dict RemoteEntry
  pub kinds : Dict WorkspaceEntryKind
  pub moves : Dict Text
  pub upserts : List Text

-- `Set.add` and `Set.delete`
unfoldable pub add : List Text → Text → List Text
add xs p = if includes xs p then xs else xs ++ p ∷ []

unfoldable pub remove : List Text → Text → List Text
remove [] p = []
remove (x ∷ xs) p = let rest = remove xs p in if x === p then rest else x ∷ rest

unfoldable pub set_directories : Dict WorkspaceEntryKind → List Text → Dict WorkspaceEntryKind
set_directories kinds [] = kinds
set_directories kinds (parent ∷ rest) = set_directories (set kinds parent directory) rest

abbrev pub upserted : Text → WorkspaceEntryKind → List Text → Tracking → Tracking
upserted path kind parents t = record t {
  kinds = set (set_directories t.kinds parents) path kind;
  deletions = delete t.deletions path;
  upserts = add t.upserts path;
}

unfoldable pub record_upsert : Text → WorkspaceEntryKind → Tracking → Result Tracking
record_upsert path kind t = do parents ← parent_paths path; ok (upserted path kind parents t)

-- `moves` without the entries that lead to `to`
unfoldable pub without_target : Dict Text → Text → Dict Text
without_target [] to = []
without_target ((from, target) ∷ moves) to =
    let rest = without_target moves to in if target === to then rest else (from, target) ∷ rest

abbrev pub set_some : Dict RemoteEntry → Text → Option RemoteEntry → Dict RemoteEntry
set_some m k none = m
set_some m k (some entry) = set m k entry

abbrev pub deleted : Text → Tracking → Tracking
deleted path t = record t {
  deletions = set_some t.deletions path (get t.baseline path);
  upserts = remove t.upserts path;
  kinds = delete t.kinds path;
  moves = without_target t.moves path;
}

unfoldable pub record_deletion : Text → Tracking → Result Tracking
record_deletion path t = do normalized ← normalize_virtual_path path; ok (deleted normalized t)

-- The first move that leads to `destination`: its source.
unfoldable pub source_of : Dict Text → Text → Option Text
source_of [] destination = none
source_of ((from, target) ∷ moves) destination =
    if target === destination then some from else source_of moves destination

unfoldable pub moves_after : Text → Text → Tracking → Dict Text
moves_after from to t = elim (source_of t.moves from) [
  | some origin ↦
      if origin === to then delete t.moves origin else set (delete t.moves origin) origin to
  | none ↦ if has t.baseline from && not (from === to) then set t.moves from to else t.moves
]

unfoldable pub record_move : Text → Text → Tracking → Tracking
record_move from to t = record t { moves = moves_after from to t }

-- `entriesWithin`: the paths at or below `path`, the root excluded.
unfoldable pub entries_within :
    List (Text × WorkspaceEntryKind) → Text → Result (List (Text × WorkspaceEntryKind))
entries_within [] path = ok []
entries_within ((candidate, kind) ∷ entries) path = do
  inside ← if candidate === root_path then ok false else is_same_or_descendant candidate path
  rest ← entries_within entries path
  ok (if inside then (candidate, kind) ∷ rest else rest)
