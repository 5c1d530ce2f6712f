-- ===== src/History/Diff.antt =====
-- src/history/diff.ts: the difference of two revisions.
pub mod Detection
pub mod Laws
use supabash_fs.History.Recovery.{push_some}
use supabash_fs.Prelude.{
  Bool, List, Option, Ordering, Result, Text, [], err, false, find_first, if◌then◌else◌, includes,
  keep, ltb, none, not, ok, same_option, some, sort, text, true, ℕ, ◌&&◌, ◌++◌, ◌===◌, ◌==◌, ◌>>=◌,
  ◌>>◌, ◌||◌, ◌∷◌,
}
use supabash_fs.Prelude.Dict.{Dict, get, has, keys, of_entries}
use supabash_fs.Prelude.Json.{Number}
use supabash_fs.Core.Path.{root_path}
use supabash_fs.Core.Entries.{Bytes, same_kind, sort_by_path}
use supabash_fs.History.Records.{CheckpointRecord, RevisionEntry, RevisionRecord}
use supabash_fs.History.Store.{HistoryStore}
use supabash_fs.History.Quota.{WorkspaceLimits, diff_preview_limit}
use supabash_fs.History.Query.{revision_not_found_error}
use supabash_fs.History.Snapshot.{by_path_pairs}
use supabash_fs.History.Preview.{
  RevisionDiffKind, added, deleted, metadata, modified, moved, revision_diff_preview, type_change,
  unavailable,
}

pub data RevisionDiffRef : Type 0 where
  at_revision at_checkpoint : Text → RevisionDiffRef
  at_staged : RevisionDiffRef

pub record RevisionDiffInput : Type 0 where
  pub from : RevisionDiffRef
  pub paths : Option (List Text)
  pub preview_bytes : Option Number
  pub to : RevisionDiffRef

pub record RevisionDiffEntry : Type 0 where
  pub after_hash : Option Text
  pub before_hash : Option Text
  pub kind : RevisionDiffKind
  pub move_from : Option Text
  pub move_to : Option Text
  pub path : Text
  pub preview : Option Text

pub record RevisionDiff : Type 0 where
  pub entries : List RevisionDiffEntry
  pub from_revision : Text
  pub to_revision : Text

-- The entries of a state and its label
abbrev pub DiffState : Type 0
DiffState = List RevisionEntry × Text

abbrev pub state_of : Text → Option RevisionRecord → Result DiffState
state_of revision none = err revision_not_found_error
state_of revision (some found) = ok (found.entries, revision)

abbrev pub resolve_revision : HistoryStore → Text → Result DiffState
resolve_revision s revision = state_of revision (get s.revisions revision)

abbrev pub resolve_checkpoint : HistoryStore → Option CheckpointRecord → Result DiffState
resolve_checkpoint s none = err revision_not_found_error
resolve_checkpoint s (some checkpoint) = resolve_revision s checkpoint.revision

abbrev pub resolve_staged : Option (List RevisionEntry) → Result DiffState
resolve_staged none = err revision_not_found_error
resolve_staged (some entries) = ok (entries, text "staged")

unfoldable pub resolve_ref :
    HistoryStore → Option (List RevisionEntry) → RevisionDiffRef → Result DiffState
resolve_ref s staged at_staged = resolve_staged staged
resolve_ref s staged (at_checkpoint id) = resolve_checkpoint s (get s.checkpoints id)
resolve_ref s staged (at_revision revision) = resolve_revision s revision

abbrev pub hash_of : Option RevisionEntry → Option Text
hash_of none = none
hash_of (some entry) = entry.content_hash

abbrev pub described :
    RevisionDiffKind → Text → Option RevisionEntry → Option RevisionEntry → RevisionDiffEntry
described kind path before after = record {
  after_hash = hash_of after;
  before_hash = hash_of before;
  kind = kind;
  move_from = none;
  move_to = none;
  path = path;
  preview = none;
}

abbrev pub same_hash : RevisionEntry → RevisionEntry → Bool
same_hash before after = same_option ◌===◌ before.content_hash after.content_hash

abbrev pub unchanged_entry : RevisionEntry → RevisionEntry → Bool
unchanged_entry before after =
    same_hash before after
    && before.mode == after.mode
    && same_option ◌===◌ before.target after.target

-- The kind of change of an entry that both states have, from the answers to whether the entry kinds
-- differ, nothing changed, and the hashes are the same
abbrev pub kind_of_change : Bool → Bool → Bool → Option RevisionDiffKind
kind_of_change true same hash = some type_change
kind_of_change false true hash = none
kind_of_change false false true = some metadata
kind_of_change false false false = some modified

abbrev pub changed :
    RevisionEntry → RevisionEntry → Option RevisionDiffKind → Option RevisionDiffEntry
changed before after none = none
changed before after (some kind) = some (described kind after.path (some before) (some after))

unfoldable pub describe_diff :
    Option RevisionEntry → Option RevisionEntry → Option RevisionDiffEntry
describe_diff none (some after) = some (described added after.path none (some after))
describe_diff (some before) none = some (described deleted before.path (some before) none)
describe_diff none none = some (described unavailable root_path none none)
describe_diff (some before) (some after) = changed before after (
    kind_of_change (not (same_kind before.entry_kind after.entry_kind))
      (unchanged_entry before after) (same_hash before after))

abbrev pub same_content : Option RevisionEntry → Option RevisionEntry → Bool
same_content (some left) (some right) =
    same_kind left.entry_kind right.entry_kind
    && same_hash left right
    && same_option ◌===◌ left.target right.target
same_content _ _ = false

abbrev pub is_deleted : RevisionDiffEntry → Bool
is_deleted entry = elim entry.kind [ deleted ↦ true | _ ↦ false ]

abbrev pub is_added : RevisionDiffEntry → Bool
is_added entry = elim entry.kind [ added ↦ true | _ ↦ false ]

abbrev pub move_of : RevisionDiffEntry → RevisionDiffEntry → RevisionDiffEntry
move_of removed found = record {
  after_hash = found.after_hash;
  before_hash = removed.before_hash;
  kind = moved;
  move_from = some removed.path;
  move_to = some found.path;
  path = found.path;
  preview = none;
}

-- The entries that were consumed, by their paths, which are distinct, and the moves found. The moves
-- are kept with the latest last.
pub record Moves : Type 0 where
  pub consumed : List Text
  pub moves : List RevisionDiffEntry

abbrev pub no_moves : Moves
no_moves = record { consumed = []; moves = [] }

abbrev pub with_move : Moves → RevisionDiffEntry → Option RevisionDiffEntry → Moves
with_move found removed none = found
with_move found removed (some new) = record {
  consumed = new.path ∷ removed.path ∷ found.consumed;
  moves = found.moves ++ move_of removed new ∷ [];
}

module _ (before after : Dict RevisionEntry) where
  abbrev pub matching : List Text → RevisionDiffEntry → RevisionDiffEntry → Bool
  matching consumed removed candidate =
      not (includes consumed candidate.path)
      && same_content (get before removed.path) (get after candidate.path)

  abbrev pub find_moves : List RevisionDiffEntry → Moves → List RevisionDiffEntry → Moves
  find_moves additions found [] = found
  find_moves additions found (removed ∷ rest) =
      find_moves additions
        (with_move found removed (find_first (matching found.consumed removed) additions)) rest

  module _ (compare_paths : Text → Text → Ordering) where
    unfoldable pub detect_moves : List RevisionDiffEntry → List RevisionDiffEntry
    detect_moves entries =
        let found = find_moves (keep is_added entries) no_moves (keep is_deleted entries) in
        sort_by_path compare_paths (λ (e : RevisionDiffEntry). e.path)
          (keep (λ (e : RevisionDiffEntry). not (includes found.consumed e.path)) entries
            ++ found.moves)

-- `toSorted()` without a comparator: by code units
abbrev pub text_leb : Text → Text → Bool
text_leb [] t = true
text_leb (c ∷ s) [] = false
text_leb (c ∷ s) (d ∷ t) = let rest = text_leb s t in if c == d then rest else ltb c d

abbrev pub entry_map : List RevisionEntry → Dict RevisionEntry
entry_map entries = of_entries [] (by_path_pairs (λ (e : RevisionEntry). e.path) entries)

abbrev pub all_paths : Dict RevisionEntry → Dict RevisionEntry → List Text
all_paths from to = sort text_leb (keys from ++ keep (λ path. not (has from path)) (keys to))

abbrev pub is_selected : Option (List Text) → RevisionDiffEntry → Bool
is_selected none entry = true
is_selected (some paths) entry =
    includes paths entry.path
    || (elim entry.move_from [ none ↦ false | some source ↦ includes paths source ])

module _ (encode : Text → Bytes) (decode : Bytes → Option Text)
    (compare_paths : Text → Text → Ordering) where
  abbrev pub with_preview :
      HistoryStore
      → Option RevisionEntry
      → Option RevisionEntry
      → ℕ
      → Option RevisionDiffEntry
      → Option RevisionDiffEntry
  with_preview s before after limit none = none
  with_preview s before after limit (some entry) = some (record entry {
    preview = revision_diff_preview encode decode s entry.kind before after limit;
  })

  unfoldable pub diff_entry :
      HistoryStore → ℕ → Option RevisionEntry → Option RevisionEntry → Option RevisionDiffEntry
  diff_entry s limit before after = with_preview s before after limit (describe_diff before after)

  abbrev pub raw_entries :
      HistoryStore
      → ℕ
      → Dict RevisionEntry
      → Dict RevisionEntry
      → List Text
      → List RevisionDiffEntry
  raw_entries s limit from to [] = []
  raw_entries s limit from to (path ∷ paths) =
      push_some (diff_entry s limit (get from path) (get to path))
        (raw_entries s limit from to paths)

  unfoldable pub diff_states :
      HistoryStore
      → ℕ
      → Option (List Text)
      → List RevisionEntry
      → List RevisionEntry
      → List RevisionDiffEntry
  diff_states s limit paths from to =
      let before = entry_map from in
      let after = entry_map to in
      keep (is_selected paths) (
        detect_moves before after compare_paths
          (raw_entries s limit before after (all_paths before after)))

  unfoldable pub diff_revisions :
      HistoryStore
      → RevisionDiffInput
      → Option (List RevisionEntry)
      → WorkspaceLimits
      → Result RevisionDiff
  diff_revisions s input staged limits = do
    from ← resolve_ref s staged input.from
    to ← resolve_ref s staged input.to
    limit ← diff_preview_limit input.preview_bytes limits
    ok (record {
      entries = diff_states s limit input.paths from.0 to.0;
      from_revision = from.1;
      to_revision = to.1;
    })
