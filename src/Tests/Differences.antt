-- ===== src/Tests/Differences.antt =====
-- A difference (src/history/diff.ts) with a move.
use supabash_fs.Prelude.{
  List, Option, Ordering, Text, [], any, false, if◌then◌else◌, none, refl, some, sort, text, ◌===◌,
  ◌↔◌, ◌∷◌, ◌≡◌,
}
use supabash_fs.Prelude.Dict.{get, of_entries, set}
use supabash_fs.Core.Entries.{Bytes, file, sort_by_path}
use supabash_fs.History.Records.{RevisionEntry}
use supabash_fs.History.Preview.{moved, render_preview, revision_diff_preview}
use supabash_fs.History.Diff.{
  RevisionDiffEntry, describe_diff, detect_moves, diff_entry, diff_states, text_leb,
}
use supabash_fs.History.Diff.Detection.{names}
use supabash_fs.History.Diff.Laws.{Agree, diff_states-names, entry_in}
use supabash_fs.Tests.Purges.{two_revisions}

abbrev plain_text : Bytes → Option Text
plain_text body = some body

abbrev in_order : Text → Text → Ordering
in_order a b = if text_leb a b then Ordering.lt else Ordering.gt

abbrev file_at : Text → Text → RevisionEntry
file_at path hash = record {
  content_hash = some hash;
  entry_kind = file;
  etag = none;
  mode = 420;
  path = path;
  size = 1;
  target = none;
}

abbrev earlier : List RevisionEntry
earlier = file_at (text "/a") (text "h1") ∷ file_at (text "/c") (text "h2") ∷ []

abbrev later : List RevisionEntry
later = file_at (text "/b") (text "h1") ∷ file_at (text "/c") (text "h2") ∷ []

abbrev shown : List RevisionDiffEntry
shown = diff_states (λ t. t) plain_text in_order two_revisions 0 none earlier later

diff_states-names_example :
    (any (names (text "/a")) shown ≡ false)
    ↔ Agree (entry_in earlier (text "/a")) (entry_in later (text "/a"))
diff_states-names_example =
    diff_states-names (λ t. t) plain_text in_order two_revisions 0 earlier later (text "/a")

abbrev a_to_b : RevisionDiffEntry
a_to_b = record {
  after_hash = some (text "h1");
  before_hash = some (text "h1");
  kind = moved;
  move_from = some (text "/a");
  move_to = some (text "/b");
  path = text "/b";
  preview = none;
}

one_move : shown ≡ a_to_b ∷ []
unfolding diff_states diff_entry describe_diff detect_moves revision_diff_preview render_preview
    sort_by_path get set of_entries sort ◌===◌
one_move = refl
