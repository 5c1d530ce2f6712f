-- ===== src/History/Snapshot.antt =====
-- src/history/snapshot.ts: the tree after a commit, from the tree before it and the changes.
pub mod Laws
use supabash_fs.Prelude.{List, Text, [], map, ◌∷◌}
use supabash_fs.Prelude.Dict.{Dict, delete, of_entries, values}

module _ {A : Type 0} (path : A → Text) where
  abbrev pub by_path_pairs : List A → List (Text × A)
  by_path_pairs xs = map (λ x. (path x, x)) xs

  abbrev pub delete_all : Dict A → List Text → Dict A
  delete_all m [] = m
  delete_all m (p ∷ ps) = delete_all (delete m p) ps

  unfoldable pub overlay_by_path : List A → List Text → List A → List A
  overlay_by_path baseline deletions upserts = values (
      of_entries (delete_all (of_entries [] (by_path_pairs baseline)) deletions)
        (by_path_pairs upserts))
