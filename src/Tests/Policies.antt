-- ===== src/Tests/Policies.antt =====
-- Words of commands (src/policy) on examples.
use supabash_fs.Prelude.{
  List, [], drop, includes, join, map, none, refl, split, starts_with, text, true, ◌===◌, ◌||◌, ◌∷◌,
  ◌≡◌,
}
use supabash_fs.Core.Path.{
  absolute_segments, encoded_at, has_encoded, normalize_virtual_path, render, resolve,
}
use supabash_fs.Core.Path.Canonical.{IsCanonical}
use supabash_fs.Policy.Segments.{CommandWord, literal, segment_from_words, word_value}
use supabash_fs.Policy.Segments.Laws.{segment_from_words-covers}
use supabash_fs.Policy.Paths.{path_named, resolve_command_path, resolve_command_word}
use supabash_fs.Policy.Paths.Laws.{resolve_command_word-IsCanonical}

notes_resolved :
    resolve_command_word (literal (text "../notes")) (text "/work") ≡ path_named (text "/notes")
unfolding resolve_command_word resolve_command_path normalize_virtual_path has_encoded encoded_at
    resolve absolute_segments split starts_with ◌===◌ render join
notes_resolved = refl

resolve_command_word-IsCanonical_example : IsCanonical (text "/notes")
resolve_command_word-IsCanonical_example =
    resolve_command_word-IsCanonical (literal (text "../notes")) (text "/work") (text "/notes")
      notes_resolved

abbrev removal : List CommandWord
removal = literal (text "rm") ∷ literal (text "-r") ∷ literal (text "--") ∷ literal (text "-x") ∷ []

x_given : includes (drop 1 (map word_value removal)) (text "-x") ≡ true
unfolding ◌===◌
x_given = refl

segment_from_words-covers_example :
    (includes (segment_from_words removal [] none).flags (text "-x")
      || includes (segment_from_words removal [] none).args (text "-x"))
    ≡ true
segment_from_words-covers_example = segment_from_words-covers removal [] none (text "-x") x_given
