-- ===== src/Tests/Paths.antt =====
-- Paths of src/core/path.ts, on examples.
use supabash_fs.Prelude.{
  List, Text, [], ambiguous, err, false, join, ok, refl, split, starts_with, text, ◌===◌, ◌∷◌, ◌≡◌,
}
use supabash_fs.Core.Path.{
  absolute_segments, encoded_at, has_encoded, is_same_or_descendant, move_descendant,
  normalize_virtual_path, parent_paths, parent_virtual_path, path_error, render, resolve,
}
use supabash_fs.Core.Path.Canonical.{
  IsCanonical, IsSegment, normalize-IsCanonical, normalize_idempotent,
}
use supabash_fs.Core.Path.Descend.{is_prefix, is_same_or_descendant-render}
use supabash_fs.Core.Path.Move.{
  move_descendant-render, move_descendant_outside, parent_paths-render, parent_virtual_path-render,
}

abbrev messy : Text
messy = text "a/./b//../c/"

messy_normalizes : normalize_virtual_path messy ≡ ok (text "/a/c")
unfolding normalize_virtual_path has_encoded encoded_at resolve absolute_segments split starts_with
    ◌===◌ render join
messy_normalizes = refl

normalize-IsCanonical_example : IsCanonical (text "/a/c")
normalize-IsCanonical_example = normalize-IsCanonical messy messy_normalizes

normalize_idempotent_example : normalize_virtual_path (text "/a/c") ≡ ok (text "/a/c")
normalize_idempotent_example = normalize_idempotent messy messy_normalizes

plain_a : IsSegment (text "a")
unfolding has_encoded encoded_at ◌===◌
plain_a = record {
  named = refl;
  not_dot = refl;
  not_dot_dot = refl;
  not_reserved = refl;
  within = refl;
  clean = refl;
}

plain_b : IsSegment (text "b")
unfolding has_encoded encoded_at ◌===◌
plain_b = record {
  named = refl;
  not_dot = refl;
  not_dot_dot = refl;
  not_reserved = refl;
  within = refl;
  clean = refl;
}

abbrev a_b : List Text
a_b = text "a" ∷ text "b" ∷ []

is_same_or_descendant-render_example :
    is_same_or_descendant (render a_b) (render (text "a" ∷ [])) ≡ ok (is_prefix (text "a" ∷ []) a_b)
is_same_or_descendant-render_example =
    is_same_or_descendant-render a_b (text "a" ∷ []) (plain_a, (plain_b, tt)) (plain_a, tt)

move_descendant-render_example :
    move_descendant (render a_b) (render (text "a" ∷ [])) (render (text "b" ∷ []))
    ≡ ok (render (text "b" ∷ text "b" ∷ []))
move_descendant-render_example =
    move_descendant-render (text "a") [] (text "b" ∷ []) (text "b" ∷ []) (plain_a, tt) (plain_b, tt)
      (plain_b, tt)

b_outside : is_prefix (text "b" ∷ []) a_b ≡ false
unfolding is_prefix ◌===◌
b_outside = refl

move_descendant_outside_example :
    move_descendant (render a_b) (render (text "b" ∷ [])) (render [])
    ≡ err (path_error (render a_b) ambiguous)
move_descendant_outside_example =
    move_descendant_outside (text "b" ∷ []) a_b [] (plain_b, tt) (plain_a, (plain_b, tt)) tt
      b_outside

parent_paths-render_example : parent_paths (render a_b) ≡ ok (render (text "a" ∷ []) ∷ [])
parent_paths-render_example = parent_paths-render a_b (plain_a, (plain_b, tt))

parent_virtual_path-render_example : parent_virtual_path (render a_b) ≡ ok (render (text "a" ∷ []))
parent_virtual_path-render_example =
    parent_virtual_path-render (text "a" ∷ []) (text "b") (plain_a, (plain_b, tt))

-- The root as the source of a move loses the slash between the destination and the path.
move_descendant_root : move_descendant (text "/a") (text "/") (text "/d") ≡ ok (text "/da")
unfolding move_descendant is_same_or_descendant normalize_virtual_path has_encoded encoded_at
    resolve absolute_segments split starts_with ◌===◌ render join
move_descendant_root = refl
