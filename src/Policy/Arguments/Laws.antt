-- ===== src/Policy/Arguments/Laws.antt =====
-- Which words of a command are taken for paths (src/policy/command-paths.ts).
use supabash_fs.Prelude.{
  Bool, Bool-cases, List, Text, [], any, arith, false, inl, inr, keep, not, refl, subst, sym, text,
  true, ◌===◌, ◌∷◌, ◌≡◌,
}
use supabash_fs.Core.Path.{is_slash}
use supabash_fs.Policy.Segments.{CommandSegment, CommandWord, word_value}
use supabash_fs.Policy.Arguments.{
  args_of_head, is_mode, is_mode_operator, path_args, positional_words,
}

abbrev pub has_slash : CommandWord → Bool
has_slash word = any is_slash (word_value word)

slash-mode : (value : Text) → any is_slash value ≡ true → any is_mode_operator value ≡ true
slash-mode [] h = h
slash-mode (c ∷ s) h = ground (arith, slash-mode s)

slash_dropped :
    (words : List CommandWord)
    → any has_slash (keep (λ word. not (is_mode (word_value word))) words) ≡ false
slash_dropped [] = refl
slash_dropped (word ∷ words) = elim (Bool-cases (any is_slash (word_value word))) [
  | inl e ↦ ground (arith, slash_dropped words, slash-mode (word_value word) e)
  | inr e ↦ ground (arith, slash_dropped words)
]

-- No argument of a chmod that has a slash is taken for a path.
pub path_args_chmod :
    (segment : CommandSegment)
    → segment.head ≡ text "chmod"
    → any has_slash (path_args segment) ≡ false
unfolding args_of_head ◌===◌
path_args_chmod segment e =
    subst (λ head. any has_slash (args_of_head head segment) ≡ false) (sym e)
      (slash_dropped (positional_words segment))
