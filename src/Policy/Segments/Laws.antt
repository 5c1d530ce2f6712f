-- ===== src/Policy/Segments/Laws.antt =====
-- No word of a command is lost between its flags and its arguments (src/policy/segments.ts).
use supabash_fs.Prelude.{
  ===_iff, Bool, Bool-cases, List, Option, Text, [], arith, drop, false, includes, inl, inr, keep,
  map, refl, starts_with, true, ◌===◌, ◌||◌, ◌∷◌, ◌≡◌,
}
use supabash_fs.Policy.Segments.{
  CommandRedirect, CommandWord, SegmentJoiner, end_of_flags, is_flag, positional_args,
  segment_from_words, word_value,
}

end_is_flag : is_flag end_of_flags ≡ true
unfolding is_flag starts_with ◌===◌
end_is_flag = refl

plain_differs : (x : Text) → is_flag x ≡ false → (x === end_of_flags) ≡ false
plain_differs x h = elim (Bool-cases (x === end_of_flags)) [
  | inl e ↦ cc ((===_iff x end_of_flags).0 e, end_is_flag, h)
  | inr e ↦ e
]

words_kept :
    (ended : Bool) (words : List Text) (w : Text)
    → includes words w ≡ true
    → (includes (keep is_flag words) w || includes (positional_args ended words) w) ≡ true
unfolding positional_args
words_kept ended [] w h = h
words_kept ended (x ∷ xs) w h = elim (Bool-cases (is_flag x)) [
  | inl e ↦ ground (arith, words_kept ended xs w, words_kept true xs w)
  | inr e ↦ ground (arith, words_kept ended xs w, plain_differs x e)
]

-- Every word behind the head of a segment is among its flags or its arguments.
pub segment_from_words-covers :
    (words : List CommandWord) (redirects : List CommandRedirect) (joiner : Option SegmentJoiner)
    (w : Text)
    → includes (drop 1 (map word_value words)) w ≡ true
    → (includes (segment_from_words words redirects joiner).flags w
        || includes (segment_from_words words redirects joiner).args w)
      ≡ true
unfolding segment_from_words
segment_from_words-covers words redirects joiner w h =
    words_kept false (drop 1 (map word_value words)) w h
