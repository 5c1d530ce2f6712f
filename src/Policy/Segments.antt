-- ===== src/Policy/Segments.antt =====
-- src/policy/segments.ts: the words of a command, its flags and its arguments.
pub mod Laws
use supabash_fs.Prelude.{
  Bool, List, Option, Text, [], any, drop, false, has_infix, if◌then◌else◌, keep, map, max, not,
  some, starts_with, suc, text, true, ℕ, ◌&&◌, ◌++◌, ◌===◌, ◌||◌, ◌∷◌,
}

pub data DynamicSource : Type 0 where
  expansion loop_variable parameter placeholder substitution : DynamicSource

pub data CommandWord : Type 0 where
  dynamic : DynamicSource → Text → CommandWord
  literal : Text → CommandWord

abbrev pub word_value : CommandWord → Text
word_value (dynamic source value) = value
word_value (literal value) = value

pub record CommandRedirect : Type 0 where
  pub op : Text
  pub target : CommandWord

pub data SegmentJoiner : Type 0 where
  and_then or_else_then pipe pipe_both sequence background : SegmentJoiner

pub record CommandSegment : Type 0 where
  pub args : List Text
  pub flags : List Text
  pub head : Text
  pub joiner : Option SegmentJoiner
  pub redirects : List CommandRedirect
  pub tokens : List Text
  pub words : List CommandWord

abbrev pub dash : Text
dash = text "-"

abbrev pub end_of_flags : Text
end_of_flags = text "--"

unfoldable pub is_flag : Text → Bool
is_flag word = starts_with word dash && not (word === dash)

-- `positionalArgs`, on the values of the words behind the head
unfoldable pub positional_args : Bool → List Text → List Text
positional_args ended [] = []
positional_args ended (word ∷ words) =
    let after_end = positional_args true words in
    let rest = positional_args ended words in
    if not ended && word === end_of_flags
    then after_end
    else if ended || not (is_flag word)
    then word ∷ rest
    else rest

abbrev pub head_of_words : List Text → Text
head_of_words [] = []
head_of_words (word ∷ words) = word

unfoldable pub segment_from_words :
    List CommandWord → List CommandRedirect → Option SegmentJoiner → CommandSegment
segment_from_words words redirects joiner =
    let tokens = map word_value words in
    record {
      args = positional_args false (drop 1 tokens);
      flags = keep is_flag (drop 1 tokens);
      head = head_of_words tokens;
      joiner = joiner;
      redirects = redirects;
      tokens = tokens;
      words = words;
    }

abbrev pub starts_dynamic : List CommandWord → Bool
starts_dynamic (dynamic source value ∷ words) = true
starts_dynamic _ = false

abbrev pub is_pipe : Option SegmentJoiner → Bool
is_pipe (some pipe) = true
is_pipe (some pipe_both) = true
is_pipe _ = false

-- The loop of `pipelineDepth`
abbrev pub depth_from : ℕ → ℕ → List CommandSegment → ℕ
depth_from current deepest [] = deepest
depth_from current deepest (segment ∷ segments) =
    let piped = depth_from (suc current) (max deepest (suc current)) segments in
    let restarted = depth_from 1 deepest segments in
    if is_pipe segment.joiner then piped else restarted

abbrev pub pipeline_depth : List CommandSegment → ℕ
pipeline_depth segments = depth_from 1 1 segments

abbrev pub has_flag : Text → Text → Bool
has_flag flag value =
    value === (dash ++ flag)
    || value === (end_of_flags ++ flag)
    || (starts_with value dash && not (starts_with value end_of_flags) && has_infix value flag)

abbrev pub has_short_flag : CommandSegment → Text → Bool
has_short_flag segment flag = any (has_flag flag) segment.flags
