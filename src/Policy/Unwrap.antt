-- ===== src/Policy/Unwrap.antt =====
-- src/policy/rules.ts: the commands behind wrappers, shells and find -exec.
use supabash_fs.Policy.Arguments.{is_shell}
use supabash_fs.Prelude.{
  Bool, List, Option, Text, [], any, drop, false, if◌then◌else◌, includes, is_empty, none, some,
  suc, text, true, ℕ, ◌&&◌, ◌++◌, ◌===◌, ◌||◌, ◌∷◌,
}
use supabash_fs.Policy.Types.{Checked, deny_policy, granted, refused, unsupported_syntax}
use supabash_fs.Policy.Commands.{is_wrapper_command}
use supabash_fs.Policy.Segments.{
  CommandSegment, CommandWord, dynamic, end_of_flags, is_flag, literal, placeholder,
  segment_from_words, word_value,
}
use supabash_fs.Policy.Compression.{is_digit}
use supabash_fs.Policy.Options.{is_equals}

abbrev pub wrapper_limit : ℕ
wrapper_limit = 4

abbrev pub skips_next : Text → Text → Bool
skips_next wrapper flag =
    (wrapper === text "timeout" && (flag === text "-s" || flag === text "--signal"))
    || flag === end_of_flags

-- The loop over the flags of a wrapper; the Boolean tells that the next word is shifted too.
abbrev pub skip_flags : Text → List CommandWord → Bool → List CommandWord
skip_flags wrapper [] shifted = []
skip_flags wrapper (word ∷ words) true = skip_flags wrapper words false
skip_flags wrapper (word ∷ words) false =
    let rest = skip_flags wrapper words (skips_next wrapper (word_value word)) in
    if is_flag (word_value word) then rest else word ∷ words

abbrev pub starts_with_digit : Text → Bool
starts_with_digit [] = false
starts_with_digit (c ∷ s) = is_digit c

abbrev pub skip_duration : List CommandWord → List CommandWord
skip_duration [] = []
skip_duration (word ∷ words) = if starts_with_digit (word_value word) then words else word ∷ words

abbrev pub skip_assignments : List CommandWord → List CommandWord
skip_assignments [] = []
skip_assignments (word ∷ words) =
    let rest = skip_assignments words in
    if any is_equals (word_value word) then rest else word ∷ words

abbrev pub skip_wrapper_words : Text → List CommandWord → List CommandWord
skip_wrapper_words wrapper words =
    let command = skip_flags wrapper words false in
    let timed = if wrapper === text "timeout" then skip_duration command else command in
    if wrapper === text "env" then skip_assignments timed else timed

-- The loop of `unwrapSegment`, on the wrappers that may still be removed
abbrev pub unwrap_words : ℕ → List CommandWord → List CommandWord
unwrap_words (suc n) (literal value ∷ words) =
    let rest = unwrap_words n (skip_wrapper_words value words) in
    if is_wrapper_command value then rest else literal value ∷ words
unwrap_words n words = words

abbrev pub rewrapped : CommandSegment → List CommandWord → Checked CommandSegment
rewrapped segment [] = refused (deny_policy unsupported_syntax)
rewrapped segment (dynamic source value ∷ words) =
    granted (segment_from_words (dynamic source value ∷ words) segment.redirects segment.joiner)
rewrapped segment (literal value ∷ words) = granted (
    if value === segment.head
    then segment
    else segment_from_words (literal value ∷ words) segment.redirects segment.joiner)

unfoldable pub unwrap_segment : CommandSegment → Checked CommandSegment
unwrap_segment segment = rewrapped segment (unwrap_words wrapper_limit segment.words)

pub data NestedShell : Type 0 where
  missing : NestedShell
  computed : NestedShell
  script : Text → NestedShell

-- The words from the first that is `-c` on
abbrev pub from_script_flag : List CommandWord → List CommandWord
from_script_flag [] = []
from_script_flag (word ∷ words) =
    let rest = from_script_flag words in
    if word_value word === text "-c" then word ∷ words else rest

abbrev pub script_behind : List CommandWord → Option NestedShell
script_behind [] = none
script_behind (flag ∷ []) = some missing
script_behind (flag ∷ dynamic source value ∷ words) = some computed
script_behind (flag ∷ literal value ∷ words) = some (script value)

unfoldable pub nested_shell : CommandSegment → Option NestedShell
nested_shell segment =
    if is_shell segment.head then script_behind (from_script_flag segment.words) else none

abbrev pub find_exec_markers : List Text
find_exec_markers = text "-exec" ∷ text "-execdir" ∷ text "-ok" ∷ text "-okdir" ∷ []

abbrev pub is_exec_marker : CommandWord → Bool
is_exec_marker (dynamic source value) = false
is_exec_marker (literal value) = includes find_exec_markers value

abbrev pub ends_exec : CommandWord → Bool
ends_exec (dynamic source value) = false
ends_exec (literal value) = value === text ";" || value === text "+"

abbrev pub without_placeholder : CommandWord → CommandWord
without_placeholder (dynamic source value) = dynamic source value
without_placeholder (literal value) =
    if value === text "{}" then dynamic placeholder value else literal value

abbrev pub with_command :
    List CommandWord → Checked (List CommandSegment) → Checked (List CommandSegment)
with_command command (refused decision) = refused decision
with_command command (granted commands) = granted (segment_from_words command [] none ∷ commands)

-- The loop of `findExecSegments`: `none` between the commands, or the words of the one being read.
-- The first command that is not complete is denied, whatever follows it.
abbrev pub exec_commands :
    List CommandWord → Option (List CommandWord) → Checked (List CommandSegment)
exec_commands [] none = granted []
exec_commands [] (some command) = refused (deny_policy unsupported_syntax)
exec_commands (word ∷ words) none =
    let read = exec_commands words (some []) in
    let passed = exec_commands words none in if is_exec_marker word then read else passed
exec_commands (word ∷ words) (some command) =
    let ended = exec_commands words none in
    let read = exec_commands words (some (command ++ without_placeholder word ∷ [])) in
    if ends_exec word
    then (if is_empty command
        then refused (deny_policy unsupported_syntax)
        else with_command command ended)
    else read

unfoldable pub find_exec_segments : CommandSegment → Checked (List CommandSegment)
find_exec_segments segment =
    if segment.head === text "find" then exec_commands (drop 1 segment.words) none else granted []
