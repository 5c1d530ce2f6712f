-- ===== src/Policy/Arguments.antt =====
-- src/policy/command-paths.ts: which words of a command are paths.
pub mod Laws
use supabash_fs.Policy.Options.{CommandOperands, command_operands, file_operands, is_equals}
use supabash_fs.Prelude.{
  Bool, List, Text, [], any, drop, every, false, if◌then◌else◌, includes, is_empty, keep, leb,
  length, not, starts_with, text, true, ℕ, ◌&&◌, ◌++◌, ◌===◌, ◌==◌, ◌||◌, ◌∷◌,
}
use supabash_fs.Policy.Segments.{
  CommandSegment, CommandWord, dash, end_of_flags, is_flag, literal, word_value,
}

abbrev pub non_path_heads : List Text
non_path_heads =
    text "echo"
    ∷ text "printf"
    ∷ text "true"
    ∷ text "false"
    ∷ text "expr"
    ∷ text "seq"
    ∷ text "sleep"
    ∷ text "test"
    ∷ text "["
    ∷ text "export"
    ∷ text "unset"
    ∷ text "set"
    ∷ text "shift"
    ∷ text "return"
    ∷ text "let"
    ∷ text "umask"
    ∷ text "pwd"
    ∷ text "whoami"
    ∷ text "hostname"
    ∷ text "date"
    ∷ text "clear"
    ∷ text "help"
    ∷ text "history"
    ∷ text "which"
    ∷ text "type"
    ∷ []

abbrev pub search_commands : List Text
search_commands = text "egrep" ∷ text "fgrep" ∷ text "grep" ∷ text "rg" ∷ []

abbrev pub search_value_flags : List Text
search_value_flags =
    text "-A"
    ∷ text "-B"
    ∷ text "-C"
    ∷ text "-e"
    ∷ text "-f"
    ∷ text "-m"
    ∷ text "--after-context"
    ∷ text "--before-context"
    ∷ text "--binary-files"
    ∷ text "--context"
    ∷ text "--directories"
    ∷ text "--devices"
    ∷ text "--exclude"
    ∷ text "--exclude-dir"
    ∷ text "--exclude-from"
    ∷ text "--include"
    ∷ text "--label"
    ∷ text "--max-count"
    ∷ text "--regexp"
    ∷ []

abbrev pub sed_value_flags : List Text
sed_value_flags =
    text "-e"
    ∷ text "-f"
    ∷ text "-l"
    ∷ text "--expression"
    ∷ text "--file"
    ∷ text "--line-length"
    ∷ []

abbrev pub awk_value_flags : List Text
awk_value_flags =
    text "-F"
    ∷ text "-f"
    ∷ text "-v"
    ∷ text "--assign"
    ∷ text "--field-separator"
    ∷ text "--file"
    ∷ []

abbrev pub pattern_file_flags : List Text
pattern_file_flags = text "-f" ∷ text "--file" ∷ []

abbrev pub operands_with : CommandSegment → List Text → CommandOperands
operands_with segment flags =
    command_operands segment (record { path_value_flags = pattern_file_flags; value_flags = flags })

abbrev pub search_paths : CommandSegment → List CommandWord
search_paths segment =
    let found = operands_with segment search_value_flags in
    found.pattern_files ++ file_operands found

abbrev pub sed_paths : CommandSegment → List CommandWord
sed_paths segment =
    let found = operands_with segment sed_value_flags in found.pattern_files ++ file_operands found

abbrev pub awk_paths : CommandSegment → List CommandWord
awk_paths segment =
    let found = operands_with segment awk_value_flags in
    found.pattern_files
    ++ keep (λ word. not (any is_equals (word_value word))) (file_operands found)

abbrev pub ends_roots : Text → Bool
ends_roots value = starts_with value dash || value === text "!" || value === text "("

abbrev pub roots_before : List CommandWord → List CommandWord
roots_before [] = []
roots_before (word ∷ words) =
    let rest = roots_before words in if ends_roots (word_value word) then [] else word ∷ rest

abbrev pub find_root_words : CommandSegment → List CommandWord
find_root_words segment =
    let roots = roots_before (drop 1 segment.words) in
    if is_empty roots then literal (text ".") ∷ [] else roots

abbrev pub positional_from : List CommandWord → Bool → List CommandWord
positional_from [] ended = []
positional_from (word ∷ words) ended =
    let after_end = positional_from words true in
    let rest = positional_from words ended in
    if not ended && word_value word === end_of_flags
    then after_end
    else if ended || not (is_flag (word_value word))
    then word ∷ rest
    else rest

abbrev pub positional_words : CommandSegment → List CommandWord
positional_words segment = positional_from (drop 1 segment.words) false

abbrev pub is_octal : ℕ → Bool
is_octal c = leb b'0' c && leb c b'7'

-- `[+-=]` is a range: every code unit from `+` to `=`.
abbrev pub is_mode_operator : ℕ → Bool
is_mode_operator c = leb b'+' c && leb c b'='

abbrev pub is_mode : Text → Bool
is_mode value =
    (every is_octal value && (length value == 3 || length value == 4)) || any is_mode_operator value

abbrev pub is_shell : Text → Bool
is_shell head = head === text "bash" || head === text "sh"

abbrev pub is_shell_path : Text → Bool
is_shell_path value = not (value === text "-c") && not (is_flag value)

unfoldable pub args_of_head : Text → CommandSegment → List CommandWord
args_of_head head segment =
    if includes non_path_heads head
    then []
    else if head === text "find"
    then find_root_words segment
    else if includes search_commands head
    then search_paths segment
    else if head === text "sed"
    then sed_paths segment
    else if head === text "awk"
    then awk_paths segment
    else if head === text "chmod"
    then keep (λ word. not (is_mode (word_value word))) (positional_words segment)
    else if head === text "ln"
    then positional_words segment
    else if is_shell head
    then keep (λ word. is_shell_path (word_value word)) (positional_words segment)
    else positional_words segment

abbrev pub path_args : CommandSegment → List CommandWord
path_args segment = args_of_head segment.head segment
