-- ===== src/Policy/Compression.antt =====
-- src/policy/compression.ts: commands that would read or write compressed data.
use supabash_fs.Prelude.{
  Bool, List, Option, Text, [], any, drop, every, false, if◌then◌else◌, includes, is_empty, leb,
  none, not, some, starts_with, suc, text, zero, ℕ, ◌&&◌, ◌++◌, ◌===◌, ◌==◌, ◌||◌, ◌∷◌,
}
use supabash_fs.Core.Path.{is_slash}
use supabash_fs.Policy.Types.{
  Checked, CommandInspectDecision, allow_policy, compression_unsupported, deny_policy, granted,
  refused, unless_denied,
}
use supabash_fs.Policy.Segments.{CommandSegment, CommandWord, dash, dynamic, end_of_flags, literal}

abbrev pub compression_commands : List Text
compression_commands = text "gzip" ∷ text "gunzip" ∷ text "zcat" ∷ []

abbrev pub rg_short_values : List Text
rg_short_values =
    text "g"
    ∷ text "t"
    ∷ text "T"
    ∷ text "m"
    ∷ text "e"
    ∷ text "f"
    ∷ text "r"
    ∷ text "d"
    ∷ text "j"
    ∷ []

abbrev pub rg_long_values : List Text
rg_long_values =
    text "--glob"
    ∷ text "--iglob"
    ∷ text "--type"
    ∷ text "--type-not"
    ∷ text "--type-add"
    ∷ text "--type-clear"
    ∷ text "--max-count"
    ∷ text "--regexp"
    ∷ text "--file"
    ∷ text "--replace"
    ∷ text "--max-depth"
    ∷ text "--max-filesize"
    ∷ text "--context-separator"
    ∷ text "--threads"
    ∷ text "--ignore-file"
    ∷ text "--pre-glob"
    ∷ text "--sort"
    ∷ []

-- `value.slice(value.lastIndexOf('/') + 1)`
abbrev pub after_last_slash : Text → Text
after_last_slash [] = []
after_last_slash (c ∷ s) =
    let rest = after_last_slash s in
    if any is_slash s then rest else if is_slash c then s else c ∷ s

-- `value.startsWith(option + '=')`, or the option itself
abbrev pub is_option : Text → Text → Bool
is_option value option = value === option || starts_with value (option ++ text "=")

abbrev pub is_digit : ℕ → Bool
is_digit c = leb b'0' c && leb c b'9'

abbrev pub is_context_letter : ℕ → Bool
is_context_letter c = c == b'A' || c == b'B' || c == b'C'

-- `/^-[ABC]$/u` and `/^-[ABC]\d+$/u`
abbrev pub is_context_flag : Text → Bool
is_context_flag (d ∷ c ∷ []) = d == b'-' && is_context_letter c
is_context_flag _ = false

abbrev pub is_context_count : Text → Bool
is_context_count (d ∷ c ∷ e ∷ s) = d == b'-' && is_context_letter c && every is_digit (e ∷ s)
is_context_count _ = false

abbrev pub is_short_option_cluster : Text → Bool
is_short_option_cluster value =
    starts_with value dash && not (starts_with value end_of_flags) && not (is_context_count value)

abbrev pub is_rg_short_value : ℕ → Bool
is_rg_short_value c = includes rg_short_values (c ∷ [])

-- The loop over the flags of a cluster: the words to skip, unless one is `z`.
abbrev pub cluster_words : ℕ → Text → Option ℕ
cluster_words skipped [] = some skipped
cluster_words skipped (c ∷ s) =
    let counted = cluster_words (suc skipped) s in
    let passed = cluster_words skipped s in
    if c == b'z' then none else if is_rg_short_value c then counted else passed

unfoldable pub check_ripgrep_short_options : Text → Option ℕ
check_ripgrep_short_options [] = some 0
check_ripgrep_short_options (d ∷ []) = some 0
check_ripgrep_short_options (d ∷ c ∷ s) =
    if is_rg_short_value c then some (if is_empty s then 1 else 0) else cluster_words 0 (c ∷ s)

abbrev pub zip_denied : CommandInspectDecision
zip_denied = deny_policy compression_unsupported

-- Both long options are denied with the same code.
abbrev pub is_denied_long_option : Text → Bool
is_denied_long_option value =
    is_option value (text "--search-zip") || is_option value (text "--pre")

abbrev pub takes_next : Text → Bool
takes_next value = includes rg_long_values value || is_context_flag value

-- The words of a literal to skip behind it, or a denial
abbrev pub short_options : Option ℕ → Checked ℕ
short_options none = refused zip_denied
short_options (some n) = granted n

abbrev pub literal_words : Text → Checked ℕ
literal_words value =
    if is_denied_long_option value
    then refused zip_denied
    else if takes_next value
    then granted 1
    else if is_short_option_cluster value
    then short_options (check_ripgrep_short_options value)
    else granted 0

abbrev pub word_words : CommandWord → Checked ℕ
word_words (dynamic source value) = granted 0
word_words (literal value) = literal_words value

abbrev pub skip_and : (ℕ → CommandInspectDecision) → Checked ℕ → CommandInspectDecision
skip_and rest (refused decision) = decision
skip_and rest (granted n) = rest n

-- The loop of `checkRipgrepCompression`, with the number of words that `index` still skips
unfoldable pub check_ripgrep_compression : List CommandWord → ℕ → CommandInspectDecision
check_ripgrep_compression [] skipped = allow_policy
check_ripgrep_compression (word ∷ words) zero =
    skip_and (check_ripgrep_compression words) (word_words word)
check_ripgrep_compression (word ∷ words) (suc n) = check_ripgrep_compression words n

unfoldable pub check_compression : CommandSegment → CommandInspectDecision
check_compression segment =
    let name = after_last_slash segment.head in
    unless_denied (includes compression_commands name) compression_unsupported (
      if not (name === text "rg")
      then allow_policy
      else check_ripgrep_compression (drop 1 segment.words) 0)
