-- ===== src/Policy/Options.antt =====
-- src/policy/command-paths.ts: the options of a command and its operands.
use supabash_fs.Prelude.{
  Bool, List, Option, Text, [], any, drop, false, if◌then◌else◌, includes, is_some, leb, none, not,
  some, starts_with, take, text, true, ℕ, ◌&&◌, ◌===◌, ◌==◌, ◌||◌, ◌∷◌,
}
use supabash_fs.Policy.Segments.{
  CommandSegment, CommandWord, dynamic, end_of_flags, is_flag, literal, word_value,
}

-- `value.includes('=')`, and the text before and behind the first one
abbrev pub is_equals : ℕ → Bool
is_equals c = c == b'='

abbrev pub before_equals : Text → Text
before_equals [] = []
before_equals (c ∷ s) = let rest = before_equals s in if is_equals c then [] else c ∷ rest

abbrev pub after_equals : Text → Text
after_equals [] = []
after_equals (c ∷ s) = let rest = after_equals s in if is_equals c then s else rest

-- The negation of `\S`: white space of the language
abbrev pub is_space : ℕ → Bool
is_space c =
    (leb 9 c && leb c 13)
    || c == 32
    || c == 0xa0
    || c == 0x1680
    || (leb 0x2000 c && leb c 0x200a)
    || c == 0x2028
    || c == 0x2029
    || c == 0x202f
    || c == 0x205f
    || c == 0x3000
    || c == 0xfeff

abbrev pub short_value_letters : Text
short_value_letters = text "efmABC"

-- `/^-[efmABC]\S+/u`
abbrev pub has_attached_value : Text → Bool
has_attached_value (d ∷ c ∷ e ∷ s) =
    d == b'-' && any (λ l. l == c) short_value_letters && not (is_space e)
has_attached_value _ = false

pub record ParsedOption : Type 0 where
  pub inline_value : Option Text
  pub name : Text

abbrev pub parse_option : Text → Option ParsedOption
parse_option value =
    if not (is_flag value)
    then none
    else if any is_equals value
    then some (record { inline_value = some (after_equals value); name = before_equals value })
    else if has_attached_value value
    then some (record {
      inline_value = some (
          let attached = drop 2 value in
          if starts_with attached (text "=") then drop 1 attached else attached);
      name = take 2 value;
    })
    else some (record { inline_value = none; name = value })

pub record OperandRules : Type 0 where
  pub path_value_flags : List Text
  pub value_flags : List Text

pub record CommandOperands : Type 0 where
  pub operands : List CommandWord
  pub pattern_files : List CommandWord
  pub pattern_specified : Bool

abbrev pub no_operands : CommandOperands
no_operands = record { operands = []; pattern_files = []; pattern_specified = false }

abbrev pub with_operand : CommandWord → CommandOperands → CommandOperands
with_operand word found = record {
  operands = word ∷ found.operands;
  pattern_files = found.pattern_files;
  pattern_specified = found.pattern_specified;
}

abbrev pub first_word : List CommandWord → Option CommandWord
first_word [] = none
first_word (word ∷ words) = some word

abbrev pub option_value : Option Text → Option CommandWord → Option CommandWord
option_value none next = next
option_value (some value) next = some (literal value)

abbrev pub pattern_file : Bool → Option CommandWord → List CommandWord → List CommandWord
pattern_file true (some word) files = word ∷ files
pattern_file _ value files = files

abbrev pub with_option :
    OperandRules → ParsedOption → Option CommandWord → CommandOperands → CommandOperands
with_option rules option next found =
    let is_path = includes rules.path_value_flags option.name in
    record {
      operands = found.operands;
      pattern_files =
          pattern_file is_path (option_value option.inline_value next) found.pattern_files;
      pattern_specified =
          option.name === text "-e"
          || option.name === text "--regexp"
          || is_path
          || found.pattern_specified;
    }

abbrev pub option_of_word : Bool → CommandWord → Option ParsedOption
option_of_word true word = none
option_of_word false (dynamic source value) = none
option_of_word false (literal value) = parse_option value

-- One word of the loop: `rest` reads the words behind it, and skips the first of them when told so.
abbrev pub operand_step :
    OperandRules
    → (Bool → CommandOperands)
    → CommandWord
    → Option CommandWord
    → Option ParsedOption
    → CommandOperands
operand_step rules rest word next none = with_operand word (rest false)
operand_step rules rest word next (some option) =
    if includes rules.value_flags option.name
    then with_option rules option next (rest (not (is_some option.inline_value)))
    else rest false

-- The loop of `commandOperands`: whether `--` was read, and whether the next word is skipped
unfoldable pub operands_from : OperandRules → List CommandWord → Bool → Bool → CommandOperands
operands_from rules [] ended skipped = no_operands
operands_from rules (word ∷ words) ended true = operands_from rules words ended false
operands_from rules (word ∷ words) ended false =
    let after_end = operands_from rules words true false in
    if not ended && word_value word === end_of_flags
    then after_end
    else operand_step rules (operands_from rules words ended) word (first_word words)
        (option_of_word ended word)

abbrev pub command_operands : CommandSegment → OperandRules → CommandOperands
command_operands segment rules = operands_from rules (drop 1 segment.words) false false

abbrev pub file_operands : CommandOperands → List CommandWord
file_operands found = if found.pattern_specified then found.operands else drop 1 found.operands
