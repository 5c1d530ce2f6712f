-- ===== src/Policy/Rules/Runs.antt =====
-- The commands that a command runs, to any depth, by what its words mean (src/policy/rules.ts).
use supabash_fs.Policy.Arguments.{is_shell}
use supabash_fs.Policy.Options.{is_equals}
use supabash_fs.Prelude.{
  All, List, Member, Text, [], any, drop, false, includes, is_empty, map, none, not, suc, text,
  true, ℕ, ◌&&◌, ◌++◌, ◌===◌, ◌∷◌, ◌≡◌,
}
use supabash_fs.Policy.Types.{Checked, CommandPolicyOptions, granted}
use supabash_fs.Policy.Commands.{
  is_allowed_command, is_dangerous_command, is_host_escape_command, is_network_command,
  is_wrapper_command,
}
use supabash_fs.Policy.Segments.{
  CommandSegment, CommandWord, is_flag, literal, segment_from_words, starts_dynamic, word_value,
}
use supabash_fs.Policy.Unwrap.{
  ends_exec, is_exec_marker, starts_with_digit, unwrap_segment, without_placeholder,
}
use supabash_fs.Policy.Checks.{next_working_directory}

-- A command with a plain name that the policy lets run.
abbrev pub HeadAdmitted : CommandPolicyOptions → Text → Type 0
HeadAdmitted options head =
    (includes options.extra_deny_commands head ≡ false)
    × (is_dangerous_command head ≡ false)
    × (is_host_escape_command head ≡ false)
    × ((is_network_command head && not options.allow_network) ≡ false)
    × (is_allowed_command head options.extra_allow_commands ≡ true)

-- What a wrapper may have before the command: nothing, the duration of `timeout`, the assignments of `env`.
pub data Argument : Text → List Text → Type 0 where
  bare : (wrapper : Text) → Argument wrapper []
  duration :
      (value : Text)
      → is_flag value ≡ false
      → starts_with_digit value ≡ true
      → Argument (text "timeout") (value ∷ [])
  assignments :
      (values : List Text)
      → All (λ value. (is_flag value ≡ false) × (any is_equals value ≡ true)) values
      → Argument (text "env") values

-- `Behind n words out`: behind at most `n` wrappers, which have no flags, these words call that command,
-- which is no wrapper.
pub data Behind : ℕ → List CommandWord → List CommandWord → Type 0 where
  itself :
      (n : ℕ) (name : Text) (rest : List CommandWord)
      → is_wrapper_command name ≡ false
      → Behind n (literal name ∷ rest) (literal name ∷ rest)
  wrapped :
      (n : ℕ) (wrapper : Text) (given : List Text) (name : Text) (rest out : List CommandWord)
      → is_wrapper_command wrapper ≡ true
      → Argument wrapper given
      → is_flag name ≡ false
      → starts_with_digit name ≡ false
      → any is_equals name ≡ false
      → Behind n (literal name ∷ rest) out
      → Behind (suc n) (literal wrapper ∷ map literal given ++ literal name ∷ rest) out

-- The command that a segment calls, behind at most four wrappers.
pub data Called (segment : CommandSegment) : CommandSegment → Type 0 where
  direct :
      (name : Text) (rest : List CommandWord)
      → segment.words ≡ literal name ∷ rest
      → segment.head ≡ name
      → is_wrapper_command name ≡ false
      → Called segment segment
  behind :
      (out : List CommandWord)
      → is_wrapper_command segment.head ≡ true
      → Behind 4 segment.words out
      → Called segment (segment_from_words out segment.redirects segment.joiner)

-- The script of a shell is the word behind its first `-c`.
pub record ScriptOf (shell : CommandSegment) (source : Text) : Type 0 where
  pub before : List CommandWord
  pub after : List CommandWord
  pub named : is_shell shell.head ≡ true
  pub written : shell.words ≡ before ++ literal (text "-c") ∷ literal source ∷ after
  pub earlier : All (λ word. (word_value word === text "-c") ≡ false) before

-- The words behind the name of a `find`, and the commands that it executes: each from its `-exec`, or the
-- like, to the next `;` or `+`, with something else for `{}`.
pub data Executes : List CommandWord → List (List CommandWord) → Type 0 where
  nothing : Executes [] []
  other :
      (word : CommandWord) (words : List CommandWord) (commands : List (List CommandWord))
      → is_exec_marker word ≡ false
      → Executes words commands
      → Executes (word ∷ words) commands
  executed :
      (marker : CommandWord) (command : List CommandWord) (end : CommandWord)
      (words : List CommandWord) (commands : List (List CommandWord))
      → is_exec_marker marker ≡ true
      → is_empty command ≡ false
      → All (λ word. ends_exec word ≡ false) command
      → ends_exec end ≡ true
      → Executes words commands
      → Executes (marker ∷ command ++ end ∷ words) (map without_placeholder command ∷ commands)

-- `WouldRun segments cwd command directory`: from these segments in this directory the command is
-- reached, to any depth: as a segment's, in the script of a nested shell, or from `find -exec`. The
-- directory is the one that the policy reckons with.
module _ (program : Text → Checked (List CommandSegment)) where
  pub data WouldRun : List CommandSegment → Text → CommandSegment → Text → Type 0 where
    first :
        {segment : CommandSegment} {segments : List CommandSegment} {cwd : Text}
        {command : CommandSegment}
        → Called segment command
        → WouldRun (segment ∷ segments) cwd command cwd
    later :
        {segment : CommandSegment} {segments : List CommandSegment} {cwd : Text}
        {passed : CommandSegment} {next : Text} {command : CommandSegment} {directory : Text}
        → unwrap_segment segment ≡ granted passed
        → next_working_directory passed cwd ≡ granted next
        → WouldRun segments next command directory
        → WouldRun (segment ∷ segments) cwd command directory
    in_script :
        {segments : List CommandSegment} {cwd : Text} {shell : CommandSegment} {there : Text}
        {source : Text} {inner : List CommandSegment} {command : CommandSegment} {directory : Text}
        → WouldRun segments cwd shell there
        → starts_dynamic shell.words ≡ false
        → ScriptOf shell source
        → program source ≡ granted inner
        → WouldRun inner there command directory
        → WouldRun segments cwd command directory
    in_find :
        (called : List CommandWord) {segments : List CommandSegment} {cwd : Text}
        {find : CommandSegment} {there : Text} {commands : List (List CommandWord)}
        {command : CommandSegment} {directory : Text}
        → WouldRun segments cwd find there
        → starts_dynamic find.words ≡ false
        → find.head ≡ text "find"
        → Executes (drop 1 find.words) commands
        → Member called commands
        → WouldRun (segment_from_words called [] none ∷ []) there command directory
        → WouldRun segments cwd command directory
