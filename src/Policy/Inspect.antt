-- ===== src/Policy/Inspect.antt =====
-- src/policy/inspect.ts: the inspection of a command before it runs.
pub mod Laws
use supabash_fs.Policy.Options.{is_space}
use supabash_fs.Prelude.{
  Bool, List, Text, [], drop, false, if◌then◌else◌, starts_with, text, true, ℕ, ◌&&◌, ◌||◌, ◌∷◌,
}
use supabash_fs.Core.Path.{root_path}
use supabash_fs.Policy.Types.{
  Checked, CommandInspectDecision, CommandPolicyOptions, allow_policy, and_then, dangerous_command,
  unless_denied,
}
use supabash_fs.Policy.Segments.{CommandSegment}
use supabash_fs.Policy.Rules.{evaluate_command}

-- `\s*`
abbrev pub trim_start : Text → Text
trim_start [] = []
trim_start (c ∷ s) = let rest = trim_start s in if is_space c then rest else c ∷ s

-- The code units in order, with white space allowed before each
abbrev pub matches_spaced : Text → Text → Bool
matches_spaced [] s = true
matches_spaced (c ∷ cs) s =
    let found = trim_start s in
    let rest = matches_spaced cs (drop 1 found) in starts_with found (c ∷ []) && rest

-- The pattern `:\(\)\s*\{\s*:\s*\|\s*:\s*&\s*\}\s*;` at the start
abbrev pub fork_bomb_at : Text → Bool
fork_bomb_at s = starts_with s (text ":()") && matches_spaced (text "{:|:&};") (drop 3 s)

abbrev pub has_fork_bomb : Text → Bool
has_fork_bomb [] = false
has_fork_bomb (c ∷ s) = fork_bomb_at (c ∷ s) || has_fork_bomb s

abbrev pub run_extra_inspectors :
    List (Text → CommandInspectDecision) → Text → CommandInspectDecision
run_extra_inspectors [] command = allow_policy
run_extra_inspectors (inspector ∷ inspectors) command =
    and_then (inspector command) (run_extra_inspectors inspectors command)

unfoldable pub inspect_command :
    (Text → Checked (List CommandSegment))
    → CommandPolicyOptions
    → Text
    → ℕ
    → CommandInspectDecision
inspect_command program options command depth =
    unless_denied (has_fork_bomb command) dangerous_command (
      and_then (evaluate_command program options command depth root_path)
        (run_extra_inspectors options.inspectors command))

abbrev pub create_command_policy :
    (Text → Checked (List CommandSegment)) → CommandPolicyOptions → Text → CommandInspectDecision
create_command_policy program options command = inspect_command program options command 0
