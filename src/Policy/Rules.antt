-- ===== src/Policy/Rules.antt =====
-- src/policy/rules.ts: whether the segments of a command may run.
-- `program` stands for the parser of src/policy/ast.ts, which rests on the package unbash.
pub mod Runs
pub mod Words
pub mod Laws
use supabash_fs.Policy.Unwrap.{
  NestedShell, computed, find_exec_segments, missing, nested_shell, script, unwrap_segment,
  wrapper_limit,
}
use supabash_fs.Prelude.{
  List, Option, Text, [], if◌then◌else◌, includes, is_empty, length, ltb, none, not, or_else, some,
  suc, zero, ℕ, ◌&&◌, ◌-◌, ◌||◌, ◌∷◌,
}
use supabash_fs.Policy.Types.{
  Checked, CommandInspectDecision, CommandPolicyOptions, allow_policy, and_then, command_too_long,
  dangerous_command, default_max_command_length, default_max_pipeline_depth, default_max_segments,
  deny_policy, granted, host_escape, network_disabled, pipeline_too_deep, refused,
  too_many_segments, unless_denied, unsupported_command, unsupported_syntax,
}
use supabash_fs.Policy.Commands.{
  is_allowed_command, is_dangerous_command, is_host_escape_command, is_network_command,
}
use supabash_fs.Policy.Segments.{CommandSegment, pipeline_depth, starts_dynamic}
use supabash_fs.Policy.Compression.{check_compression}
use supabash_fs.Policy.Checks.{check_destructive, check_segment_paths, next_working_directory}

module _ (program : Text → Checked (List CommandSegment)) (options : CommandPolicyOptions) where
  -- `inner` stands for `evaluateSegments` one level deeper.
  abbrev pub evaluate_program :
      (List CommandSegment → Text → CommandInspectDecision)
      → Text
      → Checked (List CommandSegment)
      → CommandInspectDecision
  evaluate_program inner cwd (refused decision) = decision
  evaluate_program inner cwd (granted segments) =
      unless_denied (ltb (or_else options.max_segments default_max_segments) (length segments))
        too_many_segments
        (unless_denied
          (ltb (or_else options.max_pipeline_depth default_max_pipeline_depth)
            (pipeline_depth segments))
          pipeline_too_deep (inner segments cwd))

  abbrev pub evaluate_source :
      (List CommandSegment → Text → CommandInspectDecision) → Text → Text → CommandInspectDecision
  evaluate_source inner command cwd =
      unless_denied
        (ltb (or_else options.max_command_length default_max_command_length) (length command))
        command_too_long (evaluate_program inner cwd (program command))

  abbrev pub nested_decision :
      (List CommandSegment → Text → CommandInspectDecision)
      → Text
      → Option NestedShell
      → CommandInspectDecision
  nested_decision inner cwd none = allow_policy
  nested_decision inner cwd (some missing) = deny_policy unsupported_syntax
  nested_decision inner cwd (some computed) = allow_policy
  nested_decision inner cwd (some (script source)) = evaluate_source inner source cwd

  abbrev pub each_command :
      (List CommandSegment → Text → CommandInspectDecision)
      → Text
      → List CommandSegment
      → CommandInspectDecision
  each_command inner cwd [] = allow_policy
  each_command inner cwd (command ∷ commands) =
      and_then (inner (command ∷ []) cwd) (each_command inner cwd commands)

  abbrev pub exec_decision :
      (List CommandSegment → Text → CommandInspectDecision)
      → Text
      → Checked (List CommandSegment)
      → CommandInspectDecision
  exec_decision inner cwd (refused decision) = decision
  exec_decision inner cwd (granted commands) = each_command inner cwd commands

  abbrev pub evaluate_head :
      (List CommandSegment → Text → CommandInspectDecision)
      → CommandSegment
      → Text
      → CommandInspectDecision
  evaluate_head inner segment cwd = and_then (check_compression segment) (
      unless_denied
        (includes options.extra_deny_commands segment.head || is_dangerous_command segment.head)
        dangerous_command
        (unless_denied (is_host_escape_command segment.head) host_escape (
          unless_denied (is_network_command segment.head && not options.allow_network)
            network_disabled
            (unless_denied (not (is_allowed_command segment.head options.extra_allow_commands))
              unsupported_command
              (and_then (nested_decision inner cwd (nested_shell segment))
                (exec_decision inner cwd (find_exec_segments segment)))))))

  unfoldable pub evaluate_segment :
      (List CommandSegment → Text → CommandInspectDecision)
      → CommandSegment
      → Text
      → CommandInspectDecision
  evaluate_segment inner segment cwd = unless_denied (is_empty segment.head) unsupported_syntax (
      and_then
        (if starts_dynamic segment.words then allow_policy else evaluate_head inner segment cwd)
        (and_then (check_segment_paths segment cwd options)
          (check_destructive segment cwd options)))

  abbrev pub then_in : (Text → CommandInspectDecision) → Checked Text → CommandInspectDecision
  then_in rest (refused decision) = decision
  then_in rest (granted cwd) = rest cwd

  abbrev pub evaluate_unwrapped :
      (List CommandSegment → Text → CommandInspectDecision)
      → (Text → CommandInspectDecision)
      → Text
      → Checked CommandSegment
      → CommandInspectDecision
  evaluate_unwrapped inner rest cwd (refused decision) = decision
  evaluate_unwrapped inner rest cwd (granted segment) =
      and_then (evaluate_segment inner segment cwd)
        (then_in rest (next_working_directory segment cwd))

  -- The loop of `evaluateSegments`
  abbrev pub evaluate_each :
      (List CommandSegment → Text → CommandInspectDecision)
      → List CommandSegment
      → Text
      → CommandInspectDecision
  evaluate_each inner [] cwd = allow_policy
  evaluate_each inner (segment ∷ segments) cwd =
      evaluate_unwrapped inner (evaluate_each inner segments) cwd (unwrap_segment segment)

  -- `evaluateSegments` at the depth that leaves this number of levels: at none, `depth` is above
  -- the limit.
  unfoldable pub evaluate_levels : ℕ → List CommandSegment → Text → CommandInspectDecision
  evaluate_levels zero segments cwd = deny_policy unsupported_syntax
  evaluate_levels (suc n) segments cwd = evaluate_each (evaluate_levels n) segments cwd

  abbrev pub evaluate_segments : List CommandSegment → ℕ → Text → CommandInspectDecision
  evaluate_segments segments depth cwd = evaluate_levels (suc wrapper_limit - depth) segments cwd

  unfoldable pub evaluate_command : Text → ℕ → Text → CommandInspectDecision
  evaluate_command command depth cwd =
      evaluate_source (evaluate_levels (suc wrapper_limit - depth)) command cwd
