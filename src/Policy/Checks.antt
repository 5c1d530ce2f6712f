-- ===== src/Policy/Checks.antt =====
-- src/policy/checks.ts: the paths of a command, what it destroys, and where `cd` leads.
pub mod Laws
pub mod Given
use supabash_fs.Prelude.{
  Bool, List, Option, Result, Text, [], any, false, if◌then◌else◌, includes, keep, map, none, not,
  ok, some, text, true, ◌&&◌, ◌===◌, ◌||◌, ◌∷◌,
}
use supabash_fs.Core.Path.{parent_virtual_path}
use supabash_fs.Policy.Types.{
  Checked, CommandInspectDecision, CommandPolicyFileSystem, CommandPolicyOptions, allow_policy,
  and_then, dangerous_command, deny_policy, granted, recursive_root, refused, unbounded_work,
  unless_denied,
}
use supabash_fs.Policy.Segments.{CommandSegment, CommandWord, has_short_flag, starts_dynamic}
use supabash_fs.Policy.Paths.{
  ResolvedPath, dynamic_named, glob_named, is_root_target, path_denied, path_named,
  resolve_command_path, resolve_command_word,
}
use supabash_fs.Policy.Arguments.{path_args}

abbrev pub dynamic_cwd : Text
dynamic_cwd = text "/.supabash-dynamic-cwd"

abbrev pub path_redirects : List Text
path_redirects =
    text ">" ∷ text ">>" ∷ text "<" ∷ text "<>" ∷ text ">|" ∷ text "&>" ∷ text "&>>" ∷ []

abbrev pub is_path_redirect : Text → Bool
is_path_redirect operator = includes path_redirects operator

-- The answer to where a symbolic link leads
abbrev pub link_decision : ResolvedPath → CommandInspectDecision
link_decision (path_denied reason) = deny_policy reason
link_decision (glob_named value) = deny_policy unbounded_work
link_decision _ = allow_policy

abbrev pub link_target : Option Text → Result Text → CommandInspectDecision
link_target (some target) (ok parent) = link_decision (resolve_command_path target parent)
link_target _ parent = allow_policy

abbrev pub link_stat : CommandPolicyFileSystem → Text → Option Bool → CommandInspectDecision
link_stat fs path (some true) = link_target (fs.readlink path) (parent_virtual_path path)
link_stat fs path _ = allow_policy

-- Whatever throws in it, allows.
abbrev pub check_symlink : Text → Option CommandPolicyFileSystem → CommandInspectDecision
check_symlink path none = allow_policy
check_symlink path (some fs) = link_stat fs path (fs.lstat path)

unfoldable pub check_resolved : ResolvedPath → Text → CommandPolicyOptions → CommandInspectDecision
check_resolved (path_denied reason) cwd options = deny_policy reason
check_resolved (glob_named value) cwd options =
    unless_denied (is_root_target (glob_named value) cwd) unbounded_work allow_policy
check_resolved (path_named value) cwd options = check_symlink value options.fs
check_resolved (dynamic_named value) cwd options = allow_policy

-- The loops of `checkSegmentPaths`, and what follows them
abbrev pub check_words :
    List CommandWord → Text → CommandPolicyOptions → CommandInspectDecision → CommandInspectDecision
check_words [] cwd options rest = rest
check_words (word ∷ words) cwd options rest =
    and_then (check_resolved (resolve_command_word word cwd) cwd options)
      (check_words words cwd options rest)

abbrev pub redirect_targets : CommandSegment → List CommandWord
redirect_targets segment = map (λ r. r.target) (keep (λ r. is_path_redirect r.op) segment.redirects)

unfoldable pub check_segment_paths :
    CommandSegment → Text → CommandPolicyOptions → CommandInspectDecision
check_segment_paths segment cwd options = check_words (redirect_targets segment) cwd options (
    if starts_dynamic segment.words
    then allow_policy
    else check_words (path_args segment) cwd options allow_policy)

abbrev pub names_root : Text → CommandWord → Bool
names_root cwd word = is_root_target (resolve_command_word word cwd) cwd

-- `findRoots(...).some(isRootTarget)` is the same test on the same words.
abbrev pub any_root : CommandSegment → Text → Bool
any_root segment cwd = any (names_root cwd) (path_args segment)

abbrev pub has_recursive_flag : CommandSegment → Bool
has_recursive_flag segment =
    if segment.head === text "find"
    then includes segment.tokens (text "-delete")
    else has_short_flag segment (text "r")
      || has_short_flag segment (text "R")
      || includes segment.flags (text "--recursive")

abbrev pub is_recursive_root : CommandSegment → Text → Bool
is_recursive_root segment cwd =
    if segment.head === text "find" && includes segment.tokens (text "-delete")
    then any_root segment cwd
    else if not (has_recursive_flag segment)
    then false
    else any_root segment cwd

abbrev pub is_glob : ResolvedPath → Bool
is_glob (glob_named value) = true
is_glob _ = false

abbrev pub glob_of_root : Text → CommandWord → Bool
glob_of_root cwd word =
    let resolved = resolve_command_word word cwd in is_glob resolved && is_root_target resolved cwd

abbrev pub is_unbounded_rm : CommandSegment → Text → Bool
is_unbounded_rm segment cwd =
    if not (segment.head === text "rm") then false else any (glob_of_root cwd) (path_args segment)

abbrev pub is_open_chmod : CommandSegment → Bool
is_open_chmod segment =
    segment.head === text "chmod"
    && has_short_flag segment (text "R")
    && includes segment.tokens (text "777")

unfoldable pub check_destructive :
    CommandSegment → Text → CommandPolicyOptions → CommandInspectDecision
check_destructive segment cwd options =
    unless_denied (segment.head === text "rm" && any_root segment cwd) recursive_root (
      unless_denied (is_recursive_root segment cwd && not options.allow_recursive_root)
        recursive_root
        (unless_denied (is_open_chmod segment) dangerous_command
          (unless_denied (is_unbounded_rm segment cwd) unbounded_work allow_policy)))

abbrev pub directory_named : ResolvedPath → Checked Text
directory_named (path_denied reason) = refused (deny_policy reason)
directory_named (glob_named value) = refused (deny_policy unbounded_work)
directory_named (dynamic_named value) = granted dynamic_cwd
directory_named (path_named value) = granted value

abbrev pub directory_of : List CommandWord → Text → Checked Text
directory_of [] cwd = granted cwd
directory_of (target ∷ words) cwd = directory_named (resolve_command_word target cwd)

unfoldable pub next_working_directory : CommandSegment → Text → Checked Text
next_working_directory segment cwd =
    if not (segment.head === text "cd") then granted cwd else directory_of (path_args segment) cwd
