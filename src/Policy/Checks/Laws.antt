-- ===== src/Policy/Checks/Laws.antt =====
-- What the checks of the paths of a command leave (src/policy/checks.ts).
use supabash_fs.Prelude.Tests.{if◌then◌else◌}
use supabash_fs.Prelude.{
  ===_iff, All, List, Text, [], arith, false, not, subst, text, true, ◌&&◌, ◌===◌, ◌∷◌, ◌≡◌, ◌≢◌,
}
use supabash_fs.Policy.Types.{
  CommandInspectDecision, CommandPolicyOptions, PolicyReasonCode, allow_policy, and_then-allows,
  dangerous_command, recursive_root, unbounded_work, unless_denied, unless_denied-allows,
}
use supabash_fs.Policy.Segments.{CommandSegment, CommandWord, starts_dynamic}
use supabash_fs.Policy.Paths.{
  ResolvedPath, dynamic_named, glob_named, path_denied, path_named, resolve_command_word,
}
use supabash_fs.Policy.Arguments.{path_args}
use supabash_fs.Policy.Checks.{
  any_root, check_destructive, check_resolved, check_segment_paths, check_words, is_open_chmod,
  is_recursive_root, is_unbounded_rm, redirect_targets,
}

-- A word that names no forbidden path.
abbrev pub NamesPermitted : Text → CommandWord → Type 0
NamesPermitted cwd word =
    (reason : PolicyReasonCode) → resolve_command_word word cwd ≢ path_denied reason

resolved-permitted :
    (resolved : ResolvedPath) (cwd : Text) (options : CommandPolicyOptions)
    → (check_resolved resolved cwd options).allow ≡ true
    → (reason : PolicyReasonCode) → resolved ≢ path_denied reason
unfolding check_resolved
resolved-permitted (path_denied r) cwd options h reason = cc
resolved-permitted (glob_named value) cwd options h reason = λ e. cc
resolved-permitted (path_named value) cwd options h reason = λ e. cc
resolved-permitted (dynamic_named value) cwd options h reason = λ e. cc

words-permitted :
    (words : List CommandWord) (cwd : Text) (options : CommandPolicyOptions)
    (rest : CommandInspectDecision)
    → (check_words words cwd options rest).allow ≡ true
    → All (NamesPermitted cwd) words × (rest.allow ≡ true)
words-permitted [] cwd options rest h = (tt, h)
words-permitted (word ∷ words) cwd options rest h =
    let resolved = resolve_command_word word cwd in
    let both =
      and_then-allows (check_resolved resolved cwd options) (check_words words cwd options rest)
        h in
    let later = words-permitted words cwd options rest both.1 in
    ((resolved-permitted resolved cwd options both.0, later.0), later.1)

pub check_segment_paths-permitted :
    (segment : CommandSegment) (cwd : Text) (options : CommandPolicyOptions)
    → (check_segment_paths segment cwd options).allow ≡ true
    → starts_dynamic segment.words ≡ false
    → All (NamesPermitted cwd) (redirect_targets segment)
      × All (NamesPermitted cwd) (path_args segment)
unfolding check_segment_paths
check_segment_paths-permitted segment cwd options h static =
    let targets =
      words-permitted (redirect_targets segment) cwd options
        (if starts_dynamic segment.words
          then allow_policy
          else check_words (path_args segment) cwd options allow_policy)
        h in
    let args = words-permitted (path_args segment) cwd options allow_policy (
      subst
        (λ b.
          (if b
            then allow_policy
            else check_words (path_args segment) cwd options allow_policy).allow
          ≡ true)
        static targets.1) in
    (targets.0, args.0)

pub check_destructive-root :
    (segment : CommandSegment) (cwd : Text) (options : CommandPolicyOptions)
    → (check_destructive segment cwd options).allow ≡ true
    → segment.head ≡ text "rm"
    → any_root segment cwd ≡ false
unfolding check_destructive
check_destructive-root segment cwd options h is_rm =
    let kept =
      (unless_denied-allows (segment.head === text "rm" && any_root segment cwd) recursive_root
        (unless_denied (is_recursive_root segment cwd && not options.allow_recursive_root)
          recursive_root
          (unless_denied (is_open_chmod segment) dangerous_command
            (unless_denied (is_unbounded_rm segment cwd) unbounded_work allow_policy)))
        h).0 in
    let named = (===_iff segment.head (text "rm")).1 is_rm in ground (arith)
