-- ===== src/Policy/Inspect/Laws.antt =====
-- What an allowed command can do (src/policy/inspect.ts, rules.ts, checks.ts).
use supabash_fs.Policy.Checks.Given.{GivenPath, given-meant, is_any_glob, meant, root_not_meant}
use supabash_fs.Policy.Unwrap.{wrapper_limit}
use supabash_fs.Prelude.{List, Member, Text, drop, false, ok, suc, text, true, ℕ, ◌-◌, ◌≡◌, ◌≢◌}
use supabash_fs.Core.Path.{root_path}
use supabash_fs.Policy.Types.{
  Checked, CommandPolicyOptions, and_then, and_then-allows, dangerous_command, granted,
  unless_denied-allows,
}
use supabash_fs.Policy.Segments.{CommandSegment, is_flag, literal, starts_dynamic}
use supabash_fs.Policy.Checks.Laws.{check_destructive-root, check_segment_paths-permitted}
use supabash_fs.Policy.Rules.{evaluate_command, evaluate_levels, evaluate_segment}
use supabash_fs.Policy.Rules.Runs.{HeadAdmitted, WouldRun}
use supabash_fs.Policy.Rules.Laws.{run-inspected, segment_allows, source_allows}
use supabash_fs.Policy.Inspect.{has_fork_bomb, inspect_command, run_extra_inspectors}

module _ (program : Text → Checked (List CommandSegment)) (options : CommandPolicyOptions) where
  -- A command that runs out of an allowed one passed its own inspection at some level.
  inspected_segment :
      (source : Text) (depth : ℕ) (segments : List CommandSegment) (command : CommandSegment)
      (directory : Text)
      → (inspect_command program options source depth).allow ≡ true
      → program source ≡ granted segments
      → WouldRun program segments root_path command directory
      → (m : ℕ) × ((evaluate_segment program options
            (evaluate_levels program options m)
            command
            directory).allow
          ≡ true)
  unfolding inspect_command evaluate_command
  inspected_segment source depth segments command directory h parsed run =
      let evaluated = evaluate_command program options source depth root_path in
      let extra = run_extra_inspectors options.inspectors source in
      let plain =
        (unless_denied-allows (has_fork_bomb source) dangerous_command (and_then evaluated extra)
          h).1 in
      let levels = suc wrapper_limit - depth in
      run-inspected program options segments root_path command directory run levels (
        source_allows program options (evaluate_levels program options levels) source root_path
          segments (and_then-allows evaluated extra plain).0 parsed)

  -- A command with a plain name that an allowed one runs to any depth is in the allow list or the
  -- extra one, and is not denied, dangerous, an escape to the host, or a network command without leave,
  -- if it is run by a segment behind at most four wrappers, each without flags and with nothing but the
  -- duration of timeout or the assignments of env before the command; by such a shell as the word behind
  -- its first -c; or by such a find behind -exec or the like, all of which end with ; or +.
  pub inspect_command-HeadAdmitted :
      (source : Text) (depth : ℕ) (segments : List CommandSegment) (command : CommandSegment)
      (directory : Text)
      → (inspect_command program options source depth).allow ≡ true
      → program source ≡ granted segments
      → WouldRun program segments root_path command directory
      → starts_dynamic command.words ≡ false
      → HeadAdmitted options command.head
  inspect_command-HeadAdmitted source depth segments command directory h parsed run static =
      let (m, allows) = inspected_segment source depth segments command directory h parsed run in
      (segment_allows program options (evaluate_levels program options m) command directory allows
        static).0.admitted

  -- What such a command is given as a path, behind the name of cat, cp, ls, mkdir, mv, rm or touch
  -- without a leading dash, or by a redirect of any such command, is a glob or means, in the directory
  -- that the policy reckons with, a path that is not ambiguous, reserved or above the root.
  pub inspect_command-meant :
      (source : Text) (depth : ℕ) (segments : List CommandSegment) (command : CommandSegment)
      (directory value : Text)
      → (inspect_command program options source depth).allow ≡ true
      → program source ≡ granted segments
      → WouldRun program segments root_path command directory
      → starts_dynamic command.words ≡ false
      → GivenPath command value
      → is_any_glob value directory ≡ false
      → (p : Text) × (meant value directory ≡ ok p)
  inspect_command-meant source depth segments command directory value h parsed run static given
        plain =
      let (m, allows) = inspected_segment source depth segments command directory h parsed run in
      given-meant command directory value
        (check_segment_paths-permitted command directory options
          (segment_allows program options (evaluate_levels program options m) command directory
            allows static).1
          static)
        given plain

  -- No word behind an rm that an allowed command runs so, and that has no leading dash, means the root in
  -- the directory that the policy reckons with, unless it is a glob.
  pub inspect_command-keeps_root :
      (source : Text) (depth : ℕ) (segments : List CommandSegment) (command : CommandSegment)
      (directory value : Text)
      → (inspect_command program options source depth).allow ≡ true
      → program source ≡ granted segments
      → WouldRun program segments root_path command directory
      → starts_dynamic command.words ≡ false
      → command.head ≡ text "rm"
      → Member (literal value) (drop 1 command.words)
      → is_flag value ≡ false
      → is_any_glob value directory ≡ false
      → meant value directory ≢ ok root_path
  inspect_command-keeps_root source depth segments command directory value h parsed run static is_rm
        among flag plain =
      let (m, allows) = inspected_segment source depth segments command directory h parsed run in
      root_not_meant command directory value is_rm
        (check_destructive-root command directory options
          (segment_allows program options (evaluate_levels program options m) command directory
            allows static).2
          is_rm)
        among flag plain
