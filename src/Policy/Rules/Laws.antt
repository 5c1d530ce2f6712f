-- ===== src/Policy/Rules/Laws.antt =====
-- Which commands an allowed command can run (src/policy/rules.ts).
use supabash_fs.Policy.Rules.Words.{
  Member-executed, executed_segments, find_exec_segments-Executes, nested_shell-ScriptOf,
  unwrap_segment-Called,
}
use supabash_fs.Policy.Rules.Runs.{HeadAdmitted, WouldRun, first, in_find, in_script, later}
use supabash_fs.Policy.Compression.{check_compression}
use supabash_fs.Policy.Rules.{
  each_command, evaluate_each, evaluate_head, evaluate_levels, evaluate_program, evaluate_segment,
  evaluate_source, evaluate_unwrapped, exec_decision, nested_decision, then_in,
}
use supabash_fs.Prelude.{
  List, Member, Option, Text, [], false, if◌then◌else◌, includes, inl, inr, is_empty, length, ltb,
  none, not, not-false, or_else, some, subst, suc, sym, true, zero, ||-false, ℕ, ◌&&◌, ◌||◌, ◌∷◌,
  ◌≡◌,
}
use supabash_fs.Policy.Types.{
  Checked, CommandInspectDecision, CommandPolicyOptions, allow_policy, and_then, and_then-allows,
  command_too_long, dangerous_command, default_max_command_length, default_max_pipeline_depth,
  default_max_segments, granted, granted_inj, host_escape, network_disabled, pipeline_too_deep,
  refused, refused_not_granted, too_many_segments, unless_denied, unless_denied-allows,
  unsupported_command, unsupported_syntax,
}
use supabash_fs.Policy.Commands.{
  is_allowed_command, is_dangerous_command, is_host_escape_command, is_network_command,
}
use supabash_fs.Policy.Segments.{CommandSegment, pipeline_depth, segment_from_words, starts_dynamic}
use supabash_fs.Policy.Unwrap.{
  NestedShell, find_exec_segments, nested_shell, script, unwrap_segment,
}
use supabash_fs.Policy.Checks.{check_destructive, check_segment_paths, next_working_directory}

module _ (program : Text → Checked (List CommandSegment)) (options : CommandPolicyOptions) where
  program_allows :
      (inner : List CommandSegment → Text → CommandInspectDecision) (cwd : Text)
      (parsed : Checked (List CommandSegment)) (segments : List CommandSegment)
      → (evaluate_program program options inner cwd parsed).allow ≡ true
      → parsed ≡ granted segments
      → (inner segments cwd).allow ≡ true
  program_allows inner cwd (refused decision) segments h e = absurd (refused_not_granted e)
  program_allows inner cwd (granted found) segments h e =
      let limit = ltb (or_else options.max_segments default_max_segments) (length found) in
      let deep =
        ltb (or_else options.max_pipeline_depth default_max_pipeline_depth)
          (pipeline_depth found) in
      let counted =
        (unless_denied-allows limit too_many_segments
          (unless_denied deep pipeline_too_deep (inner found cwd)) h).1 in
      let shallow = (unless_denied-allows deep pipeline_too_deep (inner found cwd) counted).1 in
      subst (λ s. (inner s cwd).allow ≡ true) (granted_inj e) shallow

  pub source_allows :
      (inner : List CommandSegment → Text → CommandInspectDecision) (command cwd : Text)
      (segments : List CommandSegment)
      → (evaluate_source program options inner command cwd).allow ≡ true
      → program command ≡ granted segments
      → (inner segments cwd).allow ≡ true
  source_allows inner command cwd segments h e =
      program_allows inner cwd (program command) segments
        (unless_denied-allows
          (ltb (or_else options.max_command_length default_max_command_length) (length command))
          command_too_long (evaluate_program program options inner cwd (program command)) h).1
        e

  each_allows :
      (inner : List CommandSegment → Text → CommandInspectDecision) (cwd : Text)
      (found : Checked (List CommandSegment)) (commands : List CommandSegment)
      (called : CommandSegment)
      → (exec_decision program options inner cwd found).allow ≡ true
      → found ≡ granted commands
      → Member called commands
      → (inner (called ∷ []) cwd).allow ≡ true
  each_allows inner cwd (refused decision) commands called h e m = absurd (refused_not_granted e)
  each_allows inner cwd (granted found) commands called h e m =
      among found h (subst (Member called) (sym (granted_inj e)) m)
    where
      among :
          (those : List CommandSegment)
          → (each_command program options inner cwd those).allow ≡ true
          → Member called those
          → (inner (called ∷ []) cwd).allow ≡ true
      among [] allows m = absurd m
      among (command ∷ rest) allows (inl same) =
          subst (λ c. (inner (c ∷ []) cwd).allow ≡ true) (sym same)
            (and_then-allows (inner (command ∷ []) cwd)
              (each_command program options inner cwd rest) allows).0
      among (command ∷ rest) allows (inr further) =
          among rest
            (and_then-allows (inner (command ∷ []) cwd)
              (each_command program options inner cwd rest) allows).1
            further

  -- What an allowed head passed: the tests of its name, its script and its commands.
  pub record Passed (inner : List CommandSegment → Text → CommandInspectDecision)
      (segment : CommandSegment) (cwd : Text) : Type 0 where
    pub admitted : HeadAdmitted options segment.head
    pub script_allows :
        (nested_decision program options inner cwd (nested_shell segment)).allow ≡ true
    pub exec_allows :
        (exec_decision program options inner cwd (find_exec_segments segment)).allow ≡ true

  head-Passed :
      (inner : List CommandSegment → Text → CommandInspectDecision) (segment : CommandSegment)
      (cwd : Text)
      → (evaluate_head program options inner segment cwd).allow ≡ true
      → Passed inner segment cwd
  head-Passed inner segment cwd h =
      let head = segment.head in
      let nested =
        and_then (nested_decision program options inner cwd (nested_shell segment))
          (exec_decision program options inner cwd (find_exec_segments segment)) in
      let unlisted = not (is_allowed_command head options.extra_allow_commands) in
      let listing = unless_denied unlisted unsupported_command nested in
      let networked = is_network_command head && not options.allow_network in
      let networking = unless_denied networked network_disabled listing in
      let escaping = unless_denied (is_host_escape_command head) host_escape networking in
      let denied = includes options.extra_deny_commands head || is_dangerous_command head in
      let named =
        (and_then-allows (check_compression segment)
          (unless_denied denied dangerous_command escaping) h).1 in
      let safe = unless_denied-allows denied dangerous_command escaping named in
      let host = unless_denied-allows (is_host_escape_command head) host_escape networking safe.1 in
      let net = unless_denied-allows networked network_disabled listing host.1 in
      let list = unless_denied-allows unlisted unsupported_command nested net.1 in
      let both =
        and_then-allows (nested_decision program options inner cwd (nested_shell segment))
          (exec_decision program options inner cwd (find_exec_segments segment)) list.1 in
      record {
        admitted = (
          (||-false (includes options.extra_deny_commands head) (is_dangerous_command head)
              safe.0).0,
          (||-false (includes options.extra_deny_commands head) (is_dangerous_command head)
              safe.0).1,
          host.0,
          net.0,
          not-false (is_allowed_command head options.extra_allow_commands) list.0,
        );
        script_allows = both.0;
        exec_allows = both.1;
      }

  pub segment_allows :
      (inner : List CommandSegment → Text → CommandInspectDecision) (segment : CommandSegment)
      (cwd : Text)
      → (evaluate_segment program options inner segment cwd).allow ≡ true
      → starts_dynamic segment.words ≡ false
      → Passed inner segment cwd
        × ((check_segment_paths segment cwd options).allow ≡ true)
        × ((check_destructive segment cwd options).allow ≡ true)
  unfolding evaluate_segment
  segment_allows inner segment cwd h static =
      let headed =
        if starts_dynamic segment.words
        then allow_policy
        else evaluate_head program options inner segment cwd in
      let tail =
        and_then (check_segment_paths segment cwd options)
          (check_destructive segment cwd options) in
      let named =
        (unless_denied-allows (is_empty segment.head) unsupported_syntax (and_then headed tail)
          h).1 in
      let parts = and_then-allows headed tail named in
      let paths =
        and_then-allows (check_segment_paths segment cwd options)
          (check_destructive segment cwd options) parts.1 in
      (
        head-Passed inner segment cwd (
            subst
              (λ b.
                (if b then allow_policy else evaluate_head program options inner segment cwd).allow
                ≡ true)
              static parts.0),
        paths.0,
        paths.1,
      )

  unwrapped_allows :
      (inner : List CommandSegment → Text → CommandInspectDecision)
      (rest : Text → CommandInspectDecision) (cwd : Text) (found : Checked CommandSegment)
      (command : CommandSegment)
      → (evaluate_unwrapped program options inner rest cwd found).allow ≡ true
      → found ≡ granted command
      → ((evaluate_segment program options inner command cwd).allow ≡ true)
        × ((then_in program options rest (next_working_directory command cwd)).allow ≡ true)
  unwrapped_allows inner rest cwd (refused decision) command h e = absurd (refused_not_granted e)
  unwrapped_allows inner rest cwd (granted found) command h e =
      subst
        (λ c.
          ((evaluate_segment program options inner c cwd).allow ≡ true)
          × ((then_in program options rest (next_working_directory c cwd)).allow ≡ true))
        (granted_inj e)
        (and_then-allows (evaluate_segment program options inner found cwd)
          (then_in program options rest (next_working_directory found cwd)) h)

  then_allows :
      (rest : Text → CommandInspectDecision) (moved : Checked Text) (next : Text)
      → (then_in program options rest moved).allow ≡ true
      → moved ≡ granted next
      → (rest next).allow ≡ true
  then_allows rest (refused decision) next h e = absurd (refused_not_granted e)
  then_allows rest (granted there) next h e = subst (λ d. (rest d).allow ≡ true) (granted_inj e) h

  script_runs :
      (inner : List CommandSegment → Text → CommandInspectDecision) (cwd : Text)
      (found : Option NestedShell) (source : Text) (segments : List CommandSegment)
      → (nested_decision program options inner cwd found).allow ≡ true
      → found ≡ some (script source)
      → program source ≡ granted segments
      → (inner segments cwd).allow ≡ true
  script_runs inner cwd found source segments h e parsed =
      source_allows inner source cwd segments
        (subst (λ f. (nested_decision program options inner cwd f).allow ≡ true) e h) parsed

  -- Every command that would run was inspected at some level.
  pub run-inspected :
      (segments : List CommandSegment) (cwd : Text) (command : CommandSegment) (directory : Text)
      → WouldRun program segments cwd command directory
      → (n : ℕ) → (evaluate_levels program options n segments cwd).allow ≡ true
      → (m : ℕ) × ((evaluate_segment program options
            (evaluate_levels program options m)
            command
            directory).allow
          ≡ true)
  unfolding evaluate_levels
  run-inspected _ _ _ _ run zero h = absurd cc
  run-inspected _ _ _ _ (first {segment} {segments} {cwd} {command} e) (suc n) h = (
    n,
    (unwrapped_allows (evaluate_levels program options n)
        (evaluate_each program options (evaluate_levels program options n) segments) cwd
        (unwrap_segment segment) command h (unwrap_segment-Called e)).0,
  )
  run-inspected _ _ _ _
        (later {segment} {segments} {cwd} {passed} {next} {command} {directory} e moved run) (suc n)
        h =
      run-inspected segments next command directory run (suc n) (
        then_allows (evaluate_each program options (evaluate_levels program options n) segments)
          (next_working_directory passed cwd) next
          (unwrapped_allows (evaluate_levels program options n)
            (evaluate_each program options (evaluate_levels program options n) segments) cwd
            (unwrap_segment segment) passed h e).1
          moved)
  run-inspected _ _ _ _
        (in_script {segments} {cwd} {shell} {there} {source} {inner} {command} {directory} outer
          static e parsed run)
        (suc n) h =
      let (m, allows) = run-inspected segments cwd shell there outer (suc n) h in
      run-inspected inner there command directory run m (
        script_runs (evaluate_levels program options m) there (nested_shell shell) source inner
          (segment_allows (evaluate_levels program options m) shell there allows
            static).0.script_allows
          (nested_shell-ScriptOf e) parsed)
  run-inspected _ _ _ _
        (in_find called {segments} {cwd} {find} {there} {commands} {command} {directory} outer
          static named executes among run)
        (suc n) h =
      let (m, allows) = run-inspected segments cwd find there outer (suc n) h in
      let segment = segment_from_words called [] none in
      run-inspected (segment ∷ []) there command directory run m (
        each_allows (evaluate_levels program options m) there (find_exec_segments find)
          (executed_segments commands) segment
          (segment_allows (evaluate_levels program options m) find there allows
            static).0.exec_allows
          (find_exec_segments-Executes find named executes) (Member-executed called commands among))
