-- ===== src/Tests/Inspections.antt =====
-- Inspections of commands (src/policy) on examples, with a parser that splits at spaces.
use supabash_fs.Policy.Checks.Given.{GivenPath, argument, is_any_glob, meant}
use supabash_fs.Prelude.{
  List, Member, Text, [], any, drop, false, has_infix, inl, inr, join, map, none, ok, refl, split,
  starts_with, text, true, ◌===◌, ◌∷◌, ◌≡◌, ◌≢◌,
}
use supabash_fs.Core.Path.{
  absolute_segments, encoded_at, has_encoded, normalize_virtual_path, render, resolve, root_path,
}
use supabash_fs.Policy.Types.{Checked, CommandPolicyOptions, granted}
use supabash_fs.Policy.Segments.{
  CommandSegment, is_flag, literal, positional_args, segment_from_words, starts_dynamic,
}
use supabash_fs.Policy.Paths.{is_root_target, resolve_command_path, resolve_command_word}
use supabash_fs.Policy.Arguments.{args_of_head, path_args}
use supabash_fs.Policy.Arguments.Laws.{has_slash, path_args_chmod}
use supabash_fs.Policy.Compression.{check_compression}
use supabash_fs.Policy.Unwrap.{find_exec_segments, nested_shell, unwrap_segment}
use supabash_fs.Policy.Checks.{
  check_destructive, check_resolved, check_segment_paths, next_working_directory,
}
use supabash_fs.Policy.Rules.{evaluate_command, evaluate_levels, evaluate_segment}
use supabash_fs.Policy.Rules.Runs.{
  Called, HeadAdmitted, WouldRun, bare, behind, first, itself, wrapped,
}
use supabash_fs.Policy.Inspect.{inspect_command}
use supabash_fs.Policy.Inspect.Laws.{
  inspect_command-HeadAdmitted, inspect_command-keeps_root, inspect_command-meant,
}

abbrev words_of : Text → List CommandSegment
words_of source = segment_from_words (map literal (split b' ' source)) [] none ∷ []

abbrev by_spaces : Text → Checked (List CommandSegment)
by_spaces source = granted (words_of source)

abbrev plain_options : CommandPolicyOptions
plain_options = record {
  allow_network = false;
  allow_recursive_root = false;
  extra_allow_commands = [];
  extra_deny_commands = text "tree" ∷ [];
  fs = none;
  inspectors = [];
  max_command_length = none;
  max_pipeline_depth = none;
  max_segments = none;
}

abbrev removal : Text
removal = text "env rm notes"

abbrev removal_command : CommandSegment
removal_command = segment_from_words (literal (text "rm") ∷ literal (text "notes") ∷ []) [] none

inspects : Unit {0}
unfolding inspect_command evaluate_command evaluate_levels evaluate_segment check_destructive
    check_segment_paths check_resolved next_working_directory unwrap_segment nested_shell
    find_exec_segments check_compression args_of_head is_flag has_infix segment_from_words
    positional_args resolve_command_word resolve_command_path is_root_target normalize_virtual_path
    has_encoded encoded_at resolve absolute_segments split starts_with ◌===◌ render join
inspects = tt

removal_allowed : (inspect_command by_spaces plain_options removal 0).allow ≡ true
unfolding inspects
removal_allowed = refl

removal-Called :
    Called (segment_from_words (map literal (split b' ' removal)) [] none) removal_command
unfolding inspects
removal-Called = behind (literal (text "rm") ∷ literal (text "notes") ∷ []) refl (
    wrapped 3 (text "env") [] (text "rm") (literal (text "notes") ∷ [])
      (literal (text "rm") ∷ literal (text "notes") ∷ []) refl (bare (text "env")) refl refl refl
      (itself 3 (text "rm") (literal (text "notes") ∷ []) refl))

removal_plain : starts_dynamic removal_command.words ≡ false
unfolding inspects
removal_plain = refl

removal_head : removal_command.head ≡ text "rm"
unfolding inspects
removal_head = refl

removal_runs : WouldRun by_spaces (words_of removal) root_path removal_command root_path
removal_runs = first removal-Called

inspect_command-HeadAdmitted_example : HeadAdmitted plain_options removal_command.head
inspect_command-HeadAdmitted_example =
    inspect_command-HeadAdmitted by_spaces plain_options removal 0 (words_of removal)
      removal_command root_path removal_allowed refl removal_runs removal_plain

notes_given : GivenPath removal_command (text "notes")
unfolding inspects
notes_given = argument (inr (inr (inr (inr (inr (inl refl)))))) (inl refl) refl

notes_no_glob : is_any_glob (text "notes") root_path ≡ false
unfolding inspects
notes_no_glob = refl

notes_no_flag : is_flag (text "notes") ≡ false
unfolding inspects
notes_no_flag = refl

notes_behind : Member (literal (text "notes")) (drop 1 removal_command.words)
unfolding inspects
notes_behind = inl refl

inspect_command-meant_example : (p : Text) × (meant (text "notes") root_path ≡ ok p)
inspect_command-meant_example =
    inspect_command-meant by_spaces plain_options removal 0 (words_of removal) removal_command
      root_path (text "notes") removal_allowed refl removal_runs removal_plain notes_given
      notes_no_glob

inspect_command-keeps_root_example : meant (text "notes") root_path ≢ ok root_path
inspect_command-keeps_root_example =
    inspect_command-keeps_root by_spaces plain_options removal 0 (words_of removal) removal_command
      root_path (text "notes") removal_allowed refl removal_runs removal_plain removal_head
      notes_behind notes_no_flag notes_no_glob

abbrev opening : CommandSegment
opening =
    segment_from_words
      (literal (text "chmod")
        ∷ literal (text "-R")
        ∷ literal (text "755")
        ∷ literal (text "/")
        ∷ [])
      [] none

opening_head : opening.head ≡ text "chmod"
unfolding inspects
opening_head = refl

path_args_chmod_example : any has_slash (path_args opening) ≡ false
path_args_chmod_example = path_args_chmod opening opening_head

-- Neither a recursive chmod of the root nor a curl behind five env or an ended flag list is denied.
opening_allowed : (inspect_command by_spaces plain_options (text "chmod -R 755 /") 0).allow ≡ true
unfolding inspects
opening_allowed = refl

wrapped_curl_allowed :
    (inspect_command by_spaces plain_options (text "env env env env env curl x") 0).allow ≡ true
unfolding inspects
wrapped_curl_allowed = refl

ended_curl_allowed :
    (inspect_command by_spaces plain_options (text "command -- curl ls") 0).allow ≡ true
unfolding inspects
ended_curl_allowed = refl

curl_denied : (inspect_command by_spaces plain_options (text "env curl x") 0).allow ≡ false
unfolding inspects
curl_denied = refl

nested_removal_denied :
    (inspect_command by_spaces plain_options (text "find notes -exec rm / ;") 0).allow ≡ false
unfolding inspects
nested_removal_denied = refl
