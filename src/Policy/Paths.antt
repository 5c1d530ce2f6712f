-- ===== src/Policy/Paths.antt =====
-- src/policy/paths.ts: the path that a word of a command names.
pub mod Laws
use supabash_fs.Prelude.{
  Bool, Option, Result, Text, VirtualPathIssue, ambiguous, err, false, if◌then◌else◌, none, ok,
  out_of_root, reserved, some, starts_with, text, true, ◌++◌, ◌===◌, ◌||◌, ◌∷◌,
}
use supabash_fs.Core.Path.{normalize_virtual_path, root_path, slash}
use supabash_fs.Policy.Types.{PolicyReasonCode, ambiguous_path, path_out_of_root, reserved_path}
use supabash_fs.Policy.Segments.{CommandWord, dynamic, literal}

pub data ResolvedPath : Type 0 where
  path_named glob_named dynamic_named : Text → ResolvedPath
  path_denied : PolicyReasonCode → ResolvedPath

abbrev pub join_relative : Text → Text → Text
join_relative cwd input = if cwd === root_path then slash ∷ input else cwd ++ (slash ∷ input)

abbrev pub is_unbounded_glob : Text → Bool
is_unbounded_glob value =
    value === text "*"
    || value === text "/*"
    || value === text "./*"
    || value === text "./**"
    || value === text "**"

-- `pathError`: `normalizeVirtualPath` throws errors with an issue only.
abbrev pub reason_of : Option VirtualPathIssue → PolicyReasonCode
reason_of (some reserved) = reserved_path
reason_of (some out_of_root) = path_out_of_root
reason_of (some ambiguous) = ambiguous_path
reason_of none = ambiguous_path

abbrev pub named_or_denied : Result Text → ResolvedPath
named_or_denied (ok path) = path_named path
named_or_denied (err e) = path_denied (reason_of e.issue)

abbrev pub joined_path : Text → Text → Text
joined_path input cwd = if starts_with input root_path then input else join_relative cwd input

abbrev pub glob_or : Bool → Text → ResolvedPath → ResolvedPath
glob_or true joined resolved = glob_named joined
glob_or false joined resolved = resolved

unfoldable pub resolve_command_path : Text → Text → ResolvedPath
resolve_command_path input cwd =
    let joined = joined_path input cwd in
    glob_or (is_unbounded_glob input || is_unbounded_glob joined) joined
      (named_or_denied (normalize_virtual_path joined))

unfoldable pub resolve_command_word : CommandWord → Text → ResolvedPath
resolve_command_word (dynamic source value) cwd = dynamic_named value
resolve_command_word (literal value) cwd = resolve_command_path value cwd

unfoldable pub is_root_target : ResolvedPath → Text → Bool
is_root_target (glob_named value) cwd =
    cwd === root_path || value === text "*" || value === text "/*"
is_root_target (path_named value) cwd = value === root_path
is_root_target _ cwd = false
