-- ===== src/Policy/Paths/Laws.antt =====
-- A path that a command names is one the workspace can hold (src/policy/paths.ts).
use supabash_fs.Prelude.{Bool, Result, Text, err, false, ok, refl, subst, true, ◌||◌, ◌≡◌}
use supabash_fs.Core.Path.{normalize_virtual_path}
use supabash_fs.Core.Path.Canonical.{IsCanonical, normalize-IsCanonical}
use supabash_fs.Policy.Segments.{CommandWord, dynamic, literal}
use supabash_fs.Policy.Paths.{
  ResolvedPath, dynamic_named, glob_named, glob_or, is_unbounded_glob, joined_path, named_or_denied,
  path_denied, path_named, resolve_command_path, resolve_command_word,
}

-- A canonical path, where a path is named.
abbrev NamesCanonical : ResolvedPath → Type 0
NamesCanonical (path_named p) = IsCanonical p
NamesCanonical (glob_named p) = Unit
NamesCanonical (dynamic_named p) = Unit
NamesCanonical (path_denied r) = Unit

normal-NamesCanonical :
    (joined : Text) (r : Result Text)
    → normalize_virtual_path joined ≡ r
    → NamesCanonical (named_or_denied r)
normal-NamesCanonical joined (ok p) e = normalize-IsCanonical joined e
normal-NamesCanonical joined (err x) e = tt

glob-NamesCanonical :
    (b : Bool) (joined : Text) (r : ResolvedPath)
    → NamesCanonical r
    → NamesCanonical (glob_or b joined r)
glob-NamesCanonical true joined r h = tt
glob-NamesCanonical false joined r h = h

word-NamesCanonical :
    (word : CommandWord) (cwd : Text) → NamesCanonical (resolve_command_word word cwd)
unfolding resolve_command_word resolve_command_path
word-NamesCanonical (dynamic source value) cwd = tt
word-NamesCanonical (literal value) cwd =
    let joined = joined_path value cwd in
    glob-NamesCanonical (is_unbounded_glob value || is_unbounded_glob joined) joined
      (named_or_denied (normalize_virtual_path joined))
      (normal-NamesCanonical joined (normalize_virtual_path joined) refl)

-- Whatever the word and the working directory, a path that a command word is resolved to is canonical.
pub resolve_command_word-IsCanonical :
    (word : CommandWord) (cwd path : Text)
    → resolve_command_word word cwd ≡ path_named path
    → IsCanonical path
resolve_command_word-IsCanonical word cwd path e =
    subst NamesCanonical e (word-NamesCanonical word cwd)
