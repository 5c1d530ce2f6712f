-- ===== src/Core/RuntimePaths.antt =====
-- src/core/runtime-paths.ts: paths that the shell owns, and which are never stored.
use supabash_fs.Prelude.{
  Bool, List, Result, Text, [], any, if◌then◌else◌, ok, starts_with, text, ◌++◌, ◌===◌, ◌>>=◌, ◌||◌,
  ◌∷◌,
}
use supabash_fs.Core.Path.{normalize_virtual_path, slash}

abbrev pub runtime_owned_roots : List Text
runtime_owned_roots = text "/bin" ∷ text "/dev" ∷ text "/proc" ∷ text "/tmp" ∷ text "/usr" ∷ []

unfoldable pub is_runtime_owned_path : Text → Result Bool
is_runtime_owned_path path = do
  normalized ← normalize_virtual_path path
  ok (
      any (λ root. normalized === root || starts_with normalized (root ++ slash ∷ []))
        runtime_owned_roots)

-- `entries.filter((entry) => !isRuntimeOwnedPath(path(entry)))`
unfoldable pub persistent {ℓ} : {A : Type ℓ} → (A → Text) → List A → Result (List A)
persistent path [] = ok []
persistent path (x ∷ xs) = do
  owned ← is_runtime_owned_path (path x)
  rest ← persistent path xs
  ok (if owned then rest else x ∷ rest)
