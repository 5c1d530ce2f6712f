-- ===== src/Mounts/View.antt =====
-- src/core/filesystem-view.ts: a file system seen from one of its directories, with hidden roots.
-- `MountedCall` has the calls of a file system that change files.
pub mod Laws
use supabash_fs.Prelude.{
  Bool, List, Option, Result, SupabashError, SupabashErrorCode, Text, [], any, drop, err, false,
  if◌then◌else◌, keep, length, ltb, none, not, ok, policy_denied, some, sort, starts_with, suc,
  throw_if, true, zero, ℕ, ◌&&◌, ◌++◌, ◌===◌, ◌==◌, ◌>>=◌, ◌>>◌, ◌||◌, ◌∷◌,
}
use supabash_fs.Core.Path.{parent_virtual_path, root_path, slash}
use supabash_fs.Mounts.Guard.{
  MountedCall, append_file, chmod, cp, mkdir, mv, null_device, policy_error, rm, utimes, write_file,
}

-- What the checks of a view ask the inner file system, in the state that it is in
pub record InnerFiles : Type 0 where
  pub resolve_path : Text → Text → Result Text
  pub exists : Text → Result Bool
  pub realpath : Text → Result Text
  pub get_all_paths : List Text

pub record WorkspaceFileSystemViewOptions : Type 0 where
  pub root : Option Text
  pub hidden_roots : List Text

-- The constants of `createWorkspaceFileSystemView`
pub record FileSystemView : Type 0 where
  pub root : Text
  pub hidden_roots : List Text

-- The outcome of a loop with fuel: none is out of fuel.
abbrev pub Run : Type 0 → Type 0
Run A = Option (Result A)

abbrev pub followed_by : {A B : Type 0} → Run A → (A → Run B) → Run B
followed_by none f = none
followed_by (some (err e)) f = some (err e)
followed_by (some (ok a)) f = f a

abbrev pub each : {A B : Type 0} → (A → Result B) → List A → Result (List B)
each f [] = ok []
each f (x ∷ xs) = do y ← f x; ys ← each f xs; ok (y ∷ ys)

-- `new Set(texts)`
abbrev pub distinct : List Text → List Text
distinct [] = []
distinct (x ∷ xs) = x ∷ keep (λ y. not (x === y)) (distinct xs)

-- The order of `toSorted` without a comparison
abbrev pub at_most : Text → Text → Bool
at_most [] t = true
at_most (c ∷ s) [] = false
at_most (c ∷ s) (d ∷ t) = ltb c d || (c == d) && at_most s t

abbrev pub trunk : Text → Text
trunk root = if root === root_path then [] else root

unfoldable pub inside : Text → Text → Bool
inside candidate root = candidate === root || starts_with candidate (trunk root ++ slash ∷ [])

abbrev pub denied : Text → SupabashError
denied path = policy_error (some path)

abbrev pub root_or_default : Option Text → Text
root_or_default none = root_path
root_or_default (some root) = root

module _ (inner : InnerFiles) where
  unfoldable pub view_path : Text → Text → Result Text
  view_path base path = do
    resolved ← inner.resolve_path base path
    if resolved === null_device then ok resolved else inner.resolve_path root_path resolved

  unfoldable pub to_inner_path : Text → Text → Result Text
  to_inner_path root path =
      if path === null_device
      then ok path
      else if root === root_path
      then inner.resolve_path root_path path
      else inner.resolve_path root_path (if path === root_path then root else root ++ path)

  unfoldable pub hidden_roots_in : Text → List Text → Result (List Text)
  hidden_roots_in root hidden = do
    seen ← each (view_path root_path) (distinct hidden)
    actual ← each (to_inner_path root) (keep (λ path. not (path === root_path)) seen)
    ok (sort at_most actual)

  unfoldable pub create_workspace_file_system_view :
      WorkspaceFileSystemViewOptions → Result FileSystemView
  create_workspace_file_system_view options = do
    root ← inner.resolve_path root_path (root_or_default options.root)
    hidden ← hidden_roots_in root options.hidden_roots
    ok (record { root = root; hidden_roots = hidden })

module _ (inner : InnerFiles) (view : FileSystemView) where
  unfoldable pub visible_actual_path : Text → Bool
  visible_actual_path path =
      (path === null_device || inside path view.root) && not (any (inside path) view.hidden_roots)

  abbrev pub assert_visible : Text → Result (Unit {0})
  assert_visible path = throw_if (not (visible_actual_path path)) (denied path)

  unfoldable pub checked : Text → Result Text
  checked path = do
    seen ← view_path inner root_path path
    actual ← to_inner_path inner view.root seen
    assert_visible actual
    ok actual

  abbrev pub assert_real : Text → Result (Unit {0})
  assert_real path = do real ← inner.realpath path; assert_visible real

  -- The loop of `checkedForAccess`: one round, and what follows when nothing is at the candidate
  abbrev pub climb : (Text → Run (Unit {0})) → Result Text → Run (Unit {0})
  climb further (ok parent) = further parent
  climb further (err e) = some (err e)

  abbrev pub visited : Text → (Text → Run (Unit {0})) → Result Bool → Run (Unit {0})
  visited candidate further (err e) = some (err e)
  visited candidate further (ok true) = some (assert_real candidate)
  visited candidate further (ok false) =
      if candidate === view.root || candidate === root_path
      then some (ok tt)
      else climb further (parent_virtual_path candidate)

  unfoldable pub walk : ℕ → Text → Run (Unit {0})
  walk zero candidate = none
  walk (suc fuel) candidate = visited candidate (walk fuel) (inner.exists candidate)

  unfoldable pub checked_for_access : Text → Run Text
  checked_for_access path = followed_by (some (checked path)) (λ actual.
      if actual === null_device
      then some (ok actual)
      else followed_by (walk (suc (length actual)) actual) (λ _. some (ok actual)))

  unfoldable pub check_candidates : Text → List Text → Result (Unit {0})
  check_candidates actual [] = ok tt
  check_candidates actual (candidate ∷ rest) = do
    if inside candidate actual
        then (assert_visible candidate >>= λ _. assert_real candidate)
        else ok tt
    check_candidates actual rest

  unfoldable pub checked_tree : Text → Run Text
  checked_tree path = followed_by (checked_for_access path) (λ actual. some (do
    check_candidates actual inner.get_all_paths
    throw_if (any (λ hidden. inside hidden actual) view.hidden_roots) (denied path)
    ok actual))

  unfoldable pub map_from_inner : Text → Result Text
  map_from_inner path = do
    normalized ← inner.resolve_path root_path path
    assert_visible normalized
    ok (
        if normalized === null_device || view.root === root_path
        then normalized
        else if normalized === view.root
        then root_path
        else drop (length view.root) normalized)

  unfoldable pub view_resolve_path : Text → Text → Result Text
  view_resolve_path base path = do
    resolved ← view_path inner base path
    actual ← to_inner_path inner view.root resolved
    assert_visible actual
    ok resolved

  -- A method that hands its path on: `readFile`, `readFileBuffer`, `readFileBytes`, `lstat`, `stat`
  unfoldable pub view_read : {A : Type 0} → (Text → Result A) → Text → Run A
  view_read read path = followed_by (checked_for_access path) (λ actual. some (read actual))

  abbrev pub is_policy_denied : SupabashErrorCode → Bool
  is_policy_denied policy_denied = true
  is_policy_denied code = false

  abbrev pub false_if_denied : Run Bool → Run Bool
  false_if_denied none = none
  false_if_denied (some (ok found)) = some (ok found)
  false_if_denied (some (err e)) = if is_policy_denied e.code then some (ok false) else some (err e)

  unfoldable pub view_exists : Text → Run Bool
  view_exists path = false_if_denied (view_read inner.exists path)

  unfoldable pub view_realpath : Text → Run Text
  view_realpath path =
      followed_by (view_read inner.realpath path) (λ real. some (map_from_inner real))

  unfoldable pub view_all_paths : Result (List Text)
  view_all_paths = do
    paths ← each map_from_inner (keep visible_actual_path inner.get_all_paths)
    ok (sort at_most paths)

  abbrev pub visible_entries : {A : Type 0} → (A → Text) → Text → List A → Result (List A)
  visible_entries name actual [] = ok []
  visible_entries name actual (entry ∷ rest) = do
    path ← inner.resolve_path actual (name entry)
    others ← visible_entries name actual rest
    ok (if visible_actual_path path then entry ∷ others else others)

  -- `readdir`, where an entry is its name, and `readdirWithFileTypes`
  unfoldable pub view_readdir :
      {A : Type 0} → (A → Text) → (Text → Result (List A)) → Text → Run (List A)
  view_readdir name readdir path =
      followed_by (checked_for_access path)
        (λ actual. some (do entries ← readdir actual; visible_entries name actual entries))

  -- `link`, `symlink` and `readlink`
  abbrev pub deny_links : {A : Type 0} → Run A
  deny_links = some (err (policy_error none))

  -- The call that a call on the view makes on the inner file system
  unfoldable pub view_call : {O : Type 0} → MountedCall O → Run (MountedCall O)
  view_call (append_file path content options) =
      followed_by (checked_for_access path) (λ p. some (ok (append_file p content options)))
  view_call (write_file path content options) =
      followed_by (checked_for_access path) (λ p. some (ok (write_file p content options)))
  view_call (chmod path mode) =
      followed_by (checked_for_access path) (λ p. some (ok (chmod p mode)))
  view_call (mkdir path options) =
      followed_by (checked_for_access path) (λ p. some (ok (mkdir p options)))
  view_call (utimes path accessed modified) =
      followed_by (checked_for_access path) (λ p. some (ok (utimes p accessed modified)))
  view_call (rm path options) = followed_by (checked_tree path) (λ p. some (ok (rm p options)))
  view_call (cp source destination options) =
      followed_by (checked_tree source)
        (λ p. followed_by (checked_tree destination) (λ q. some (ok (cp p q options))))
  view_call (mv source destination) =
      followed_by (checked_tree source)
        (λ p. followed_by (checked_tree destination) (λ q. some (ok (mv p q))))
