-- ===== src/Tests/Viewing.antt =====
-- A view of src/core/filesystem-view.ts on a directory with a hidden root and a link out of it.
use supabash_fs.Prelude.{
  [], err, if◌then◌else◌, includes, join, ok, refl, some, sort, split, starts_with, text, ◌++◌,
  ◌===◌, ◌∷◌, ◌≡◌,
}
use supabash_fs.Core.Path.{
  absolute_segments, encoded_at, has_encoded, normalize_virtual_path, parent_virtual_path, render,
  resolve, root_path, slash,
}
use supabash_fs.Core.Path.Canonical.{normalize-IsCanonical}
use supabash_fs.Mounts.Guard.{chmod, mkdir, rm, write_file}
use supabash_fs.Mounts.View.{
  FileSystemView, InnerFiles, WorkspaceFileSystemViewOptions, check_candidates, checked,
  checked_for_access, checked_tree, create_workspace_file_system_view, denied, hidden_roots_in,
  inside, to_inner_path, view_call, view_path, visible_actual_path, walk,
}
use supabash_fs.Mounts.View.Laws.{Confined, ResolvesCanonical, Settles, view_call-Confined}

-- `/work/out` is a link to `/etc`.
abbrev disk : InnerFiles
disk = record {
  resolve_path = λ base path.
      normalize_virtual_path (if starts_with path root_path then path else base ++ slash ∷ path);
  exists = λ path. ok (includes (text "/work" ∷ text "/work/a" ∷ text "/work/out" ∷ []) path);
  realpath = λ path. ok (if path === text "/work/out" then text "/etc" else path);
  get_all_paths = text "/work" ∷ text "/work/a" ∷ [];
}

abbrev work : FileSystemView
work = record { root = text "/work"; hidden_roots = text "/work/.git" ∷ [] }

abbrev work_options : WorkspaceFileSystemViewOptions
work_options = record {
  root = some (text "/work");
  hidden_roots = text ".git" ∷ text "/" ∷ text ".git" ∷ [];
}

-- Opens the definitions that an example computes with.
view_code : Unit {0}
unfolding normalize_virtual_path has_encoded encoded_at resolve absolute_segments split starts_with
    ◌===◌ render join parent_virtual_path inside view_path to_inner_path hidden_roots_in sort
    create_workspace_file_system_view visible_actual_path checked walk checked_for_access
    check_candidates checked_tree view_call
view_code = tt

work_is_created : create_workspace_file_system_view disk work_options ≡ ok work
unfolding view_code
work_is_created = refl

new_file_is_below :
    view_call disk work (write_file (text "/n/b") [] tt)
    ≡ some (ok (write_file (text "/work/n/b") [] tt))
unfolding view_code
new_file_is_below = refl

hidden_is_denied :
    view_call disk work {O = Unit {0}} (chmod (text "/.git/x") 7)
    ≡ some (err (denied (text "/work/.git/x")))
unfolding view_code
hidden_is_denied = refl

link_is_denied : view_call disk work (mkdir (text "/out/b") tt) ≡ some (err (denied (text "/etc")))
unfolding view_code
link_is_denied = refl

tree_is_denied : view_call disk work (rm (text "/") tt) ≡ some (err (denied (text "/")))
unfolding view_code
tree_is_denied = refl

disk_resolves : ResolvesCanonical disk
disk_resolves = record { at = λ base path resolved h. normalize-IsCanonical _ h }

view_call-Confined_example :
    Settles (Confined disk work) (view_call disk work (write_file (text "/n/b") [] tt))
view_call-Confined_example =
    view_call-Confined disk work disk_resolves (write_file (text "/n/b") [] tt)
