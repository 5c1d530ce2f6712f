-- ===== src/Mounts/Compose.antt =====
-- src/mounts/compose.ts: which mounts a composed file system admits, and which one a path is in.
pub mod Laws
use supabash_fs.Prelude.{
  Bool, List, Option, Result, SupabashError, Text, [], each, err, every, false, if◌then◌else◌,
  includes, invalid_path, leb, length, ltb, none, not, ok, or_else, some, sort, supabash_error,
  text, throw_if, true, ℕ, ◌&&◌, ◌++◌, ◌===◌, ◌==◌, ◌>>=◌, ◌>>◌, ◌||◌, ◌∷◌,
}
use supabash_fs.Core.Path.{is_same_or_descendant, normalize_virtual_path, root_path}

-- `FileSystemMount`, without the file system of the source. `view` is its root and hidden roots.
pub record FileSystemMount : Type 0 where
  pub writable : Bool
  pub mount_point : Text
  pub source_id : Text
  pub root : Option Text
  pub hidden_roots : List Text

pub record MountDescriptor : Type 0 where
  pub writable : Bool
  pub mount_point : Text
  pub source_id : Text
  pub root : Text
  pub hidden_roots : List Text

-- White space and line terminators, which `trim` removes.
abbrev pub is_space : ℕ → Bool
is_space c =
    (leb 9 c && leb c 13)
    || c == 32
    || c == 0xa0
    || c == 0x1680
    || (leb 0x2000 c && leb c 0x200a)
    || c == 0x2028
    || c == 0x2029
    || c == 0x202f
    || c == 0x205f
    || c == 0x3000
    || c == 0xfeff

-- The order of `toSorted` on texts: by code units.
abbrev pub text_le : Text → Text → Bool
text_le [] t = true
text_le (c ∷ s) [] = false
text_le (c ∷ s) (d ∷ t) = let rest = text_le s t in ltb c d || (c == d && rest)

-- `[...new Set(texts)]`
abbrev pub unique : List Text → List Text → List Text
unique seen [] = []
unique seen (t ∷ ts) =
    let old = unique seen ts in
    let new = unique (t ∷ seen) ts in if includes seen t then old else t ∷ new

abbrev pub invalid_mount : Option Text → SupabashError
invalid_mount path = supabash_error invalid_path path

-- `descriptors.some(…)`: a mount point at or below the new one, or at or above it.
abbrev pub overlaps : Text → List MountDescriptor → Result Bool
overlaps point [] = ok false
overlaps point (d ∷ ds) = do
  below ← is_same_or_descendant point d.mount_point
  above ← is_same_or_descendant d.mount_point point
  rest ← overlaps point ds
  ok (below || above || rest)

abbrev pub dev : Text
dev = text "/dev"

-- The body of `mounts.map`, on the descriptors so far, up to the view of the source, whose creation may
-- throw too.
unfoldable pub describe_mount : List MountDescriptor → FileSystemMount → Result MountDescriptor
describe_mount descriptors mount = do
  point ← normalize_virtual_path mount.mount_point
  in_dev ← is_same_or_descendant point dev
  around_dev ← is_same_or_descendant dev point
  overlap ← overlaps point descriptors
  throw_if
      (not (point === mount.mount_point) || point === root_path || in_dev || around_dev || overlap)
      (invalid_mount (some mount.mount_point))
  throw_if (every is_space mount.source_id || ltb 1024 (length mount.source_id))
      (invalid_mount none)
  root ← normalize_virtual_path (or_else mount.root root_path)
  hidden ← each normalize_virtual_path mount.hidden_roots
  throw_if (includes hidden root_path) (invalid_mount none)
  ok (record {
    writable = mount.writable;
    mount_point = point;
    source_id = mount.source_id;
    root = root;
    hidden_roots = sort text_le (unique [] hidden);
  })

unfoldable pub describe_mounts :
    List MountDescriptor → List FileSystemMount → Result (List MountDescriptor)
describe_mounts descriptors [] = ok descriptors
describe_mounts descriptors (mount ∷ mounts) = do
  d ← describe_mount descriptors mount
  describe_mounts (descriptors ++ d ∷ []) mounts

-- `locate`: the first mount that the path is in.
unfoldable pub locate : List MountDescriptor → Text → Result (Option MountDescriptor)
locate [] path = ok none
locate (d ∷ ds) path = do
  inside ← is_same_or_descendant path d.mount_point
  if inside then ok (some d) else locate ds path

-- `required`
unfoldable pub required_mount : List MountDescriptor → Text → Result MountDescriptor
required_mount descriptors path = do
  normalized ← normalize_virtual_path path
  found ← locate descriptors normalized
  elim found [ none ↦ err (invalid_mount (some path)) | some d ↦ ok d ]
