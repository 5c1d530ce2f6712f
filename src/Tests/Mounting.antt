-- ===== src/Tests/Mounting.antt =====
-- Mounts of src/mounts on examples.
use supabash_fs.Prelude.{
  All, List, Result, Text, [], join, keep, length, none, ok, refl, sort, split, starts_with, suc,
  text, true, ℕ, ◌===◌, ◌∷◌, ◌≡◌, ◌≤◌, ◌⊎◌,
}
use supabash_fs.Core.Path.{
  absolute_segments, encoded_at, has_encoded, is_same_or_descendant, normalize_virtual_path, render,
  resolve, root_path,
}
use supabash_fs.Core.Path.Canonical.{normalize-IsCanonical}
use supabash_fs.Mounts.Compose.{
  FileSystemMount, MountDescriptor, describe_mount, describe_mounts, locate,
}
use supabash_fs.Mounts.Compose.Laws.{describe_mounts_disjoint, holds}
use supabash_fs.Mounts.Guard.{MountedCall, guarded_call, mv, rm, writable_mount}
use supabash_fs.Mounts.Guard.Laws.{
  InOneMount, InWritable, guarded_call-InWritable, guarded_call-mv, targets,
}

abbrev mount_at : Text → FileSystemMount
mount_at point = record {
  writable = true;
  mount_point = point;
  source_id = text "s";
  root = none;
  hidden_roots = [];
}

abbrev described_at : Text → MountDescriptor
described_at point = record {
  writable = true;
  mount_point = point;
  source_id = text "s";
  root = root_path;
  hidden_roots = [];
}

abbrev two_mounts : List FileSystemMount
two_mounts = mount_at (text "/a") ∷ mount_at (text "/b") ∷ []

abbrev two_described : List MountDescriptor
two_described = described_at (text "/a") ∷ described_at (text "/b") ∷ []

-- Opens the definitions that an example computes with.
mount_code : Unit {0}
unfolding describe_mounts describe_mount is_same_or_descendant normalize_virtual_path has_encoded
    encoded_at resolve absolute_segments split starts_with ◌===◌ render join sort writable_mount
    locate
mount_code = tt

two_are_admitted : describe_mounts [] two_mounts ≡ ok two_described
unfolding mount_code
two_are_admitted = refl

a_x_normalizes : normalize_virtual_path (text "/a/x") ≡ ok (text "/a/x")
unfolding mount_code
a_x_normalizes = refl

describe_mounts_disjoint_example : length (keep (holds (text "/a/x")) two_described) ≤ 1
describe_mounts_disjoint_example =
    describe_mounts_disjoint two_mounts (text "/a/x") two_are_admitted
      (normalize-IsCanonical (text "/a/x") a_x_normalizes)

-- Sources that count the calls that reach them.
abbrev counting : MountedCall (Unit {0}) → ℕ → Result (Unit {0}) × ℕ
counting call n = (ok tt, suc n)

abbrev removal : MountedCall (Unit {0})
removal = rm (text "/a/x") tt

guarded_call-InWritable_example :
    ((guarded_call counting two_described removal 0).1 ≡ 0)
    ⊎ All (InWritable two_described) (targets removal)
guarded_call-InWritable_example = guarded_call-InWritable counting two_described removal 0

guarded_call-mv_example :
    ((guarded_call counting two_described (mv (text "/a/x") (text "/b/x")) 0).1 ≡ 0)
    ⊎ InOneMount two_described (text "/a/x") (text "/b/x")
guarded_call-mv_example = guarded_call-mv counting two_described (text "/a/x") (text "/b/x") 0
