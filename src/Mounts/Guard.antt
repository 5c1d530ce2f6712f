-- ===== src/Mounts/Guard.antt =====
-- src/mounts/guard.ts: which calls of a composed file system reach its sources.
pub mod Laws
use supabash_fs.Prelude.{
  Bool, List, Option, Result, SupabashError, Text, err, false, is_some, none, not, ok,
  policy_denied, some, supabash_error, text, throw_if, true, ℕ, ◌===◌, ◌>>=◌, ◌>>◌, ◌||◌,
}
use supabash_fs.Core.Path.{normalize_virtual_path}
use supabash_fs.Core.Entries.{Bytes}
use supabash_fs.Mounts.Compose.{MountDescriptor, locate}

-- The calls that change files. `O` stands for the options that the calls pass on as they are.
pub data MountedCall (O : Type 0) : Type 0 where
  append_file write_file : Text → Bytes → O → MountedCall O
  chmod : Text → ℕ → MountedCall O
  cp : Text → Text → O → MountedCall O
  mkdir rm : Text → O → MountedCall O
  mv : Text → Text → MountedCall O
  utimes : Text → ℕ → ℕ → MountedCall O

abbrev pub policy_error : Option Text → SupabashError
policy_error path = supabash_error policy_denied path

abbrev pub null_device : Text
null_device = text "/dev/null"

module _ (mounts : List MountDescriptor) where
  -- The end of `writable`
  abbrev pub writable_in : Text → Text → Option MountDescriptor → Result MountDescriptor
  writable_in path normalized none = err (policy_error (some path))
  writable_in path normalized (some mount) = do
    throw_if (not mount.writable || normalized === mount.mount_point) (policy_error (some path))
    ok mount

  unfoldable pub writable_mount : Text → Result MountDescriptor
  writable_mount path = do
    normalized ← normalize_virtual_path path
    found ← locate mounts normalized
    writable_in path normalized found

  -- A write: dropped on the null device, and else checked.
  abbrev pub admit_write : Text → Bool → Result Bool
  admit_write path true = ok false
  admit_write path false = do mount ← writable_mount path; ok true

  -- Whether a call goes on to the view. The mounts of a composed file system have different mount
  -- points, by which `from !== to` tells them apart.
  unfoldable pub admit : {O : Type 0} → MountedCall O → Result Bool
  admit (append_file path content options) = do
    normalized ← normalize_virtual_path path
    admit_write path (normalized === null_device)
  admit (write_file path content options) = do
    normalized ← normalize_virtual_path path
    admit_write path (normalized === null_device)
  admit (chmod path mode) = do mount ← writable_mount path; ok true
  admit (mkdir path options) = do mount ← writable_mount path; ok true
  admit (rm path options) = do mount ← writable_mount path; ok true
  admit (utimes path accessed modified) = do mount ← writable_mount path; ok true
  admit (cp source destination options) = do
    mount ← writable_mount destination
    normalized ← normalize_virtual_path source
    found ← locate mounts normalized
    throw_if (not (is_some found)) (policy_error (some source))
    ok true
  admit (mv source destination) = do
    from ← writable_mount source
    to ← writable_mount destination
    throw_if (not (from.mount_point === to.mount_point)) (policy_error none)
    ok true

-- `F` is the state of the composed sources, and `perform` the call on the view of them.
module _ {F O : Type 0} (perform : MountedCall O → F → Result (Unit {0}) × F)
    (mounts : List MountDescriptor) where
  abbrev pub after_admission : MountedCall O → F → Result Bool → Result (Unit {0}) × F
  after_admission call f (ok true) = perform call f
  after_admission call f (ok false) = (ok tt, f)
  after_admission call f (err e) = (err e, f)

  unfoldable pub guarded_call : MountedCall O → F → Result (Unit {0}) × F
  guarded_call call f = after_admission call f (admit mounts call)
