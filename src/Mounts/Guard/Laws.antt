-- ===== src/Mounts/Guard/Laws.antt =====
-- What src/mounts/guard.ts lets a call change.
use supabash_fs.Prelude.{
  ===_iff, >>=-eq-ok, All, Bool, List, Option, Result, Text, [], ap, arith, err, err_not_ok, false,
  inl, inr, none, not, ok, ok_inj, refl, some, subst, sym, throw_if, true, ◌===◌, ◌>>=◌, ◌||◌, ◌∙◌,
  ◌∷◌, ◌≡◌, ◌⊎◌,
}
use supabash_fs.Core.Path.{normalize_virtual_path}
use supabash_fs.Mounts.Compose.{MountDescriptor, locate}
use supabash_fs.Mounts.Guard.{
  MountedCall, admit, admit_write, after_admission, append_file, chmod, cp, guarded_call, mkdir, mv,
  null_device, policy_error, rm, utimes, writable_in, writable_mount, write_file,
}

-- The path lies below the mount point of a writable mount.
pub record InWritable (mounts : List MountDescriptor) (path : Text) : Type 0 where
  pub normal : Text
  pub mount : MountDescriptor
  pub normalized : normalize_virtual_path path ≡ ok normal
  pub located : locate mounts normal ≡ ok (some mount)
  pub writable : mount.writable ≡ true
  pub below : (normal === mount.mount_point) ≡ false

-- The paths at which a call changes files.
abbrev pub targets : {O : Type 0} → MountedCall O → List Text
targets (append_file path content options) = path ∷ []
targets (write_file path content options) = path ∷ []
targets (chmod path mode) = path ∷ []
targets (mkdir path options) = path ∷ []
targets (rm path options) = path ∷ []
targets (utimes path accessed modified) = path ∷ []
targets (cp source destination options) = destination ∷ []
targets (mv source destination) = source ∷ destination ∷ []

writable_in-ok :
    (mounts : List MountDescriptor) (path normalized : Text) (found : Option MountDescriptor)
    {mount : MountDescriptor}
    → writable_in mounts path normalized found ≡ ok mount
    → (found ≡ some mount) × (mount.writable ≡ true) × ((normalized === mount.mount_point) ≡ false)
writable_in-ok mounts path normalized none h = absurd (err_not_ok h)
writable_in-ok mounts path normalized (some m) {mount} h =
    let (_, t, e) =
      >>=-eq-ok
        (throw_if (not m.writable || normalized === m.mount_point) (policy_error (some path))) _
        h in
    let q = ok_inj e in
    (
      ap some q,
      subst (λ (d : MountDescriptor). d.writable ≡ true) q (ground arith),
      subst (λ (d : MountDescriptor). (normalized === d.mount_point) ≡ false) q (ground arith),
    )

module _ (mounts : List MountDescriptor) where
  pub writable-InWritable :
      (path : Text) {mount : MountDescriptor}
      → writable_mount mounts path ≡ ok mount
      → (w : InWritable mounts path) × (w.mount ≡ mount)
  unfolding writable_mount
  writable-InWritable path {mount} h =
      let (normal, n, h1) = >>=-eq-ok (normalize_virtual_path path) _ h in
      let (found, l, h2) = >>=-eq-ok (locate mounts normal) _ h1 in
      let (f, w, b) = writable_in-ok mounts path normal found h2 in
      (
        record {
          normal = normal;
          mount = mount;
          normalized = n;
          located = l ∙ ap ok f;
          writable = w;
          below = b;
        },
        refl,
      )

  one-InWritable :
      (path : Text) {b : Bool}
      → (writable_mount mounts path >>= λ _. ok true) ≡ ok b
      → InWritable mounts path
  one-InWritable path h =
      let (m, e, _) = >>=-eq-ok (writable_mount mounts path) _ h in (writable-InWritable path e).0

  write-InWritable :
      (path : Text) (b : Bool) → admit_write mounts path b ≡ ok true → InWritable mounts path
  write-InWritable path true h = cc
  write-InWritable path false h = one-InWritable path h

  admit-InWritable :
      {O : Type 0} (call : MountedCall O)
      → admit mounts call ≡ ok true
      → All (InWritable mounts) (targets call)
  unfolding admit
  admit-InWritable (append_file path content options) h =
      let (normal, n, e) = >>=-eq-ok (normalize_virtual_path path) _ h in
      (write-InWritable path (normal === null_device) e, tt)
  admit-InWritable (write_file path content options) h =
      let (normal, n, e) = >>=-eq-ok (normalize_virtual_path path) _ h in
      (write-InWritable path (normal === null_device) e, tt)
  admit-InWritable (chmod path mode) h = (one-InWritable path h, tt)
  admit-InWritable (mkdir path options) h = (one-InWritable path h, tt)
  admit-InWritable (rm path options) h = (one-InWritable path h, tt)
  admit-InWritable (utimes path accessed modified) h = (one-InWritable path h, tt)
  admit-InWritable (cp source destination options) h =
      let (m, e, _) = >>=-eq-ok (writable_mount mounts destination) _ h in
      ((writable-InWritable destination e).0, tt)
  admit-InWritable (mv source destination) h =
      let (from, e, h1) = >>=-eq-ok (writable_mount mounts source) _ h in
      let (to, k, _) = >>=-eq-ok (writable_mount mounts destination) _ h1 in
      ((writable-InWritable source e).0, ((writable-InWritable destination k).0, tt))

-- Both paths lie below the mount point of one writable mount.
pub record InOneMount (mounts : List MountDescriptor) (source destination : Text) : Type 0 where
  pub from : InWritable mounts source
  pub to : InWritable mounts destination
  pub same : from.mount.mount_point ≡ to.mount.mount_point

admit-InOneMount :
    (O : Type 0) (mounts : List MountDescriptor) (source destination : Text)
    → admit mounts {O = O} (mv source destination) ≡ ok true
    → InOneMount mounts source destination
unfolding admit
admit-InOneMount O mounts source destination h =
    let (from, e, h1) = >>=-eq-ok (writable_mount mounts source) _ h in
    let (to, k, h2) = >>=-eq-ok (writable_mount mounts destination) _ h1 in
    let (_, t, _) =
      >>=-eq-ok (throw_if (not (from.mount_point === to.mount_point)) (policy_error none)) _ h2 in
    let (a, same_from) = writable-InWritable mounts source e in
    let (b, same_to) = writable-InWritable mounts destination k in
    let one : from.mount_point ≡ to.mount_point =
      (===_iff from.mount_point to.mount_point).0 (ground arith) in
    record {
      from = a;
      to = b;
      same =
          ap (λ (m : MountDescriptor). m.mount_point) same_from
          ∙ one
          ∙ sym (ap (λ (m : MountDescriptor). m.mount_point) same_to);
    }

module _ {F O : Type 0} (perform : MountedCall O → F → Result (Unit {0}) × F)
    (mounts : List MountDescriptor) where
  admitted_or_same :
      (P : Type 0) (call : MountedCall O) (f : F) (r : Result Bool)
      → (r ≡ ok true → P)
      → ((after_admission perform mounts call f r).1 ≡ f) ⊎ P
  admitted_or_same P call f (ok true) h = inr (h refl)
  admitted_or_same P call f (ok false) h = inl refl
  admitted_or_same P call f (err e) h = inl refl

  -- A call leaves the files as they are, unless every path at which it changes them lies below the
  -- mount point of a writable mount, and is not that mount point.
  pub guarded_call-InWritable :
      (call : MountedCall O) (f : F)
      → ((guarded_call perform mounts call f).1 ≡ f) ⊎ All (InWritable mounts) (targets call)
  unfolding guarded_call
  guarded_call-InWritable call f =
      admitted_or_same (All (InWritable mounts) (targets call)) call f (admit mounts call)
        (admit-InWritable mounts call)

  -- A move leaves the files as they are, unless both of its paths lie below the mount point of the same
  -- writable mount, and are not that mount point.
  pub guarded_call-mv :
      (source destination : Text) (f : F)
      → ((guarded_call perform mounts (mv source destination) f).1 ≡ f)
        ⊎ InOneMount mounts source destination
  unfolding guarded_call
  guarded_call-mv source destination f =
      admitted_or_same (InOneMount mounts source destination) (mv source destination) f
        (admit mounts {O = O} (mv source destination))
        (admit-InOneMount O mounts source destination)
