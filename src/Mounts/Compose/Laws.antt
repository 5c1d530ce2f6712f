-- ===== src/Mounts/Compose/Laws.antt =====
-- The mount points of src/mounts/compose.ts: canonical, and no path lies in two mounts.
use supabash_fs.Prelude.{
  >>=-eq-ok, All, All-append, Bool, Bool-cases, List, Result, SupabashError, Text, [], ap, arith,
  each, err, every, false, includes, inl, inr, keep, length, ltb, none, not, ok, ok_inj, or_else,
  refl, some, subst, throw_if, true, ◌++◌, ◌===◌, ◌||◌, ◌∙◌, ◌∷◌, ◌≡◌, ◌≤◌,
}
use supabash_fs.Core.Path.{is_same_or_descendant, normalize_virtual_path, root_path}
use supabash_fs.Core.Path.Canonical.{IsCanonical, normalize-IsCanonical}
use supabash_fs.Core.Path.Descend.{is_prefix_nested, is_same_or_descendant-render}
use supabash_fs.Mounts.Compose.{
  FileSystemMount, MountDescriptor, describe_mount, describe_mounts, dev, invalid_mount, is_space,
  overlaps,
}

abbrev pub says_yes : Result Bool → Bool
says_yes (ok b) = b
says_yes (err e) = false

-- The path is in the mount.
abbrev pub holds : Text → MountDescriptor → Bool
holds path d = says_yes (is_same_or_descendant path d.mount_point)

-- Neither mount point is at or below the other.
abbrev pub Apart : Text → Text → Type 0
Apart a b = (is_same_or_descendant a b ≡ ok false) × (is_same_or_descendant b a ≡ ok false)

abbrev pub PairwiseApart : List MountDescriptor → Type 0
PairwiseApart [] = Unit
PairwiseApart (d ∷ ds) =
    All (λ (e : MountDescriptor). Apart d.mount_point e.mount_point) ds × PairwiseApart ds

PairwiseApart-append :
    (ds : List MountDescriptor) (d : MountDescriptor)
    → PairwiseApart ds
    → All (λ (e : MountDescriptor). Apart e.mount_point d.mount_point) ds
    → PairwiseApart (ds ++ d ∷ [])
PairwiseApart-append [] d h k = (tt, tt)
PairwiseApart-append (e ∷ ds) d (a, h) (b, k) = (
  All-append (λ (f : MountDescriptor). Apart e.mount_point f.mount_point) ds (d ∷ []) a (b, tt),
  PairwiseApart-append ds d h k,
)

or_false : (a b : Bool) → (a || b) ≡ false → (a ≡ false) × (b ≡ false)
or_false a b h = ground arith

overlaps-Apart :
    (point : Text) (ds : List MountDescriptor)
    → overlaps point ds ≡ ok false
    → All (λ (e : MountDescriptor). Apart e.mount_point point) ds
overlaps-Apart point [] h = tt
overlaps-Apart point (d ∷ ds) h =
    let (below, a, h1) = >>=-eq-ok (is_same_or_descendant point d.mount_point) _ h in
    let (above, b, h2) = >>=-eq-ok (is_same_or_descendant d.mount_point point) _ h1 in
    let (rest, c, h3) = >>=-eq-ok (overlaps point ds) _ h2 in
    let (f, g) = or_false (below || above) rest (ok_inj h3) in
    let (f1, f2) = or_false below above f in
    ((b ∙ ap ok f2, a ∙ ap ok f1), overlaps-Apart point ds (c ∙ ap ok g))

throw_if-ok : (b : Bool) (e : SupabashError) {u : Unit {0}} → throw_if b e ≡ ok u → b ≡ false
throw_if-ok true e h = cc
throw_if-ok false e h = refl

-- What the admission of a mount checks of its mount point.
pub record IsMountPoint (ds : List MountDescriptor) (point : Text) : Type 0 where
  pub canonical : IsCanonical point
  pub below_root : (point === root_path) ≡ false
  pub apart_from_dev : Apart point dev
  pub apart : All (λ (e : MountDescriptor). Apart e.mount_point point) ds

guard_false :
    (a b c d e : Bool)
    → (a || b || c || d || e) ≡ false
    → (b ≡ false) × (c ≡ false) × (d ≡ false) × (e ≡ false)
guard_false a b c d e h = ground arith

describe_mount-IsMountPoint :
    (ds : List MountDescriptor) (mount : FileSystemMount) {d : MountDescriptor}
    → describe_mount ds mount ≡ ok d
    → IsMountPoint ds d.mount_point
unfolding describe_mount
describe_mount-IsMountPoint ds mount h =
    let (point, n, h1) = >>=-eq-ok (normalize_virtual_path mount.mount_point) _ h in
    let (in_dev, a, h2) = >>=-eq-ok (is_same_or_descendant point dev) _ h1 in
    let (around_dev, b, h3) = >>=-eq-ok (is_same_or_descendant dev point) _ h2 in
    let (overlap, c, h4) = >>=-eq-ok (overlaps point ds) _ h3 in
    let (_, g, h5) =
      >>=-eq-ok
        (throw_if
          (not (point === mount.mount_point)
            || point === root_path
            || in_dev
            || around_dev
            || overlap)
          (invalid_mount (some mount.mount_point)))
        _ h4 in
    let (_, _, h6) =
      >>=-eq-ok
        (throw_if (every is_space mount.source_id || ltb 1024 (length mount.source_id))
          (invalid_mount none))
        _ h5 in
    let (root, _, h7) = >>=-eq-ok (normalize_virtual_path (or_else mount.root root_path)) _ h6 in
    let (hidden, _, h8) = >>=-eq-ok (each normalize_virtual_path mount.hidden_roots) _ h7 in
    let (_, _, h9) = >>=-eq-ok (throw_if (includes hidden root_path) (invalid_mount none)) _ h8 in
    let (r, i, o, v) =
      guard_false _ (point === root_path) in_dev around_dev overlap (throw_if-ok _ _ g) in
    subst (IsMountPoint ds) (ap (λ (d : MountDescriptor). d.mount_point) (ok_inj h9)) (record {
      canonical = normalize-IsCanonical mount.mount_point n;
      below_root = r;
      apart_from_dev = (a ∙ ap ok i, b ∙ ap ok o);
      apart = overlaps-Apart point ds (c ∙ ap ok v);
    })

-- The mounts of a composed file system.
pub record AreMounts (ds : List MountDescriptor) : Type 0 where
  pub canonical : All (λ (d : MountDescriptor). IsCanonical d.mount_point) ds
  pub apart : PairwiseApart ds

describe_mounts-AreMounts :
    (ds : List MountDescriptor) (mounts : List FileSystemMount) {out : List MountDescriptor}
    → AreMounts ds
    → describe_mounts ds mounts ≡ ok out
    → AreMounts out
unfolding describe_mounts
describe_mounts-AreMounts ds [] a h = subst AreMounts (ok_inj h) a
describe_mounts-AreMounts ds (m ∷ ms) a h =
    let (d, e, h1) = >>=-eq-ok (describe_mount ds m) _ h in
    let p = describe_mount-IsMountPoint ds m e in
    describe_mounts-AreMounts (ds ++ d ∷ []) ms
      (record {
        canonical =
            All-append (λ (f : MountDescriptor). IsCanonical f.mount_point) ds (d ∷ []) a.canonical
              (p.canonical, tt);
        apart = PairwiseApart-append ds d a.apart p.apart;
      })
      h1

-- Mount points that are apart do not hold the same path.
Apart-holds :
    (path a b : Text)
    → IsCanonical path
    → IsCanonical a
    → IsCanonical b
    → Apart a b
    → says_yes (is_same_or_descendant path a) ≡ true
    → says_yes (is_same_or_descendant path b) ≡ false
Apart-holds path a b p ca cb (x, y) h =
    let yes =
      rw
        (
          p.rendered,
          ca.rendered,
          is_same_or_descendant-render p.segments ca.segments p.plain ca.plain,
        )
        at h in
    let no =
      rw
        (
          ca.rendered,
          cb.rendered,
          is_same_or_descendant-render ca.segments cb.segments ca.plain cb.plain,
        )
        at x in
    let no' =
      rw
        (
          ca.rendered,
          cb.rendered,
          is_same_or_descendant-render cb.segments ca.segments cb.plain ca.plain,
        )
        at y in
    rw
      (
        p.rendered,
        cb.rendered,
        is_same_or_descendant-render p.segments cb.segments p.plain cb.plain,
      )
      (ground
        (arith, is_prefix_nested ca.segments cb.segments p.segments yes, ok_inj no, ok_inj no'))

none_hold :
    (path : Text) (d : MountDescriptor) (ds : List MountDescriptor)
    → IsCanonical path
    → IsCanonical d.mount_point
    → All (λ (e : MountDescriptor). IsCanonical e.mount_point) ds
    → All (λ (e : MountDescriptor). Apart d.mount_point e.mount_point) ds
    → holds path d ≡ true
    → keep (holds path) ds ≡ []
none_hold path d [] p c cs h k = refl
none_hold path d (e ∷ ds) p c (ce, cs) (a, h) k =
    rw (Apart-holds path d.mount_point e.mount_point p c ce a k) (none_hold path d ds p c cs h k)

one_holds :
    (path : Text) (ds : List MountDescriptor)
    → IsCanonical path
    → AreMounts ds
    → length (keep (holds path) ds) ≤ 1
one_holds path [] p m = omega arith
one_holds path (d ∷ ds) p m = elim (Bool-cases (holds path d)) [
  | inl e ↦ rw (e, none_hold path d ds p m.canonical.0 m.canonical.1 m.apart.0 e) (omega arith)
  | inr e ↦ rw e (one_holds path ds p (record { canonical = m.canonical.1; apart = m.apart.1 }))
]

-- Mounts that a composed file system admits are disjoint: a canonical path is in at most one of them.
pub describe_mounts_disjoint :
    (mounts : List FileSystemMount) {ds : List MountDescriptor} (path : Text)
    → describe_mounts [] mounts ≡ ok ds
    → IsCanonical path
    → length (keep (holds path) ds) ≤ 1
describe_mounts_disjoint mounts {ds} path h p =
    one_holds path ds p
      (describe_mounts-AreMounts [] mounts (record { canonical = tt; apart = tt }) h)
