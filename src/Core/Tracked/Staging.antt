-- ===== src/Core/Tracked/Staging.antt =====
-- The bookkeeping of a fresh tree and of a staged restore (src/core/tracked-file-system.ts and
-- tracked-restore.ts).
use supabash_fs.Prelude.Exec.{bind-eq-ok, lift, pure}
use supabash_fs.Core.Tracked.Commit.{clean_tracking, staged_tracking}
use supabash_fs.Prelude.{
  ===_iff, Bool, List, Option, Ordering, Result, Text, [], any, ap, arith, false, if◌then◌else◌,
  includes, insert_sorted, map, none, not, ok, ok_inj, refl, sort, subst, sym, true, ℕ, ◌&&◌, ◌===◌,
  ◌||◌, ◌∙◌, ◌∷◌, ◌≡◌,
}
use supabash_fs.Prelude.Dict.{Dict, get, get-set, has, of_entries, set}
use supabash_fs.Core.Path.{parent_paths, root_path}
use supabash_fs.Core.Entries.{Bytes, RemoteEntry, WorkspaceEntryKind, by_kind, order_remote_entries}
use supabash_fs.Core.Tracked.State.{Tracking, add, set_directories}
use supabash_fs.Core.Tracked.Restore.{
  InMemoryFs, by_path, deletions_against, rebuild_live_tree, restore_entries, restore_remote_entry,
  root_kinds, same_staged_entry, upserts_against,
}
use supabash_fs.Core.Tracked.Invariant.{IsTracked, has-set_directories, includes-add}

-- Some entry has the path.
abbrev pub lists : List RemoteEntry → Text → Bool
lists entries p = any (λ e. e.path === p) entries

get-of_entries :
    (entries : List RemoteEntry) (m : Dict RemoteEntry) (p : Text)
    → has (of_entries m (map (λ e. (e.path, e)) entries)) p ≡ (has m p || lists entries p)
unfolding of_entries
get-of_entries [] m p = ground arith
get-of_entries (e ∷ entries) m p =
    ground (arith, get-of_entries entries (set m e.path e) p, get-set m e.path p e)

pub has-by_path :
    (entries : List RemoteEntry) (p : Text) → has (by_path entries) p ≡ lists entries p
unfolding by_path get
has-by_path entries p = get-of_entries entries [] p

-- The staged deletions are the entries of the baseline that the target lacks, the root excepted.
pub get-deletions_against :
    (baseline : Dict RemoteEntry) (entries : List RemoteEntry) (p : Text)
    → get (deletions_against baseline entries) p
      ≡ (if p === root_path || lists entries p then none else get baseline p)
unfolding deletions_against get
get-deletions_against [] entries p = ground arith
get-deletions_against ((k, e) ∷ baseline) entries p =
    ground (arith, get-deletions_against baseline entries p, ===_iff k p)

-- The entry is to be uploaded: it is not the root, and differs from the baseline's.
abbrev pub differs : Dict RemoteEntry → RemoteEntry → Bool
differs baseline e = not (e.path === root_path || same_staged_entry (get baseline e.path) e)

-- The staged upserts are the paths of the target's entries that differ from the baseline.
pub includes-upserts_against :
    (baseline : Dict RemoteEntry) (found : List Text) (entries : List RemoteEntry) (p : Text)
    → includes (upserts_against baseline found entries) p
      ≡ (includes found p || any (λ e. differs baseline e && e.path === p) entries)
unfolding upserts_against
includes-upserts_against baseline found [] p = ground arith
includes-upserts_against baseline found (e ∷ entries) p = ground (
  arith,
  includes-upserts_against baseline
      (if e.path === root_path || same_staged_entry (get baseline e.path) e
        then found
        else add found e.path)
      entries p,
  includes-add found e.path p,
)

any-insert_sorted {ℓ} :
    {A : Type ℓ} (le : A → A → Bool) (p : A → Bool) (x : A) (xs : List A)
    → any p (insert_sorted le x xs) ≡ (p x || any p xs)
any-insert_sorted le p x [] = refl
any-insert_sorted le p x (y ∷ ys) = ground (arith, any-insert_sorted le p x ys)

-- Sorting keeps the items.
pub any-sort {ℓ} :
    {A : Type ℓ} (le : A → A → Bool) (p : A → Bool) (xs : List A) → any p (sort le xs) ≡ any p xs
unfolding sort
any-sort le p [] = refl
any-sort le p (x ∷ xs) =
    any-insert_sorted le p x (sort le xs) ∙ ap (λ b. p x || b) (any-sort le p xs)

module _ {F : Type 0} (fs : InMemoryFs F) (download : RemoteEntry → Result Bytes) where
  -- Every entry that is restored has a kind, and no kind is lost.
  restore_entries-has :
      (eager : Bool) (kinds : Dict WorkspaceEntryKind) (entries : List RemoteEntry) (files : F)
      {kinds' : Dict WorkspaceEntryKind} (p : Text)
      → (restore_entries fs download eager kinds entries files).0 ≡ ok kinds'
      → (has kinds p || lists entries p) ≡ true
      → has kinds' p ≡ true
  unfolding restore_entries
  restore_entries-has eager kinds [] files {kinds'} p e h =
      let same : kinds ≡ kinds' = ok_inj (unfold pure in e) in
      subst (λ k. has k p ≡ true) same (ground arith)
  restore_entries-has eager kinds (entry ∷ entries) files p e h =
      let (parents, e0, e1) = bind-eq-ok (lift (parent_paths entry.path)) _ files e in
      let (_, e2, e3) = bind-eq-ok (restore_remote_entry fs download eager entry) _ _ e1 in
      restore_entries-has eager (set (set_directories kinds parents) entry.path entry.kind) entries
        _ p e3
        (ground (
          arith,
          get-set (set_directories kinds parents) entry.path p entry.kind,
          has-set_directories kinds parents p,
        ))

  pub rebuild-has :
      (compare_paths : Text → Text → Ordering) (entries : List RemoteEntry) (eager : Bool)
      (limit : Option ℕ) {kinds : Dict WorkspaceEntryKind} (p : Text)
      → (rebuild_live_tree fs download compare_paths entries eager limit).0 ≡ ok kinds
      → (p === root_path || lists entries p) ≡ true
      → has kinds p ≡ true
  unfolding rebuild_live_tree order_remote_entries get
  rebuild-has compare_paths entries eager limit p e h =
      restore_entries-has eager root_kinds (order_remote_entries compare_paths entries)
        (fs.fresh limit) p e
        (ground (
          arith,
          any-sort (by_kind compare_paths) (λ (r : RemoteEntry). r.path === p) entries,
          ===_iff root_path p,
          ===_iff p root_path,
        ))

any-and {ℓ} :
    {A : Type ℓ} (p q : A → Bool) (xs : List A) → any (λ x. p x && q x) xs ≡ true → any q xs ≡ true
any-and p q [] h = h
any-and p q (x ∷ xs) h = ground (arith, any-and p q xs)

-- After a reset nothing is pending, and the bookkeeping is in order.
pub clean-IsTracked :
    {exact : Bool} (entries : List RemoteEntry) (kinds : Dict WorkspaceEntryKind)
    → ((p : Text) → lists entries p ≡ true → has kinds p ≡ true)
    → IsTracked exact (clean_tracking entries kinds)
unfolding get
clean-IsTracked entries kinds live = record {
  stored = λ p e h. cc;
  apart = λ p h. refl;
  known = λ p h. cc;
  covered = λ x p h. ground (arith, has-by_path entries p, live p);
  sources = λ x p h. cc;
}

pub staged-IsTracked :
    {exact : Bool} (entries : List RemoteEntry) (kinds : Dict WorkspaceEntryKind) (t : Tracking)
    → ((p : Text) → (p === root_path || lists entries p) ≡ true → has kinds p ≡ true)
    → IsTracked exact (staged_tracking entries kinds t)
unfolding get
staged-IsTracked entries kinds t live = record {
  stored = λ p e h. ground (arith, get-deletions_against t.baseline entries p);
  apart = λ p h. ground (arith, get-deletions_against t.baseline entries p, listed p h);
  known = λ p h. live p (ground (arith, listed p h));
  covered = λ x p h. ground (arith, get-deletions_against t.baseline entries p, live p);
  sources = λ x p h. cc;
}
  where
    listed :
        (p : Text)
        → includes (upserts_against t.baseline [] entries) p ≡ true
        → lists entries p ≡ true
    listed p h =
        any-and (differs t.baseline) (λ e. e.path === p) entries
          (sym (includes-upserts_against t.baseline [] entries p) ∙ h)

missing_differs :
    (baseline : Dict RemoteEntry) (entries : List RemoteEntry) (p : Text)
    → (p === root_path) ≡ false
    → has baseline p ≡ false
    → any (λ e. differs baseline e && e.path === p) entries ≡ lists entries p
unfolding same_staged_entry
missing_differs baseline [] p r h = refl
missing_differs baseline (e ∷ entries) p r h =
    ground (arith, missing_differs baseline entries p r h, ===_iff e.path p)

-- Whatever the baseline and the target, the staged deletions and upserts turn the paths of the
-- baseline into those of the target: a path other than the root is left over or uploaded exactly
-- when the target lists it.
pub staged_paths :
    (baseline : Dict RemoteEntry) (entries : List RemoteEntry) (p : Text)
    → (p === root_path) ≡ false
    → ((has baseline p && not (has (deletions_against baseline entries) p))
        || includes (upserts_against baseline [] entries) p)
      ≡ lists entries p
staged_paths baseline entries p r = ground (
  arith,
  get-deletions_against baseline entries p,
  includes-upserts_against baseline [] entries p,
  missing_differs baseline entries p r,
  any-and (differs baseline) (λ (e : RemoteEntry). e.path === p) entries,
)
