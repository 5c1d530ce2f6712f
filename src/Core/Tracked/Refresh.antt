-- ===== src/Core/Tracked/Refresh.antt =====
-- What `refreshBaseline` keeps of the bookkeeping (src/core/tracked-file-system.ts).
use supabash_fs.Prelude.Tests.{Bool-cases, not_both}
use supabash_fs.Prelude.{
  ===_iff, Bool, List, Option, Text, [], false, inl, inr, none, refl, some, subst, ◌===◌, ◌∙◌, ◌∷◌,
  ◌≡◌,
}
use supabash_fs.Prelude.Dict.{Dict, get, has}
use supabash_fs.Core.Entries.{RemoteEntry}
use supabash_fs.Core.Tracked.Restore.{by_path}
use supabash_fs.Core.Tracked.Commit.{kept_deletion, refresh_baseline, refreshed_deletions}
use supabash_fs.Core.Tracked.Operations.{TrackedFileSystem}
use supabash_fs.Core.Tracked.Calls.{InOrder}

kept_deletion-get :
    (next rest : Dict RemoteEntry) (path p : Text) (o : Option RemoteEntry) {e : RemoteEntry}
    → get next path ≡ o
    → (get rest p ≡ some e → get next p ≡ some e)
    → get (kept_deletion path o rest) p ≡ some e
    → get next p ≡ some e
unfolding get
kept_deletion-get next rest path p none q later h = later h
kept_deletion-get next rest path p (some entry) q later h = elim (Bool-cases (path === p)) [
  | inl same ↦ subst (λ t. get next t ≡ some entry) ((===_iff path p).0 same) q ∙ rw same at h
  | inr apart ↦ later (rw apart at h)
]

kept_deletion-has :
    (rest : Dict RemoteEntry) (path p : Text) (o : Option RemoteEntry)
    → (path === p) ≡ false
    → has rest p ≡ false
    → has (kept_deletion path o rest) p ≡ false
unfolding get
kept_deletion-has rest path p none apart later = later
kept_deletion-has rest path p (some entry) apart later = rw apart later

refreshed_deletions-get :
    (next deletions : Dict RemoteEntry) (p : Text) {e : RemoteEntry}
    → get (refreshed_deletions next deletions) p ≡ some e
    → get next p ≡ some e
unfolding get refreshed_deletions
refreshed_deletions-get next [] p h = cc
refreshed_deletions-get next ((path, old) ∷ deletions) p {e} h =
    let later = refreshed_deletions-get next deletions p {e = e} in
    kept_deletion-get next (refreshed_deletions next deletions) path p (get next path) refl later h

refreshed_deletions-has :
    (next deletions : Dict RemoteEntry) (p : Text)
    → has deletions p ≡ false
    → has (refreshed_deletions next deletions) p ≡ false
unfolding get refreshed_deletions
refreshed_deletions-has next [] p h = refl
refreshed_deletions-has next ((path, old) ∷ deletions) p h = elim (Bool-cases (path === p)) [
  | inl same ↦ absurd (not_both refl (rw same at h))
  | inr apart ↦
      kept_deletion-has (refreshed_deletions next deletions) path p (get next path) apart
        (refreshed_deletions-has next deletions p (rw apart at h))
]

-- A refresh of the baseline keeps the order, but not that the bookkeeping is exact.
pub refresh_baseline-InOrder :
    {F : Type 0} (exact : Bool) (entries : List RemoteEntry) (s : TrackedFileSystem F)
    → InOrder exact s
    → InOrder false (refresh_baseline entries s)
unfolding refresh_baseline
refresh_baseline-InOrder exact entries s v = record {
  stored = λ p e h. refreshed_deletions-get (by_path entries) s.deletions p h;
  apart = λ p h. refreshed_deletions-has (by_path entries) s.deletions p (v.apart p h);
  known = v.known;
  covered = λ x p h. absurd (not_both x refl);
  sources = λ x p h. absurd (not_both x refl);
}
