-- ===== src/Core/Tracked/Resets.antt =====
-- Resets, staged restores and the commit gate keep the bookkeeping in order, and a session of such
-- steps and calls does (src/core/tracked-file-system.ts).
use supabash_fs.Core.Tracked.Refresh.{refresh_baseline-InOrder}
use supabash_fs.Prelude.Errors.{Result, err, err_not_ok, ok}
use supabash_fs.Prelude.Tests.{Bool-cases, not_both}
use supabash_fs.Core.Tracked.Pending.{pending_preview}
use supabash_fs.Core.RuntimePaths.{persistent}
use supabash_fs.Prelude.{
  Bool, List, Option, Text, [], arith, false, inl, inr, refl, sort, true, ℕ, ◌===◌, ◌||◌, ◌∷◌, ◌≡◌,
}
use supabash_fs.Prelude.Exec.{>>=-Keeps, Keeps, continue, keeps, lift-Keeps, ◌>>=◌}
use supabash_fs.Prelude.Dict.{Dict, has}
use supabash_fs.Core.Path.{root_path}
use supabash_fs.Core.Entries.{Bytes, PendingChanges, RemoteEntry, WorkspaceEntryKind, sort_by_path}
use supabash_fs.Core.Tracked.Restore.{by_path, rebuild_live_tree}
use supabash_fs.Core.Tracked.Operations.{Action, Host, TrackedFileSystem}
use supabash_fs.Core.Tracked.Commit.{
  begin_commit, discard_changes, fail_commit, finish_commit, install, refresh_baseline, reset,
  stage, stage_remote_tree,
}
use supabash_fs.Core.Tracked.Calls.{Call, InOrder, assert_mutable-Keeps, run, run-Keeps}
use supabash_fs.Core.Tracked.Staging.{clean-IsTracked, lists, rebuild-has, staged-IsTracked}

module _ {F : Type 0} {exact : Bool} (host : Host F) where
  install-Keeps :
      (entries : List RemoteEntry) (r : Result (Dict WorkspaceEntryKind)) (files : F)
      → ((kinds : Dict WorkspaceEntryKind)
          → r ≡ ok kinds
          → (p : Text) → lists entries p ≡ true
          → has kinds p ≡ true)
      → Keeps (InOrder exact) (install host entries (r, files))
  install-Keeps entries (err e) files h = record { at = λ s v. v }
  install-Keeps entries (ok kinds) files h = record {
    at = λ s v. clean-IsTracked entries kinds (h kinds refl);
  }

  stage-Keeps :
      (entries : List RemoteEntry) (r : Result (Dict WorkspaceEntryKind)) (files : F)
      → ((kinds : Dict WorkspaceEntryKind)
          → r ≡ ok kinds
          → (p : Text) → (p === root_path || lists entries p) ≡ true
          → has kinds p ≡ true)
      → Keeps (InOrder exact) (stage host entries (r, files))
  stage-Keeps entries (err e) files h = record { at = λ s v. v }
  stage-Keeps entries (ok kinds) files h = record {
    at = λ s v. staged-IsTracked entries kinds s.tracking (h kinds refl);
  }

  install_live :
      (entries : List RemoteEntry) (limit : Option ℕ)
      → Keeps (InOrder exact) (
          install host entries
            (rebuild_live_tree host.fs host.download host.compare_paths entries false limit))
  install_live entries limit =
      let (r, files) =
        rebuild_live_tree host.fs host.download host.compare_paths entries false limit in
      install-Keeps entries r files (λ kinds e p h.
        rebuild-has host.fs host.download host.compare_paths entries false limit p e (ground arith))

  stage_live :
      (entries : List RemoteEntry) (from_revision : RemoteEntry → Result Bytes) (limit : Option ℕ)
      → Keeps (InOrder exact) (
          stage host entries
            (rebuild_live_tree host.fs from_revision host.compare_paths entries true limit))
  stage_live entries from_revision limit =
      let (r, files) =
        rebuild_live_tree host.fs from_revision host.compare_paths entries true limit in
      stage-Keeps entries r files (λ kinds e p h.
        rebuild-has host.fs from_revision host.compare_paths entries true limit p e h)

  -- A reset keeps the bookkeeping in order, whether it returns or throws.
  pub reset-Keeps : (entries : List RemoteEntry) → Keeps (InOrder exact) (reset host entries)
  unfolding reset
  reset-Keeps entries = record {
    at = λ s v. (>>=-Keeps (lift-Keeps _) (λ stored. install_live stored s.max_total_bytes)).at s v;
  }

  pub stage_remote_tree-Keeps :
      (entries : List RemoteEntry) (from_revision : RemoteEntry → Result Bytes)
      → Keeps (InOrder exact) (stage_remote_tree host entries from_revision)
  unfolding stage_remote_tree
  stage_remote_tree-Keeps entries from_revision =
      search (keeps, assert_mutable-Keeps, stage_live) depth 9

  begin_commit-Keeps : Keeps (InOrder exact) (begin_commit host)
  unfolding begin_commit
  begin_commit-Keeps = record {
    at = λ s v. elim (Bool-cases s.commit_in_progress) [
      | inl e ↦ simp e v
      | inr e ↦ simp e (record {
        stored = v.stored;
        apart = v.apart;
        known = v.known;
        covered = v.covered;
        sources = v.sources;
      })
    ];
  }

  discard_changes-Keeps : Keeps (InOrder exact) (discard_changes host)
  unfolding discard_changes
  discard_changes-Keeps = search (keeps, assert_mutable-Keeps, reset-Keeps) depth 9

abbrev pub is_returned : Result (Unit {0}) → Bool
is_returned (ok _) = true
is_returned (err e) = false

returned_ok : (r : Result (Unit {0})) → is_returned r ≡ true → r ≡ ok tt
returned_ok (ok _) h = refl
returned_ok (err e) h = absurd (not_both h refl)

module _ {F : Type 0} (host : Host F) where
  install-exact :
      (entries : List RemoteEntry) (r : Result (Dict WorkspaceEntryKind)) (files : F)
      (s : TrackedFileSystem F)
      → ((kinds : Dict WorkspaceEntryKind)
          → r ≡ ok kinds
          → (p : Text) → lists entries p ≡ true
          → has kinds p ≡ true)
      → (install host entries (r, files) s).0 ≡ ok tt
      → InOrder true (install host entries (r, files) s).1
  install-exact entries (err e) files s h k = absurd (err_not_ok k)
  install-exact entries (ok kinds) files s h k = clean-IsTracked entries kinds (h kinds refl)

  -- A reset that returns leaves an exact bookkeeping.
  reset-exact :
      (entries : List RemoteEntry) (s : TrackedFileSystem F)
      → (reset host entries s).0 ≡ ok tt
      → InOrder true (reset host entries s).1
  unfolding reset ◌>>=◌
  reset-exact entries s h = from (persistent (λ e. e.path) entries) h
    where
      rebuilt : List RemoteEntry → Action F (Unit {0})
      rebuilt stored = install host stored (
          rebuild_live_tree host.fs host.download host.compare_paths stored false s.max_total_bytes)

      from :
          (r : Result (List RemoteEntry))
          → (continue r rebuilt s).0 ≡ ok tt
          → InOrder true (continue r rebuilt s).1
      from (err e) h = absurd (err_not_ok h)
      from (ok stored) h =
          let (r, files) =
            rebuild_live_tree host.fs host.download host.compare_paths stored false
              s.max_total_bytes in
          install-exact stored r files s
            (λ kinds e p q.
              rebuild-has host.fs host.download host.compare_paths stored false s.max_total_bytes p
                e (ground arith))
            h

-- What a workspace does with its tree between two loads of the baseline.
pub data Event : Type 0 where
  call : Call → Event
  begin fail discard : Event
  finish refresh : List RemoteEntry → Event
  stage_tree : List RemoteEntry → (RemoteEntry → Result Bytes) → Event

module _ {F : Type 0} (host : Host F) where
  -- The tree after the event, whether it returned or threw.
  unfoldable pub after : Event → TrackedFileSystem F → TrackedFileSystem F
  after (call c) s = (run host c s).1
  after begin s = (begin_commit host s).1
  after fail s = fail_commit s
  after discard s = (discard_changes host s).1
  after (finish entries) s = (finish_commit host entries s).1
  after (refresh entries) s = refresh_baseline entries s
  after (stage_tree entries from_revision) s = (stage_remote_tree host entries from_revision s).1

  -- Whether the bookkeeping is exact after the event.
  unfoldable pub exact_after : Event → TrackedFileSystem F → Bool → Bool
  exact_after (refresh entries) s exact = false
  exact_after (finish entries) s exact = exact || is_returned (finish_commit host entries s).0
  exact_after _ s exact = exact

  unfoldable pub session : List Event → TrackedFileSystem F → TrackedFileSystem F
  session [] s = s
  session (e ∷ es) s = session es (after e s)

  unfoldable pub exact_session : List Event → TrackedFileSystem F → Bool → Bool
  exact_session [] s exact = exact
  exact_session (e ∷ es) s exact = exact_session es (after e s) (exact_after e s exact)

  either-InOrder :
      (exact returned : Bool) (s : TrackedFileSystem F)
      → InOrder exact s
      → (returned ≡ true → InOrder true s)
      → InOrder (exact || returned) s
  either-InOrder true returned s v h = v
  either-InOrder false true s v h = h refl
  either-InOrder false false s v h = v

  after-InOrder :
      (e : Event) (s : TrackedFileSystem F) (exact : Bool)
      → InOrder exact s
      → InOrder (exact_after e s exact) (after e s)
  unfolding after exact_after
  after-InOrder (call c) s exact v = (run-Keeps host c).at s v
  after-InOrder begin s exact v = (begin_commit-Keeps host).at s v
  after-InOrder fail s exact v =
      unfold fail_commit in
      record {
        stored = v.stored;
        apart = v.apart;
        known = v.known;
        covered = v.covered;
        sources = v.sources;
      }
  after-InOrder discard s exact v = (discard_changes-Keeps host).at s v
  after-InOrder (finish entries) s exact v =
      either-InOrder exact (is_returned (finish_commit host entries s).0)
        (finish_commit host entries s).1 ((reset-Keeps host entries).at s v)
        (λ h. reset-exact host entries s (returned_ok (finish_commit host entries s).0 h))
  after-InOrder (refresh entries) s exact v = refresh_baseline-InOrder exact entries s v
  after-InOrder (stage_tree entries from_revision) s exact v =
      (stage_remote_tree-Keeps host entries from_revision).at s v

  -- In whatever order mutating methods, begins, ends and failures of commits, refreshes of the baseline,
  -- discards and staged restores are called, and whether they return or throw, a tree that starts in order
  -- stays so: every pending deletion is the baseline's entry for its path, no path is both deleted and
  -- upserted, and every upserted path has a kind. If it starts exact, and a commit has finished by
  -- returning since the last refresh or there was none, every path of the baseline is live or deleted, and
  -- every move starts at a path of the baseline.
  pub session-InOrder :
      (es : List Event) (s : TrackedFileSystem F) (exact : Bool)
      → InOrder exact s
      → InOrder (exact_session es s exact) (session es s)
  unfolding session exact_session
  session-InOrder [] s exact v = v
  session-InOrder (e ∷ es) s exact v =
      session-InOrder es (after e s) (exact_after e s exact) (after-InOrder e s exact v)

  abbrev pub nothing_pending : PendingChanges
  nothing_pending = record { deletions = []; moves = []; upserts = [] }

  install_clean :
      (stored : List RemoteEntry) (r : Result (Dict WorkspaceEntryKind)) (files : F)
      (s : TrackedFileSystem F)
      → (install host stored (r, files) s).0 ≡ ok tt
      → (pending_preview host (install host stored (r, files) s).1 ≡ ok nothing_pending)
        × ((install host stored (r, files) s).1.commit_in_progress ≡ false)
        × ((install host stored (r, files) s).1.baseline ≡ by_path stored)
  unfolding pending_preview persistent sort_by_path sort
  install_clean stored (ok kinds) files s h = (refl, refl, refl)
  install_clean stored (err e) files s h = cc

  -- When `finishCommit` returns, nothing is pending, the tree is mutable, and its baseline is the given
  -- entries outside the roots that the shell owns.
  pub finish_commit_clean :
      (entries stored : List RemoteEntry) (s : TrackedFileSystem F)
      → persistent (λ e. e.path) entries ≡ ok stored
      → (finish_commit host entries s).0 ≡ ok tt
      → (pending_preview host (finish_commit host entries s).1 ≡ ok nothing_pending)
        × ((finish_commit host entries s).1.commit_in_progress ≡ false)
        × ((finish_commit host entries s).1.baseline ≡ by_path stored)
  unfolding reset ◌>>=◌
  finish_commit_clean entries stored s e h =
      let (r, files) =
        rebuild_live_tree host.fs host.download host.compare_paths stored false s.max_total_bytes in
      rw e (install_clean stored r files s (rw e at h))
