-- ===== src/Core/Workspace/Laws.antt =====
-- A commit never leaves the tree locked (src/core/workspace.ts).
use supabash_fs.Core.Uploads.{resolved_commit_context}
use supabash_fs.History.Records.{HistoryRecord}
use supabash_fs.Core.Tracked.Commit.{begin_commit, fail_commit, finish_commit, install, reset}
use supabash_fs.Core.Tracked.Restore.{rebuild_live_tree}
use supabash_fs.Core.Tracked.Operations.{Action, TrackedFileSystem}
use supabash_fs.Core.Entries.{PendingChanges, RemoteEntry, UploadEntry, WorkspaceEntryKind}
use supabash_fs.Core.RuntimePaths.{persistent}
use supabash_fs.Prelude.Dict.{Dict}
use supabash_fs.Prelude.{
  Bool, List, Option, Result, Text, err, err_not_ok, false, none, ok, refl, some, subst, sym, ◌∙◌,
  ◌≡◌,
}
use supabash_fs.Prelude.Exec.{
  Exec, Keeps, bind-at, bind-eq-ok, gets, keeps, lift, modify, pure, pure-Keeps, ◌>>=◌, ◌>>◌,
}
use supabash_fs.History.Publish.{CommitContext, still_leased}
use supabash_fs.History.Lease.{
  CommitCoordinator, CommitLease, release_after, run_with_lease, with_lease,
}
use supabash_fs.Core.Workspace.{
  CommitHost, StorageWorkspace, caught, commit, commit_begun, commit_body, commit_leased,
  finish_published_commit, finished, listed, on_fs, publish_changes, reset_marks, unless_prior,
  unless_replayed,
}

-- Where an operation returns, `P` holds.
record Ends {S A : Type 0} (P : S → Type 0) (m : Exec S A) : Type 0 where
  at : (s : S) (a : A) → (m s).0 ≡ ok a → P (m s).1

module _ {S A B : Type 0} {P : S → Type 0} where
  bind-Ends : (m : Exec S A) (f : A → Exec S B) → ((a : A) → Ends P (f a)) → Ends P (m >>= f)
  bind-Ends m f h = record {
    at = λ s b returned.
        let (a, first, next) = bind-eq-ok m f s returned in
        subst (λ (out : Result B × S). P out.1) (sym (bind-at m f s a first))
          ((h a).at (m s).1 b next);
  }

  kept-Ends :
      (m : Exec S A) (f : A → Exec S B) → Ends P m → ((a : A) → Keeps P (f a)) → Ends P (m >>= f)
  kept-Ends m f e k = record {
    at = λ s b returned.
        let (a, first, next) = bind-eq-ok m f s returned in
        subst (λ (out : Result B × S). P out.1) (sym (bind-at m f s a first))
          ((k a).at (m s).1 (e.at s a first));
  }

module _ {F V : Type 0} where
  abbrev pub Unlocked : StorageWorkspace F V → Type 0
  Unlocked s = s.fs.commit_in_progress ≡ false

-- A release does not touch the tree.
abbrev pub ReleaseKeeps :
    {F V : Type 0} → Option (CommitCoordinator (StorageWorkspace F V)) → Type 0
ReleaseKeeps {F} {V} none = Unit
ReleaseKeeps {F} {V} (some coordinator) =
    (scope transaction : Text) (s : StorageWorkspace F V)
    (lease : CommitLease (StorageWorkspace F V))
    → (coordinator.acquire scope transaction s).0 ≡ ok lease
    → Keeps Unlocked lease.release

module _ {F V A : Type 0} where
  release-Ends :
      (lease : CommitLease (StorageWorkspace F V)) (out : Result A × StorageWorkspace F V) (a : A)
      → Keeps Unlocked lease.release
      → (out.0 ≡ ok a → Unlocked out.1)
      → (release_after lease out).0 ≡ ok a
      → Unlocked (release_after lease out).1
  release-Ends lease (r, s) a keeps h returned = keeps.at s (h returned)

  with_lease-Ends :
      (coordinator : Option (CommitCoordinator (StorageWorkspace F V))) (scope transaction : Text)
      (run : Exec (StorageWorkspace F V) Bool → Exec (StorageWorkspace F V) A)
      → ReleaseKeeps coordinator
      → ((lost : Exec (StorageWorkspace F V) Bool) → Ends Unlocked (run lost))
      → Ends Unlocked (with_lease coordinator scope transaction run)
  unfolding with_lease
  with_lease-Ends none scope transaction run keeps h = h (pure false)
  with_lease-Ends (some coordinator) scope transaction run keeps h = record {
    at = λ s a returned.
        let acquire = coordinator.acquire scope transaction in
        let held = λ (lease : CommitLease (StorageWorkspace F V)) (s : StorageWorkspace F V).
          release_after lease (run_with_lease lease.lost run s) in
        let (lease, first, next) = bind-eq-ok acquire held s returned in
        let ended =
          bind-Ends lease.lost (λ gone. lift (still_leased (ok gone)) >> run lease.lost)
            (λ gone.
              bind-Ends (lift (still_leased (ok gone))) (λ _. run lease.lost)
                (λ _. h lease.lost)) in
        subst (λ (out : Result A × StorageWorkspace F V). Unlocked out.1)
          (sym (bind-at acquire held s lease first))
          (release-Ends lease (run_with_lease lease.lost run (acquire s).1) a
            (keeps scope transaction s lease first) (ended.at (acquire s).1 a) next);
  }

module _ {F V : Type 0} (env : CommitHost F V) where
  install-Ends :
      (entries : List RemoteEntry) (out : Result (Dict WorkspaceEntryKind) × F)
      → Ends
          (λ (s : TrackedFileSystem F). s.commit_in_progress ≡ false)
          (install env.host entries out)
  install-Ends entries (err e, files) = record { at = λ s a h. absurd (err_not_ok h) }
  install-Ends entries (ok kinds, files) = record { at = λ s a h. refl }

  reset-Ends :
      (entries : List RemoteEntry)
      → Ends
          (λ (s : TrackedFileSystem F). s.commit_in_progress ≡ false)
          (finish_commit env.host entries)
  unfolding reset
  reset-Ends entries = record {
    at = λ s a h.
        (bind-Ends (lift (persistent (λ (e : RemoteEntry). e.path) entries))
            (λ stored. install env.host stored (
              rebuild_live_tree env.host.fs env.host.download env.host.compare_paths stored false
                s.max_total_bytes))
            (λ stored. install-Ends stored _)).at
          s a h;
  }

  on_fs-Ends :
      {A : Type 0} (m : Action F A)
      → Ends (λ (s : TrackedFileSystem F). s.commit_in_progress ≡ false) m
      → Ends (λ (s : StorageWorkspace F V). Unlocked s) (on_fs m)
  unfolding on_fs
  on_fs-Ends m e = record { at = λ s a h. e.at s.fs a h }

  finish-Ends : Ends Unlocked (finish_published_commit env)
  unfolding finish_published_commit modify
  finish-Ends =
      bind-Ends (listed env)
        (λ entries. on_fs (finish_commit env.host entries) >> modify (reset_marks env))
        (λ entries.
          kept-Ends (on_fs (finish_commit env.host entries)) (λ _. modify (reset_marks env))
            (on_fs-Ends (finish_commit env.host entries) (reset-Ends entries))
            (λ _. record { at = λ s h. h }))

  finished-Ends : (receipt : HistoryRecord) → Ends Unlocked (finished env receipt)
  finished-Ends receipt =
      kept-Ends (finish_published_commit env) (λ _. pure receipt) finish-Ends
        (λ _. pure-Keeps receipt)

  module _ (context : CommitContext) (transaction_id revision now : Text) (later : Result Bool)
      (uploads : List UploadEntry) (audited : List RemoteEntry) (fingerprint : Text)
      (lost : Exec (StorageWorkspace F V) Bool) where
    publish_changes-Ends :
        (pending : PendingChanges)
        → Ends Unlocked (
            publish_changes env context transaction_id revision now later uploads audited
              fingerprint lost pending)
    unfolding publish_changes
    publish_changes-Ends pending = search (bind-Ends, finished-Ends) depth 40

    replayed-Ends :
        (pending : PendingChanges) (replay : Option HistoryRecord)
        → Ends Unlocked (
            unless_replayed env context transaction_id revision now later uploads audited
              fingerprint lost pending replay)
    replayed-Ends pending (some replay) = finished-Ends replay
    replayed-Ends pending none = publish_changes-Ends pending

    prior-Ends :
        (pending : PendingChanges) (prior : Option HistoryRecord)
        → Ends Unlocked (
            unless_prior env context transaction_id revision now later uploads audited fingerprint
              lost pending prior)
    prior-Ends pending (some prior) = finished-Ends prior
    prior-Ends pending none = bind-Ends _ _ (λ replay. replayed-Ends pending replay)

    commit_leased-Ends :
        (pending : PendingChanges)
        → Ends Unlocked (
            commit_leased env context transaction_id revision now later uploads audited fingerprint
              lost pending)
    unfolding commit_leased
    commit_leased-Ends pending =
        bind-Ends _ _ (λ recovered.
          bind-Ends _ _ (λ changes. bind-Ends _ _ (λ prior. prior-Ends changes prior)))

  commit_body-Ends :
      (context : CommitContext) (transaction_id revision now : Text) (later : Result Bool)
      (pending : PendingChanges)
      → ReleaseKeeps env.coordinator
      → Ends Unlocked (commit_body env context transaction_id revision now later pending)
  unfolding commit_body
  commit_body-Ends context transaction_id revision now later pending keeps =
      bind-Ends _ _ (λ uploads. bind-Ends _ _ (λ audited. bind-Ends _ _ (λ planned.
        with_lease-Ends env.coordinator env.scope transaction_id _ keeps (λ lost.
          commit_leased-Ends context transaction_id revision now later uploads audited
            (env.fingerprint_of planned context) lost pending))))

  caught-Unlocked :
      (transaction_id : Text) (out : Result HistoryRecord × StorageWorkspace F V)
      → ((a : HistoryRecord) → out.0 ≡ ok a → Unlocked out.1)
      → Unlocked (caught env transaction_id out).1
  unfolding fail_commit
  caught-Unlocked transaction_id (ok receipt, s) h = h receipt refl
  caught-Unlocked transaction_id (err e, s) h = refl

  -- A commit that begins ends with an unlocked tree, whether it returns, finds an earlier receipt, or
  -- throws at any point, when the release of a lease does not lock the tree.
  pub commit-Unlocked :
      (context : Option CommitContext) (fresh transaction_id revision now : Text)
      (later : Result Bool) (s : StorageWorkspace F V) (pending : PendingChanges)
      → ReleaseKeeps env.coordinator
      → (begin_commit env.host s.fs).0 ≡ ok pending
      → Unlocked (commit env context fresh transaction_id revision now later s).1
  unfolding commit on_fs gets
  commit-Unlocked context fresh transaction_id revision now later s pending keeps begun =
      let resolved = resolved_commit_context context s.restore_source_revision fresh in
      let next = commit_begun env resolved transaction_id revision now later in
      subst (λ (out : Result HistoryRecord × StorageWorkspace F V). Unlocked out.1)
        (sym (
          bind-at (gets (λ (s : StorageWorkspace F V). s.restore_source_revision)) _ s
            s.restore_source_revision refl
          ∙ bind-at (on_fs (begin_commit env.host)) next s pending begun))
        (caught-Unlocked transaction_id _
          ((commit_body-Ends resolved transaction_id revision now later pending keeps).at _))
