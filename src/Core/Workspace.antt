-- ===== src/Core/Workspace.antt =====
-- src/core/workspace.ts: the workspace on a storage, and its commit. Uploads and checks that the source
-- runs in batches run one after the other. `recover` is a run of `recoverWorkspace` that ends.
pub mod Laws
use supabash_fs.Prelude.{
  Bool, List, Option, Result, SupabashError, Text, [], commit_conflict, err, false, if◌then◌else◌,
  is_some, map, none, not, ok, partial_commit, same_option, some, storage, supabash_error, throw_if,
  true, ℕ, ◌&&◌, ◌++◌, ◌===◌, ◌∷◌,
}
use supabash_fs.Prelude.Dict.{Dict, get, set, values}
use supabash_fs.Prelude.Json.{Fields}
use supabash_fs.Prelude.Exec.{Exec, for_each, gets, lift, modify, pure, reads, ◌>>=◌, ◌>>◌}
use supabash_fs.Core.Path.{normalize_virtual_path}
use supabash_fs.Core.Entries.{
  Bytes, PendingChanges, PendingMove, RemoteEntry, UploadDraft, UploadEntry,
}
use supabash_fs.Core.Changes.{
  Stored, WorkspaceChange, committed_workspace_changes, merge_audit_baseline, remote,
  same_remote_version, upload, visible_entry_count,
}
use supabash_fs.Core.Uploads.{
  FileReads, audited, entry_for_audit, prepare_upload, resolved_commit_context, upload_draft_for,
}
use supabash_fs.Core.Tracked.Operations.{Action, Host, TrackedFileSystem}
use supabash_fs.Core.Tracked.Pending.{pending_preview}
use supabash_fs.Core.Tracked.Commit.{
  begin_commit, discard_changes, fail_commit, finish_commit, refresh_baseline,
}
use supabash_fs.History.Records.{HeadRecord, HistoryRecord, RevisionEntry}
use supabash_fs.History.Store.{HistoryStore}
use supabash_fs.History.Storage.{Scoped, ScopedStorage, on_history, on_visible}
use supabash_fs.History.Quota.{WorkspaceLimits, assert_commit_quotas}
use supabash_fs.History.Bodies.{revision_entries_from}
use supabash_fs.History.Publish.{
  CommitContext, PublishInput, finalize_publish, still_leased, write_intent,
}
use supabash_fs.History.Receipts.{existing_idempotent_receipt, receipt_for_transaction}
use supabash_fs.History.Lease.{CommitCoordinator, with_lease}

-- The fields that change, the storage they stand on, and `publish.intentWritten` of a running commit
pub record StorageWorkspace (F V : Type 0) : Type 0 where
  pub fs : TrackedFileSystem F
  pub intent_written : Bool
  pub partial_transaction_id : Option Text
  pub restore_source_revision : Option Text
  pub scoped : Scoped V

module _ {F V A : Type 0} where
  unfoldable pub on_fs : Action F A → Exec (StorageWorkspace F V) A
  on_fs m s = let (r, fs) = m s.fs in (r, record s { fs = fs })

  unfoldable pub on_scoped : Exec (Scoped V) A → Exec (StorageWorkspace F V) A
  on_scoped m s = let (r, scoped) = m s.scoped in (r, record s { scoped = scoped })

  -- What a part ends with, thrown or returned
  unfoldable pub attempt : Exec (StorageWorkspace F V) A → Exec (StorageWorkspace F V) (Result A)
  attempt m s = let (r, after) = m s in (ok r, after)

-- `mapInBatches`
abbrev pub map_each : {S A B : Type 0} → (A → Exec S B) → List A → Exec S (List B)
map_each f [] = pure []
map_each f (x ∷ xs) = do y ← f x; ys ← map_each f xs; pure (y ∷ ys)

-- What a commit takes from outside
pub record CommitHost (F V : Type 0) : Type 0 where
  pub host : Host F
  pub more : FileReads F
  pub storage : ScopedStorage V
  pub recover : Exec (Scoped V) Bool
  pub coordinator : Option (CommitCoordinator (StorageWorkspace F V))
  pub utf8 : Text → Bytes
  pub version_of : UploadDraft → Text → Text
  pub content_type_for : Text → Text
  pub fingerprint_of : List WorkspaceChange → CommitContext → Text
  pub metadata_size : Fields → ℕ
  pub limits : WorkspaceLimits
  pub scope : Text

abbrev pub conflict_error : Text → SupabashError
conflict_error path = supabash_error commit_conflict (some path)

abbrev pub size_of_metadata : (Fields → ℕ) → Option Fields → Option ℕ
size_of_metadata size none = none
size_of_metadata size (some metadata) = some (size metadata)

-- A baseline entry that was deleted must be stored as it was, or not at all.
abbrev pub deletion_conflicts : RemoteEntry → Option RemoteEntry → Bool
deletion_conflicts entry none = false
deletion_conflicts entry (some current) = not (same_remote_version entry current)

abbrev pub already_applied : Option RemoteEntry → UploadEntry → Bool
already_applied none sent = false
already_applied (some current) sent =
    same_option ◌===◌ current.version_hash (some sent.version_hash)

abbrev pub storage_changed : Option RemoteEntry → Option RemoteEntry → Bool
storage_changed none current = is_some current
storage_changed (some baseline) none = true
storage_changed (some baseline) (some current) = not (same_remote_version baseline current)

abbrev pub upload_conflicts : UploadEntry → Option RemoteEntry → Option RemoteEntry → Bool
upload_conflicts sent baseline current =
    not (already_applied current sent) && storage_changed baseline current

module _ {F V : Type 0} (env : CommitHost F V) where
  abbrev Step : Type 0 → Type 0
  Step A = Exec (StorageWorkspace F V) A

  abbrev pub baseline_at : TrackedFileSystem F → Result Text → Result (Option RemoteEntry)
  baseline_at fs (err e) = err e
  baseline_at fs (ok normalized) = ok (get fs.baseline normalized)

  abbrev pub baseline_entry : Text → TrackedFileSystem F → Result (Option RemoteEntry)
  baseline_entry path fs = baseline_at fs (normalize_virtual_path path)

  abbrev pub listed : Step (List RemoteEntry)
  listed = on_scoped (on_visible env.storage.list)

  abbrev pub reset_marks : StorageWorkspace F V → StorageWorkspace F V
  reset_marks s = record s { partial_transaction_id = none; restore_source_revision = none }

  unfoldable pub finish_published_commit : Step (Unit {0})
  finish_published_commit = do
    entries ← listed
    on_fs (finish_commit env.host entries)
    modify reset_marks

  abbrev pub check_deletion : RemoteEntry → Step (Unit {0})
  check_deletion entry = do
    current ← on_scoped (on_visible (env.storage.head entry.path))
    lift (throw_if (deletion_conflicts entry current) (conflict_error entry.path))

  abbrev pub check_upload : UploadEntry → Step (Unit {0})
  check_upload sent = do
    baseline ← reads (λ s. baseline_entry sent.path s.fs)
    current ← on_scoped (on_visible (env.storage.head sent.path))
    lift (throw_if (upload_conflicts sent baseline current) (conflict_error sent.path))

  unfoldable pub assert_no_conflicts : List RemoteEntry → List UploadEntry → Step (Unit {0})
  assert_no_conflicts deletions uploads = do
    for_each check_deletion deletions
    for_each check_upload uploads

  abbrev pub audit_entry : Option RemoteEntry → Action F (Option RemoteEntry)
  audit_entry none = pure none
  audit_entry (some entry) = do
    audited ← entry_for_audit env.host env.utf8 entry
    pure (some audited)

  abbrev pub put_audited : Text → Option RemoteEntry → Dict RemoteEntry → Dict RemoteEntry
  put_audited path none baseline = baseline
  put_audited path (some entry) baseline = set baseline path entry

  abbrev pub audit_each : List Text → Dict RemoteEntry → Action F (Dict RemoteEntry)
  audit_each [] baseline = pure baseline
  audit_each (path ∷ paths) baseline = do
    entry ← reads (baseline_entry path)
    found ← audit_entry entry
    audit_each paths (put_audited path found baseline)

  -- `new Set` of the touched paths: a path that stands twice is audited once more, from the cache.
  abbrev pub touched_paths : PendingChanges → List Text
  touched_paths pending =
      map (λ (e : RemoteEntry). e.path) pending.deletions
      ++ (map (λ (m : PendingMove). m.from) pending.moves ++ pending.upserts)

  unfoldable pub audit_baseline : PendingChanges → Action F (List RemoteEntry)
  audit_baseline pending = do
    baseline ← gets (λ s. s.baseline)
    audited ← audit_each (touched_paths pending) baseline
    pure (values audited)

  abbrev pub changes_from :
      PendingChanges → List Stored → List RemoteEntry → Step (List WorkspaceChange)
  changes_from pending uploads baseline = reads (λ s.
      committed_workspace_changes env.host.compare_paths pending uploads baseline
        (λ path. baseline_entry path s.fs))

  abbrev pub prepared : Text → Action F UploadEntry
  prepared path = do
    draft ← upload_draft_for env.host env.more path
    pure (prepare_upload env.host.sha256 env.utf8 env.version_of env.content_type_for draft)

  -- The pending changes after a recovery that restored the visible entries
  abbrev pub refreshed : PendingChanges → Bool → Step PendingChanges
  refreshed pending false = pure pending
  refreshed pending true = do
    entries ← listed
    modify (λ s. record s { fs = refresh_baseline entries s.fs })
    on_fs (reads (pending_preview env.host))

  abbrev pub prior_receipt : Text → HistoryStore → Option Text → Result (Option HistoryRecord)
  prior_receipt fingerprint s none = ok none
  prior_receipt fingerprint s (some transaction) =
      receipt_for_transaction s transaction env.scope fingerprint

  abbrev pub finished : HistoryRecord → Step HistoryRecord
  finished receipt = finish_published_commit >> pure receipt

  abbrev pub entries_of_snapshot :
      List RemoteEntry → List RemoteEntry → List RemoteEntry → Step (List RevisionEntry)
  entries_of_snapshot baseline deletions uploads = on_scoped (
      revision_entries_from env.storage env.host.sha256 env.utf8 env.host.compare_paths baseline
        deletions uploads)

  -- The baseline is stored for a first commit only.
  abbrev pub baseline_entries :
      List RemoteEntry → Option HeadRecord → Step (Result (List RevisionEntry))
  baseline_entries baseline (some head) = pure (ok [])
  baseline_entries baseline none = attempt (entries_of_snapshot baseline [] [])

  -- The commit behind the checks of earlier receipts. `later` is the second answer of the lease.
  module _ (context : CommitContext) (transaction_id revision now : Text) (later : Result Bool)
      (uploads : List UploadEntry) (audited : List RemoteEntry) (fingerprint : Text)
      (lost : Step Bool) where
    abbrev pub publish_input : List WorkspaceChange → PublishInput
    publish_input changes = record {
      changes = changes;
      context = context;
      fingerprint = fingerprint;
      scope = env.scope;
    }

    unfoldable pub publish_changes : PendingChanges → Step HistoryRecord
    publish_changes pending = do
      assert_no_conflicts pending.deletions uploads
      baseline ← listed
      let change_baseline = merge_audit_baseline baseline audited
      changes ← changes_from pending (map upload uploads) change_baseline
      lift (
          assert_commit_quotas uploads (map (λ (e : RemoteEntry). e.path) pending.deletions)
            (visible_entry_count baseline pending.deletions uploads)
            (size_of_metadata env.metadata_size context.metadata) env.limits)
      head ← gets (λ s. s.scoped.world.store.head)
      first ← baseline_entries baseline head
      intent ←
          on_scoped
            (on_history (write_intent (publish_input changes) first transaction_id revision now))
      modify (λ s. record s { intent_written = true })
      uploaded ← map_each (λ u. on_scoped (on_visible (env.storage.upload u))) uploads
      on_scoped (on_visible (env.storage.delete pending.deletions))
      final ← changes_from pending (map remote uploaded) change_baseline
      gone ← attempt lost
      lift (still_leased gone)
      entries ← attempt (entries_of_snapshot baseline pending.deletions uploaded)
      receipt ←
          on_scoped
            (on_history (finalize_publish (publish_input final) intent gone entries later now))
      finished receipt

    abbrev pub unless_replayed : PendingChanges → Option HistoryRecord → Step HistoryRecord
    unless_replayed pending (some replay) = finished replay
    unless_replayed pending none = publish_changes pending

    abbrev pub unless_prior : PendingChanges → Option HistoryRecord → Step HistoryRecord
    unless_prior pending (some prior) = finished prior
    unless_prior pending none = do
      replay ← reads (λ s.
          existing_idempotent_receipt s.scoped.world.store context.idempotency_key env.scope
            fingerprint)
      unless_replayed pending replay

    unfoldable pub commit_leased : PendingChanges → Step HistoryRecord
    commit_leased pending = do
      recovered ← on_scoped env.recover
      changes ← refreshed pending recovered
      prior ← reads (λ s. prior_receipt fingerprint s.scoped.world.store s.partial_transaction_id)
      unless_prior changes prior

  -- The body of the `try` of a commit
  unfoldable pub commit_body :
      CommitContext → Text → Text → Text → Result Bool → PendingChanges → Step HistoryRecord
  commit_body context transaction_id revision now later pending = do
    uploads ← map_each (λ path. on_fs (prepared path)) pending.upserts
    audited ← on_fs (audit_baseline pending)
    planned ← changes_from pending (map upload uploads) audited
    with_lease env.coordinator env.scope transaction_id (λ lost.
        commit_leased context transaction_id revision now later uploads audited
          (env.fingerprint_of planned context) lost pending)

  abbrev pub failed_state : Text → StorageWorkspace F V → StorageWorkspace F V
  failed_state transaction_id s = record s {
    fs = fail_commit s.fs;
    partial_transaction_id =
        if s.intent_written then some transaction_id else s.partial_transaction_id;
  }

  abbrev pub failure : Bool → SupabashError → SupabashError
  failure true e = supabash_error partial_commit none
  failure false e = e

  abbrev pub caught :
      Text
      → Result HistoryRecord × StorageWorkspace F V
      → Result HistoryRecord × StorageWorkspace F V
  caught transaction_id (ok receipt, s) = (ok receipt, s)
  caught transaction_id (err e, s) =
      (err (failure s.intent_written e), failed_state transaction_id s)

  abbrev pub commit_begun :
      CommitContext → Text → Text → Text → Result Bool → PendingChanges → Step HistoryRecord
  commit_begun context transaction_id revision now later pending s = caught transaction_id (
      commit_body context transaction_id revision now later pending
        (record s { intent_written = false }))

  unfoldable pub commit :
      Option CommitContext → Text → Text → Text → Text → Result Bool → Step HistoryRecord
  commit context fresh transaction_id revision now later = do
    source ← gets (λ s. s.restore_source_revision)
    pending ← on_fs (begin_commit env.host)
    commit_begun (resolved_commit_context context source fresh) transaction_id revision now later
        pending

  abbrev pub discard_partial : Option Text → Step (Unit {0})
  discard_partial none = on_fs (discard_changes env.host)
  discard_partial (some transaction) = do
    recovered ← with_lease env.coordinator env.scope transaction (λ lost. on_scoped env.recover)
    entries ← listed
    on_fs (finish_commit env.host entries)
    modify (λ s. record s { partial_transaction_id = none })

  unfoldable pub discard : Step (Unit {0})
  discard = do
    partial ← gets (λ s. s.partial_transaction_id)
    discard_partial partial
    modify (λ s. record s { restore_source_revision = none })
