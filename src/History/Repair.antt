-- ===== src/History/Repair.antt =====
-- src/history/recover.ts: the commits that did not finish, and the visible entries they left.
-- `now` is the time of the recovery; `sha256` and `version_text` stand for WebCrypto and for the
-- JSON text of an entry's version.
pub mod Places
pub mod Laws
use supabash_fs.Prelude.{
  Bool, List, Option, Ordering, Result, SupabashError, SupabashErrorCode, Text, [], any, err, false,
  history_corruption, keep, map, none, not, ok, partial_commit, same_option, some, sort, storage,
  supabash_error, true, ℕ, ◌&&◌, ◌===◌, ◌==◌, ◌||◌, ◌∷◌,
}
use supabash_fs.Prelude.Dict.{get, has}
use supabash_fs.Prelude.Exec.{Exec, continue, gets, pure, reads, ◌>>=◌, ◌>>◌}
use supabash_fs.Core.Entries.{
  Bytes, RemoteEntry, UploadEntry, WorkspaceEntryKind, at_most, file, same_kind,
}
use supabash_fs.History.Records.{
  AbortRecord, HeadRecord, IntentRecord, RevisionEntry, RevisionRecord,
}
use supabash_fs.History.Store.{HistoryStore, World, put, with_abort}
use supabash_fs.History.Storage.{Scoped, ScopedStorage, entries_by_path, on_history, on_visible}
use supabash_fs.History.Publish.{current_schema}
use supabash_fs.History.Recovery.{recover_published_head}
use supabash_fs.History.Ancestry.{corruption}

-- Neither complete nor aborted
abbrev pub is_unresolved : HistoryStore → Text × IntentRecord → Bool
is_unresolved s (transaction_id, intent) =
    not (has s.completes transaction_id || has s.aborts transaction_id)

module _ (compare_paths : Text → Text → Ordering) where
  abbrev pub intent_not_after : IntentRecord → IntentRecord → Bool
  intent_not_after a b = elim (compare_paths a.created_at b.created_at) [
    | Ordering.eq ↦ at_most (compare_paths a.transaction_id b.transaction_id)
    | order ↦ at_most order
  ]

  unfoldable pub unresolved_intents : HistoryStore → List IntentRecord
  unresolved_intents s = sort intent_not_after (map (λ e. e.1) (keep (is_unresolved s) s.intents))

abbrev pub baseline_target : List IntentRecord → Result (List RevisionEntry)
baseline_target [] = err corruption
baseline_target (intent ∷ intents) = elim intent.baseline_entries [
  | none ↦ err corruption
  | some entries ↦ ok entries
]

abbrev pub revision_target : Option RevisionRecord → Result (List RevisionEntry)
revision_target none = err corruption
revision_target (some revision) = ok revision.entries

abbrev pub target_of :
    HistoryStore → List IntentRecord → Option HeadRecord → Result (List RevisionEntry)
target_of s intents (some head) = revision_target (get s.revisions head.revision)
target_of s intents none = baseline_target intents

unfoldable pub recovery_target : HistoryStore → List IntentRecord → Result (List RevisionEntry)
recovery_target s intents = target_of s intents s.head

abbrev pub same_entry : Option RemoteEntry → RevisionEntry → Bool
same_entry none target = false
same_entry (some current) target =
    same_kind current.kind target.entry_kind
    && current.mode == target.mode
    && same_option ◌===◌ current.content_hash target.content_hash
    && same_option ◌===◌ current.target target.target

abbrev pub missing_body : RevisionEntry → SupabashError
missing_body entry = supabash_error history_corruption (some entry.path)

-- The body of a file, which has to be stored
abbrev pub file_body : RevisionEntry → Option Bytes → Result (Option Bytes)
file_body entry none = err (missing_body entry)
file_body entry (some body) = ok (some body)

abbrev pub object_in : HistoryStore → Option Text → Option Bytes
object_in s none = none
object_in s (some hash) = get s.objects hash

abbrev pub recovery_body : HistoryStore → RevisionEntry → WorkspaceEntryKind → Result (Option Bytes)
recovery_body s entry file = file_body entry (object_in s entry.content_hash)
recovery_body s entry _ = ok none

abbrev pub is_target : List RevisionEntry → Text → Bool
is_target target path = any (λ (e : RevisionEntry). e.path === path) target

abbrev pub extra_entries : List RemoteEntry → List RevisionEntry → List RemoteEntry
extra_entries current target = keep (λ (e : RemoteEntry). not (is_target target e.path)) current

module _ {V : Type 0} (storage : ScopedStorage V) (compare_paths : Text → Text → Ordering)
    (version_hash : RevisionEntry → ℕ → Text) (now : ℕ) (now_text : Text) where
  abbrev pub upload_of : RevisionEntry → Option Bytes → UploadEntry
  upload_of entry body = record {
    draft = record {
      body = body;
      content_hash = entry.content_hash;
      content_type = none;
      kind = entry.entry_kind;
      mode = entry.mode;
      modified_at = now;
      path = entry.path;
      target = entry.target;
    };
    version_hash = version_hash entry now;
  }

  abbrev pub upload_with : RevisionEntry → Result (Option Bytes) → Result UploadEntry
  upload_with entry (err e) = err e
  upload_with entry (ok body) = ok (upload_of entry body)

  unfoldable pub recovery_upload : HistoryStore → RevisionEntry → Result UploadEntry
  recovery_upload s entry = upload_with entry (recovery_body s entry entry.entry_kind)

  abbrev pub upload_entry : RevisionEntry → Exec (Scoped V) (Unit {0})
  upload_entry entry = do
    upload ← reads (λ s. recovery_upload s.world.store entry)
    stored ← on_visible (storage.upload upload)
    pure tt

  abbrev pub upload_unless : Bool → RevisionEntry → Exec (Scoped V) (Unit {0})
  upload_unless true entry = pure tt
  upload_unless false entry = upload_entry entry

  -- The loop over the target
  abbrev pub restore_each : List RemoteEntry → List RevisionEntry → Exec (Scoped V) (Unit {0})
  restore_each current [] = pure tt
  restore_each current (entry ∷ entries) =
      upload_unless (same_entry (get (entries_by_path current) entry.path) entry) entry
      >> restore_each current entries

  unfoldable pub restore_visible_tree : List RevisionEntry → Exec (Scoped V) (Unit {0})
  restore_visible_tree target = do
    current ← on_visible storage.list
    restore_each current target
    on_visible (storage.delete (extra_entries current target))

  abbrev pub abort_of : IntentRecord → AbortRecord
  abort_of intent = record {
    aborted_at = now_text;
    schema_version = current_schema;
    transaction_id = intent.transaction_id;
  }

  abbrev pub abort_each : List IntentRecord → Exec (Scoped V) (Unit {0})
  abort_each [] = pure tt
  abort_each (intent ∷ intents) =
      on_history (put (with_abort (abort_of intent))) >> abort_each intents

  abbrev pub recover_intents : List IntentRecord → Exec (Scoped V) Bool
  recover_intents [] = pure false
  recover_intents (intent ∷ intents) = do
    target ← reads (λ s. recovery_target s.world.store (intent ∷ intents))
    restore_visible_tree target
    abort_each (intent ∷ intents)
    pure true

  unfoldable pub recover_unresolved : Exec (Scoped V) Bool
  recover_unresolved = do
    unresolved ← gets (λ s. unresolved_intents compare_paths s.world.store)
    recover_intents unresolved

  abbrev pub partial_error : SupabashErrorCode → SupabashError → SupabashError
  partial_error partial_commit e = e
  partial_error _ e = supabash_error partial_commit none

  abbrev pub as_partial : {A : Type 0} → Result A → Result A
  as_partial (ok a) = ok a
  as_partial (err e) = err (partial_error e.code e)

  -- The errors of both parts become partial commits. Fuel is for the adoption of the head.
  abbrev pub recover_behind :
      Scoped V → Option (Result (Unit {0}) × World) → Option (Result Bool × Scoped V)
  recover_behind s none = none
  recover_behind s (some (r, w)) =
      let (found, after) = continue r (λ _. recover_unresolved) (record s { world = w }) in
      some (as_partial found, after)

  unfoldable pub recover_workspace : ℕ → Scoped V → Option (Result Bool × Scoped V)
  recover_workspace fuel s = recover_behind s (recover_published_head compare_paths fuel s.world)
