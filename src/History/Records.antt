-- ===== src/History/Records.antt =====
-- src/history/records.ts, with the revision entries and query types of src/api/history.ts and the
-- context of src/api/commit.ts. Dates are the texts that `toISOString` gives; metadata is JSON.
use supabash_fs.Prelude.{List, Option, Text, ℕ}
use supabash_fs.Prelude.Json.{Fields}
use supabash_fs.Core.Entries.{WorkspaceEntryKind}
use supabash_fs.Core.Changes.{WorkspaceChange}

pub record HeadRecord : Type 0 where
  pub committed_at : Text
  pub revision : Text
  pub schema_version : ℕ
  pub transaction_id : Text

pub record RevisionEntry : Type 0 where
  pub content_hash : Option Text
  pub entry_kind : WorkspaceEntryKind
  pub etag : Option Text
  pub mode : ℕ
  pub path : Text
  pub size : ℕ
  pub target : Option Text

pub record IntentRecord : Type 0 where
  pub actor : Text
  pub baseline_entries : Option (List RevisionEntry)
  pub cause : Option Text
  pub changes : List WorkspaceChange
  pub correlation_id : Text
  pub created_at : Text
  pub fingerprint : Text
  pub idempotency_key : Option Text
  pub metadata : Option Fields
  pub new_revision : Text
  pub parent_revision : Option Text
  pub schema_version : ℕ
  pub transaction_id : Text

pub record CompleteRecord : Type 0 where
  pub intent : IntentRecord
  pub open intent use *
  pub committed_at : Text

pub record RevisionRecord : Type 0 where
  pub committed_at : Text
  pub entries : List RevisionEntry
  pub parent_revision : Option Text
  pub revision : Text
  pub schema_version : ℕ
  pub transaction_id : Text

pub record IdempotencyRecord : Type 0 where
  pub fingerprint : Option Text
  pub revision : Text
  pub schema_version : ℕ
  pub transaction_id : Text

pub record CheckpointRecord : Type 0 where
  pub checkpoint_id : Text
  pub created_at : Text
  pub idempotency_key : Option Text
  pub label : Option Text
  pub retention_class : Option Text
  pub revision : Text
  pub schema_version : ℕ

-- Its reason is always that the commit was recovered.
pub record AbortRecord : Type 0 where
  pub aborted_at : Text
  pub schema_version : ℕ
  pub transaction_id : Text

-- `HistoryRecord`, and a receipt of a commit: their status is always complete here.
pub record HistoryRecord : Type 0 where
  pub actor : Text
  pub cause : Option Text
  pub changes : List WorkspaceChange
  pub committed_at : Text
  pub correlation_id : Text
  pub cursor : Text
  pub idempotency_key : Option Text
  pub metadata : Option Fields
  pub parent_revision : Option Text
  pub revision : Text
  pub schema_version : ℕ
  pub scope : Text
  pub transaction_id : Text

-- `historyRecord` of src/history/query.ts, and `receiptFrom` of src/history/publish.ts
unfoldable pub history_record : CompleteRecord → Text → HistoryRecord
history_record complete scope = record {
  actor = complete.actor;
  cause = complete.cause;
  changes = complete.changes;
  committed_at = complete.committed_at;
  correlation_id = complete.correlation_id;
  cursor = complete.transaction_id;
  idempotency_key = complete.idempotency_key;
  metadata = complete.metadata;
  parent_revision = complete.parent_revision;
  revision = complete.new_revision;
  schema_version = complete.schema_version;
  scope = scope;
  transaction_id = complete.transaction_id;
}
