-- ===== src/History/Publish.antt =====
-- src/history/publish.ts: the records that a commit writes, in their order, and its receipt.
pub mod Laws
use supabash_fs.Prelude.{
  Bool, List, Option, Result, SupabashError, Text, commit_coordination, err, idempotency_conflict,
  if◌then◌else◌, none, ok, some, supabash_error, ℕ,
}
use supabash_fs.Prelude.Json.{Fields}
use supabash_fs.Prelude.Exec.{Exec, gets, lift, pure, ◌>>=◌, ◌>>◌}
use supabash_fs.Core.Changes.{WorkspaceChange}
use supabash_fs.History.Records.{
  CompleteRecord, HeadRecord, HistoryRecord, IdempotencyRecord, IntentRecord, RevisionEntry,
  RevisionRecord, history_record,
}
use supabash_fs.History.Store.{
  World, put, with_complete, with_head, with_idempotency, with_intent, with_revision,
}

pub record CommitContext : Type 0 where
  pub actor : Text
  pub cause : Option Text
  pub correlation_id : Text
  pub idempotency_key : Option Text
  pub metadata : Option Fields

-- `PublishInput`, without the storage and the entries: what the snapshot of these gives is an
-- argument of `finalize_publish`.
pub record PublishInput : Type 0 where
  pub changes : List WorkspaceChange
  pub context : CommitContext
  pub fingerprint : Text
  pub scope : Text

abbrev pub current_schema : ℕ
current_schema = 1

abbrev pub idempotency_conflict_error : SupabashError
idempotency_conflict_error = supabash_error idempotency_conflict none

abbrev pub coordination_error : SupabashError
coordination_error = supabash_error commit_coordination none

abbrev pub revision_of : Option HeadRecord → Option Text
revision_of none = none
revision_of (some h) = some h.revision

unfoldable pub intent_record :
    PublishInput
    → Option HeadRecord
    → Text
    → Text
    → Text
    → Option (List RevisionEntry)
    → IntentRecord
intent_record input head transaction_id revision created_at baseline_entries = record {
  actor = input.context.actor;
  baseline_entries = baseline_entries;
  cause = input.context.cause;
  changes = input.changes;
  correlation_id = input.context.correlation_id;
  created_at = created_at;
  fingerprint = input.fingerprint;
  idempotency_key = input.context.idempotency_key;
  metadata = input.context.metadata;
  new_revision = revision;
  parent_revision = revision_of head;
  schema_version = current_schema;
  transaction_id = transaction_id;
}

-- The baseline is snapshot only for a workspace without a head.
abbrev pub baseline_of :
    Option HeadRecord → Result (List RevisionEntry) → Result (Option (List RevisionEntry))
baseline_of (some h) entries = ok none
baseline_of none (ok entries) = ok (some entries)
baseline_of none (err e) = err e

unfoldable pub write_intent :
    PublishInput → Result (List RevisionEntry) → Text → Text → Text → Exec World IntentRecord
write_intent input baseline transaction_id revision now = do
  head ← gets (λ w. w.store.head)
  entries ← lift (baseline_of head baseline)
  let intent = intent_record input head transaction_id revision now entries
  put (with_intent intent)
  pure intent

-- `if (await leaseLost()) throw …`
abbrev pub still_leased : Result Bool → Result (Unit {0})
still_leased (ok lost) = if lost then err coordination_error else ok tt
still_leased (err e) = err e

unfoldable pub complete_of : PublishInput → IntentRecord → Text → CompleteRecord
complete_of input intent now = record {
  intent = record {
    actor = intent.actor;
    baseline_entries = intent.baseline_entries;
    cause = intent.cause;
    changes = input.changes;
    correlation_id = intent.correlation_id;
    created_at = intent.created_at;
    fingerprint = intent.fingerprint;
    idempotency_key = intent.idempotency_key;
    metadata = intent.metadata;
    new_revision = intent.new_revision;
    parent_revision = intent.parent_revision;
    schema_version = intent.schema_version;
    transaction_id = intent.transaction_id;
  };
  committed_at = now;
}

unfoldable pub revision_record_of : IntentRecord → List RevisionEntry → Text → RevisionRecord
revision_record_of intent entries now = record {
  committed_at = now;
  entries = entries;
  parent_revision = intent.parent_revision;
  revision = intent.new_revision;
  schema_version = current_schema;
  transaction_id = intent.transaction_id;
}

unfoldable pub idempotency_of : PublishInput → IntentRecord → IdempotencyRecord
idempotency_of input intent = record {
  fingerprint = some input.fingerprint;
  revision = intent.new_revision;
  schema_version = current_schema;
  transaction_id = intent.transaction_id;
}

unfoldable pub head_of : IntentRecord → Text → HeadRecord
head_of intent now = record {
  committed_at = now;
  revision = intent.new_revision;
  schema_version = current_schema;
  transaction_id = intent.transaction_id;
}

abbrev pub bind_key : Option Text → IdempotencyRecord → Exec World (Unit {0})
bind_key none i = pure tt
bind_key (some key) i = put (with_idempotency key i)

-- `before` and `after` are the answers of the lease, `snapshot` the entries of the new revision,
-- whose bodies are stored by then.
unfoldable pub finalize_publish :
    PublishInput
    → IntentRecord
    → Result Bool
    → Result (List RevisionEntry)
    → Result Bool
    → Text
    → Exec World HistoryRecord
finalize_publish input intent before snapshot after now = do
  lift (still_leased before)
  entries ← lift snapshot
  put (with_revision (revision_record_of intent entries now))
  put (with_complete (complete_of input intent now))
  bind_key input.context.idempotency_key (idempotency_of input intent)
  lift (still_leased after)
  put (with_head (head_of intent now))
  pure (history_record (complete_of input intent now) input.scope)
