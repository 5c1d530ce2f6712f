-- ===== src/History/Checkpoints.antt =====
-- src/history/checkpoint.ts, and `requireHeadRevision` of src/history/query.ts. A new identifier is an
-- argument, as is the time; `time_of` is `Date.parse`.
use supabash_fs.Prelude.{
  Bool, List, Option, Ordering, Result, Text, compare, err, false, invalid_path, is_empty, none, ok,
  or_else, some, sort, supabash_error, throw_if, true, ℕ,
}
use supabash_fs.Prelude.Dict.{get, has, keys}
use supabash_fs.Prelude.Exec.{Exec, gets, lift, pure, reads, ◌>>=◌, ◌>>◌}
use supabash_fs.Core.Entries.{at_most}
use supabash_fs.History.Records.{CheckpointRecord, HeadRecord}
use supabash_fs.History.Store.{HistoryStore, World, put, with_checkpoint, without_checkpoint}
use supabash_fs.History.Publish.{current_schema}
use supabash_fs.History.Query.{revision_not_found_error}
use supabash_fs.History.Ancestry.{corruption}
use supabash_fs.History.Recovery.{read_each}

pub record CheckpointOptions : Type 0 where
  pub idempotency_key : Option Text
  pub label : Option Text
  pub retention_class : Option Text

pub record CheckpointReceipt : Type 0 where
  pub checkpoint_id : Text
  pub created_at : Text
  pub revision : Text

abbrev pub with_manifest : HeadRecord → Bool → Result Text
with_manifest head true = ok head.revision
with_manifest head false = err corruption

abbrev pub revision_of_head : HistoryStore → Option HeadRecord → Result Text
revision_of_head s none = err revision_not_found_error
revision_of_head s (some head) = with_manifest head (has s.revisions head.revision)

unfoldable pub require_head_revision : HistoryStore → Result Text
require_head_revision s = revision_of_head s s.head

abbrev pub receipt_of : CheckpointRecord → CheckpointReceipt
receipt_of c = record {
  checkpoint_id = c.checkpoint_id;
  created_at = c.created_at;
  revision = c.revision;
}

abbrev pub checkpoint_of : CheckpointOptions → Text → Text → Text → CheckpointRecord
checkpoint_of options id now revision = record {
  checkpoint_id = id;
  created_at = now;
  idempotency_key = options.idempotency_key;
  label = options.label;
  retention_class = options.retention_class;
  revision = revision;
  schema_version = current_schema;
}

abbrev pub bound_checkpoint : HistoryStore → Option Text → Option CheckpointRecord
bound_checkpoint s none = none
bound_checkpoint s (some key) = get s.checkpoints key

abbrev pub put_checkpoint :
    CheckpointOptions → Text → Text → Text → Option CheckpointRecord → Exec World CheckpointReceipt
put_checkpoint options fresh now revision (some existing) = pure (receipt_of existing)
put_checkpoint options fresh now revision none = do
  let created = checkpoint_of options (or_else options.idempotency_key fresh) now revision
  put (with_checkpoint created)
  pure (receipt_of created)

unfoldable pub create_checkpoint : CheckpointOptions → Text → Text → Exec World CheckpointReceipt
create_checkpoint options fresh now = do
  revision ← reads (λ w. require_head_revision w.store)
  existing ← gets (λ w. bound_checkpoint w.store options.idempotency_key)
  put_checkpoint options fresh now revision existing

module _ (compare_paths : Text → Text → Ordering) (time_of : Text → ℕ) where
  abbrev pub checkpoint_not_after : CheckpointRecord → CheckpointRecord → Bool
  checkpoint_not_after a b = elim (compare (time_of a.created_at) (time_of b.created_at)) [
    | Ordering.eq ↦ at_most (compare_paths a.checkpoint_id b.checkpoint_id)
    | order ↦ at_most order
  ]

  unfoldable pub list_checkpoints : HistoryStore → List CheckpointRecord
  list_checkpoints s = sort checkpoint_not_after (read_each s.checkpoints (keys s.checkpoints))

unfoldable pub remove_checkpoint : Text → Exec World (Unit {0})
remove_checkpoint id = do
  lift (throw_if (is_empty id) (supabash_error invalid_path none))
  put (without_checkpoint id)
