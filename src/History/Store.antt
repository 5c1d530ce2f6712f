-- ===== src/History/Store.antt =====
-- The stored history as src/history/json-io.ts and keys.ts address it: a head, and per kind of record
-- a map by transaction, revision, idempotency key, checkpoint or hash. Reads and writes go through a
-- codec of JSON,
-- which is not modelled: a record is read as it was written.
use supabash_fs.Prelude.{
  List, Option, Result, Text, [], err, none, ok, some, storage, supabash_error, ◌∷◌,
}
use supabash_fs.Prelude.Dict.{Dict, delete, set}
use supabash_fs.Prelude.Exec.{Exec}
use supabash_fs.Core.Entries.{Bytes}
use supabash_fs.History.Records.{
  AbortRecord, CheckpointRecord, CompleteRecord, HeadRecord, IdempotencyRecord, IntentRecord,
  RevisionRecord,
}

pub record HistoryStore : Type 0 where
  pub aborts : Dict AbortRecord
  pub ancestry : Dict (Option Text)
  pub checkpoints : Dict CheckpointRecord
  pub completes : Dict CompleteRecord
  pub head : Option HeadRecord
  pub idempotency : Dict IdempotencyRecord
  pub intents : Dict IntentRecord
  pub objects : Dict Bytes
  pub revisions : Dict RevisionRecord

-- What comes of a write: it is done, or it throws, without a change or with the change made.
pub data WriteOutcome : Type 0 where
  written refused applied : WriteOutcome

-- The store, and the outcomes of the writes that are still to come; all are done after these.
pub record World : Type 0 where
  pub faults : List WriteOutcome
  pub store : HistoryStore

abbrev pub put_fault : List WriteOutcome → WriteOutcome
put_fault [] = written
put_fault (o ∷ os) = o

abbrev pub later_faults : List WriteOutcome → List WriteOutcome
later_faults [] = []
later_faults (o ∷ os) = os

abbrev pub put_outcome :
    WriteOutcome → (HistoryStore → HistoryStore) → HistoryStore → Result (Unit {0}) × HistoryStore
put_outcome written change s = (ok tt, change s)
put_outcome refused change s = (err (supabash_error storage none), s)
put_outcome applied change s = (err (supabash_error storage none), change s)

-- `writeJson`, and the other calls that change the store
unfoldable pub put : (HistoryStore → HistoryStore) → Exec World (Unit {0})
put change w =
    let (r, s) = put_outcome (put_fault w.faults) change w.store in
    (r, record { faults = later_faults w.faults; store = s })

abbrev pub with_head : HeadRecord → HistoryStore → HistoryStore
with_head head s = record s { head = some head }

abbrev pub with_revision : RevisionRecord → HistoryStore → HistoryStore
with_revision r s = record s { revisions = set s.revisions r.revision r }

abbrev pub with_complete : CompleteRecord → HistoryStore → HistoryStore
with_complete c s = record s { completes = set s.completes c.transaction_id c }

abbrev pub with_intent : IntentRecord → HistoryStore → HistoryStore
with_intent i s = record s { intents = set s.intents i.transaction_id i }

abbrev pub with_idempotency : Text → IdempotencyRecord → HistoryStore → HistoryStore
with_idempotency key i s = record s { idempotency = set s.idempotency key i }

abbrev pub with_object : Text → Bytes → HistoryStore → HistoryStore
with_object hash body s = record s { objects = set s.objects hash body }

abbrev pub with_abort : AbortRecord → HistoryStore → HistoryStore
with_abort a s = record s { aborts = set s.aborts a.transaction_id a }

abbrev pub with_checkpoint : CheckpointRecord → HistoryStore → HistoryStore
with_checkpoint c s = record s { checkpoints = set s.checkpoints c.checkpoint_id c }

abbrev pub without_checkpoint : Text → HistoryStore → HistoryStore
without_checkpoint id s = record s { checkpoints = delete s.checkpoints id }

abbrev pub with_ancestry : Text → Option Text → HistoryStore → HistoryStore
with_ancestry revision parent s = record s { ancestry = set s.ancestry revision parent }
