-- ===== src/History/Receipts.antt =====
-- src/history/publish.ts: the receipt of an earlier commit, found by its idempotency key or by its
-- transaction.
pub mod Laws
use supabash_fs.Prelude.{
  Bool, Option, Result, Text, false, none, not, ok, some, starts_with, text, throw_if, ◌&&◌, ◌===◌,
  ◌>>=◌, ◌>>◌,
}
use supabash_fs.Prelude.Dict.{get}
use supabash_fs.History.Records.{CompleteRecord, HistoryRecord, IdempotencyRecord, history_record}
use supabash_fs.History.Store.{HistoryStore}
use supabash_fs.History.Publish.{idempotency_conflict_error}

abbrev pub bound_elsewhere : Option Text → Text → Bool
bound_elsewhere none fingerprint = false
bound_elsewhere (some bound) fingerprint = not (bound === fingerprint)

unfoldable pub completed_receipt :
    Text → Text → Option CompleteRecord → Result (Option HistoryRecord)
completed_receipt scope fingerprint none = ok none
completed_receipt scope fingerprint (some complete) = do
  throw_if
      (not (starts_with complete.fingerprint (text "legacy:"))
        && not (complete.fingerprint === fingerprint))
      idempotency_conflict_error
  ok (some (history_record complete scope))

unfoldable pub receipt_for_transaction :
    HistoryStore → Text → Text → Text → Result (Option HistoryRecord)
receipt_for_transaction s transaction_id scope fingerprint =
    completed_receipt scope fingerprint (get s.completes transaction_id)

abbrev pub replayed :
    HistoryStore → Text → Text → Option IdempotencyRecord → Result (Option HistoryRecord)
replayed s scope fingerprint none = ok none
replayed s scope fingerprint (some replay) = do
  throw_if (bound_elsewhere replay.fingerprint fingerprint) idempotency_conflict_error
  completed_receipt scope fingerprint (get s.completes replay.transaction_id)

unfoldable pub existing_idempotent_receipt :
    HistoryStore → Option Text → Text → Text → Result (Option HistoryRecord)
existing_idempotent_receipt s none scope fingerprint = ok none
existing_idempotent_receipt s (some key) scope fingerprint =
    replayed s scope fingerprint (get s.idempotency key)
