-- ===== src/Tests/Recoveries.antt =====
-- A recovery of src/history/recover.ts after a commit whose last write failed.
use supabash_fs.Prelude.{
  Ordering, Text, [], false, none, none-some, ok, refl, some, sort, subst, text, ◌===◌, ◌∷◌, ◌≡◌,
}
use supabash_fs.Prelude.Dict.{get, set}
use supabash_fs.Prelude.Exec.{◌>>=◌}
use supabash_fs.History.Records.{CompleteRecord, IntentRecord, RevisionRecord}
use supabash_fs.History.Store.{HistoryStore, World, put, refused, with_head, written}
use supabash_fs.History.Publish.{PublishInput, complete_of, finalize_publish, revision_record_of}
use supabash_fs.History.Publish.Laws.{IsRecorded}
use supabash_fs.History.Receipts.Laws.{finalize_publish-IsRecorded}
use supabash_fs.History.Recovery.{
  adopted, adopted_head, list_complete_records, newest_child, newest_descendant, read_each,
  recover_published_head,
}
use supabash_fs.History.Recovery.Laws.{recover_published_head-IsRecorded}

abbrev any_order : Text → Text → Ordering
any_order a b = Ordering.eq

abbrev first_input : PublishInput
first_input = record {
  changes = [];
  context = record {
    actor = text "ada";
    cause = none;
    correlation_id = text "c";
    idempotency_key = none;
    metadata = none;
  };
  fingerprint = text "f";
  scope = text "local";
}

abbrev first_intent : IntentRecord
first_intent = record {
  actor = text "ada";
  baseline_entries = some [];
  cause = none;
  changes = [];
  correlation_id = text "c";
  created_at = text "now";
  fingerprint = text "f";
  idempotency_key = none;
  metadata = none;
  new_revision = text "r1";
  parent_revision = none;
  schema_version = 1;
  transaction_id = text "t1";
}

abbrev first_complete : CompleteRecord
first_complete = record { intent = first_intent; committed_at = text "now" }

abbrev first_revision : RevisionRecord
first_revision = record {
  committed_at = text "now";
  entries = [];
  parent_revision = none;
  revision = text "r1";
  schema_version = 1;
  transaction_id = text "t1";
}

abbrev nothing_stored : HistoryStore
nothing_stored = record {
  completes = [];
  head = none;
  aborts = [];
  ancestry = [];
  checkpoints = [];
  objects = [];
  idempotency = [];
  intents = [];
  revisions = [];
}

abbrev crashed_store : HistoryStore
crashed_store = record nothing_stored {
  completes = (text "t1", first_complete) ∷ [];
  revisions = (text "r1", first_revision) ∷ [];
}

abbrev crashing : World
crashing = record { faults = written ∷ written ∷ refused ∷ []; store = nothing_stored }

nothing-IsRecorded : IsRecorded nothing_stored
unfolding get
nothing-IsRecorded = record {
  head_known = λ h e. absurd (none-some e);
  complete_known = λ t c e. absurd (none-some e);
}

crash_leaves :
    (finalize_publish first_input first_intent
      (ok false)
      (ok [])
      (ok false)
      (text "now")
      crashing).1.store
    ≡ crashed_store
unfolding finalize_publish put ◌>>=◌ set complete_of revision_record_of
crash_leaves = refl

crashed-IsRecorded : IsRecorded crashed_store
crashed-IsRecorded = subst IsRecorded crash_leaves (
    finalize_publish-IsRecorded first_input first_intent (text "now") (ok false) (ok []) (ok false)
      crashing nothing-IsRecorded)

abbrev restarted : World
restarted = record { faults = []; store = crashed_store }

abbrev recovered_store : HistoryStore
recovered_store = with_head (adopted_head any_order first_complete) crashed_store

restart_recovers :
    recover_published_head any_order 2 restarted
    ≡ some (ok tt, record { faults = []; store = recovered_store })
unfolding recover_published_head list_complete_records read_each adopted newest_descendant
    newest_child get sort ◌===◌ ◌>>=◌ put
restart_recovers = refl

recover_published_head-IsRecorded_example : IsRecorded recovered_store
recover_published_head-IsRecorded_example =
    recover_published_head-IsRecorded any_order 2 restarted crashed-IsRecorded restart_recovers

first_found :
    newest_descendant any_order (first_complete ∷ []) 2 none none ≡ some (some first_complete)
unfolding newest_descendant newest_child sort ◌===◌
first_found = refl
