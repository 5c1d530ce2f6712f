-- ===== src/Tests/Purges.antt =====
-- A purge (src/history/purge.ts) of a history with two revisions.
use supabash_fs.Prelude.{
  All, Bool, Option, Result, Text, [], err, false, includes, none, refl, some, sort, storage,
  supabash_error, text, true, ℕ, ◌===◌, ◌∷◌, ◌≡◌,
}
use supabash_fs.Prelude.Dict.{delete, get, of_entries, set}
use supabash_fs.Prelude.Exec.{pure, ◌>>=◌}
use supabash_fs.Core.Entries.{file}
use supabash_fs.History.Records.{RevisionEntry, RevisionRecord}
use supabash_fs.History.Store.{HistoryStore, World, put}
use supabash_fs.History.Ancestry.{chain_from, retained_chain}
use supabash_fs.History.Recovery.{read_each}
use supabash_fs.History.Purge.{
  HistoryKey, PurgePlan, PurgeReceipt, hashes_of, is_removable, pinned_revisions, preserve_ancestry,
  purge_chain, purge_history, purged_keys, remove_keys,
}
use supabash_fs.History.Purge.Laws.{purge_history-keeps}

abbrev note : Text → RevisionEntry
note hash = record {
  content_hash = some hash;
  entry_kind = file;
  etag = none;
  mode = 420;
  path = text "/note";
  size = 1;
  target = none;
}

abbrev revision_at : Text → Option Text → Text → RevisionRecord
revision_at name parent hash = record {
  committed_at = text "2024";
  entries = note hash ∷ [];
  parent_revision = parent;
  revision = name;
  schema_version = 1;
  transaction_id = name;
}

abbrev newest : RevisionRecord
newest = revision_at (text "r2") (some (text "r1")) (text "h2")

abbrev pub two_revisions : HistoryStore
two_revisions = record {
  aborts = [];
  ancestry = [];
  checkpoints = [];
  completes = [];
  head = some (record {
    committed_at = text "2024";
    revision = text "r2";
    schema_version = 1;
    transaction_id = text "r2";
  });
  idempotency = [];
  intents = [];
  objects = (text "h1", 1 ∷ []) ∷ (text "h2", 2 ∷ []) ∷ [];
  revisions = (text "r1", revision_at (text "r1") none (text "h1")) ∷ (text "r2", newest) ∷ [];
}

abbrev before_purge : World
before_purge = record { faults = []; store = two_revisions }

abbrev any_key : HistoryKey → HistoryKey → Bool
any_key a b = true

abbrev no_key : HistoryKey → HistoryKey → Bool
no_key a b = false

abbrev no_time : Text → ℕ
no_time t = 0

abbrev no_size : HistoryStore → HistoryKey → ℕ
no_size s k = 0

abbrev keep_one : PurgePlan
keep_one = record {
  dry_run = false;
  keep_after_revision = none;
  max_age_ms = none;
  max_revisions = 1;
}

abbrev purged : Option (Result PurgeReceipt × World)
purged = purge_history any_key no_key no_time no_size 5 3 keep_one before_purge

abbrev after : Option (Result PurgeReceipt × World) → Result PurgeReceipt × World
after none = (err (supabash_error storage none), before_purge)
after (some out) = out

purges : Unit {0}
unfolding purge_history purge_chain purged_keys is_removable pinned_revisions preserve_ancestry
    remove_keys retained_chain chain_from read_each put pure ◌>>=◌ get set delete of_entries sort
    ◌===◌
purges = tt

purge_ends : purged ≡ some (after purged)
unfolding purges
purge_ends = refl

newest_pinned : includes (pinned_revisions two_revisions) (text "r2") ≡ true
unfolding purges
newest_pinned = refl

newest_found : get two_revisions.revisions (text "r2") ≡ some newest
unfolding purges
newest_found = refl

purge_history-keeps_example :
    (get (after purged).1.store.revisions (text "r2") ≡ some newest)
    × All
        (λ h. get (after purged).1.store.objects h ≡ get two_revisions.objects h)
        (hashes_of newest)
purge_history-keeps_example =
    purge_history-keeps any_key no_key no_time no_size 5 3 keep_one before_purge (after purged)
      (text "r2") newest purge_ends newest_pinned newest_found refl

older_removed : get (after purged).1.store.revisions (text "r1") ≡ none
unfolding purges
older_removed = refl

older_body_removed : get (after purged).1.store.objects (text "h1") ≡ none
unfolding purges
older_body_removed = refl
