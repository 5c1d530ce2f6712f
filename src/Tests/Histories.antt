-- ===== src/Tests/Histories.antt =====
-- Histories of src/history on examples.
use supabash_fs.Prelude.Exec.{◌>>=◌}
use supabash_fs.History.Receipts.Laws.{finalize_publish-IsRecorded, finalize_publish-replay}
use supabash_fs.History.Receipts.{existing_idempotent_receipt}
use supabash_fs.History.Publish.Laws.{IsRecorded}
use supabash_fs.History.Publish.{PublishInput, complete_of, finalize_publish, intent_record}
use supabash_fs.History.Store.{refused, written, HistoryStore, World, put}
use supabash_fs.Prelude.{
  none-some, All, List, Option, Result, Text, [], arith, false, if◌then◌else◌, includes, inl,
  is_some, keep, none, ok, refl, some, text, true, ℕ, ◌===◌, ◌∷◌, ◌≡◌, ◌↔◌, ◌≤◌, ◌⊎◌, map, length,
  ◌++◌,
}
use supabash_fs.Prelude.Json.{natural}
use supabash_fs.Prelude.Dict.{get, of_entries, set}
use supabash_fs.Core.Entries.{UploadEntry, file}
use supabash_fs.History.Records.{HistoryRecord, IntentRecord, history_record}
use supabash_fs.History.Quota.{WorkspaceLimits, assert_commit_quotas, body_size, history_page_limit}
use supabash_fs.History.Quota.Laws.{assert_commit_quotas_iff, history_page_limit_bounds, total}
use supabash_fs.History.Snapshot.{overlay_by_path}
use supabash_fs.History.Snapshot.Laws.{last_at, overlay_by_path-at, to_list}
use supabash_fs.History.Ancestry.{by_revision, chain_from, retained_chain}
use supabash_fs.History.Ancestry.Laws.{IsKnown, retained_chain-ends}
use supabash_fs.History.Ancestry.Chain.{IsChain, retained_chain-IsChain}
use supabash_fs.History.Query.Laws.{IsHistory, read_all, read_all-records}

abbrev no_limits : WorkspaceLimits
no_limits = record {
  max_diff_preview_bytes = none;
  max_file_size = none;
  max_history_page_size = none;
  max_path_length = none;
  max_staged_bytes = none;
  max_transaction_metadata_bytes = none;
  max_visible_files = none;
}

abbrev small : UploadEntry
small = record {
  draft = record {
    body = some (1 ∷ 2 ∷ []);
    content_hash = none;
    content_type = none;
    kind = file;
    mode = 420;
    modified_at = 0;
    path = text "/a";
    target = none;
  };
  version_hash = text "v";
}

asked : history_page_limit (some (natural 5)) no_limits ≡ ok 5
unfolding history_page_limit
asked = refl

-- Pairs of a path and a version, as entries.
abbrev Entry : Type 0
Entry = Text × ℕ

overlay_by_path-at_example :
    keep
      (λ (e : Entry). e.0 === text "/a")
      (overlay_by_path
        (λ (e : Entry). e.0)
        ((text "/a", 1) ∷ (text "/b", 2) ∷ [])
        (text "/b" ∷ [])
        ((text "/a", 3) ∷ []))
    ≡ to_list (
        last_at
          (λ (e : Entry). e.0)
          (if includes (text "/b" ∷ []) (text "/a")
            then none
            else last_at
                (λ (e : Entry). e.0)
                none
                ((text "/a", 1) ∷ (text "/b", 2) ∷ [])
                (text "/a"))
          ((text "/a", 3) ∷ [])
          (text "/a"))
overlay_by_path-at_example =
    overlay_by_path-at (λ (e : Entry). e.0) ((text "/a", 1) ∷ (text "/b", 2) ∷ []) (text "/b" ∷ [])
      ((text "/a", 3) ∷ []) (text "/a")

-- Revisions and their parents, in a cycle.
abbrev Link : Type 0
Link = Text × Option Text

abbrev cycle : List Link
cycle = (text "r1", some (text "r2")) ∷ (text "r2", some (text "r1")) ∷ []

abbrev no_link : Text → Result (Option (Option Text))
no_link r = ok none

abbrev both : List Text
both = text "r1" ∷ text "r2" ∷ []

cycle-IsKnown :
    IsKnown
      (λ (l : Link). l.0)
      (λ (l : Link). l.1)
      no_link
      (by_revision (λ (l : Link). l.0) (λ (l : Link). l.1) no_link cycle)
      both
unfolding of_entries get set ◌===◌
cycle-IsKnown = record { recorded = λ r h. ground arith; linked = λ r h. inl refl }

retained_chain-ends_example :
    is_some
      (retained_chain (λ (l : Link). l.0) (λ (l : Link). l.1) no_link 4 cycle (some (text "r1")))
    ≡ true
retained_chain-ends_example =
    retained_chain-ends (λ (l : Link). l.0) (λ (l : Link). l.1) no_link cycle both
      (some (text "r1")) cycle-IsKnown

abbrev line : List Link
line = (text "r1", none) ∷ (text "r2", some (text "r1")) ∷ []

abbrev newest_first : List Link
newest_first = (text "r2", some (text "r1")) ∷ (text "r1", none) ∷ []

line_retained :
    retained_chain (λ (l : Link). l.0) (λ (l : Link). l.1) no_link 4 line (some (text "r2"))
    ≡ some (ok newest_first)
unfolding retained_chain chain_from of_entries get set ◌===◌
line_retained = refl

retained_chain-IsChain_example :
    IsChain (λ (l : Link). l.0) (λ (l : Link). l.1) no_link line [] (some (text "r2")) newest_first
retained_chain-IsChain_example =
    retained_chain-IsChain (λ (l : Link). l.0) (λ (l : Link). l.1) no_link 4 line (some (text "r2"))
      line_retained

abbrev committed : Text → HistoryRecord
committed id = record {
  actor = text "ada";
  cause = none;
  changes = [];
  committed_at = text "2026-01-01T00:00:00.000Z";
  correlation_id = text "c";
  cursor = id;
  idempotency_key = none;
  metadata = none;
  parent_revision = none;
  revision = id;
  schema_version = 1;
  scope = text "local";
  transaction_id = id;
}

abbrev three : List HistoryRecord
three = committed (text "t1") ∷ committed (text "t2") ∷ committed (text "t3") ∷ []

three-IsHistory : IsHistory three
unfolding ◌===◌
three-IsHistory = (refl, refl, (refl, refl, (refl, refl, tt)))

read_all-records_example : read_all three 2 false 4 none ≡ ok three
read_all-records_example = read_all-records three 2 false three-IsHistory (omega arith)

abbrev lines_of_input : Option Text → PublishInput
lines_of_input key = record {
  changes = [];
  context = record {
    actor = text "ada";
    cause = none;
    correlation_id = text "c";
    idempotency_key = key;
    metadata = none;
  };
  fingerprint = text "f";
  scope = text "local";
}

abbrev keyed_input : PublishInput
keyed_input = lines_of_input (some (text "k"))

unfoldable intent_1 : IntentRecord
unfolding intent_record
intent_1 = intent_record keyed_input none (text "t1") (text "r1") (text "now") (some [])

abbrev empty_store : HistoryStore
empty_store = record {
  aborts = [];
  ancestry = [];
  checkpoints = [];
  completes = [];
  head = none;
  idempotency = [];
  intents = [];
  objects = [];
  revisions = [];
}

-- The third write, of the idempotency record, fails.
abbrev failing : World
failing = record { faults = written ∷ written ∷ refused ∷ []; store = empty_store }

abbrev working : World
working = record { faults = []; store = empty_store }

empty-IsRecorded : IsRecorded empty_store
unfolding get
empty-IsRecorded = record {
  head_known = λ h e. absurd (none-some e);
  complete_known = λ t c e. absurd (none-some e);
}

finalize_publish-IsRecorded_example :
    IsRecorded
      (finalize_publish keyed_input intent_1
        (ok false)
        (ok [])
        (ok false)
        (text "now")
        failing).1.store
finalize_publish-IsRecorded_example =
    finalize_publish-IsRecorded keyed_input intent_1 (text "now") (ok false) (ok []) (ok false)
      failing empty-IsRecorded

intent_1_bound : intent_1.fingerprint ≡ text "f"
unfolding intent_1 intent_record
intent_1_bound = refl

publish_returns :
    (finalize_publish keyed_input intent_1 (ok false) (ok []) (ok false) (text "now") working).0
    ≡ ok (history_record (complete_of keyed_input intent_1 (text "now")) (text "local"))
unfolding finalize_publish put ◌>>=◌
publish_returns = refl

finalize_publish-replay_example :
    existing_idempotent_receipt
      (finalize_publish keyed_input intent_1
        (ok false)
        (ok [])
        (ok false)
        (text "now")
        working).1.store
      (some (text "k"))
      (text "local")
      (text "f")
    ≡ ok (some (history_record (complete_of keyed_input intent_1 (text "now")) (text "local")))
finalize_publish-replay_example =
    finalize_publish-replay keyed_input intent_1 (text "now") (text "k") (ok false) (ok [])
      (ok false) working empty-IsRecorded refl intent_1_bound publish_returns

assert_commit_quotas_iff_example :
    (assert_commit_quotas (small ∷ []) (text "/b" ∷ []) 2 (some 7) no_limits ≡ ok tt) ↔ (
      (2 ≤ 10_000)
      × All
          (λ p. length p ≤ 1024)
          (map (λ (u : UploadEntry). u.path) (small ∷ []) ++ text "/b" ∷ [])
      × All (λ u. body_size u ≤ 10_485_760) (small ∷ [])
      × (total (small ∷ []) ≤ 52_428_800)
      × (7 ≤ 16_384))
assert_commit_quotas_iff_example =
    assert_commit_quotas_iff (small ∷ []) (text "/b" ∷ []) 2 7 no_limits

history_page_limit_bounds_example :
    (1 ≤ 5)
    × (5 ≤ 100)
    × (5 ≤ 100)
    × ((some (natural 5) ≡ some (natural 5)) ⊎ (some (natural 5) ≡ none))
history_page_limit_bounds_example = history_page_limit_bounds (some (natural 5)) no_limits asked
