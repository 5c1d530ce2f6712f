-- ===== src/History/Purge.antt =====
-- src/history/purge.ts, and `preserveAncestry` of src/history/ancestry.ts: the revisions and bodies
-- that are no longer kept. `time_of` is `Date.parse`, `key_text` the text of a key of
-- src/history/keys.ts, and `size_at` the size of the stored bytes at a key.
pub mod Keys
pub mod Laws
use supabash_fs.History.Publish.{revision_of}
use supabash_fs.Prelude.{
  Bool, List, Option, Result, Text, [], any, err, false, if◌then◌else◌, includes, is_empty, keep,
  ltb, map, none, not, ok, some, sort, take, true, ℕ, ◌&&◌, ◌++◌, ◌+◌, ◌===◌, ◌||◌, ◌∷◌,
}
use supabash_fs.Prelude.Dict.{Dict, delete, get, has, keys}
use supabash_fs.History.Records.{
  CheckpointRecord, CompleteRecord, HeadRecord, IntentRecord, RevisionEntry, RevisionRecord,
}
use supabash_fs.History.Store.{HistoryStore, World, put, with_ancestry}
use supabash_fs.History.Query.{revision_not_found_error}
use supabash_fs.History.Ancestry.{Fueled, retained_chain}
use supabash_fs.Prelude.Exec.{Exec, pure, ◌>>◌}
use supabash_fs.History.Recovery.{push_some, read_each}

pub data HistoryKey : Type 0 where
  abort_key complete_key idempotency_key intent_key object_key revision_key : Text → HistoryKey

abbrev pub without_key : HistoryKey → HistoryStore → HistoryStore
without_key (abort_key t) s = record s { aborts = delete s.aborts t }
without_key (complete_key t) s = record s { completes = delete s.completes t }
without_key (idempotency_key k) s = record s { idempotency = delete s.idempotency k }
without_key (intent_key t) s = record s { intents = delete s.intents t }
without_key (object_key h) s = record s { objects = delete s.objects h }
without_key (revision_key r) s = record s { revisions = delete s.revisions r }

-- The options that `normalizePurgeOptions` gives
pub record PurgePlan : Type 0 where
  pub dry_run : Bool
  pub keep_after_revision : Option Text
  pub max_age_ms : Option ℕ
  pub max_revisions : ℕ

pub record PurgeReceipt : Type 0 where
  pub bytes : ℕ
  pub dry_run : Bool
  pub objects : List HistoryKey

abbrev pub entry_hashes : List RevisionEntry → List Text
entry_hashes [] = []
entry_hashes (entry ∷ entries) = push_some entry.content_hash (entry_hashes entries)

abbrev pub hashes_of : RevisionRecord → List Text
hashes_of revision = entry_hashes revision.entries

abbrev pub all_hashes : List RevisionRecord → List Text
all_hashes [] = []
all_hashes (revision ∷ revisions) = hashes_of revision ++ all_hashes revisions

abbrev pub load_revisions : HistoryStore → List RevisionRecord
load_revisions s = read_each s.revisions (keys s.revisions)

abbrev pub head_pin : Option HeadRecord → List Text
head_pin none = []
head_pin (some head) = head.revision ∷ []

unfoldable pub pinned_revisions : HistoryStore → List Text
pinned_revisions s =
    head_pin s.head
    ++ map (λ (c : CheckpointRecord). c.revision) (read_each s.checkpoints (keys s.checkpoints))

-- The revisions of the chain down to the floor, itself included
abbrev pub above_floor : Text → List RevisionRecord → List Text
above_floor floor [] = []
above_floor floor (revision ∷ revisions) =
    let rest = above_floor floor revisions in
    revision.revision ∷ (if revision.revision === floor then [] else rest)

abbrev pub floor_pins : List RevisionRecord → Option Text → Result (List Text)
floor_pins chain none = ok []
floor_pins chain (some floor) =
    if any (λ (r : RevisionRecord). r.revision === floor) chain
    then ok (above_floor floor chain)
    else err revision_not_found_error

module _ (compare_keys : HistoryKey → HistoryKey → Bool) (same_key : HistoryKey → HistoryKey → Bool)
    (time_of : Text → ℕ) (size_at : HistoryStore → HistoryKey → ℕ) (now : ℕ) where
  -- `Date.parse(time) < now - age`
  abbrev pub is_older : Option ℕ → Text → Bool
  is_older none time = false
  is_older (some age) time = ltb (time_of time + age) now

  unfoldable pub is_removable : PurgePlan → List Text → List Text → RevisionRecord → Bool
  is_removable plan pinned by_count revision =
      not (includes pinned revision.revision)
      && (is_older plan.max_age_ms revision.committed_at
          || not (includes by_count revision.revision))

  abbrev pub key_of_complete : Option CompleteRecord → List HistoryKey
  key_of_complete none = []
  key_of_complete (some complete) = elim complete.idempotency_key [
    | none ↦ []
    | some key ↦ idempotency_key key ∷ []
  ]

  abbrev pub transaction_keys : HistoryStore → List RevisionRecord → List HistoryKey
  transaction_keys s [] = []
  transaction_keys s (revision ∷ revisions) =
      intent_key revision.transaction_id
      ∷ complete_key revision.transaction_id
      ∷ revision_key revision.revision
      ∷ (key_of_complete (get s.completes revision.transaction_id) ++ transaction_keys s revisions)

  abbrev pub unused_objects : HistoryStore → List Text → List HistoryKey
  unused_objects s retained =
      map object_key (keep (λ hash. not (includes retained hash)) (keys s.objects))

  -- The directory of an intent is its key; its abort is removed by the transaction it states.
  abbrev pub aborted_keys : HistoryStore → Option ℕ → Dict IntentRecord → List HistoryKey
  aborted_keys s age [] = []
  aborted_keys s age ((place, intent) ∷ intents) =
      let rest = aborted_keys s age intents in
      if has s.aborts place && is_older age intent.created_at
      then intent_key place ∷ abort_key intent.transaction_id ∷ rest
      else rest

  abbrev pub removable_aborted_transactions : HistoryStore → Option ℕ → List HistoryKey
  removable_aborted_transactions s none = []
  removable_aborted_transactions s (some age) = aborted_keys s (some age) s.intents

  -- `new Set(keys)`
  abbrev pub distinct_keys : List HistoryKey → List HistoryKey
  distinct_keys [] = []
  distinct_keys (key ∷ rest) = key ∷ keep (λ other. not (same_key key other)) (distinct_keys rest)

  abbrev pub byte_size : HistoryStore → List HistoryKey → ℕ
  byte_size s [] = 0
  byte_size s (key ∷ rest) = size_at s key + byte_size s rest

  unfoldable pub purged_keys : HistoryStore → PurgePlan → List Text → List Text → List HistoryKey
  purged_keys s plan pinned by_count =
      let records = load_revisions s in
      let gone = is_removable plan pinned by_count in
      let retained = all_hashes (keep (λ r. not (gone r)) records) in
      sort compare_keys (
        distinct_keys (
          unused_objects s retained
          ++ (transaction_keys s (keep gone records)
              ++ removable_aborted_transactions s plan.max_age_ms)))

  unfoldable pub preserve_ancestry : List RevisionRecord → Exec World (Unit {0})
  preserve_ancestry [] = pure tt
  preserve_ancestry (revision ∷ revisions) =
      put (with_ancestry revision.revision revision.parent_revision) >> preserve_ancestry revisions

  -- `history.remove(objects)`: one that fails may have removed some of them.
  unfoldable pub remove_keys : List HistoryKey → Exec World (Unit {0})
  remove_keys [] = pure tt
  remove_keys (key ∷ rest) = put (without_key key) >> remove_keys rest

  abbrev pub remove_unless : Bool → List RevisionRecord → List HistoryKey → Exec World (Unit {0})
  remove_unless true removable objects = pure tt
  remove_unless false removable objects = preserve_ancestry removable >> remove_keys objects

  -- The purge of a store, with the revisions that the floor pins
  abbrev pub purge_store :
      PurgePlan → List RevisionRecord → List Text → HistoryStore → Exec World PurgeReceipt
  purge_store plan chain floor s =
      let pinned = pinned_revisions s ++ floor in
      let by_count = map (λ (r : RevisionRecord). r.revision) (take plan.max_revisions chain) in
      let objects = purged_keys s plan pinned by_count in
      let removable = keep (is_removable plan pinned by_count) (load_revisions s) in
      remove_unless (plan.dry_run || is_empty objects) removable objects
      >> pure (record { bytes = byte_size s objects; dry_run = plan.dry_run; objects = objects })

  abbrev pub purge_pinned :
      PurgePlan → List RevisionRecord → World → Result (List Text) → Result PurgeReceipt × World
  purge_pinned plan chain w (err e) = (err e, w)
  purge_pinned plan chain w (ok floor) = purge_store plan chain floor w.store w

  -- The purge behind the walk of the chain
  unfoldable pub purge_chain : PurgePlan → List RevisionRecord → Exec World PurgeReceipt
  purge_chain plan chain w = purge_pinned plan chain w (floor_pins chain plan.keep_after_revision)

  abbrev pub purge_read :
      PurgePlan → World → Result (List RevisionRecord) → Result PurgeReceipt × World
  purge_read plan w (err e) = (err e, w)
  purge_read plan w (ok chain) = purge_chain plan chain w

  abbrev pub purge_from :
      PurgePlan → World → Fueled (List RevisionRecord) → Option (Result PurgeReceipt × World)
  purge_from plan w none = none
  purge_from plan w (some chain) = some (purge_read plan w chain)

  -- Fuel is for the walk over the ancestry.
  unfoldable pub purge_history : ℕ → PurgePlan → World → Option (Result PurgeReceipt × World)
  purge_history fuel plan w = purge_from plan w (
      retained_chain (λ (r : RevisionRecord). r.revision)
        (λ (r : RevisionRecord). r.parent_revision) (λ revision. ok (get w.store.ancestry revision))
        fuel (load_revisions w.store) (revision_of w.store.head))
