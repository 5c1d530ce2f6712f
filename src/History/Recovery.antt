-- ===== src/History/Recovery.antt =====
-- src/history/recover.ts: the head and the idempotency record that a commit may not have written.
pub mod Laws
use supabash_fs.Prelude.{
  Bool, List, Option, Ordering, Result, Text, [], false, find_first, is_some, keep, last, none,
  same_option, some, sort, suc, true, zero, ℕ, ◌===◌, ◌∷◌,
}
use supabash_fs.Prelude.Dict.{Dict, get, keys}
use supabash_fs.Prelude.Exec.{Exec, gets, pure, ◌>>=◌, ◌>>◌}
use supabash_fs.Core.Entries.{at_most}
use supabash_fs.History.Records.{CompleteRecord, HeadRecord}
use supabash_fs.History.Store.{HistoryStore, World, put, with_head, with_idempotency}
use supabash_fs.History.Publish.{current_schema, revision_of}

abbrev pub push_some : {A : Type 0} → Option A → List A → List A
push_some none xs = xs
push_some (some x) xs = x ∷ xs

-- `listCompleteRecords`: the record under each listed key.
unfoldable pub read_each : {A : Type 0} → Dict A → List Text → List A
read_each m [] = []
read_each m (key ∷ keys) = push_some (get m key) (read_each m keys)

unfoldable pub list_complete_records : HistoryStore → List CompleteRecord
list_complete_records s = read_each s.completes (keys s.completes)

module _ (compare_paths : Text → Text → Ordering) where
  -- `compareCompletes` gives at most 0.
  abbrev pub not_after : CompleteRecord → CompleteRecord → Bool
  not_after a b = elim (compare_paths a.committed_at b.committed_at) [
    | Ordering.eq ↦ at_most (compare_paths a.transaction_id b.transaction_id)
    | order ↦ at_most order
  ]

  abbrev pub is_child : Option Text → CompleteRecord → Bool
  is_child revision c = same_option ◌===◌ c.parent_revision revision

  unfoldable pub newest_child : List CompleteRecord → Option Text → Option CompleteRecord
  newest_child completes revision = last (sort not_after (keep (is_child revision) completes))

  abbrev pub descend :
      (Option Text → Option CompleteRecord → Option (Option CompleteRecord))
      → Option CompleteRecord
      → Option CompleteRecord
      → Option (Option CompleteRecord)
  descend rest current none = some current
  descend rest current (some child) = rest (some child.new_revision) (some child)

  -- The loop, on fuel: `none` if the fuel ran out.
  unfoldable pub newest_descendant :
      List CompleteRecord → ℕ → Option Text → Option CompleteRecord → Option (Option CompleteRecord)
  newest_descendant completes zero revision current = none
  newest_descendant completes (suc n) revision current =
      descend (newest_descendant completes n) current (newest_child completes revision)

  -- `newestDescendant(…) ?? completes.find(…)`
  abbrev pub or_current :
      List CompleteRecord → Text → Option (Option CompleteRecord) → Option (Option CompleteRecord)
  or_current completes revision none = none
  or_current completes revision (some (some c)) = some (some c)
  or_current completes revision (some none) =
      some (find_first (λ (c : CompleteRecord). c.new_revision === revision) completes)

  unfoldable pub adopted :
      ℕ → List CompleteRecord → Option HeadRecord → Option (Option CompleteRecord)
  adopted fuel completes none = newest_descendant completes fuel none none
  adopted fuel completes (some head) =
      or_current completes head.revision
        (newest_descendant completes fuel (some head.revision) none)

  abbrev pub put_missing : Text → CompleteRecord → Bool → Exec World (Unit {0})
  put_missing key c true = pure tt
  put_missing key c false = put (
      with_idempotency key (record {
        fingerprint = some c.fingerprint;
        revision = c.new_revision;
        schema_version = current_schema;
        transaction_id = c.transaction_id;
      }))

  -- `recoverIdempotency`
  abbrev pub recover_key : CompleteRecord → Option Text → Exec World (Unit {0})
  recover_key c none = pure tt
  recover_key c (some key) = do
    bound ← gets (λ w. is_some (get w.store.idempotency key))
    put_missing key c bound

  abbrev pub adopted_head : CompleteRecord → HeadRecord
  adopted_head c = record {
    committed_at = c.committed_at;
    revision = c.new_revision;
    schema_version = c.schema_version;
    transaction_id = c.transaction_id;
  }

  abbrev pub put_head : CompleteRecord → Bool → Exec World (Unit {0})
  put_head c true = pure tt
  put_head c false = put (with_head (adopted_head c))

  abbrev pub adopt : Option CompleteRecord → Option HeadRecord → Exec World (Unit {0})
  adopt none head = pure tt
  adopt (some c) head = do
    recover_key c c.idempotency_key
    put_head c (same_option ◌===◌ (revision_of head) (some c.new_revision))

  abbrev pub run_adoption :
      Option (Option CompleteRecord)
      → Option HeadRecord
      → World
      → Option (Result (Unit {0}) × World)
  run_adoption none head w = none
  run_adoption (some found) head w = some (adopt found head w)

  unfoldable pub recover_published_head : ℕ → World → Option (Result (Unit {0}) × World)
  recover_published_head fuel w =
      run_adoption (adopted fuel (list_complete_records w.store) w.store.head) w.store.head w
