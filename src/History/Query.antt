-- ===== src/History/Query.antt =====
-- src/history/query.ts: the pages of a workspace's history.
pub mod Laws
use supabash_fs.Prelude.{
  Bool, List, Option, Result, SupabashError, Text, [], drop, err, if◌then◌else◌, last, length, ltb,
  map, none, ok, revision_not_found, some, suc, supabash_error, take, ℕ, ◌++◌, ◌+◌, ◌===◌, ◌>>=◌,
  ◌>>◌, ◌∷◌,
}
use supabash_fs.Prelude.Json.{Number}
use supabash_fs.History.Records.{CompleteRecord, HeadRecord, HistoryRecord, history_record}
use supabash_fs.History.Quota.{WorkspaceLimits, history_page_limit}
use supabash_fs.History.Ancestry.{Fueled, retained_chain}

-- `cursor_missing` is `cursorMissing === 'oldest'`.
pub record HistoryQuery : Type 0 where
  pub cursor : Option Text
  pub cursor_missing : Bool
  pub limit : Option Number

pub record HistoryPage : Type 0 where
  pub next_cursor : Option Text
  pub records : List HistoryRecord

abbrev pub one_more : Option ℕ → Option ℕ
one_more none = none
one_more (some n) = some (suc n)

-- The index behind the first record with the cursor.
unfoldable pub index_after : List HistoryRecord → Text → Option ℕ
index_after [] cursor = none
index_after (r ∷ rs) cursor =
    let rest = index_after rs cursor in
    if r.transaction_id === cursor then some 1 else one_more rest

abbrev pub revision_not_found_error : SupabashError
revision_not_found_error = supabash_error revision_not_found none

-- Where to start when the cursor is found, or not.
abbrev pub start_at : Bool → Option ℕ → Result ℕ
start_at missing (some start) = ok start
start_at missing none = if missing then ok 0 else err revision_not_found_error

unfoldable pub history_start : List HistoryRecord → Option Text → Bool → Result ℕ
history_start records none missing = ok 0
history_start records (some cursor) missing = start_at missing (index_after records cursor)

abbrev pub cursor_of : Option HistoryRecord → Option Text
cursor_of none = none
cursor_of (some r) = some r.cursor

-- `records.slice(start, start + limit)`, and the cursor of its last record if more records follow.
unfoldable pub page_from : List HistoryRecord → ℕ → ℕ → HistoryPage
page_from records limit start =
    let page = take limit (drop start records) in
    record {
      next_cursor =
          if ltb (start + length page) (length records) then cursor_of (last page) else none;
      records = page;
    }

unfoldable pub page_of : List HistoryRecord → ℕ → Option Text → Bool → Result HistoryPage
page_of records limit cursor missing = do
  start ← history_start records cursor missing
  ok (page_from records limit start)

abbrev pub reversed {ℓ} : {A : Type ℓ} → List A → List A
reversed [] = []
reversed (x ∷ xs) = reversed xs ++ x ∷ []

-- What the stored history gives: the complete records in the order of their keys, the head, and the
-- ancestry link of a purged revision.
pub record HistoryReads : Type 0 where
  pub completes : Result (List CompleteRecord)
  pub head : Result (Option HeadRecord)
  pub link : Text → Result (Option (Option Text))

-- Fuel is for the walk over the ancestry.
unfoldable pub causal_completes :
    HistoryReads → ℕ → List CompleteRecord → Option HeadRecord → Fueled (List CompleteRecord)
causal_completes reads fuel completes none = some (ok [])
causal_completes reads fuel completes (some head) =
    elim (retained_chain (λ (c : CompleteRecord). c.new_revision)
      (λ (c : CompleteRecord). c.parent_revision) reads.link fuel completes (some head.revision)) [
        | none ↦ none
        | some (err e) ↦ some (err e)
        | some (ok newest_first) ↦ some (ok (reversed newest_first))
      ]

abbrev pub pages_of : Text → HistoryQuery → ℕ → Fueled (List CompleteRecord) → Fueled HistoryPage
pages_of scope query limit none = none
pages_of scope query limit (some (err e)) = some (err e)
pages_of scope query limit (some (ok causal)) =
    some
      (page_of (map (λ c. history_record c scope) causal) limit query.cursor query.cursor_missing)

abbrev pub when_ok : {A B : Type 0} → Result A → (A → Fueled B) → Fueled B
when_ok (ok a) f = f a
when_ok (err e) f = some (err e)

unfoldable pub read_history_page :
    HistoryReads → ℕ → Text → HistoryQuery → WorkspaceLimits → Fueled HistoryPage
read_history_page reads fuel scope query limits =
    when_ok (history_page_limit query.limit limits) (λ limit. when_ok reads.completes (λ completes.
      when_ok reads.head
        (λ head. pages_of scope query limit (causal_completes reads fuel completes head))))
