-- ===== src/History/Receipts/Laws.antt =====
-- What a commit of src/history/publish.ts stores, whatever fails, and what a repeated commit finds.
use supabash_fs.Prelude.{
  ===_iff, ===_refl, Bool, List, Option, Result, Text, ap, arith, err, err_not_ok, false, not, ok,
  ok_inj, refl, some, starts_with, subst, sym, text, ◌&&◌, ◌∙◌, ◌≡◌,
}
use supabash_fs.Prelude.Exec.{Outcome}
use supabash_fs.History.Records.{HistoryRecord, IntentRecord, RevisionEntry, history_record}
use supabash_fs.History.Store.{HistoryStore, World}
use supabash_fs.History.Publish.{PublishInput, complete_of, finalize_publish, idempotency_of}
use supabash_fs.History.Publish.Laws.{IsPublished, IsRecorded, OnStore, finalize_publish-Runs}
use supabash_fs.History.Receipts.{completed_receipt, existing_idempotent_receipt}

after-IsRecorded :
    (input : PublishInput) (intent : IntentRecord) (now : Text) (key : Option Text)
    (receipt : HistoryRecord) (r : Result HistoryRecord) (w : World)
    → Outcome
        (λ x w. IsPublished input intent now key w.store × (x ≡ receipt))
        (OnStore IsRecorded)
        r
        w
    → IsRecorded w.store
after-IsRecorded input intent now key receipt (ok x) w h = h.0.recorded
after-IsRecorded input intent now key receipt (err e) w h = h

-- A commit never leaves a head without its revision, nor a finished transaction without its own,
-- if there was none before: whatever the lease answers, whatever the snapshot gives, whichever writes
-- fail, and whether the commit returns or throws.
pub finalize_publish-IsRecorded :
    (input : PublishInput) (intent : IntentRecord) (now : Text) (before : Result Bool)
    (snapshot : Result (List RevisionEntry)) (after : Result Bool) (w : World)
    → IsRecorded w.store
    → IsRecorded (finalize_publish input intent before snapshot after now w).1.store
finalize_publish-IsRecorded input intent now before snapshot after w p =
    let done = finalize_publish input intent before snapshot after now w in
    after-IsRecorded input intent now input.context.idempotency_key
      (history_record (complete_of input intent now) input.scope) done.0 done.1
      ((finalize_publish-Runs input intent now before snapshot after).at w p)

and_false : (b : Bool) → (b && false) ≡ false
and_false b = ground arith

replay-published :
    (input : PublishInput) (intent : IntentRecord) (now key : Text) (s : HistoryStore)
    → IsPublished input intent now (some key) s
    → intent.fingerprint ≡ input.fingerprint
    → existing_idempotent_receipt s (some key) input.scope input.fingerprint
      ≡ ok (some (history_record (complete_of input intent now) input.scope))
unfolding existing_idempotent_receipt completed_receipt idempotency_of complete_of
replay-published input intent now key s p e =
    rw (p.bound, ===_refl input.fingerprint)
      (rw p.completed (
        rw
          (
            (===_iff intent.fingerprint input.fingerprint).1 e,
            and_false (not (starts_with intent.fingerprint (text "legacy:"))),
          )
          refl))

ok-Outcome :
    (input : PublishInput) (intent : IntentRecord) (now : Text) (key : Option Text)
    (receipt : HistoryRecord) (r : Result HistoryRecord) (w : World) {x : HistoryRecord}
    → Outcome
        (λ x w. IsPublished input intent now key w.store × (x ≡ receipt))
        (OnStore IsRecorded)
        r
        w
    → r ≡ ok x
    → IsPublished input intent now key w.store × (x ≡ receipt)
ok-Outcome input intent now key receipt (ok y) w (p, q) e = (p, sym (ok_inj e) ∙ q)
ok-Outcome input intent now key receipt (err y) w h e = absurd (err_not_ok e)

-- A commit with an idempotency key that has returned is found again: a later commit with the key and
-- the fingerprint gets the same receipt.
pub finalize_publish-replay :
    (input : PublishInput) (intent : IntentRecord) (now key : Text) (before : Result Bool)
    (snapshot : Result (List RevisionEntry)) (after : Result Bool) (w : World)
    {receipt : HistoryRecord}
    → IsRecorded w.store
    → input.context.idempotency_key ≡ some key
    → intent.fingerprint ≡ input.fingerprint
    → (finalize_publish input intent before snapshot after now w).0 ≡ ok receipt
    → existing_idempotent_receipt
        (finalize_publish input intent before snapshot after now w).1.store
        (some key)
        input.scope
        input.fingerprint
      ≡ ok (some receipt)
finalize_publish-replay input intent now key before snapshot after w p k f e =
    let done = finalize_publish input intent before snapshot after now w in
    let (published, q) =
      ok-Outcome input intent now input.context.idempotency_key
        (history_record (complete_of input intent now) input.scope) done.0 done.1
        ((finalize_publish-Runs input intent now before snapshot after).at w p) e in
    replay-published input intent now key done.1.store
      (subst (λ o. IsPublished input intent now o done.1.store) k published) f
    ∙ ap (λ r. ok (some r)) (sym q)
