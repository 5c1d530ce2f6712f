-- ===== src/History/Purge/Laws.antt =====
-- A purge keeps the revisions that are pinned and their bodies (src/history/purge.ts).
use supabash_fs.History.Purge.{
  HistoryKey, PurgePlan, PurgeReceipt, abort_key, all_hashes, complete_key, distinct_keys,
  floor_pins, hashes_of, idempotency_key, intent_key, is_removable, load_revisions, object_key,
  pinned_revisions, preserve_ancestry, purge_chain, purge_from, purge_history, purge_pinned,
  purge_read, purged_keys, removable_aborted_transactions, remove_keys, remove_unless, revision_key,
  transaction_keys, without_key,
}
use supabash_fs.History.Publish.Laws.{OnStore}
use supabash_fs.History.Publish.{revision_of}
use supabash_fs.History.Ancestry.{Fueled, retained_chain}
use supabash_fs.History.Store.{
  HistoryStore, World, WriteOutcome, applied, put, put_fault, put_outcome, refused, with_ancestry,
  written,
}
use supabash_fs.History.Records.{RevisionRecord}
use supabash_fs.Core.Tracked.Staging.{any-sort, differs}
use supabash_fs.Prelude.Exec.{>>=-Keeps, Keeps, pure-Keeps}
use supabash_fs.Prelude.Dict.{get, get-delete, keys}
use supabash_fs.Prelude.{
  ===_iff, ===_refl, All, Bool, Bool-cases, List, Result, Text, [], any, any-append, ap, ap₂, arith,
  err, false, if◌then◌else◌, includes, inl, inr, is_empty, keep, map, none, none-some, not,
  not_both, ok, refl, some, some_inj, subst, sym, take, true, ||-false, ℕ, ◌++◌, ◌===◌, ◌||◌, ◌∙◌,
  ◌∷◌, ◌≡◌,
}
use supabash_fs.History.Purge.Keys.{
  all_hashes-includes, distinct_misses, hits, keep-Member, key_listed, no_object, or_first, or_true,
  read-Member, removable_misses, transaction_misses,
}

-- What a purge keeps of a revision: its manifest, and its bodies as they were.
record Kept (revision : Text) (r : RevisionRecord) (before s : HistoryStore) : Type 0 where
  manifest : get s.revisions revision ≡ some r
  bodies : (h : Text) → includes (hashes_of r) h ≡ true → get s.objects h ≡ get before.objects h

put-Keeps :
    (P : HistoryStore → Type 0) (change : HistoryStore → HistoryStore)
    → ((s : HistoryStore) → P s → P (change s))
    → Keeps (OnStore P) (put change)
unfolding put
put-Keeps P change h = record { at = λ w p. outcome (put_fault w.faults) w p }
  where
    outcome : (o : WriteOutcome) (w : World) → P w.store → P (put_outcome o change w.store).1
    outcome written w p = h w.store p
    outcome refused w p = p
    outcome applied w p = h w.store p

without-Kept :
    (revision : Text) (r : RevisionRecord) (before s : HistoryStore) (key : HistoryKey)
    → hits revision (hashes_of r) key ≡ false
    → Kept revision r before s
    → Kept revision r before (without_key key s)
without-Kept revision r before s (abort_key t) h k = record {
  manifest = k.manifest;
  bodies = k.bodies;
}
without-Kept revision r before s (complete_key t) h k = record {
  manifest = k.manifest;
  bodies = k.bodies;
}
without-Kept revision r before s (idempotency_key t) h k = record {
  manifest = k.manifest;
  bodies = k.bodies;
}
without-Kept revision r before s (intent_key t) h k = record {
  manifest = k.manifest;
  bodies = k.bodies;
}
without-Kept revision r before s (object_key t) h k = record {
  manifest = k.manifest;
  bodies = λ u among.
      get-delete s.objects t u
      ∙ ap (λ b. if b then none else get s.objects u) (other u among)
      ∙ k.bodies u among;
}
  where
    other : (u : Text) → includes (hashes_of r) u ≡ true → (t === u) ≡ false
    other u among = elim (Bool-cases (t === u)) [
      | inl e ↦
          absurd
            (not_both among (subst (λ q. includes (hashes_of r) q ≡ false) ((===_iff t u).0 e) h))
      | inr e ↦ e
    ]
without-Kept revision r before s (revision_key t) h k = record {
  manifest =
      get-delete s.revisions t revision
      ∙ ap (λ b. if b then none else get s.revisions revision) h
      ∙ k.manifest;
  bodies = k.bodies;
}

remove_keys-Kept :
    (compare_keys : HistoryKey → HistoryKey → Bool) (same_key : HistoryKey → HistoryKey → Bool)
    (time_of : Text → ℕ) (size_at : HistoryStore → HistoryKey → ℕ) (now : ℕ) (revision : Text)
    (r : RevisionRecord) (before : HistoryStore) (objects : List HistoryKey)
    → any (hits revision (hashes_of r)) objects ≡ false
    → Keeps
        (OnStore (Kept revision r before))
        (remove_keys compare_keys same_key time_of size_at now objects)
unfolding remove_keys
remove_keys-Kept ck sk to sz now revision r before [] h = pure-Keeps tt
remove_keys-Kept ck sk to sz now revision r before (key ∷ rest) h =
    let (here, later) =
      ||-false (hits revision (hashes_of r) key) (any (hits revision (hashes_of r)) rest) h in
    >>=-Keeps
      (put-Keeps (Kept revision r before) (without_key key)
        (λ s. without-Kept revision r before s key here))
      (λ _. remove_keys-Kept ck sk to sz now revision r before rest later)

preserve_ancestry-Kept :
    (compare_keys : HistoryKey → HistoryKey → Bool) (same_key : HistoryKey → HistoryKey → Bool)
    (time_of : Text → ℕ) (size_at : HistoryStore → HistoryKey → ℕ) (now : ℕ) (revision : Text)
    (r : RevisionRecord) (before : HistoryStore) (records : List RevisionRecord)
    → Keeps
        (OnStore (Kept revision r before))
        (preserve_ancestry compare_keys same_key time_of size_at now records)
unfolding preserve_ancestry
preserve_ancestry-Kept ck sk to sz now revision r before [] = pure-Keeps tt
preserve_ancestry-Kept ck sk to sz now revision r before (record_left ∷ rest) =
    >>=-Keeps
      (put-Keeps (Kept revision r before)
        (with_ancestry record_left.revision record_left.parent_revision)
        (λ s k. record { manifest = k.manifest; bodies = k.bodies }))
      (λ _. preserve_ancestry-Kept ck sk to sz now revision r before rest)

any-kept_none :
    (q g : RevisionRecord → Bool) (records : List RevisionRecord)
    → ((x : RevisionRecord) → q x ≡ true → g x ≡ false)
    → any q (keep g records) ≡ false
any-kept_none q g [] h = refl
any-kept_none q g (x ∷ xs) h = one (g x) (h x) (any-kept_none q g xs h)
  where
    one :
        (kept : Bool)
        → (q x ≡ true → kept ≡ false)
        → any q (keep g xs) ≡ false
        → any q (if kept then x ∷ keep g xs else keep g xs) ≡ false
    one true differs e = elim (Bool-cases (q x)) [
      | inl same ↦ absurd (not_both refl (differs same))
      | inr other ↦ ap (λ b. b || any q (keep g xs)) other ∙ e
    ]
    one false differs e = e

module _ (compare_keys : HistoryKey → HistoryKey → Bool) (same_key : HistoryKey → HistoryKey → Bool)
    (time_of : Text → ℕ) (size_at : HistoryStore → HistoryKey → ℕ) (now : ℕ)
    (plan : PurgePlan) where
  pinned_stays :
      (pinned by_count : List Text) (x : RevisionRecord)
      → includes pinned x.revision ≡ true
      → is_removable compare_keys same_key time_of size_at now plan pinned by_count x ≡ false
  unfolding is_removable
  pinned_stays pinned by_count x h = ground (arith)

  purged_miss :
      (s : HistoryStore) (pinned by_count : List Text) (revision : Text) (r : RevisionRecord)
      → includes pinned revision ≡ true
      → get s.revisions revision ≡ some r
      → r.revision ≡ revision
      → any
          (hits revision (hashes_of r))
          (purged_keys compare_keys same_key time_of size_at now s plan pinned by_count)
        ≡ false
  unfolding purged_keys
  purged_miss s pinned by_count revision r pin found named =
      let gone = is_removable compare_keys same_key time_of size_at now plan pinned by_count in
      let records = load_revisions s in
      let retained = all_hashes (keep (λ r. not (gone r)) records) in
      let stays = pinned_stays pinned by_count in
      let among =
        keep-Member (λ r. not (gone r)) records r
          (ap not (stays r (subst (λ q. includes pinned q ≡ true) (sym named) pin)))
          (read-Member s.revisions (keys s.revisions) revision r
            (key_listed s.revisions revision r found) found) in
      let unused =
        no_object compare_keys same_key time_of size_at now revision (hashes_of r) retained
          (keys s.objects)
          (λ h. all_hashes-includes (keep (λ r. not (gone r)) records) r h among) in
      let finished =
        transaction_misses compare_keys same_key time_of size_at now revision (hashes_of r) s
          (keep gone records)
          (any-kept_none (λ x. x.revision === revision) gone records
            (λ x same. stays x (
              subst (λ q. includes pinned q ≡ true) (sym ((===_iff x.revision revision).0 same))
                pin))) in
      let aborted =
        removable_misses compare_keys same_key time_of size_at now revision (hashes_of r) s
          plan.max_age_ms in
      let objects = map object_key (keep (λ hash. not (includes retained hash)) (keys s.objects)) in
      let transactions =
        transaction_keys compare_keys same_key time_of size_at now s (keep gone records) in
      let aborts =
        removable_aborted_transactions compare_keys same_key time_of size_at now s
          plan.max_age_ms in
      let all = objects ++ (transactions ++ aborts) in
      any-sort compare_keys (hits revision (hashes_of r))
        (distinct_keys compare_keys same_key time_of size_at now all)
      ∙ distinct_misses compare_keys same_key time_of size_at now revision (hashes_of r) all (
          any-append (hits revision (hashes_of r)) objects (transactions ++ aborts)
          ∙ ap₂ (λ a b. a || b) unused
              (any-append (hits revision (hashes_of r)) transactions aborts
                ∙ ap₂ (λ a b. a || b) finished aborted))

  remove_unless-Kept :
      (dry : Bool) (removable : List RevisionRecord) (objects : List HistoryKey) (revision : Text)
      (r : RevisionRecord) (before : HistoryStore)
      → any (hits revision (hashes_of r)) objects ≡ false
      → Keeps
          (OnStore (Kept revision r before))
          (remove_unless compare_keys same_key time_of size_at now dry removable objects)
  remove_unless-Kept true removable objects revision r before h = pure-Keeps tt
  remove_unless-Kept false removable objects revision r before h =
      >>=-Keeps
        (preserve_ancestry-Kept compare_keys same_key time_of size_at now revision r before
          removable)
        (λ _.
          remove_keys-Kept compare_keys same_key time_of size_at now revision r before objects h)

  module _ (w : World) (revision : Text) (r : RevisionRecord)
      (pin : includes (pinned_revisions w.store) revision ≡ true)
      (found : get w.store.revisions revision ≡ some r) (named : r.revision ≡ revision) where
    intact : Kept revision r w.store w.store
    intact = record { manifest = found; bodies = λ h among. refl }

    pinned-Kept :
        (chain : List RevisionRecord) (floor : Result (List Text))
        → Kept revision r w.store
            (purge_pinned compare_keys same_key time_of size_at now plan chain w floor).1.store
    pinned-Kept chain (err e) = intact
    pinned-Kept chain (ok floor) =
        let pinned = pinned_revisions w.store ++ floor in
        let by_count = map (λ (r : RevisionRecord). r.revision) (take plan.max_revisions chain) in
        let objects =
          purged_keys compare_keys same_key time_of size_at now w.store plan pinned by_count in
        (>>=-Keeps
            (remove_unless-Kept (plan.dry_run || is_empty objects)
              (keep (is_removable compare_keys same_key time_of size_at now plan pinned by_count)
                (load_revisions w.store))
              objects revision r w.store
              (purged_miss w.store pinned by_count revision r
                (any-append (λ t. t === revision) (pinned_revisions w.store) floor
                  ∙ or_first (includes (pinned_revisions w.store) revision)
                      (includes floor revision) pin)
                found named))
            (λ _. pure-Keeps _)).at
          w intact

    read-Kept :
        (chain : Result (List RevisionRecord))
        → Kept revision r w.store
            (purge_read compare_keys same_key time_of size_at now plan w chain).1.store
    unfolding purge_chain
    read-Kept (err e) = intact
    read-Kept (ok chain) = pinned-Kept chain (floor_pins chain plan.keep_after_revision)

    from-Kept :
        (chain : Fueled (List RevisionRecord)) (out : Result PurgeReceipt × World)
        → purge_from compare_keys same_key time_of size_at now plan w chain ≡ some out
        → Kept revision r w.store out.1.store
    from-Kept none out h = absurd (none-some h)
    from-Kept (some chain) out h =
        subst (λ (out : Result PurgeReceipt × World). Kept revision r w.store out.1.store)
          (some_inj h) (read-Kept chain)

each_hash :
    (before s : HistoryStore) (hashes all : List Text)
    → ((h : Text) → includes all h ≡ true → get s.objects h ≡ get before.objects h)
    → ((h : Text) → includes hashes h ≡ true → includes all h ≡ true)
    → All (λ h. get s.objects h ≡ get before.objects h) hashes
each_hash before s [] all kept sub = tt
each_hash before s (h ∷ hs) all kept sub = (
  kept h (sub h (or_first (h === h) (includes hs h) (===_refl h))),
  each_hash before s hs all kept (λ u among. sub u (or_true (h === u) (includes hs u) among)),
)

-- A purge that ends, whether it returns, throws, or stops in the middle of its writes, leaves the
-- revision of the head or of a checkpoint with its manifest, and its bodies as they were.
pub purge_history-keeps :
    (compare_keys : HistoryKey → HistoryKey → Bool) (same_key : HistoryKey → HistoryKey → Bool)
    (time_of : Text → ℕ) (size_at : HistoryStore → HistoryKey → ℕ) (now fuel : ℕ) (plan : PurgePlan)
    (w : World) (out : Result PurgeReceipt × World) (revision : Text) (r : RevisionRecord)
    → purge_history compare_keys same_key time_of size_at now fuel plan w ≡ some out
    → includes (pinned_revisions w.store) revision ≡ true
    → get w.store.revisions revision ≡ some r
    → r.revision ≡ revision
    → (get out.1.store.revisions revision ≡ some r)
      × All (λ h. get out.1.store.objects h ≡ get w.store.objects h) (hashes_of r)
unfolding purge_history
purge_history-keeps ck sk to sz now fuel plan w out revision r h pin found named =
    let kept =
      from-Kept ck sk to sz now plan w revision r pin found named
        (retained_chain (λ (r : RevisionRecord). r.revision)
          (λ (r : RevisionRecord). r.parent_revision)
          (λ revision. ok (get w.store.ancestry revision)) fuel (load_revisions w.store)
          (revision_of w.store.head))
        out h in
    (
      kept.manifest,
      each_hash w.store out.1.store (hashes_of r) (hashes_of r) kept.bodies (λ h m. m),
    )
