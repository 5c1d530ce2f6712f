-- ===== src/History/Recovery/Laws.antt =====
-- What the recovery of src/history/recover.ts adopts as the head.
use supabash_fs.History.Publish.Laws.{IsRecorded, OnStore, put-Runs}
use supabash_fs.History.Store.{HistoryStore, World, with_head}
use supabash_fs.Prelude.Exec.{>>=-Runs, Outcome, Runs, gets-Runs, pure, pure-Runs}
use supabash_fs.Prelude.{
  All, Bool, Bool-cases, List, Option, Ordering, Result, Text, [], err, false, find_first, inl, inr,
  insert_sorted, is_some, keep, last, none, none-some, ok, refl, some, some_inj, sort, subst, suc,
  true, zero, ℕ, ◌===◌, ◌∷◌, ◌≡◌,
}
use supabash_fs.Prelude.Dict.{Dict, get, keys}
use supabash_fs.History.Records.{CompleteRecord, HeadRecord}
use supabash_fs.History.Recovery.{
  adopt, adopted, adopted_head, descend, is_child, list_complete_records, newest_child,
  newest_descendant, not_after, or_current, push_some, put_head, put_missing, read_each,
  recover_key, recover_published_head, run_adoption,
}

-- What holds of a value, where there is one.
abbrev Holds : {A : Type 0} → (A → Type 0) → Option A → Type 0
Holds P none = Unit
Holds P (some a) = P a

module _ {A : Type 0} (P : A → Type 0) where
  All-push_some : (o : Option A) (xs : List A) → Holds P o → All P xs → All P (push_some o xs)
  All-push_some none xs h k = k
  All-push_some (some x) xs h k = (h, k)

  All-keep : (p : A → Bool) (xs : List A) → All P xs → All P (keep p xs)
  All-keep p [] h = tt
  All-keep p (x ∷ xs) (a, h) = elim (Bool-cases (p x)) [
    | inl e ↦ rw e (a, All-keep p xs h)
    | inr e ↦ rw e (All-keep p xs h)
  ]

  All-insert_sorted :
      (le : A → A → Bool) (x : A) (xs : List A) → P x → All P xs → All P (insert_sorted le x xs)
  All-insert_sorted le x [] a h = (a, tt)
  All-insert_sorted le x (y ∷ ys) a (b, h) = elim (Bool-cases (le x y)) [
    | inl e ↦ rw e (a, (b, h))
    | inr e ↦ rw e (b, All-insert_sorted le x ys a h)
  ]

  All-sort : (le : A → A → Bool) (xs : List A) → All P xs → All P (sort le xs)
  unfolding sort
  All-sort le [] h = tt
  All-sort le (x ∷ xs) (a, h) = All-insert_sorted le x (sort le xs) a (All-sort le xs h)

  Holds-last : (xs : List A) → All P xs → Holds P (last xs)
  Holds-last [] h = tt
  Holds-last (x ∷ []) (a, h) = a
  Holds-last (x ∷ y ∷ ys) (a, h) = Holds-last (y ∷ ys) h

  Holds-find_first : (p : A → Bool) (xs : List A) → All P xs → Holds P (find_first p xs)
  Holds-find_first p [] h = tt
  Holds-find_first p (x ∷ xs) (a, h) = elim (Bool-cases (p x)) [
    | inl e ↦ rw e a
    | inr e ↦ rw e (Holds-find_first p xs h)
  ]

  Holds-get :
      (m : Dict A) (k : Text) (o : Option A)
      → ((t : Text) (a : A) → get m t ≡ some a → P a)
      → get m k ≡ o
      → Holds P o
  Holds-get m k none h e = tt
  Holds-get m k (some a) h e = h k a e

  All-read_each :
      (m : Dict A) (ks : List Text)
      → ((t : Text) (a : A) → get m t ≡ some a → P a)
      → All P (read_each m ks)
  unfolding read_each
  All-read_each m [] h = tt
  All-read_each m (k ∷ ks) h =
      All-push_some (get m k) (read_each m ks) (Holds-get m k (get m k) h refl)
        (All-read_each m ks h)

module _ (compare_paths : Text → Text → Ordering) where
  -- `P` of all completed transactions holds of what the recovery adopts.
  module _ (P : CompleteRecord → Type 0) (completes : List CompleteRecord)
      (all : All P completes) where
    newest_child-Holds :
        (revision : Option Text) → Holds P (newest_child compare_paths completes revision)
    unfolding newest_child
    newest_child-Holds revision = Holds-last P _ (
        All-sort P (not_after compare_paths) _
          (All-keep P (is_child compare_paths revision) completes all))

    descend-Holds :
        (rest : Option Text → Option CompleteRecord → Option (Option CompleteRecord))
        (current child : Option CompleteRecord)
        → Holds P current
        → Holds P child
        → ((r : Option Text) (c : CompleteRecord) → P c → Holds (Holds P) (rest r (some c)))
        → Holds (Holds P) (descend compare_paths rest current child)
    descend-Holds rest current none h k l = h
    descend-Holds rest current (some child) h k l = l (some child.new_revision) child k

    newest-Holds :
        (n : ℕ) (revision : Option Text) (current : Option CompleteRecord)
        → Holds P current
        → Holds (Holds P) (newest_descendant compare_paths completes n revision current)
    unfolding newest_descendant
    newest-Holds zero revision current h = tt
    newest-Holds (suc n) revision current h =
        descend-Holds (newest_descendant compare_paths completes n) current
          (newest_child compare_paths completes revision) h (newest_child-Holds revision)
          (λ r c p. newest-Holds n r (some c) p)

    or_current-Holds :
        (revision : Text) (o : Option (Option CompleteRecord))
        → Holds (Holds P) o
        → Holds (Holds P) (or_current compare_paths completes revision o)
    or_current-Holds revision none h = tt
    or_current-Holds revision (some (some c)) h = h
    or_current-Holds revision (some none) h =
        Holds-find_first P (λ (c : CompleteRecord). c.new_revision === revision) completes all

    adopted-Holds :
        (fuel : ℕ) (head : Option HeadRecord)
        → Holds (Holds P) (adopted compare_paths fuel completes head)
    unfolding adopted
    adopted-Holds fuel none = newest-Holds fuel none none tt
    adopted-Holds fuel (some head) =
        or_current-Holds head.revision
          (newest_descendant compare_paths completes fuel (some head.revision) none)
          (newest-Holds fuel (some head.revision) none tt)

  -- Head and finished transactions have their revisions, and so has one transaction.
  pub record IsKnownWith (c : CompleteRecord) (s : HistoryStore) : Type 0 where
    pub recorded : IsRecorded s
    pub known : is_some (get s.revisions c.new_revision) ≡ true

  put_missing-Runs :
      (key : Text) (c : CompleteRecord) (b : Bool)
      → Runs
          (OnStore (IsKnownWith c))
          (put_missing compare_paths key c b)
          (λ u. OnStore (IsKnownWith c))
          (OnStore IsRecorded)
  put_missing-Runs key c true = pure-Runs tt (λ w p. p)
  put_missing-Runs key c false =
      put-Runs (IsKnownWith c) (IsKnownWith c) IsRecorded _
        (λ s p. record {
          recorded = record {
            head_known = p.recorded.head_known;
            complete_known = p.recorded.complete_known;
          };
          known = p.known;
        })
        (λ s p. p.recorded) (λ s q. q.recorded)

  recover_key-Runs :
      (c : CompleteRecord) (key : Option Text)
      → Runs
          (OnStore (IsKnownWith c))
          (recover_key compare_paths c key)
          (λ u. OnStore (IsKnownWith c))
          (OnStore IsRecorded)
  recover_key-Runs c none = pure-Runs tt (λ w p. p)
  recover_key-Runs c (some key) =
      >>=-Runs {Q = λ b. OnStore (IsKnownWith c)} (gets-Runs _ (λ w p. p))
        (λ b. put_missing-Runs key c b)

  put_head-Runs :
      (c : CompleteRecord) (b : Bool)
      → Runs
          (OnStore (IsKnownWith c))
          (put_head compare_paths c b)
          (λ u. OnStore IsRecorded)
          (OnStore IsRecorded)
  put_head-Runs c true = pure-Runs tt (λ w p. p.recorded)
  put_head-Runs c false =
      put-Runs (IsKnownWith c) IsRecorded IsRecorded (with_head (adopted_head compare_paths c))
        (λ s p. record {
          head_known = λ h e.
              subst (λ (h : HeadRecord). is_some (get s.revisions h.revision) ≡ true) (some_inj e)
                p.known;
          complete_known = p.recorded.complete_known;
        })
        (λ s p. p.recorded) (λ s q. q)

  both-IsRecorded :
      (r : Result (Unit {0})) (w : World)
      → Outcome (λ u. OnStore IsRecorded) (OnStore IsRecorded) r w
      → IsRecorded w.store
  both-IsRecorded (ok u) w h = h
  both-IsRecorded (err e) w h = h

  adopt-IsRecorded :
      (found : Option CompleteRecord) (head : Option HeadRecord) (w : World)
      → IsRecorded w.store
      → Holds (λ (c : CompleteRecord). is_some (get w.store.revisions c.new_revision) ≡ true) found
      → IsRecorded (adopt compare_paths found head w).1.store
  adopt-IsRecorded none head w p h = unfold pure in p
  adopt-IsRecorded (some c) head w p h =
      both-IsRecorded (adopt compare_paths (some c) head w).0
        (adopt compare_paths (some c) head w).1
        ((>>=-Runs (recover_key-Runs c c.idempotency_key) (λ _. put_head-Runs c _)).at w
          (record { recorded = p; known = h }))

  run-IsRecorded :
      (found : Option (Option CompleteRecord)) (head : Option HeadRecord) (w : World)
      {out : Result (Unit {0}) × World}
      → IsRecorded w.store
      → Holds
          (Holds (λ (c : CompleteRecord). is_some (get w.store.revisions c.new_revision) ≡ true))
          found
      → run_adoption compare_paths found head w ≡ some out
      → IsRecorded out.1.store
  run-IsRecorded none head w p h e = absurd (none-some e)
  run-IsRecorded (some found) head w p h e =
      subst (λ (o : Result (Unit {0}) × World). IsRecorded o.1.store) (some_inj e)
        (adopt-IsRecorded found head w p h)

  -- A recovery of the head that ends leaves no head without its revision, nor a finished transaction
  -- without its own, if there was none before, whichever of its writes fails.
  pub recover_published_head-IsRecorded :
      (fuel : ℕ) (w : World) {out : Result (Unit {0}) × World}
      → IsRecorded w.store
      → recover_published_head compare_paths fuel w ≡ some out
      → IsRecorded out.1.store
  unfolding recover_published_head list_complete_records
  recover_published_head-IsRecorded fuel w p e =
      let all =
        All-read_each
          (λ (c : CompleteRecord). is_some (get w.store.revisions c.new_revision) ≡ true)
          w.store.completes (keys w.store.completes) p.complete_known in
      run-IsRecorded
        (adopted compare_paths fuel (read_each w.store.completes (keys w.store.completes))
          w.store.head)
        w.store.head w p
        (adopted-Holds
          (λ (c : CompleteRecord). is_some (get w.store.revisions c.new_revision) ≡ true)
          (read_each w.store.completes (keys w.store.completes)) all fuel w.store.head)
        e
