-- ===== src/History/Publish/Laws.antt =====
-- A commit of src/history/publish.ts never leaves a head, or a finished transaction, without its
-- revision, whatever write fails; and a commit that returns is found again by its key.
use supabash_fs.Prelude.{
  ===_refl, Bool, Bool-cases, List, Option, Result, Text, arith, err, inl, inr, is_some, none, ok,
  refl, some, some_inj, subst, sym, true, ◌===◌, ◌∙◌, ◌≡◌,
}
use supabash_fs.Prelude.Dict.{Dict, get, get-set, set}
use supabash_fs.Prelude.Exec.{>>=-Runs, Outcome, Runs, lift-Runs, pure-Runs}
use supabash_fs.History.Records.{
  CompleteRecord, HeadRecord, IntentRecord, RevisionEntry, RevisionRecord, history_record,
}
use supabash_fs.History.Store.{
  HistoryStore, World, WriteOutcome, applied, put, put_fault, put_outcome, refused, with_complete,
  with_head, with_idempotency, with_revision, written,
}
use supabash_fs.History.Publish.{
  PublishInput, bind_key, complete_of, finalize_publish, head_of, idempotency_of,
  revision_record_of, still_leased,
}

-- Head and finished transactions have their revisions.
pub record IsRecorded (s : HistoryStore) : Type 0 where
  pub head_known : (h : HeadRecord) → s.head ≡ some h → is_some (get s.revisions h.revision) ≡ true
  pub complete_known :
      (t : Text) (c : CompleteRecord)
      → get s.completes t ≡ some c
      → is_some (get s.revisions c.new_revision) ≡ true

abbrev pub OnStore : (HistoryStore → Type 0) → World → Type 0
OnStore P w = P w.store

module _ (P Q R : HistoryStore → Type 0) where
  put-Outcome :
      (o : WriteOutcome) (change : HistoryStore → HistoryStore) (s : HistoryStore)
      → Q (change s)
      → R s
      → R (change s)
      → Outcome (λ (u : Unit {0}). Q) R (put_outcome o change s).0 (put_outcome o change s).1
  put-Outcome written change s q r t = q
  put-Outcome refused change s q r t = r
  put-Outcome applied change s q r t = t

  through-Outcome :
      (r : Result (Unit {0})) (w : World)
      → Outcome (λ (u : Unit {0}). Q) R r w.store
      → Outcome (λ (u : Unit {0}). OnStore Q) (OnStore R) r w
  through-Outcome (ok u) w h = h
  through-Outcome (err e) w h = h

  pub put-Runs :
      (change : HistoryStore → HistoryStore)
      → ((s : HistoryStore) → P s → Q (change s))
      → ((s : HistoryStore) → P s → R s)
      → ((s : HistoryStore) → Q s → R s)
      → Runs (OnStore P) (put change) (λ u. OnStore Q) (OnStore R)
  unfolding put
  put-Runs change h k l = record {
    at = λ w p. through-Outcome (put_outcome (put_fault w.faults) change w.store).0 _ (
        put-Outcome (put_fault w.faults) change w.store (h w.store p) (k w.store p)
          (l (change w.store) (h w.store p)));
  }

is_some-set :
    {V : Type 0} (m : Dict V) (k j : Text) (v : V)
    → is_some (get m j) ≡ true
    → is_some (get (set m k v) j) ≡ true
is_some-set m k j v h = rw (get-set m k j v) (ground arith)

is_some-set_same : {V : Type 0} (m : Dict V) (k : Text) (v : V) → is_some (get (set m k v) k) ≡ true
is_some-set_same m k v = rw (get-set m k k v, ===_refl k) refl

get-set_same : {V : Type 0} (m : Dict V) (k : Text) (v : V) → get (set m k v) k ≡ some v
get-set_same m k v = rw (get-set m k k v, ===_refl k) refl

module _ (input : PublishInput) (intent : IntentRecord) (now : Text) where
  abbrev complete : CompleteRecord
  complete = complete_of input intent now

  -- The stages of a commit.
  pub record HasRevision (s : HistoryStore) : Type 0 where
    pub recorded : IsRecorded s
    pub revision_known : is_some (get s.revisions intent.new_revision) ≡ true

  pub record HasComplete (s : HistoryStore) : Type 0 where
    pub earlier : HasRevision s
    pub completed : get s.completes intent.transaction_id ≡ some complete

  abbrev pub KeyBound : Option Text → HistoryStore → Type 0
  KeyBound none s = Unit
  KeyBound (some key) s = get s.idempotency key ≡ some (idempotency_of input intent)

  abbrev pub HasKey : Option Text → HistoryStore → Type 0
  HasKey key s = HasComplete s × KeyBound key s

  -- What a commit that returns has stored.
  pub record IsPublished (key : Option Text) (s : HistoryStore) : Type 0 where
    pub recorded : IsRecorded s
    pub completed : get s.completes intent.transaction_id ≡ some complete
    pub bound : KeyBound key s
    pub head_set : s.head ≡ some (head_of intent now)

  at_revision :
      (entries : List RevisionEntry) (s : HistoryStore)
      → IsRecorded s
      → HasRevision (with_revision (revision_record_of intent entries now) s)
  unfolding revision_record_of
  at_revision entries s p = record {
    recorded = record {
      head_known =
          λ h e. is_some-set s.revisions intent.new_revision h.revision _ (p.head_known h e);
      complete_known = λ t c e.
          is_some-set s.revisions intent.new_revision c.new_revision _ (p.complete_known t c e);
    };
    revision_known = is_some-set_same s.revisions intent.new_revision _;
  }

  completes_after :
      (m : Dict CompleteRecord) (revisions : Dict RevisionRecord) (t : Text) (c : CompleteRecord)
      → ((u : Text) (d : CompleteRecord)
          → get m u ≡ some d
          → is_some (get revisions d.new_revision) ≡ true)
      → is_some (get revisions intent.new_revision) ≡ true
      → get (set m intent.transaction_id complete) t ≡ some c
      → is_some (get revisions c.new_revision) ≡ true
  unfolding complete_of
  completes_after m revisions t c h k e =
      let e' = sym (get-set m intent.transaction_id t complete) ∙ e in
      elim (Bool-cases (intent.transaction_id === t)) [
        | inl q ↦
            subst (λ (d : CompleteRecord). is_some (get revisions d.new_revision) ≡ true)
              (some_inj (rw q at e')) k
        | inr q ↦ h t c (rw q at e')
      ]

  at_complete : (s : HistoryStore) → HasRevision s → HasComplete (with_complete complete s)
  unfolding complete_of
  at_complete s p = record {
    earlier = record {
      recorded = record {
        head_known = p.recorded.head_known;
        complete_known = λ t c e.
            completes_after s.completes s.revisions t c p.recorded.complete_known p.revision_known
              e;
      };
      revision_known = p.revision_known;
    };
    completed = get-set_same s.completes intent.transaction_id complete;
  }

  at_key :
      (key : Text) (s : HistoryStore)
      → HasComplete s
      → HasKey (some key) (with_idempotency key (idempotency_of input intent) s)
  at_key key s p = (
    record {
      earlier = record {
        recorded = record {
          head_known = p.earlier.recorded.head_known;
          complete_known = p.earlier.recorded.complete_known;
        };
        revision_known = p.earlier.revision_known;
      };
      completed = p.completed;
    },
    get-set_same s.idempotency key (idempotency_of input intent),
  )

  KeyBound-head :
      (key : Option Text) (s : HistoryStore)
      → KeyBound key s
      → KeyBound key (with_head (head_of intent now) s)
  KeyBound-head none s h = tt
  KeyBound-head (some key) s h = h

  at_head :
      (key : Option Text) (s : HistoryStore)
      → HasKey key s
      → IsPublished key (with_head (head_of intent now) s)
  unfolding head_of
  at_head key s (p, b) = record {
    recorded = record {
      head_known = λ h e.
          subst (λ (h : HeadRecord). is_some (get s.revisions h.revision) ≡ true) (some_inj e)
            p.earlier.revision_known;
      complete_known = p.earlier.recorded.complete_known;
    };
    completed = p.completed;
    bound = KeyBound-head key s b;
    head_set = refl;
  }

  bind_key-Runs :
      (key : Option Text)
      → Runs
          (OnStore HasComplete)
          (bind_key key (idempotency_of input intent))
          (λ u. OnStore (HasKey key))
          (OnStore IsRecorded)
  bind_key-Runs none = pure-Runs tt (λ w p. (p, tt))
  bind_key-Runs (some key) =
      put-Runs HasComplete (HasKey (some key)) IsRecorded
        (with_idempotency key (idempotency_of input intent)) (at_key key)
        (λ s p. p.earlier.recorded) (λ s q. q.0.earlier.recorded)

  -- Whatever the lease answers, whatever the snapshot gives and whichever write fails, a commit that
  -- throws leaves a history in which the head and every finished transaction have their revisions, if
  -- it was so before. One that returns gives the history this too, with the new head, the
  -- transaction and, if the commit has an idempotency key, its record.
  pub finalize_publish-Runs :
      (before : Result Bool) (snapshot : Result (List RevisionEntry)) (after : Result Bool)
      → Runs
          (OnStore IsRecorded)
          (finalize_publish input intent before snapshot after now)
          (λ receipt w.
            IsPublished input.context.idempotency_key w.store
            × (receipt ≡ history_record complete input.scope))
          (OnStore IsRecorded)
  unfolding finalize_publish
  finalize_publish-Runs before snapshot after =
      >>=-Runs (lift-Runs (still_leased before) (λ w p. p)) (λ _.
        >>=-Runs (lift-Runs snapshot (λ w p. p)) (λ entries.
          >>=-Runs
            (put-Runs IsRecorded HasRevision IsRecorded
              (with_revision (revision_record_of intent entries now)) (at_revision entries)
              (λ s p. p) (λ s q. q.recorded))
            (λ _.
              >>=-Runs
                (put-Runs HasRevision HasComplete IsRecorded (with_complete complete) at_complete
                  (λ s p. p.recorded) (λ s q. q.earlier.recorded))
                (λ _. >>=-Runs (bind_key-Runs input.context.idempotency_key) (λ _.
                  >>=-Runs (lift-Runs (still_leased after) (λ w p. p.0.earlier.recorded)) (λ _.
                    >>=-Runs
                      (put-Runs (HasKey input.context.idempotency_key)
                        (IsPublished input.context.idempotency_key) IsRecorded
                        (with_head (head_of intent now)) (at_head input.context.idempotency_key)
                        (λ s p. p.0.earlier.recorded) (λ s q. q.recorded))
                      (λ _.
                        pure-Runs (history_record complete input.scope) (λ w p. (p, refl)))))))))
