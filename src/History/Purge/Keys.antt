-- ===== src/History/Purge/Keys.antt =====
-- The keys that a purge removes spare the revisions that it keeps (src/history/purge.ts).
use supabash_fs.History.Purge.{
  HistoryKey, abort_key, aborted_keys, all_hashes, distinct_keys, hashes_of, idempotency_key,
  intent_key, is_older, key_of_complete, object_key, removable_aborted_transactions, revision_key,
  transaction_keys,
}
use supabash_fs.History.Recovery.{push_some, read_each}
use supabash_fs.History.Store.{HistoryStore}
use supabash_fs.History.Records.{CompleteRecord, IntentRecord, RevisionRecord}
use supabash_fs.Prelude.Dict.{Dict, get, has, keys}
use supabash_fs.Prelude.{
  ===_iff, Bool, Bool-cases, List, Member, Option, Text, [], any, any-append, ap, ap₂, arith, false,
  if◌then◌else◌, includes, inl, inr, keep, map, none, none-some, not, not_both, refl, some,
  some_inj, subst, sym, true, ||-false, ℕ, ◌&&◌, ◌++◌, ◌===◌, ◌||◌, ◌∙◌, ◌∷◌, ◌≡◌,
}

pub or_first : (a b : Bool) → a ≡ true → (a || b) ≡ true
or_first a b h = ground (arith)

pub or_true : (a b : Bool) → b ≡ true → (a || b) ≡ true
or_true a b h = ground (arith)

pub key_listed :
    {V : Type 0} (m : Dict V) (k : Text) (v : V) → get m k ≡ some v → includes (keys m) k ≡ true
unfolding get
key_listed [] k v h = absurd (none-some h)
key_listed ((j, w) ∷ m) k v h = elim (Bool-cases (j === k)) [
  | inl e ↦ ground (arith)
  | inr e ↦ ground (arith, key_listed m k v)
]

push-here :
    {V : Type 0} (o : Option V) (v : V) (vs : List V) → o ≡ some v → Member v (push_some o vs)
push-here none v vs e = absurd (none-some e)
push-here (some w) v vs e = inl (sym (some_inj e))

push-later :
    {V : Type 0} (o : Option V) (v : V) (vs : List V) → Member v vs → Member v (push_some o vs)
push-later none v vs m = m
push-later (some w) v vs m = inr m

pub read-Member :
    {V : Type 0} (m : Dict V) (ks : List Text) (k : Text) (v : V)
    → includes ks k ≡ true
    → get m k ≡ some v
    → Member v (read_each m ks)
unfolding read_each
read-Member m [] k v h e = absurd (not_both h refl)
read-Member m (j ∷ ks) k v h e = elim (Bool-cases (j === k)) [
  | inl same ↦ push-here (get m j) v (read_each m ks) (ap (get m) ((===_iff j k).0 same) ∙ e)
  | inr other ↦ push-later (get m j) v (read_each m ks) (read-Member m ks k v (ground (arith)) e)
]

pub keep-Member :
    {A : Type 0} (p : A → Bool) (xs : List A) (x : A)
    → p x ≡ true
    → Member x xs
    → Member x (keep p xs)
keep-Member p [] x h m = absurd m
keep-Member p (y ∷ ys) x h (inl e) =
    subst (λ b. Member x (if b then y ∷ keep p ys else keep p ys))
      (sym (subst (λ y. p y ≡ true) e h)) (inl e)
keep-Member p (y ∷ ys) x h (inr m) = elim (Bool-cases (p y)) [
  | inl e ↦
      subst (λ b. Member x (if b then y ∷ keep p ys else keep p ys)) (sym e)
        (inr (keep-Member p ys x h m))
  | inr e ↦
      subst (λ b. Member x (if b then y ∷ keep p ys else keep p ys)) (sym e)
        (keep-Member p ys x h m)
]

pub all_hashes-includes :
    (records : List RevisionRecord) (r : RevisionRecord) (hash : Text)
    → Member r records
    → includes (hashes_of r) hash ≡ true
    → includes (all_hashes records) hash ≡ true
all_hashes-includes [] r hash m h = absurd m
all_hashes-includes (x ∷ xs) r hash (inl e) h =
    any-append (λ t. t === hash) (hashes_of x) (all_hashes xs)
    ∙ ap (λ b. b || includes (all_hashes xs) hash)
        (subst (λ y. includes (hashes_of y) hash ≡ true) e h)
all_hashes-includes (x ∷ xs) r hash (inr m) h =
    any-append (λ t. t === hash) (hashes_of x) (all_hashes xs)
    ∙ or_true (includes (hashes_of x) hash) (includes (all_hashes xs) hash)
        (all_hashes-includes xs r hash m h)

-- The keys whose removal a revision would feel: its own, and those of its bodies.
abbrev pub hits : Text → List Text → HistoryKey → Bool
hits revision hashes (revision_key r) = r === revision
hits revision hashes (object_key h) = includes hashes h
hits revision hashes _ = false

module _ (compare_keys : HistoryKey → HistoryKey → Bool) (same_key : HistoryKey → HistoryKey → Bool)
    (time_of : Text → ℕ) (size_at : HistoryStore → HistoryKey → ℕ) (now : ℕ) (revision : Text)
    (hashes : List Text) where
  pub no_object :
      (retained : List Text) (listed : List Text)
      → ((h : Text) → includes hashes h ≡ true → includes retained h ≡ true)
      → any
          (hits revision hashes)
          (map object_key (keep (λ hash. not (includes retained hash)) listed))
        ≡ false
  no_object retained [] sub = refl
  no_object retained (h ∷ hs) sub =
      let rest = keep (λ hash. not (includes retained hash)) hs in
      kept_object h rest (not (includes retained h))
        (λ unused. elim (Bool-cases (includes hashes h)) [
          | inl e ↦ absurd (not_both unused (ap not (sub h e)))
          | inr e ↦ e
        ])
        (no_object retained hs sub)
    where
      kept_object :
          (h : Text) (rest : List Text) (kept : Bool)
          → (kept ≡ true → includes hashes h ≡ false)
          → any (hits revision hashes) (map object_key rest) ≡ false
          → any (hits revision hashes) (map object_key (if kept then h ∷ rest else rest)) ≡ false
      kept_object h rest true safe e =
          ap (λ b. b || any (hits revision hashes) (map object_key rest)) (safe refl) ∙ e
      kept_object h rest false safe e = e

  complete_misses :
      (found : Option CompleteRecord)
      → any (hits revision hashes) (key_of_complete compare_keys same_key time_of size_at now found)
        ≡ false
  complete_misses none = refl
  complete_misses (some c) =
      elim c.idempotency_key
        as (λ k.
          any (hits revision hashes) (elim k [ none ↦ [] | some key ↦ idempotency_key key ∷ [] ])
          ≡ false) [ none ↦ refl | some key ↦ refl ]

  pub transaction_misses :
      (s : HistoryStore) (records : List RevisionRecord)
      → any (λ (r : RevisionRecord). r.revision === revision) records ≡ false
      → any
          (hits revision hashes)
          (transaction_keys compare_keys same_key time_of size_at now s records)
        ≡ false
  transaction_misses s [] h = refl
  transaction_misses s (r ∷ rs) h =
      let (here, later) =
        ||-false (r.revision === revision)
          (any (λ (r : RevisionRecord). r.revision === revision) rs) h in
      ap
        (λ b.
          b
          || any (hits revision hashes) (
              key_of_complete compare_keys same_key time_of size_at now
                (get s.completes r.transaction_id)
              ++ transaction_keys compare_keys same_key time_of size_at now s rs))
        here
      ∙ any-append (hits revision hashes)
          (key_of_complete compare_keys same_key time_of size_at now
            (get s.completes r.transaction_id))
          (transaction_keys compare_keys same_key time_of size_at now s rs)
      ∙ ap₂ (λ a b. a || b) (complete_misses (get s.completes r.transaction_id))
          (transaction_misses s rs later)

  aborted_misses :
      (s : HistoryStore) (age : Option ℕ) (intents : Dict IntentRecord)
      → any
          (hits revision hashes)
          (aborted_keys compare_keys same_key time_of size_at now s age intents)
        ≡ false
  aborted_misses s age [] = refl
  aborted_misses s age ((place, intent) ∷ intents) =
      missed
        (has s.aborts place
          && is_older compare_keys same_key time_of size_at now age intent.created_at)
        (aborted_misses s age intents)
    where
      missed :
          (gone : Bool)
          → any
              (hits revision hashes)
              (aborted_keys compare_keys same_key time_of size_at now s age intents)
            ≡ false
          → any (hits revision hashes) (
              if gone
              then intent_key place
                ∷ abort_key intent.transaction_id
                ∷ aborted_keys compare_keys same_key time_of size_at now s age intents
              else aborted_keys compare_keys same_key time_of size_at now s age intents)
            ≡ false
      missed true e = e
      missed false e = e

  pub removable_misses :
      (s : HistoryStore) (age : Option ℕ)
      → any
          (hits revision hashes)
          (removable_aborted_transactions compare_keys same_key time_of size_at now s age)
        ≡ false
  removable_misses s none = refl
  removable_misses s (some age) = aborted_misses s (some age) s.intents

  any-keep :
      {A : Type 0} (p q : A → Bool) (xs : List A) → any p xs ≡ false → any p (keep q xs) ≡ false
  any-keep p q [] h = refl
  any-keep p q (x ∷ xs) h = ground (arith, any-keep p q xs)

  pub distinct_misses :
      (objects : List HistoryKey)
      → any (hits revision hashes) objects ≡ false
      → any (hits revision hashes) (distinct_keys compare_keys same_key time_of size_at now objects)
        ≡ false
  distinct_misses [] h = refl
  distinct_misses (key ∷ rest) h =
      let (here, later) = ||-false (hits revision hashes key) (any (hits revision hashes) rest) h in
      ap
        (λ b.
          b
          || any (hits revision hashes) (
              keep (λ other. not (same_key key other))
                (distinct_keys compare_keys same_key time_of size_at now rest)))
        here
      ∙ any-keep (hits revision hashes) (λ other. not (same_key key other))
          (distinct_keys compare_keys same_key time_of size_at now rest)
          (distinct_misses rest later)
