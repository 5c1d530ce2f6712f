-- ===== src/History/Ancestry/Chain.antt =====
-- What the walk of src/history/ancestry.ts returns follows the parents from the head.
use supabash_fs.Prelude.{
  ===_iff, All, Bool, List, Option, Result, Text, [], arith, err, false, includes, map, none, ok,
  ok_inj, refl, some, some_inj, subst, suc, sym, true, zero, ℕ, ◌∷◌, ◌≡◌,
}
use supabash_fs.Prelude.Dict.{get}
use supabash_fs.History.Snapshot.Laws.{get-Keyed, get-of_entries, last_at, of_entries-Keyed}
use supabash_fs.History.Ancestry.{
  Fueled, by_revision, chain_from, chain_step, parent_of_link, prepend, retained_chain,
}
use supabash_fs.History.Ancestry.Laws.{Distinct}

module _ {T : Type 0} (revision : T → Text) (parent : T → Option Text)
    (link : Text → Result (Option (Option Text))) where
  -- The records on the way from a revision to the end: of a revision that the history lists the record
  -- listed last, and then those from its parent; of another one, those from the parent that its stored
  -- link names. Without a parent the way ends.
  pub data Follows (records : List T) : Option Text → List T → Type 0 where
    ended : Follows records none []
    listed :
        (r : Text) (x : T) (xs : List T)
        → last_at revision none records r ≡ some x
        → Follows records (parent x) xs
        → Follows records (some r) (x ∷ xs)
    purged :
        (r : Text) (stored : Option (Option Text)) (xs : List T)
        → last_at revision none records r ≡ none
        → link r ≡ ok stored
        → Follows records (parent_of_link stored) xs
        → Follows records (some r) xs

  -- The whole way from a head, which meets no revision twice and none that was seen before.
  pub record IsChain (records : List T) (seen : List Text) (head : Option Text) (xs : List T)
      : Type 0 where
    pub follows : Follows records head xs
    pub distinct : Distinct (map revision xs)
    pub fresh : All (λ x. includes seen (revision x) ≡ false) xs

  fresh-weaken :
      (r : Text) (seen : List Text) (xs : List T)
      → All (λ x. includes (r ∷ seen) (revision x) ≡ false) xs
      → All (λ x. includes seen (revision x) ≡ false) xs
  fresh-weaken r seen [] h = tt
  fresh-weaken r seen (x ∷ xs) (p, h) = (ground arith, fresh-weaken r seen xs h)

  fresh-head :
      (r : Text) (seen : List Text) (xs : List T)
      → All (λ x. includes (r ∷ seen) (revision x) ≡ false) xs
      → includes (map revision xs) r ≡ false
  fresh-head r seen [] h = refl
  fresh-head r seen (x ∷ xs) (p, h) =
      ground (arith, fresh-head r seen xs h, ===_iff r (revision x), ===_iff (revision x) r)

  IsChain-purged :
      (records : List T) (r : Text) (seen : List Text) (stored : Option (Option Text)) (xs : List T)
      → last_at revision none records r ≡ none
      → link r ≡ ok stored
      → IsChain records (r ∷ seen) (parent_of_link stored) xs
      → IsChain records seen (some r) xs
  IsChain-purged records r seen stored xs g l c = record {
    follows = purged r stored xs g l c.follows;
    distinct = c.distinct;
    fresh = fresh-weaken r seen xs c.fresh;
  }

  IsChain-listed :
      (records : List T) (x : T) (seen : List Text) (xs : List T)
      → includes seen (revision x) ≡ false
      → last_at revision none records (revision x) ≡ some x
      → IsChain records (revision x ∷ seen) (parent x) xs
      → IsChain records seen (some (revision x)) (x ∷ xs)
  IsChain-listed records x seen xs s g c = record {
    follows = listed (revision x) x xs g c.follows;
    distinct = (fresh-head (revision x) seen xs c.fresh, c.distinct);
    fresh = (s, fresh-weaken (revision x) seen xs c.fresh);
  }

  prepend-eq-ok :
      (x : T) (r : Fueled (List T)) {xs : List T}
      → prepend x r ≡ some (ok xs)
      → (ys : List T) × (r ≡ some (ok ys)) × (xs ≡ x ∷ ys)
  prepend-eq-ok x none e = cc
  prepend-eq-ok x (some (err _)) e = cc
  prepend-eq-ok x (some (ok ys)) e = (ys, refl, cc)

  step-IsChain :
      (records : List T) (rest : Option Text → Fueled (List T)) (seen : List Text) (r : Text)
      (b : Bool) (found : Option T) (stored : Result (Option (Option Text))) {xs : List T}
      → includes seen r ≡ b
      → last_at revision none records r ≡ found
      → link r ≡ stored
      → ((x : T) → found ≡ some x → revision x ≡ r)
      → ((o : Option Text) (ys : List T) → rest o ≡ some (ok ys) → IsChain records (r ∷ seen) o ys)
      → chain_step revision parent link rest b found stored ≡ some (ok xs)
      → IsChain records seen (some r) xs
  step-IsChain records rest seen r true found stored s g l k h e = cc
  step-IsChain records rest seen r false (some x) stored s g l k h e =
      let (ys, f, q) = prepend-eq-ok x (rest (parent x)) e in
      let p = k x refl in
      rw q (
        subst (λ t. IsChain records seen (some t) (x ∷ ys)) p
          (IsChain-listed records x seen ys (rw p s) (rw p g) (rw p (h (parent x) ys f))))
  step-IsChain records rest seen r false none (err _) s g l k h e = cc
  step-IsChain records rest seen r false none (ok stored) {xs} s g l k h e =
      IsChain-purged records r seen stored xs g l (h (parent_of_link stored) xs e)

  walk-IsChain :
      (records : List T) (n : ℕ) (seen : List Text) (head : Option Text) {xs : List T}
      → chain_from revision parent link (by_revision revision parent link records) n seen head
        ≡ some (ok xs)
      → IsChain records seen head xs
  unfolding chain_from get
  walk-IsChain records n seen none {xs} e =
      subst (IsChain records seen none) (ok_inj (some_inj e))
        (record { follows = ended; distinct = tt; fresh = tt })
  walk-IsChain records zero seen (some r) e = cc
  walk-IsChain records (suc n) seen (some r) e =
      let stored = by_revision revision parent link records in
      step-IsChain records (chain_from revision parent link stored n (r ∷ seen)) seen r
        (includes seen r) (get stored r) (link r) refl (sym (get-of_entries revision [] records r))
        refl (λ x q. get-Keyed revision stored r (of_entries-Keyed revision [] records tt) q)
        (λ o ys f. walk-IsChain records n (r ∷ seen) o f) e

  -- A chain that is returned is the whole way from the head over the parents, of each listed revision
  -- the record listed last and over purged ones by their stored links, and it meets no revision twice.
  pub retained_chain-IsChain :
      (fuel : ℕ) (records : List T) (head : Option Text) {xs : List T}
      → retained_chain revision parent link fuel records head ≡ some (ok xs)
      → IsChain records [] head xs
  unfolding retained_chain
  retained_chain-IsChain fuel records head e = walk-IsChain records fuel [] head e
