-- ===== src/History/Ancestry.antt =====
-- src/history/ancestry.ts: the records on the way from a head to the oldest revision.
pub mod Laws
pub mod Chain
use supabash_fs.Prelude.{
  Bool, List, Option, Result, SupabashError, Text, [], err, false, history_corruption, includes,
  none, ok, some, suc, supabash_error, true, zero, ℕ, ◌∷◌,
}
use supabash_fs.Prelude.Dict.{Dict, get, of_entries}
use supabash_fs.History.Snapshot.{by_path_pairs}

abbrev pub corruption : SupabashError
corruption = supabash_error history_corruption none

-- A loop on fuel: `none` if the fuel ran out.
abbrev pub Fueled : Type 0 → Type 0
Fueled A = Option (Result A)

abbrev pub prepend : {A : Type 0} → A → Fueled (List A) → Fueled (List A)
prepend x none = none
prepend x (some (err e)) = some (err e)
prepend x (some (ok xs)) = some (ok (x ∷ xs))

-- `parent ?? null`: without a stored link the chain ends.
abbrev pub parent_of_link : Option (Option Text) → Option Text
parent_of_link none = none
parent_of_link (some parent) = parent

-- What has a revision and its parent; and the stored link of a purged revision, if there is one.
module _ {T : Type 0} (revision : T → Text) (parent : T → Option Text)
    (link : Text → Result (Option (Option Text))) where
  abbrev pub by_revision : List T → Dict T
  by_revision records = of_entries [] (by_path_pairs revision records)

  -- The body of the loop: whether the revision was seen, its record, and its stored link, which is
  -- read only when there is no record.
  abbrev pub chain_step :
      (Option Text → Fueled (List T))
      → Bool
      → Option T
      → Result (Option (Option Text))
      → Fueled (List T)
  chain_step rest true found stored = some (err corruption)
  chain_step rest false (some record_found) stored =
      prepend record_found (rest (parent record_found))
  chain_step rest false none (err e) = some (err e)
  chain_step rest false none (ok stored) = rest (parent_of_link stored)

  -- The loop, with the revisions already seen.
  unfoldable pub chain_from : Dict T → ℕ → List Text → Option Text → Fueled (List T)
  chain_from records fuel seen none = some (ok [])
  chain_from records zero seen (some r) = none
  chain_from records (suc n) seen (some r) =
      chain_step (chain_from records n (r ∷ seen)) (includes seen r) (get records r) (link r)

  unfoldable pub retained_chain : ℕ → List T → Option Text → Fueled (List T)
  retained_chain fuel records head = chain_from (by_revision records) fuel [] head
