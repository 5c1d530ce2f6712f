-- ===== src/History/Storage.antt =====
-- The storage of a workspace (src/core/storage.ts): a service outside the sources that keeps the
-- visible entries, with the history beside it.
use supabash_fs.Prelude.Dict.{Dict, get, of_entries}
use supabash_fs.History.Snapshot.{by_path_pairs}
use supabash_fs.Prelude.{
  Bool, List, Option, Text, [], any, false, is_some, none, ok, some, true, ◌===◌, ◌≡◌,
}
use supabash_fs.Prelude.Exec.{Exec}
use supabash_fs.Core.Entries.{Bytes, RemoteEntry, UploadEntry}
use supabash_fs.History.Store.{World}

-- `ScopedStorage`, over the states `V` of the service
pub record ScopedStorage (V : Type 0) : Type 0 where
  pub delete : List RemoteEntry → Exec V (Unit {0})
  pub download : RemoteEntry → Exec V Bytes
  pub head : Text → Exec V (Option RemoteEntry)
  pub list : Exec V (List RemoteEntry)
  pub upload : UploadEntry → Exec V RemoteEntry

pub record Scoped (V : Type 0) : Type 0 where
  pub visible : V
  pub world : World

module _ {V A : Type 0} where
  unfoldable pub on_visible : Exec V A → Exec (Scoped V) A
  on_visible m s = let (r, v) = m s.visible in (r, record s { visible = v })

  unfoldable pub on_history : Exec World A → Exec (Scoped V) A
  on_history m s = let (r, w) = m s.world in (r, record s { world = w })

-- `new Map(entries.map((entry) => [entry.path, entry]))`
abbrev pub entries_by_path : List RemoteEntry → Dict RemoteEntry
entries_by_path entries = of_entries [] (by_path_pairs (λ (e : RemoteEntry). e.path) entries)

abbrev pub lists_path : List RemoteEntry → Text → Bool
lists_path entries path = any (λ (e : RemoteEntry). e.path === path) entries

-- What a service keeps of the workspace, by path, and what its operations do to it when they return.
-- An upload that throws may have changed its own path, a deletion the paths it was given. The paths are
-- normalised, as the service's keys are.
pub record KeepsTree (V : Type 0) (storage : ScopedStorage V) (tree : V → Text → Option RemoteEntry)
    : Type 0 where
  pub list_reads : (v : V) (p : Text) → tree (storage.list v).1 p ≡ tree v p
  pub list_finds :
      (v : V) (entries : List RemoteEntry)
      → (storage.list v).0 ≡ ok entries
      → (p : Text) → get (entries_by_path entries) p ≡ tree v p
  pub list_paths :
      (v : V) (entries : List RemoteEntry)
      → (storage.list v).0 ≡ ok entries
      → (p : Text) → lists_path entries p ≡ is_some (tree v p)
  pub upload_other :
      (v : V) (u : UploadEntry) (p : Text)
      → (u.path === p) ≡ false
      → tree (storage.upload u v).1 p ≡ tree v p
  pub upload_stored :
      (v : V) (u : UploadEntry) (r : RemoteEntry)
      → (storage.upload u v).0 ≡ ok r
      → (tree (storage.upload u v).1 u.path ≡ some r)
        × (r.kind ≡ u.kind)
        × (r.mode ≡ u.mode)
        × (r.content_hash ≡ u.content_hash)
        × (r.target ≡ u.target)
  pub delete_other :
      (v : V) (entries : List RemoteEntry) (p : Text)
      → lists_path entries p ≡ false
      → tree (storage.delete entries v).1 p ≡ tree v p
  pub delete_removed :
      (v : V) (entries : List RemoteEntry) (p : Text)
      → (storage.delete entries v).0 ≡ ok tt
      → lists_path entries p ≡ true
      → tree (storage.delete entries v).1 p ≡ none
