-- ===== src/Core/Entries.antt =====
-- src/core/storage.ts and src/core/entry-order.ts: stored entries, staged changes and their order.
-- Dates are milliseconds; bodies are lists of bytes. `compare_paths` is the host's English collation.
use supabash_fs.Prelude.{Bool, List, Option, Ordering, Text, compare, false, sort, true, ℕ}

abbrev pub Bytes : Type 0
Bytes = List ℕ

pub data WorkspaceEntryKind : Type 0 where
  directory file symlink : WorkspaceEntryKind

pub record RemoteEntry : Type 0 where
  pub content_hash : Option Text
  pub content_type : Option Text
  pub etag : Option Text
  pub kind : WorkspaceEntryKind
  pub mode : ℕ
  pub modified_at : ℕ
  pub path : Text
  pub size : ℕ
  pub target : Option Text
  pub version_hash : Option Text

pub record UploadDraft : Type 0 where
  pub body : Option Bytes
  pub content_hash : Option Text
  pub content_type : Option Text
  pub kind : WorkspaceEntryKind
  pub mode : ℕ
  pub modified_at : ℕ
  pub path : Text
  pub target : Option Text

pub record UploadEntry : Type 0 where
  pub draft : UploadDraft
  pub open draft use *
  pub version_hash : Text

pub record PendingMove : Type 0 where
  pub from : Text
  pub to : Text

pub record PendingChanges : Type 0 where
  pub deletions : List RemoteEntry
  pub moves : List PendingMove
  pub upserts : List Text

abbrev pub same_kind : WorkspaceEntryKind → WorkspaceEntryKind → Bool
same_kind directory directory = true
same_kind file file = true
same_kind symlink symlink = true
same_kind _ _ = false

-- `ENTRY_ORDER`
abbrev pub entry_order : WorkspaceEntryKind → ℕ
entry_order directory = 0
entry_order file = 1
entry_order symlink = 2

-- A comparator's result is at most 0.
abbrev pub at_most : Ordering → Bool
at_most Ordering.gt = false
at_most _ = true

module _ (compare_paths : Text → Text → Ordering) where
  unfoldable pub sort_by_path {ℓ} : {A : Type ℓ} → (A → Text) → List A → List A
  sort_by_path path xs = sort (λ a b. at_most (compare_paths (path a) (path b))) xs

  -- Directories first, then files, then links; by path within a kind.
  abbrev pub by_kind : RemoteEntry → RemoteEntry → Bool
  by_kind a b = elim (compare (entry_order a.kind) (entry_order b.kind)) [
    | Ordering.eq ↦ at_most (compare_paths a.path b.path)
    | order ↦ at_most order
  ]

  unfoldable pub order_remote_entries : List RemoteEntry → List RemoteEntry
  order_remote_entries entries = sort by_kind entries
