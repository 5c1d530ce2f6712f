-- ===== src/History/Quota/Laws.antt =====
-- What passes the quotas of src/history/quota.ts, exactly.
use supabash_fs.Prelude.Json.{Number, natural, negative, unsafe}
use supabash_fs.Prelude.{
  >>=-eq-ok, All, List, Option, Text, [], arith, length, ltb, map, none, ok, or_else, refl, some,
  throw_if, ℕ, ◌++◌, ◌+◌, ◌↔◌, ◌∷◌, ◌≡◌, ◌≤◌, ◌⊎◌,
}
use supabash_fs.Core.Entries.{UploadEntry}
use supabash_fs.History.Quota.{
  WorkspaceLimits, assert_commit_quotas, assert_paths, body_size, default_max_file_size,
  default_max_history_page_size, default_max_path_length, default_max_staged_bytes,
  default_max_transaction_metadata_bytes, default_max_visible_files, history_page_limit, quota,
  staged_bytes,
}

assert_paths_iff :
    (most : ℕ) (paths : List Text)
    → (assert_paths most paths ≡ ok tt) ↔ All (λ p. length p ≤ most) paths
unfolding assert_paths
assert_paths_iff most [] = (λ _. tt, λ _. refl)
assert_paths_iff most (p ∷ paths) = ground (arith, assert_paths_iff most paths)

pub total : List UploadEntry → ℕ
total [] = 0
total (u ∷ us) = body_size u + total us

staged_bytes_iff :
    (most staged sum : ℕ) (uploads : List UploadEntry)
    → (staged_bytes most staged uploads ≡ ok sum)
      ↔ (All (λ u. body_size u ≤ most) uploads × (sum ≡ staged + total uploads))
unfolding staged_bytes total
staged_bytes_iff most staged sum [] = ground arith
staged_bytes_iff most staged sum (u ∷ us) =
    ground (arith, staged_bytes_iff most (staged + body_size u) sum us)

-- A commit with metadata passes the quotas exactly when the visible files, every uploaded and deleted
-- path, every uploaded body, the bodies together and the metadata are within their limits.
pub assert_commit_quotas_iff :
    (uploads : List UploadEntry) (deletions : List Text) (visible size : ℕ)
    (limits : WorkspaceLimits)
    → (assert_commit_quotas uploads deletions visible (some size) limits ≡ ok tt) ↔ (
        (visible ≤ or_else limits.max_visible_files default_max_visible_files)
        × All
            (λ p. length p ≤ or_else limits.max_path_length default_max_path_length)
            (map (λ (u : UploadEntry). u.path) uploads ++ deletions)
        × All (λ u. body_size u ≤ or_else limits.max_file_size default_max_file_size) uploads
        × (total uploads ≤ or_else limits.max_staged_bytes default_max_staged_bytes)
        × (size
            ≤ or_else limits.max_transaction_metadata_bytes default_max_transaction_metadata_bytes))
unfolding assert_commit_quotas
assert_commit_quotas_iff uploads deletions visible size limits =
    let paths = map (λ (u : UploadEntry). u.path) uploads ++ deletions in
    let files = or_else limits.max_visible_files default_max_visible_files in
    let longest = or_else limits.max_path_length default_max_path_length in
    let largest = or_else limits.max_file_size default_max_file_size in
    (
      λ e.
          let (_, a, e1) = >>=-eq-ok (throw_if (ltb files visible) (quota none)) _ e in
          let (_, b, e2) = >>=-eq-ok (assert_paths longest paths) _ e1 in
          let (staged, c, e3) = >>=-eq-ok (staged_bytes largest 0 uploads) _ e2 in
          let (sizes, sum) = (staged_bytes_iff largest 0 staged uploads).0 c in
          (ground arith, (assert_paths_iff longest paths).0 b, sizes, ground arith, ground arith),
      λ h.
          let b = (assert_paths_iff longest paths).1 h.1 in
          let c = (staged_bytes_iff largest 0 (total uploads) uploads).1 (h.2, omega arith) in
          rw (b, c) (ground arith),
    )

-- A page limit that is accepted is at least 1, at most 100 and at most the configured limit, and it is
-- the one requested, if one is.
pub history_page_limit_bounds :
    (requested : Option Number) (limits : WorkspaceLimits) {n : ℕ}
    → history_page_limit requested limits ≡ ok n
    → (1 ≤ n)
      × (n ≤ 100)
      × (n ≤ or_else limits.max_history_page_size default_max_history_page_size)
      × ((requested ≡ some (natural n)) ⊎ (requested ≡ none))
unfolding history_page_limit
history_page_limit_bounds none limits h = ground arith
history_page_limit_bounds (some (natural n)) limits h = ground arith
history_page_limit_bounds (some (negative n)) limits h = cc
history_page_limit_bounds (some unsafe) limits h = cc
