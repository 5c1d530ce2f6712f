-- ===== src/History/Quota.antt =====
-- src/history/quota.ts and limits.ts: what a commit, a history page and a purge may ask for.
pub mod Laws
use supabash_fs.Prelude.Json.{Number, natural, negative, unsafe}
use supabash_fs.Prelude.{
  Bool, List, Option, Result, SupabashError, Text, [], err, false, if◌then◌else◌, leb, length, ltb,
  map, min, none, not, ok, or_else, quota_exceeded, some, supabash_error, throw_if, true, ℕ, ◌&&◌,
  ◌++◌, ◌+◌, ◌>>=◌, ◌>>◌, ◌∷◌,
}
use supabash_fs.Core.Entries.{UploadEntry}

-- The limits as a caller writes them.
pub record LimitOptions : Type 0 where
  pub max_diff_preview_bytes : Option Number
  pub max_file_size : Option Number
  pub max_history_page_size : Option Number
  pub max_path_length : Option Number
  pub max_staged_bytes : Option Number
  pub max_transaction_metadata_bytes : Option Number
  pub max_visible_files : Option Number

-- The limits that `assertWorkspaceLimits` has passed.
pub record WorkspaceLimits : Type 0 where
  pub max_diff_preview_bytes : Option ℕ
  pub max_file_size : Option ℕ
  pub max_history_page_size : Option ℕ
  pub max_path_length : Option ℕ
  pub max_staged_bytes : Option ℕ
  pub max_transaction_metadata_bytes : Option ℕ
  pub max_visible_files : Option ℕ

abbrev pub default_max_visible_files : ℕ
default_max_visible_files = 10_000

abbrev pub default_max_path_length : ℕ
default_max_path_length = 1024

abbrev pub default_max_file_size : ℕ
default_max_file_size = 10_485_760

abbrev pub default_max_staged_bytes : ℕ
default_max_staged_bytes = 52_428_800

abbrev pub default_max_history_page_size : ℕ
default_max_history_page_size = 100

abbrev pub default_max_diff_preview_bytes : ℕ
default_max_diff_preview_bytes = 8192

abbrev pub default_max_transaction_metadata_bytes : ℕ
default_max_transaction_metadata_bytes = 16_384

abbrev pub default_max_revisions_retained : ℕ
default_max_revisions_retained = 50

abbrev pub quota : Option Text → SupabashError
quota path = supabash_error quota_exceeded path

-- `Number.isSafeInteger(value) && value >= least`
abbrev pub is_natural : ℕ → Number → Bool
is_natural least (natural n) = leb least n
is_natural least (negative n) = false
is_natural least unsafe = false

abbrev pub allowed : ℕ → Option Number → Bool
allowed least none = true
allowed least (some value) = is_natural least value

unfoldable pub assert_workspace_limits : LimitOptions → Result (Unit {0})
assert_workspace_limits l = do
  throw_if (not (allowed 0 l.max_diff_preview_bytes)) (quota none)
  throw_if (not (allowed 0 l.max_file_size)) (quota none)
  throw_if (not (allowed 1 l.max_history_page_size)) (quota none)
  throw_if (not (allowed 0 l.max_path_length)) (quota none)
  throw_if (not (allowed 0 l.max_staged_bytes)) (quota none)
  throw_if (not (allowed 0 l.max_transaction_metadata_bytes)) (quota none)
  throw_if (not (allowed 0 l.max_visible_files)) (quota none)

-- `upload.body?.byteLength ?? 0`
abbrev pub body_size : UploadEntry → ℕ
body_size upload = elim upload.body [ none ↦ 0 | some body ↦ length body ]

-- The loop over the paths of the uploads and the deletions.
unfoldable pub assert_paths : ℕ → List Text → Result (Unit {0})
assert_paths max_path [] = ok tt
assert_paths max_path (path ∷ paths) = do
  throw_if (ltb max_path (length path)) (quota (some path))
  assert_paths max_path paths

-- The loop over the uploads: the staged bytes.
unfoldable pub staged_bytes : ℕ → ℕ → List UploadEntry → Result ℕ
staged_bytes max_file staged [] = ok staged
staged_bytes max_file staged (upload ∷ uploads) = do
  throw_if (ltb max_file (body_size upload)) (quota (some upload.path))
  staged_bytes max_file (staged + body_size upload) uploads

-- `metadata` is the size of the commit's metadata as JSON in UTF-8.
unfoldable pub assert_commit_quotas :
    List UploadEntry → List Text → ℕ → Option ℕ → WorkspaceLimits → Result (Unit {0})
assert_commit_quotas uploads deletions visible_count metadata limits = do
  throw_if (ltb (or_else limits.max_visible_files default_max_visible_files) visible_count)
      (quota none)
  assert_paths (or_else limits.max_path_length default_max_path_length)
      (map (λ (u : UploadEntry). u.path) uploads ++ deletions)
  staged ← staged_bytes (or_else limits.max_file_size default_max_file_size) 0 uploads
  throw_if (ltb (or_else limits.max_staged_bytes default_max_staged_bytes) staged) (quota none)
  throw_if
      (elim metadata [
        | none ↦ false
        | some size ↦
            ltb
              (or_else limits.max_transaction_metadata_bytes default_max_transaction_metadata_bytes)
              size
      ])
      (quota none)

-- What `historyPageLimit` and `diffPreviewLimit` share.
abbrev pub within_limit : ℕ → ℕ → Option Number → Result ℕ
within_limit least most none = if leb least most then ok most else err (quota none)
within_limit least most (some (natural n)) =
    if leb least n && leb n most then ok n else err (quota none)
within_limit least most (some _) = err (quota none)

unfoldable pub history_page_limit : Option Number → WorkspaceLimits → Result ℕ
history_page_limit requested limits =
    within_limit 1
      (min (or_else limits.max_history_page_size default_max_history_page_size)
        default_max_history_page_size)
      requested

unfoldable pub diff_preview_limit : Option Number → WorkspaceLimits → Result ℕ
diff_preview_limit requested limits =
    within_limit 0
      (min (or_else limits.max_diff_preview_bytes default_max_diff_preview_bytes)
        default_max_diff_preview_bytes)
      requested

pub record PurgeOptions : Type 0 where
  pub max_age_ms : Option Number
  pub max_revisions : Option Number

-- The options with the number of revisions to keep.
unfoldable pub normalize_purge_options : PurgeOptions → Result (PurgeOptions × ℕ)
normalize_purge_options options =
    elim (or_else options.max_revisions (natural default_max_revisions_retained)) [
      | natural n ↦ if allowed 0 options.max_age_ms then ok (options, n) else err (quota none)
      | _ ↦ err (quota none)
    ]

-- No limit given: `{}`
abbrev pub no_limits : WorkspaceLimits
no_limits = record {
  max_diff_preview_bytes = none;
  max_file_size = none;
  max_history_page_size = none;
  max_path_length = none;
  max_staged_bytes = none;
  max_transaction_metadata_bytes = none;
  max_visible_files = none;
}
