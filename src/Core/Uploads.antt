-- ===== src/Core/Uploads.antt =====
-- What a commit uploads and audits: `uploadDraftFor` and `entryForAudit` of
-- src/core/tracked-inspection.ts, and `prepareUpload`, `remoteAsRevision` and `resolvedCommitContext` of
-- src/core/workspace-changes.ts.
use supabash_fs.Prelude.{
  Option, Result, Text, [], err, if◌then◌else◌, invalid_path, none, ok, or_else, some,
  supabash_error, text, ℕ, ◌===◌,
}
use supabash_fs.Prelude.Dict.{get}
use supabash_fs.Prelude.Json.{Fields, Json, field, none_left, string}
use supabash_fs.Prelude.Exec.{lift, pure, reads, ◌>>=◌}
use supabash_fs.Core.Path.{normalize_virtual_path}
use supabash_fs.Core.Entries.{
  Bytes, RemoteEntry, UploadDraft, UploadEntry, WorkspaceEntryKind, directory, file, symlink,
}
use supabash_fs.Core.Tracked.Operations.{Action, Host, hash_for_remote}
use supabash_fs.History.Records.{RevisionEntry}
use supabash_fs.History.Publish.{CommitContext}

-- What else just-bash's tree tells of a path
pub record FileReads (F : Type 0) : Type 0 where
  pub modified_of : Text → F → Result ℕ
  pub target_of : Text → F → Result Text

abbrev pub drafted : WorkspaceEntryKind → ℕ → ℕ → Text → Option Bytes → Option Text → UploadDraft
drafted kind mode modified path body target = record {
  body = body;
  content_hash = none;
  content_type = none;
  kind = kind;
  mode = mode;
  modified_at = modified;
  path = path;
  target = target;
}

module _ {F : Type 0} (host : Host F) (more : FileReads F) where
  abbrev pub from_files : {A : Type 0} → (F → Result A) → Action F A
  from_files f = reads (λ s. f s.inner)

  abbrev pub draft_of_kind : Text → ℕ → ℕ → WorkspaceEntryKind → Action F UploadDraft
  draft_of_kind path mode modified directory = pure (drafted directory mode modified path none none)
  draft_of_kind path mode modified file = do
    body ← from_files (host.fs.read_file_buffer path)
    pure (drafted file mode modified path (some body) none)
  draft_of_kind path mode modified symlink = do
    target ← from_files (more.target_of path)
    pure (drafted symlink mode modified path none (some target))

  abbrev pub kind_at : Text → Option WorkspaceEntryKind → Result WorkspaceEntryKind
  kind_at path none = err (supabash_error invalid_path (some path))
  kind_at path (some kind) = ok kind

  unfoldable pub upload_draft_for : Text → Action F UploadDraft
  upload_draft_for path = do
    normalized ← lift (normalize_virtual_path path)
    kind ← reads (λ s. kind_at path (get s.kinds normalized))
    mode ← from_files (host.fs.mode_of normalized)
    modified ← from_files (more.modified_of normalized)
    draft_of_kind normalized mode modified kind

module _ {F : Type 0} (host : Host F) (utf8 : Text → Bytes) where
  abbrev pub with_hash : RemoteEntry → Text → RemoteEntry
  with_hash entry hash = record entry { content_hash = some hash }

  abbrev pub audited : RemoteEntry → WorkspaceEntryKind → Action F RemoteEntry
  audited entry directory = pure entry
  audited entry symlink = pure (with_hash entry (host.sha256 (utf8 (or_else entry.target []))))
  audited entry file = do hash ← hash_for_remote host entry; pure (with_hash entry hash)

  abbrev pub unless_hashed : RemoteEntry → Option Text → Action F RemoteEntry
  unless_hashed entry (some hash) = pure entry
  unless_hashed entry none = audited entry entry.kind

  unfoldable pub entry_for_audit : RemoteEntry → Action F RemoteEntry
  entry_for_audit entry = unless_hashed entry entry.content_hash

-- `version_of` is the hash of the JSON text of a version, `content_type_for` the function of
-- src/core/content-type.ts.
module _ (sha256 : Bytes → Text) (utf8 : Text → Bytes) (version_of : UploadDraft → Text → Text)
    (content_type_for : Text → Text) where
  unfoldable pub content_hash_for : UploadDraft → Text
  content_hash_for draft = sha256 (or_else draft.body (utf8 (or_else draft.target [])))

  unfoldable pub prepare_upload : UploadDraft → UploadEntry
  prepare_upload draft = record {
    draft = record draft {
      content_hash = some (content_hash_for draft);
      content_type = some (or_else draft.content_type (content_type_for draft.path));
    };
    version_hash = version_of draft (content_hash_for draft);
  }

abbrev pub remote_as_revision : RemoteEntry → RevisionEntry
remote_as_revision entry = record {
  content_hash = entry.content_hash;
  entry_kind = entry.kind;
  etag = entry.etag;
  mode = entry.mode;
  path = entry.path;
  size = entry.size;
  target = entry.target;
}

-- `{ ...metadata, sourceRevision }`: the key keeps its place if it is there.
abbrev pub with_field : Text → Json → Fields → Fields
with_field key value none_left = field key value none_left
with_field key value (field name old rest) =
    let later = field name old (with_field key value rest) in
    if name === key then field name value rest else later

abbrev pub with_source : Option Text → CommitContext → CommitContext
with_source none context = context
with_source (some revision) context = record context {
  metadata =
      some
        (with_field (text "sourceRevision") (string revision) (or_else context.metadata none_left));
}

-- A new correlation identifier is an argument.
unfoldable pub resolved_commit_context : Option CommitContext → Option Text → Text → CommitContext
resolved_commit_context context source fresh = with_source source (
    or_else context (record {
      actor = text "workspace";
      cause = none;
      correlation_id = fresh;
      idempotency_key = none;
      metadata = none;
    }))
