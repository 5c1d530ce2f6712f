-- ===== src/Lib.antt =====
-- Verification of supabash-fs: workspaces of files that are kept in object storage, changed through an
-- in-memory tree, and committed with a history.
--
-- The parts, and the files that model them:
-- - Core/Path: virtual paths (src/core/path.ts). Core/RuntimePaths: paths that the shell owns
--   (src/core/runtime-paths.ts). Core/Entries: stored entries, staged changes and their order
--   (src/core/storage.ts, src/core/entry-order.ts).
-- - Core/Tracked: the file system that records what changed (src/core/tracked-file-system.ts,
--   tracked-inspection.ts, tracked-restore.ts). State has its fields but the tree, and `recordUpsert`,
--   `recordDeletion`, `recordMove`; Operations the mutating methods; Pending the view of what is staged;
--   Restore the rebuilding of the tree; Commit `reset`, `stageRemoteTree` and the commit gate. Invariant,
--   Calls, Staging, Refresh and Resets hold the proofs.
-- - Core/Changes: the changes that a commit reports (src/core/workspace-changes.ts). Core/Uploads: what a
--   commit uploads (src/core/workspace.ts). Core/Workspace: `commit` and `discard` of
--   `StorageSupabaseWorkspace` (src/core/workspace.ts), on the tracked file system and the history.
-- - History: the records (src/history/records.ts), Quota (quota.ts, limits.ts), Snapshot and Bodies
--   (snapshot.ts), Ancestry (`retainedChain`), Query (`readHistoryPage`), Checkpoints (checkpoint.ts),
--   Publish, Receipts and Lease (publish.ts), Recovery (`recoverPublishedHead` of recover.ts) and Repair
--   (the rest of recover.ts), Preview (preview.ts), Diff (diff.ts), Views (readonly.ts, restore.ts) and
--   Purge (purge.ts), on the Store of records and the Storage of visible entries.
-- - Capability: Claims (src/capability/claims.ts), Jws (jws.ts), Verify (verify.ts), Guard (guard.ts).
-- - Mounts: Compose (src/mounts/compose.ts: the admission of mounts, and which one a path is in) and Guard
--   (guard.ts). View: the view of a file system from one of its directories (src/core/filesystem-view.ts).
-- - Policy: Types (src/policy/types.ts), Commands (commands.ts), Segments (segments.ts: the flags and
--   arguments of a command), Paths (paths.ts: the path that a word names), Compression (compression.ts),
--   Options and Arguments (command-paths.ts), Checks (checks.ts), Unwrap and Rules (rules.ts: wrappers,
--   nested shells, `find -exec`, and the verdict) and Inspect (inspect.ts).
--   Rules/Runs says what the words of a command run, and Checks/Given which are given as paths.
-- - Prelude: texts as lists of UTF-16 units, arrays, maps in insertion order, thrown errors as values, and
--   methods that change an object and may throw (Exec). Tests: examples.
--
-- How they meet: a workspace loads stored entries into a tracked file system, whose pending changes become
-- the uploads and deletions of a commit; the commit checks the quotas, writes an intent, the stored
-- entries, a revision, a completion, an idempotency record and last the head; the history queries read
-- these. A commit that stops is undone by the next recovery, which restores the visible entries. A purge
-- removes what no head, checkpoint or retention rule keeps. Capabilities guard the methods of a workspace,
-- and mounts compose several into one tree. All of these name files by normalised virtual paths.
--
-- Parameters stand for what the sources call and do not define: the in-memory tree of just-bash
-- (`InMemoryFs`), downloads, SHA-256, the English collation, WebCrypto with base64url, the nonce store,
-- the lease, the storage service (`ScopedStorage`, with its laws in `KeepsTree`), UTF-8 coding, content
-- types, version hashes, the reads of the tree that a commit makes (`FileReads`), the parser of commands,
-- the file system that the policy looks at, and the one that a view or a mount stands on. A promise is its
-- outcome; a download that is deferred is its later result. Of an error its code, path and issue are kept.
-- Methods run one after the other. A typed store stands for JSON under keys: what is written is read
-- again, and each write may fail, before or after it is made. Stored entries are under normalised paths,
-- by which `KeepsTree` tells them apart.
--
-- Fuel: the walk over the ancestry has fuel, because its records may be cyclic; two rounds more than there
-- are revisions with a record or a stored link are enough. So has the search for the newest descendant,
-- which does not end on a cycle. A view that looks for the nearest existing parent has one round more than
-- its path has characters, which is enough for a canonical one. Everything else is structural recursion.
--
-- Nested shells are inspected to a depth of four: the levels that are left are the recursion.
--
-- Not modelled: the creation of a workspace and its methods that pass a call on, patches, the syntax tree
-- of the command policy, the text tree, the Postgres backend and its SQL, the AI tools, and the parsing of
-- stored JSON. The patch parser is a copy of another project's.
pub mod Prelude
pub mod Core
pub mod History
pub mod Capability
pub mod Tests
pub mod Mounts
pub mod Policy
