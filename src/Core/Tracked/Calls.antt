-- ===== src/Core/Tracked/Calls.antt =====
-- Every mutating method of `TrackedFileSystem` keeps the bookkeeping in order, and is refused while a
-- commit runs (src/core/tracked-file-system.ts).
use supabash_fs.Prelude.{
  ===_iff, Bool, Bool-cases, Option, Result, Text, arith, commit_in_progress, err, false,
  if◌then◌else◌, inl, inr, none, ok, refl, some, supabash_error, true, ℕ, ◌≡◌,
}
use supabash_fs.Prelude.Exec.{
  Exec, Keeps, keeps, modify, pure, pure-Keeps, throw-Keeps, ◌>>=◌, ◌>>◌,
}
use supabash_fs.Prelude.Dict.{get, get-delete, has}
use supabash_fs.Core.Entries.{Bytes, RemoteEntry, WorkspaceEntryKind, file}
use supabash_fs.Core.Tracked.State.{Tracking, record_deletion, record_upsert}
use supabash_fs.Core.Tracked.Operations
use supabash_fs.Core.Tracked.Operations.{
  Action, Host, TrackedFileSystem, assert_mutable, cached_hash, file_matches_baseline,
  hash_for_remote, matches_file, on_inner, reconcile_file, track_deletion, track_existing_upsert,
  track_move, track_upsert, tracked, unchanged, upsert_known, write_with,
}
use supabash_fs.Core.Tracked.Invariant.{
  IsTracked, includes-remove, record_deletion-IsTracked, record_move-IsTracked,
  record_upsert-IsTracked, record_upsert-live,
}

-- A call of a mutating method.
pub data Call : Type 0 where
  write_file append_file : Text → Bytes → Call
  mkdir : Text → Bool → Call
  rm : Text → Bool → Bool → Call
  cp : Text → Text → Bool → Call
  mv symlink link : Text → Text → Call
  chmod : Text → ℕ → Call
  utimes : Text → ℕ → ℕ → Call

module _ {F : Type 0} (host : Host F) where
  unfoldable pub run : Call → Action F (Unit {0})
  run (write_file path content) = Operations.write_file host path content
  run (append_file path content) = Operations.append_file host path content
  run (mkdir path recursive) = Operations.mkdir host path recursive
  run (rm path recursive force) = Operations.rm host path recursive force
  run (cp source destination recursive) = Operations.cp host source destination recursive
  run (mv source destination) = Operations.mv host source destination
  run (symlink target path) = Operations.symlink host target path
  run (link existing path) = Operations.link host existing path
  run (chmod path mode) = Operations.chmod host path mode
  run (utimes path atime mtime) = Operations.utimes host path atime mtime

  -- While a commit runs, every mutating method fails with `COMMIT_IN_PROGRESS` and changes nothing.
  pub run_locked :
      (call : Call) (s : TrackedFileSystem F)
      → s.commit_in_progress ≡ true
      → run call s ≡ (err (supabash_error commit_in_progress none), s)
  unfolding run assert_mutable ◌>>=◌ write_with Operations.mkdir Operations.rm Operations.cp
      Operations.mv Operations.symlink Operations.link Operations.chmod Operations.utimes
  run_locked (write_file path content) s h = simp h refl
  run_locked _ s h = simp h refl

abbrev pub InOrder : {F : Type 0} → Bool → TrackedFileSystem F → Type 0
InOrder exact s = IsTracked exact s.tracking

module _ {F : Type 0} {exact : Bool} where
  pub assert_mutable-Keeps : Keeps (InOrder exact) (assert_mutable {F = F})
  unfolding assert_mutable
  assert_mutable-Keeps = record {
    at = λ s v. elim (Bool-cases s.commit_in_progress) [ inl e ↦ simp e v | inr e ↦ simp e v ];
  }

  on_inner-Keeps : {A : Type 0} (m : Exec F A) → Keeps (InOrder exact) (on_inner {F = F} m)
  unfolding on_inner
  on_inner-Keeps m = record { at = λ s v. v }

  tracked-Keeps :
      (r : Result Tracking) (s : TrackedFileSystem F)
      → IsTracked exact s.tracking
      → ((t : Tracking) → r ≡ ok t → IsTracked exact t)
      → InOrder exact (tracked r s).1
  tracked-Keeps (ok t) s v h = h t refl
  tracked-Keeps (err e) s v h = v

  track_upsert-Keeps :
      (path : Text) (kind : WorkspaceEntryKind)
      → Keeps (InOrder exact) (track_upsert {F = F} path kind)
  unfolding track_upsert
  track_upsert-Keeps path kind = record {
    at = λ s v.
        tracked-Keeps (record_upsert path kind s.tracking) s v
          (λ t e. record_upsert-IsTracked path kind s.tracking v e);
  }

  track_deletion-Keeps : (path : Text) → Keeps (InOrder exact) (track_deletion {F = F} path)
  unfolding track_deletion
  track_deletion-Keeps path = record {
    at = λ s v.
        tracked-Keeps (record_deletion path s.tracking) s v
          (λ t e. record_deletion-IsTracked path s.tracking v e);
  }

  track_move-Keeps : (from to : Text) → Keeps (InOrder exact) (track_move {F = F} from to)
  unfolding track_move
  track_move-Keeps from to = record { at = λ s v. record_move-IsTracked from to s.tracking v }

  upsert_known-Keeps :
      (path : Text) (kind : Option WorkspaceEntryKind)
      → Keeps (InOrder exact) (upsert_known {F = F} path kind)
  upsert_known-Keeps path none = throw-Keeps _
  upsert_known-Keeps path (some kind) = track_upsert-Keeps path kind

  track_existing_upsert-Keeps :
      (path : Text) → Keeps (InOrder exact) (track_existing_upsert {F = F} path)
  unfolding track_existing_upsert
  track_existing_upsert-Keeps path = record {
    at = λ s v. (upsert_known-Keeps path (get s.kinds path)).at s v;
  }

-- In order, and the path is live.
abbrev IsLive : {F : Type 0} → Bool → Text → TrackedFileSystem F → Type 0
IsLive exact path s = IsTracked exact s.tracking × (has s.kinds path ≡ true)

unchanged-IsTracked :
    {F : Type 0} {exact : Bool} (host : Host F) (path : Text) (t : Tracking)
    → IsTracked exact t
    → has t.kinds path ≡ true
    → IsTracked exact (unchanged host path t)
unchanged-IsTracked host path t v live = record {
  stored = λ p r h. ground (arith, get-delete t.deletions path p, v.stored p r);
  apart = λ p h.
      ground (arith, get-delete t.deletions path p, includes-remove t.upserts path p, v.apart p);
  known = λ p h. ground (arith, includes-remove t.upserts path p, v.known p);
  covered = λ x p h. ground (arith, get-delete t.deletions path p, v.covered x p, ===_iff path p);
  sources = v.sources;
}

-- The end of `writeFile` and `appendFile`.
upsert_reconcile : {F : Type 0} → Host F → Text → Bool → Action F (Unit {0})
upsert_reconcile host path changed = do
  track_upsert path file
  if changed then reconcile_file host path else pure tt

module _ {F : Type 0} {exact : Bool} (host : Host F) (path : Text) where
  cached_hash-Keeps :
      (entry : RemoteEntry) (hash : Option (Result Text))
      → Keeps (IsLive exact path) (cached_hash host entry hash)
  cached_hash-Keeps entry (some existing) = record { at = λ s v. v }
  cached_hash-Keeps entry none = record {
    at = λ s v. (
      record {
        stored = v.0.stored;
        apart = v.0.apart;
        known = v.0.known;
        covered = v.0.covered;
        sources = v.0.sources;
      },
      v.1,
    );
  }

  hash_for_remote-Keeps :
      (entry : RemoteEntry) → Keeps (IsLive exact path) (hash_for_remote host entry)
  unfolding hash_for_remote
  hash_for_remote-Keeps entry = record {
    at = λ s v. (cached_hash-Keeps entry (get s.baseline_hashes entry.path)).at s v;
  }

  matches_file-Keeps : (entry : RemoteEntry) → Keeps (IsLive exact path) (matches_file host entry)
  unfolding matches_file
  matches_file-Keeps entry = search (keeps, hash_for_remote-Keeps) depth 9

  file_matches_baseline-Keeps :
      (entry : Option RemoteEntry) → Keeps (IsLive exact path) (file_matches_baseline host entry)
  unfolding file_matches_baseline
  file_matches_baseline-Keeps none = pure-Keeps false
  file_matches_baseline-Keeps (some entry) = search (keeps, matches_file-Keeps) depth 9

  unchanged-Keeps :
      Keeps (IsLive exact path) (
        modify
          (λ (s : TrackedFileSystem F). record s { tracking = unchanged host path s.tracking }))
  unfolding modify
  unchanged-Keeps = record { at = λ s v. (unchanged-IsTracked host path s.tracking v.0 v.1, v.1) }

  reconcile_file-Keeps : Keeps (IsLive exact path) (reconcile_file host path)
  unfolding reconcile_file
  reconcile_file-Keeps = search (keeps, file_matches_baseline-Keeps, unchanged-Keeps) depth 9

  after_upsert :
      (changed : Bool) (r : Result Tracking) (s : TrackedFileSystem F)
      → InOrder exact s
      → ((t : Tracking) → r ≡ ok t → IsTracked exact t × (has t.kinds path ≡ true))
      → InOrder exact
          ((tracked r >>= λ _. if changed then reconcile_file host path else pure tt) s).1
  unfolding ◌>>=◌
  after_upsert true (ok t) s v h =
      (reconcile_file-Keeps.at (record s { tracking = t }) (h t refl)).0
  after_upsert false (ok t) s v h = (h t refl).0
  after_upsert changed (err e) s v h = v

  upsert_reconcile-Keeps :
      (changed : Bool) → Keeps (InOrder exact) (upsert_reconcile host path changed)
  unfolding upsert_reconcile track_upsert ◌>>=◌
  upsert_reconcile-Keeps changed = record {
    at = λ s v. after_upsert changed (record_upsert path file s.tracking) s v (λ t e. (
      record_upsert-IsTracked path file s.tracking v e,
      record_upsert-live path file s.tracking e,
    ));
  }

module _ {F : Type 0} {exact : Bool} (host : Host F) where
  write_with-Keeps :
      (write : Text → Bytes → Exec F (Unit {0})) (path : Text) (content : Bytes)
      → Keeps (InOrder exact) (write_with host write path content)
  unfolding write_with upsert_reconcile
  write_with-Keeps write path content =
      search (keeps, assert_mutable-Keeps, on_inner-Keeps, upsert_reconcile-Keeps host) depth 12

  -- Every mutating method keeps the bookkeeping in order, whether it returns or throws.
  pub run-Keeps : (call : Call) → Keeps (InOrder exact) (run host call)
  unfolding run Operations.mkdir Operations.rm Operations.cp Operations.mv Operations.symlink
      Operations.link Operations.chmod Operations.utimes
  run-Keeps (write_file path content) = write_with-Keeps host.fs.write_file path content
  run-Keeps (append_file path content) = write_with-Keeps host.fs.append_file path content
  run-Keeps (rm path recursive force) =
      search (keeps, assert_mutable-Keeps, on_inner-Keeps, track_deletion-Keeps) depth 16
  run-Keeps _ =
      search
        (
          keeps, assert_mutable-Keeps, on_inner-Keeps, track_upsert-Keeps, track_move-Keeps,
          track_deletion-Keeps, track_existing_upsert-Keeps,
        )
        depth 16
