-- ===== src/Tests/Storages.antt =====
-- A storage in memory, and a recovery (src/history/recover.ts) on it.
use supabash_fs.History.Repair.Places.{find_target}
use supabash_fs.History.Repair.Laws.{recover_unresolved-matches, tree_matches}
use supabash_fs.History.Repair.{
  recover_unresolved, recovery_target, recovery_upload, restore_visible_tree, unresolved_intents,
}
use supabash_fs.History.Store.{HistoryStore, put}
use supabash_fs.History.Records.{IntentRecord, RevisionEntry}
use supabash_fs.Prelude.Exec.{gets, lift, pure, reads, ◌>>=◌}
use supabash_fs.Prelude.{
  ===_iff, ===_refl, Bool, List, Option, Ordering, Text, [], ap, arith, compare, false,
  if◌then◌else◌, is_some, keep, length, none, not, not_both, ok, ok_inj, refl, some, sort, subst,
  sym, text, true, ℕ, ◌&&◌, ◌++◌, ◌===◌, ◌||◌, ◌∙◌, ◌∷◌, ◌≡◌,
}
use supabash_fs.Prelude.Dict.{get, of_entries, set}
use supabash_fs.Core.Entries.{RemoteEntry, UploadEntry, directory, file}
use supabash_fs.History.Storage.{
  KeepsTree, Scoped, ScopedStorage, entries_by_path, lists_path, on_history, on_visible,
}
use supabash_fs.History.Snapshot.Laws.{get-of_entries, last_at}

abbrev pub remote_of : UploadEntry → RemoteEntry
remote_of u = record {
  content_hash = u.content_hash;
  content_type = u.content_type;
  etag = none;
  kind = u.kind;
  mode = u.mode;
  modified_at = u.modified_at;
  path = u.path;
  size = 0;
  target = u.target;
  version_hash = some u.version_hash;
}

abbrev pub head_in : List RemoteEntry → Text → Option RemoteEntry
head_in entries p = get (entries_by_path entries) p

-- The entries, the last at a path being the one stored.
abbrev pub memory : ScopedStorage (List RemoteEntry)
memory = record {
  delete = λ entries v. (ok tt, keep (λ (e : RemoteEntry). not (lists_path entries e.path)) v);
  download = λ entry v. (ok [], v);
  head = λ p v. (ok (head_in v p), v);
  list = λ v. (ok v, v);
  upload = λ u v. (ok (remote_of u), v ++ remote_of u ∷ []);
}

abbrev path_of : RemoteEntry → Text
path_of e = e.path

last_at-append :
    (start : Option RemoteEntry) (v : List RemoteEntry) (r : RemoteEntry) (p : Text)
    → last_at path_of start (v ++ r ∷ []) p
      ≡ (if r.path === p then some r else last_at path_of start v p)
last_at-append start [] r p = refl
last_at-append start (e ∷ v) r p = last_at-append (if e.path === p then some e else start) v r p

chosen :
    (b : Bool) (r : RemoteEntry) (start : Option RemoteEntry)
    → is_some (if b then some r else start) ≡ (b || is_some start)
chosen true r start = refl
chosen false r start = refl

last_at-is_some :
    (start : Option RemoteEntry) (v : List RemoteEntry) (p : Text)
    → is_some (last_at path_of start v p) ≡ (lists_path v p || is_some start)
last_at-is_some start [] p = refl
last_at-is_some start (e ∷ v) p =
    let later = last_at-is_some (if e.path === p then some e else start) v p in
    let here = chosen (e.path === p) e start in ground (arith, later, here)

kept_last :
    (start : Option RemoteEntry) (e : RemoteEntry) (v : List RemoteEntry) (kept : Bool) (p : Text)
    → last_at path_of start (if kept then e ∷ v else v) p
      ≡ last_at path_of (if kept && e.path === p then some e else start) v p
kept_last start e v true p = refl
kept_last start e v false p = refl

kept_choice :
    (gone here kept : Bool) (e : RemoteEntry) (start : Option RemoteEntry)
    (later : Option RemoteEntry → Option RemoteEntry)
    → (here ≡ true → kept ≡ not gone)
    → (if gone
        then (if kept && here then some e else start)
        else later (if kept && here then some e else start))
      ≡ (if gone then start else later (if here then some e else start))
kept_choice true true true e start later h = absurd (not_both refl (h refl))
kept_choice true true false e start later h = refl
kept_choice true false true e start later h = refl
kept_choice true false false e start later h = refl
kept_choice false true true e start later h = refl
kept_choice false true false e start later h = absurd (not_both (h refl) refl)
kept_choice false false true e start later h = refl
kept_choice false false false e start later h = refl

last_at-keep :
    (start : Option RemoteEntry) (entries v : List RemoteEntry) (p : Text)
    → last_at path_of start (keep (λ (e : RemoteEntry). not (lists_path entries e.path)) v) p
      ≡ (if lists_path entries p then start else last_at path_of start v p)
last_at-keep start entries [] p =
    elim (lists_path entries p) as (λ b. start ≡ (if b then start else start)) [
      | true ↦ refl
      | false ↦ refl
    ]
last_at-keep start entries (e ∷ v) p =
    let kept = not (lists_path entries e.path) in
    kept_last start e (keep (λ (e : RemoteEntry). not (lists_path entries e.path)) v) kept p
    ∙ last_at-keep (if kept && e.path === p then some e else start) entries v p
    ∙ kept_choice (lists_path entries p) (e.path === p) kept e start (λ o. last_at path_of o v p)
        (λ same. ap (λ q. not (lists_path entries q)) ((===_iff e.path p).0 same))

abbrev memory_tree : List RemoteEntry → Text → Option RemoteEntry
memory_tree v p = last_at path_of none v p

listed :
    (entries : List RemoteEntry) (p : Text) → lists_path entries p ≡ is_some (memory_tree entries p)
listed entries p = let found = last_at-is_some none entries p in ground (arith, found)

stored :
    (v : List RemoteEntry) (u : UploadEntry)
    → memory_tree (v ++ remote_of u ∷ []) u.path ≡ some (remote_of u)
stored v u =
    last_at-append none v (remote_of u) u.path
    ∙ ap (λ b. if b then some (remote_of u) else last_at path_of none v u.path) (===_refl u.path)

memory-KeepsTree : KeepsTree (List RemoteEntry) memory memory_tree
unfolding get
memory-KeepsTree = record {
  list_reads = λ v p. refl;
  list_finds = λ v entries h p.
      get-of_entries path_of [] entries p ∙ ap (λ w. last_at path_of none w p) (sym (ok_inj h));
  list_paths = λ v entries h p.
      subst (λ w. lists_path entries p ≡ is_some (last_at path_of none w p)) (sym (ok_inj h))
        (listed entries p);
  upload_other = λ v u p differs.
      last_at-append none v (remote_of u) p
      ∙ ap (λ b. if b then some (remote_of u) else last_at path_of none v p) differs;
  upload_stored = λ v u r h.
      subst
        (λ (r : RemoteEntry).
          (memory_tree (v ++ remote_of u ∷ []) u.path ≡ some r)
          × (r.kind ≡ u.kind)
          × (r.mode ≡ u.mode)
          × (r.content_hash ≡ u.content_hash)
          × (r.target ≡ u.target))
        (ok_inj h) (stored v u, refl, refl, refl, refl);
  delete_other = λ v entries p out.
      last_at-keep none entries v p ∙ ap (λ b. if b then none else last_at path_of none v p) out;
  delete_removed = λ v entries p done among.
      last_at-keep none entries v p ∙ ap (λ b. if b then none else last_at path_of none v p) among;
}

-- A first commit that stopped: its intent is there, and a file that it uploaded.
abbrev folder : RevisionEntry
folder = record {
  content_hash = none;
  entry_kind = directory;
  etag = none;
  mode = 493;
  path = text "/a";
  size = 0;
  target = none;
}

abbrev stray : RemoteEntry
stray = record {
  content_hash = some (text "h");
  content_type = none;
  etag = none;
  kind = file;
  mode = 420;
  modified_at = 1;
  path = text "/b";
  size = 2;
  target = none;
  version_hash = none;
}

abbrev stopped : IntentRecord
stopped = record {
  actor = text "ann";
  baseline_entries = some (folder ∷ []);
  cause = none;
  changes = [];
  correlation_id = text "c";
  created_at = text "2024";
  fingerprint = text "f";
  idempotency_key = none;
  metadata = none;
  new_revision = text "r1";
  parent_revision = none;
  schema_version = 1;
  transaction_id = text "t1";
}

abbrev stopped_store : HistoryStore
stopped_store = record {
  aborts = [];
  ancestry = [];
  checkpoints = [];
  completes = [];
  head = none;
  idempotency = [];
  intents = (text "t1", stopped) ∷ [];
  objects = [];
  revisions = [];
}

abbrev stopped_state : Scoped (List RemoteEntry)
stopped_state = record {
  visible = stray ∷ [];
  world = record { faults = []; store = stopped_store };
}

abbrev pub by_length : Text → Text → Ordering
by_length a b = compare (length a) (length b)

abbrev version_of : RevisionEntry → ℕ → Text
version_of entry now = entry.path

recovers : Unit {0}
unfolding recover_unresolved unresolved_intents recovery_target restore_visible_tree recovery_upload
    on_visible on_history put pure reads gets lift ◌>>=◌ get set of_entries sort ◌===◌
recovers = tt

stopped_recovers :
    (recover_unresolved memory by_length version_of 7 (text "2025") stopped_state).0 ≡ ok true
unfolding recovers
stopped_recovers = refl

stopped_target :
    recovery_target stopped_store (unresolved_intents by_length stopped_store) ≡ ok (folder ∷ [])
unfolding recovers
stopped_target = refl

recover_unresolved-matches_example :
    tree_matches (find_target (folder ∷ []) (text "/b")) (
      memory_tree
        (recover_unresolved memory by_length version_of 7 (text "2025") stopped_state).1.visible
        (text "/b"))
    ≡ true
recover_unresolved-matches_example =
    recover_unresolved-matches memory memory_tree memory-KeepsTree by_length version_of 7
      (text "2025") (folder ∷ []) stopped_state (text "/b") (refl, tt) stopped_target
      stopped_recovers

now_aborted :
    unresolved_intents by_length
      (recover_unresolved memory by_length version_of 7 (text "2025") stopped_state).1.world.store
    ≡ []
unfolding recovers
now_aborted = refl
