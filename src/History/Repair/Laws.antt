-- ===== src/History/Repair/Laws.antt =====
-- A recovery leaves the visible entries as its target has them (src/history/recover.ts).
use supabash_fs.Prelude.{
  ===_iff, Bool, List, Option, Ordering, Result, Text, [], ap, arith, false, if◌then◌else◌, is_some,
  last, none, not, ok, ok_inj, refl, some, subst, sym, true, ℕ, ◌&&◌, ◌===◌, ◌||◌, ◌∙◌, ◌∷◌, ◌≡◌,
}
use supabash_fs.Prelude.Exec.{
  >>=-Keeps, Exec, Keeps, bind-at, bind-eq-ok, gets, pure, pure-Keeps, reads, ◌>>=◌, ◌>>◌,
}
use supabash_fs.Core.Entries.{RemoteEntry}
use supabash_fs.History.Records.{IntentRecord, RevisionEntry}
use supabash_fs.History.Store.{World, put, with_abort}
use supabash_fs.History.Storage.{
  KeepsTree, Scoped, ScopedStorage, lists_path, on_history, on_visible,
}
use supabash_fs.History.Repair.{
  abort_each, abort_of, extra_entries, is_target, recover_intents, recover_unresolved,
  recovery_target, restore_each, restore_visible_tree, same_entry, unresolved_intents,
}
use supabash_fs.History.Repair.Places.{DistinctPaths, Placed, find_target, restore_each-places}

-- What is visible at a path is what the target has there.
abbrev pub tree_matches : Option RevisionEntry → Option RemoteEntry → Bool
tree_matches none visible = not (is_some visible)
tree_matches (some entry) visible = same_entry visible entry

found_target :
    (entries : List RevisionEntry) (p : Text)
    → is_some (find_target entries p) ≡ is_target entries p
found_target [] p = refl
found_target (entry ∷ entries) p = ground (arith, found_target entries p)

kept_lists :
    (entry : RemoteEntry) (entries : List RemoteEntry) (kept : Bool) (p : Text)
    → lists_path (if kept then entry ∷ entries else entries) p
      ≡ ((kept && entry.path === p) || lists_path entries p)
kept_lists entry entries true p = refl
kept_lists entry entries false p = refl

one_kept :
    (here listed t : Bool) (kept : Bool)
    → (here ≡ true → kept ≡ not t)
    → ((kept && here) || (listed && not t)) ≡ ((here || listed) && not t)
one_kept true listed t kept h = ground (arith, h refl)
one_kept false listed t kept h = ground (arith)

extra_lists :
    (current : List RemoteEntry) (target : List RevisionEntry) (p : Text)
    → lists_path (extra_entries current target) p
      ≡ (lists_path current p && not (is_target target p))
extra_lists [] target p = refl
extra_lists (entry ∷ entries) target p =
    kept_lists entry (extra_entries entries target) (not (is_target target entry.path)) p
    ∙ ap (λ b. (not (is_target target entry.path) && entry.path === p) || b)
        (extra_lists entries target p)
    ∙ one_kept (entry.path === p) (lists_path entries p) (is_target target p)
        (not (is_target target entry.path))
        (λ same. ap (λ q. not (is_target target q)) ((===_iff entry.path p).0 same))

targeted : (t listed : Bool) → t ≡ true → (listed && not t) ≡ false
targeted t listed h = ground (arith)

untargeted : (t listed l : Bool) → t ≡ false → listed ≡ l → (listed && not t) ≡ l
untargeted t listed l h k = ground (arith)

module _ {V : Type 0} (storage : ScopedStorage V) (tree : V → Text → Option RemoteEntry)
    (laws : KeepsTree V storage tree) (compare_paths : Text → Text → Ordering)
    (version_hash : RevisionEntry → ℕ → Text) (now : ℕ) (now_text : Text) where
  cleared-matches :
      (current : List RemoteEntry) (target : List RevisionEntry) (v : V) (p : Text)
      (found : Option RevisionEntry) (before : Option RemoteEntry)
      → find_target target p ≡ found
      → lists_path current p ≡ is_some before
      → Placed found before (tree v p)
      → (storage.delete (extra_entries current target) v).0 ≡ ok tt
      → tree_matches found (tree (storage.delete (extra_entries current target) v).1 p) ≡ true
  cleared-matches current target v p (some e) before f l placed h =
      subst (λ o. same_entry o e ≡ true)
        (sym (
          laws.delete_other v (extra_entries current target) p (
            extra_lists current target p
            ∙ targeted (is_target target p) (lists_path current p)
                (sym (found_target target p) ∙ ap is_some f))))
        placed
  cleared-matches current target v p none none f l placed h =
      subst (λ o. not (is_some o) ≡ true)
        (sym (
          laws.delete_other v (extra_entries current target) p (
            extra_lists current target p
            ∙ untargeted (is_target target p) (lists_path current p) false
                (sym (found_target target p) ∙ ap is_some f) l)
          ∙ placed))
        refl
  cleared-matches current target v p none (some r) f l placed h =
      subst (λ o. not (is_some o) ≡ true)
        (sym (
          laws.delete_removed v (extra_entries current target) p h (
            extra_lists current target p
            ∙ untargeted (is_target target p) (lists_path current p) true
                (sym (found_target target p) ∙ ap is_some f) l)))
        refl

  restore_visible_tree-matches :
      (target : List RevisionEntry) (s : Scoped V) (p : Text)
      → DistinctPaths target
      → (restore_visible_tree storage compare_paths version_hash now now_text target s).0 ≡ ok tt
      → tree_matches (find_target target p) (
          tree
            (restore_visible_tree storage compare_paths version_hash now now_text target
              s).1.visible
            p)
        ≡ true
  unfolding restore_visible_tree on_visible
  restore_visible_tree-matches target s p distinct h =
      let listing = on_visible storage.list in
      let each = λ (current : List RemoteEntry).
        restore_each storage compare_paths version_hash now now_text current target in
      let clear = λ (current : List RemoteEntry).
        on_visible (storage.delete (extra_entries current target)) in
      let (current, listed, next) =
        bind-eq-ok listing (λ current. each current >> clear current) s h in
      let (u, restored, last) = bind-eq-ok (each current) (λ _. clear current) (listing s).1 next in
      let known = λ (q : Text). laws.list_finds s.visible current listed q in
      let placed =
        restore_each-places storage tree laws compare_paths version_hash now now_text current target
          (listing s).1 distinct (λ q among. laws.list_reads s.visible q ∙ sym (known q)) restored
          p in
      let ended =
        bind-at listing (λ current. each current >> clear current) s current listed
        ∙ bind-at (each current) (λ _. clear current) (listing s).1 u restored in
      subst
        (λ (out : Result (Unit {0}) × Scoped V).
          tree_matches (find_target target p) (tree out.1.visible p) ≡ true)
        (sym ended)
        (cleared-matches current target (each current (listing s).1).1.visible p
          (find_target target p) (tree (listing s).1.visible p) refl
          (laws.list_paths s.visible current listed p
            ∙ ap is_some (sym (laws.list_reads s.visible p)))
          placed last)

  on_history-visible :
      {A : Type 0} (m : Exec World A) (v : V)
      → Keeps (λ (s : Scoped V). s.visible ≡ v) (on_history m)
  unfolding on_history
  on_history-visible m v = record { at = λ s e. e }

  abort_each-visible :
      (intents : List IntentRecord) (v : V)
      → Keeps
          (λ (s : Scoped V). s.visible ≡ v)
          (abort_each storage compare_paths version_hash now now_text intents)
  abort_each-visible [] v = pure-Keeps tt
  abort_each-visible (intent ∷ intents) v =
      >>=-Keeps
        (on_history-visible
          (put (with_abort (abort_of storage compare_paths version_hash now now_text intent))) v)
        (λ _. abort_each-visible intents v)

  recover_intents-matches :
      (intents : List IntentRecord) (target : List RevisionEntry) (s : Scoped V) (p : Text)
      → DistinctPaths target
      → recovery_target s.world.store intents ≡ ok target
      → (recover_intents storage compare_paths version_hash now now_text intents s).0 ≡ ok true
      → tree_matches (find_target target p) (
          tree
            (recover_intents storage compare_paths version_hash now now_text intents s).1.visible
            p)
        ≡ true
  unfolding reads pure
  recover_intents-matches [] target s p distinct e h = absurd (unfold pure in cc)
  recover_intents-matches (intent ∷ intents) target s p distinct e h =
      let find = λ (s : Scoped V). recovery_target s.world.store (intent ∷ intents) in
      let restore = restore_visible_tree storage compare_paths version_hash now now_text in
      let abort = abort_each storage compare_paths version_hash now now_text (intent ∷ intents) in
      let finish = abort >> pure true in
      let next = λ (found : List RevisionEntry). restore found >> finish in
      let (found, read, rest) = bind-eq-ok (reads find) next s h in
      let here = ok_inj (sym read ∙ e) in
      let restored = subst (λ found. (next found s).0 ≡ ok true) here rest in
      let (u, done, behind) = bind-eq-ok (restore target) (λ _. finish) s restored in
      let ended =
        bind-at (reads find) next s target e ∙ bind-at (restore target) (λ _. finish) s u done in
      let kept =
        (>>=-Keeps (abort_each-visible (intent ∷ intents) (restore target s).1.visible)
            (λ _. pure-Keeps true)).at
          (restore target s).1 refl in
      subst
        (λ (out : Result Bool × Scoped V).
          tree_matches (find_target target p) (tree out.1.visible p) ≡ true)
        (sym ended)
        (subst (λ v. tree_matches (find_target target p) (tree v p) ≡ true) (sym kept)
          (restore_visible_tree-matches target s p distinct done))

  -- A recovery of unfinished commits that returns leaves at each path what its target has there, and
  -- nothing where it has nothing: the entries of the head's revision, or of the first baseline, when
  -- these have no path twice.
  pub recover_unresolved-matches :
      (target : List RevisionEntry) (s : Scoped V) (p : Text)
      → DistinctPaths target
      → recovery_target s.world.store (unresolved_intents compare_paths s.world.store) ≡ ok target
      → (recover_unresolved storage compare_paths version_hash now now_text s).0 ≡ ok true
      → tree_matches
          (find_target target p)
          (tree (recover_unresolved storage compare_paths version_hash now now_text s).1.visible p)
        ≡ true
  unfolding recover_unresolved gets ◌>>=◌
  recover_unresolved-matches target s p distinct e h =
      recover_intents-matches (unresolved_intents compare_paths s.world.store) target s p distinct e
        h
