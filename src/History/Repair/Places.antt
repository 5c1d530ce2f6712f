-- ===== src/History/Repair/Places.antt =====
-- Each step of a recovery places one entry of the target (src/history/recover.ts).
use supabash_fs.Prelude.Dict.{get}
use supabash_fs.History.Storage.{KeepsTree, Scoped, ScopedStorage, entries_by_path, on_visible}
use supabash_fs.Prelude.Exec.{bind-at, bind-eq-ok, pure, reads, ◌>>=◌}
use supabash_fs.Prelude.{
  ===_iff, ===_refl, ==_iff, Bool, Bool-cases, List, Option, Ordering, Result, Text, [], arith, err,
  err_not_ok, false, find_first, if◌then◌else◌, inl, inr, none, not_both, ok, ok_inj, refl,
  same_option, some, subst, sym, true, ℕ, ◌&&◌, ◌===◌, ◌==◌, ◌||◌, ◌∙◌, ◌∷◌, ◌≡◌,
}
use supabash_fs.Core.Entries.{
  Bytes, RemoteEntry, UploadEntry, WorkspaceEntryKind, directory, file, same_kind, symlink,
}
use supabash_fs.History.Records.{RevisionEntry}
use supabash_fs.History.Repair.{
  is_target, recovery_body, recovery_upload, restore_each, same_entry, upload_entry, upload_unless,
  upload_with,
}

abbrev pub find_target : List RevisionEntry → Text → Option RevisionEntry
find_target target path = find_first (λ (e : RevisionEntry). e.path === path) target

-- No two entries have the same path.
abbrev pub DistinctPaths : List RevisionEntry → Type 0
DistinctPaths [] = Unit
DistinctPaths (entry ∷ entries) = (is_target entries entry.path ≡ false) × DistinctPaths entries

same_kind_refl : (k : WorkspaceEntryKind) → same_kind k k ≡ true
same_kind_refl directory = refl
same_kind_refl file = refl
same_kind_refl symlink = refl

same_option_refl : (o : Option Text) → same_option ◌===◌ o o ≡ true
same_option_refl none = refl
same_option_refl (some t) = ===_refl t

and_true : (a b : Bool) → a ≡ true → b ≡ true → (a && b) ≡ true
and_true a b h k = ground (arith)

stored-same_entry :
    (r : RemoteEntry) (entry : RevisionEntry)
    → r.kind ≡ entry.entry_kind
    → r.mode ≡ entry.mode
    → r.content_hash ≡ entry.content_hash
    → r.target ≡ entry.target
    → same_entry (some r) entry ≡ true
stored-same_entry r entry kind mode hash target =
    and_true
      (same_kind r.kind entry.entry_kind
        && r.mode == entry.mode
        && same_option ◌===◌ r.content_hash entry.content_hash)
      (same_option ◌===◌ r.target entry.target)
      (and_true (same_kind r.kind entry.entry_kind && r.mode == entry.mode)
        (same_option ◌===◌ r.content_hash entry.content_hash)
        (and_true (same_kind r.kind entry.entry_kind) (r.mode == entry.mode)
          (subst (λ k. same_kind r.kind k ≡ true) kind (same_kind_refl r.kind))
          ((==_iff r.mode entry.mode).1 mode))
        (subst (λ h. same_option ◌===◌ r.content_hash h ≡ true) hash
          (same_option_refl r.content_hash)))
      (subst (λ t. same_option ◌===◌ r.target t ≡ true) target (same_option_refl r.target))

no_target :
    (entries : List RevisionEntry) (p : Text)
    → is_target entries p ≡ false
    → find_target entries p ≡ none
no_target [] p h = refl
no_target (entry ∷ entries) p h = ground (arith, no_target entries p)

||-first : (a b : Bool) → a ≡ true → (a || b) ≡ true
||-first a b h = ground (arith)

||-second : (a b : Bool) → b ≡ true → (a || b) ≡ true
||-second a b h = ground (arith)

-- The part of a path in a step: what is placed there, or what was there.
abbrev pub Placed : Option RevisionEntry → Option RemoteEntry → Option RemoteEntry → Type 0
Placed none before after = after ≡ before
Placed (some entry) before after = same_entry after entry ≡ true

module _ {V : Type 0} (storage : ScopedStorage V) (tree : V → Text → Option RemoteEntry)
    (laws : KeepsTree V storage tree) (compare_paths : Text → Text → Ordering)
    (version_hash : RevisionEntry → ℕ → Text) (now : ℕ) (now_text : Text) where
  -- An upload says of an entry what the target says.
  abbrev Describes : UploadEntry → RevisionEntry → Type 0
  Describes u entry =
      (u.path ≡ entry.path)
      × (u.kind ≡ entry.entry_kind)
      × (u.mode ≡ entry.mode)
      × (u.content_hash ≡ entry.content_hash)
      × (u.target ≡ entry.target)

  upload-Describes :
      (entry : RevisionEntry) (r : Result (Option Bytes)) (u : UploadEntry)
      → upload_with storage compare_paths version_hash now now_text entry r ≡ ok u
      → Describes u entry
  upload-Describes entry (err e) u h = absurd (err_not_ok h)
  upload-Describes entry (ok body) u h =
      subst (λ u. Describes u entry) (ok_inj h) (refl, refl, refl, refl, refl)

  placed-here :
      (entry : RevisionEntry) (u : UploadEntry) (r : RemoteEntry) (v : V) (p : Text)
      → Describes u entry
      → (storage.upload u v).0 ≡ ok r
      → entry.path ≡ p
      → same_entry (tree (storage.upload u v).1 p) entry ≡ true
  placed-here entry u r v p (path, kind, mode, hash, target) h e =
      let (there, k, m, c, t) = laws.upload_stored v u r h in
      subst (λ q. same_entry (tree (storage.upload u v).1 q) entry ≡ true) (path ∙ e)
        (subst (λ o. same_entry o entry ≡ true) (sym there)
          (stored-same_entry r entry (k ∙ kind) (m ∙ mode) (c ∙ hash) (t ∙ target)))

  upload-Placed :
      (entry : RevisionEntry) (u : UploadEntry) (r : RemoteEntry) (v : V) (p : Text) (here : Bool)
      → Describes u entry
      → (storage.upload u v).0 ≡ ok r
      → (entry.path === p) ≡ here
      → Placed (if here then some entry else none) (tree v p) (tree (storage.upload u v).1 p)
  upload-Placed entry u r v p true d h e =
      placed-here entry u r v p d h ((===_iff entry.path p).0 e)
  upload-Placed entry u r v p false d h e =
      laws.upload_other v u p (subst (λ q. (q === p) ≡ false) (sym d.0) e)

  upload_entry-places :
      (entry : RevisionEntry) (s : Scoped V)
      → (upload_entry storage compare_paths version_hash now now_text entry s).0 ≡ ok tt
      → (p : Text)
      → Placed
          (if entry.path === p then some entry else none)
          (tree s.visible p)
          (tree (upload_entry storage compare_paths version_hash now now_text entry s).1.visible p)
  unfolding reads on_visible pure recovery_upload
  upload_entry-places entry s h p =
      let read = λ (s : Scoped V).
        recovery_upload storage compare_paths version_hash now now_text s.world.store entry in
      let place = λ (u : UploadEntry). (on_visible (storage.upload u) >>= λ stored. pure tt) in
      let (u, found, next) = bind-eq-ok (reads read) place s h in
      let (r, uploaded, done) =
        bind-eq-ok (on_visible (storage.upload u)) (λ stored. pure tt) s next in
      let ended =
        bind-at (reads read) place s u found
        ∙ bind-at (on_visible (storage.upload u)) (λ stored. pure tt) s r uploaded in
      subst
        (λ (out : Result (Unit {0}) × Scoped V).
          Placed (if entry.path === p then some entry else none) (tree s.visible p)
            (tree out.1.visible p))
        (sym ended)
        (upload-Placed entry u r s.visible p (entry.path === p)
          (upload-Describes entry (recovery_body s.world.store entry entry.entry_kind) u found)
          uploaded refl)

  pure-places :
      (entry : RevisionEntry) (o : Option RemoteEntry) (v : V) (p : Text) (here : Bool)
      → tree v entry.path ≡ o
      → same_entry o entry ≡ true
      → (entry.path === p) ≡ here
      → Placed (if here then some entry else none) (tree v p) (tree v p)
  pure-places entry o v p true at same e =
      subst (λ q. same_entry (tree v q) entry ≡ true) ((===_iff entry.path p).0 e)
        (subst (λ o. same_entry o entry ≡ true) (sym at) same)
  pure-places entry o v p false at same e = refl

  unless-places :
      (entry : RevisionEntry) (o : Option RemoteEntry) (skip : Bool) (s : Scoped V)
      → tree s.visible entry.path ≡ o
      → same_entry o entry ≡ skip
      → (upload_unless storage compare_paths version_hash now now_text skip entry s).0 ≡ ok tt
      → (p : Text)
      → Placed (if entry.path === p then some entry else none) (tree s.visible p) (
          tree
            (upload_unless storage compare_paths version_hash now now_text skip entry s).1.visible
            p)
  unfolding pure
  unless-places entry o true s at same h p =
      pure-places entry o s.visible p (entry.path === p) at same refl
  unless-places entry o false s at same h p = upload_entry-places entry s h p

  both-Placed :
      (entry : RevisionEntry) (here : Bool) (rest : Option RevisionEntry)
      (before mid after : Option RemoteEntry)
      → (here ≡ true → rest ≡ none)
      → Placed (if here then some entry else none) before mid
      → Placed rest mid after
      → Placed (if here then some entry else rest) before after
  both-Placed entry true rest before mid after fresh first second =
      subst (λ o. same_entry o entry ≡ true)
        (sym (subst (λ r. Placed r mid after) (fresh refl) second)) first
  both-Placed entry false none before mid after fresh first second = second ∙ first
  both-Placed entry false (some e) before mid after fresh first second = second

  unplaced :
      (entry : RevisionEntry) (p : Text) (before after : Option RemoteEntry)
      → (entry.path === p) ≡ false
      → Placed (if entry.path === p then some entry else none) before after
      → after ≡ before
  unplaced entry p before after e placed =
      subst (λ b. Placed (if b then some entry else none) before after) e placed

  fresh-path :
      (entry : RevisionEntry) (entries : List RevisionEntry) (p : Text)
      → is_target entries entry.path ≡ false
      → (entry.path === p) ≡ true
      → find_target entries p ≡ none
  fresh-path entry entries p fresh same =
      no_target entries p
        (subst (λ q. is_target entries q ≡ false) ((===_iff entry.path p).0 same) fresh)

  later-differs :
      (entry : RevisionEntry) (entries : List RevisionEntry) (p : Text)
      → is_target entries entry.path ≡ false
      → is_target entries p ≡ true
      → (entry.path === p) ≡ false
  later-differs entry entries p fresh among = elim (Bool-cases (entry.path === p)) [
    | inl same ↦ absurd (
        not_both among
          (subst (λ q. is_target entries q ≡ false) ((===_iff entry.path p).0 same) fresh))
    | inr other ↦ other
  ]

  pub restore_each-places :
      (current : List RemoteEntry) (entries : List RevisionEntry) (s : Scoped V)
      → DistinctPaths entries
      → ((p : Text)
          → is_target entries p ≡ true
          → tree s.visible p ≡ get (entries_by_path current) p)
      → (restore_each storage compare_paths version_hash now now_text current entries s).0 ≡ ok tt
      → (p : Text)
      → Placed (find_target entries p) (tree s.visible p) (
          tree
            (restore_each storage compare_paths version_hash now now_text current entries
              s).1.visible
            p)
  restore_each-places current [] s distinct known h p = unfold pure in refl
  restore_each-places current (entry ∷ entries) s (fresh, distinct) known h p =
      let skip = same_entry (get (entries_by_path current) entry.path) entry in
      let first = upload_unless storage compare_paths version_hash now now_text skip entry in
      let others = restore_each storage compare_paths version_hash now now_text current entries in
      let (u, done, next) = bind-eq-ok first (λ _. others) s h in
      let mid = (first s).1 in
      let stepped =
        unless-places entry (get (entries_by_path current) entry.path) skip s
          (known entry.path (
            ||-first (entry.path === entry.path) (is_target entries entry.path)
              (===_refl entry.path)))
          refl done in
      let placed =
        restore_each-places current entries mid distinct
          (λ q among.
            unplaced entry q (tree s.visible q) (tree mid.visible q)
              (later-differs entry entries q fresh among) (stepped q)
            ∙ known q (||-second (entry.path === q) (is_target entries q) among))
          next p in
      subst
        (λ (out : Result (Unit {0}) × Scoped V).
          Placed (find_target (entry ∷ entries) p) (tree s.visible p) (tree out.1.visible p))
        (sym (bind-at first (λ _. others) s u done))
        (both-Placed entry (entry.path === p) (find_target entries p) (tree s.visible p)
          (tree mid.visible p) (tree (others mid).1.visible p) (fresh-path entry entries p fresh)
          (stepped p) placed)
