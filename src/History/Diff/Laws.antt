-- ===== src/History/Diff/Laws.antt =====
-- A difference names the paths that differ (src/history/diff.ts).
use supabash_fs.Prelude.Tests.{if◌then◌else◌, is_some, none-some, not_both, same_option, some_inj}
use supabash_fs.History.Recovery.{push_some}
use supabash_fs.History.Preview.{RevisionDiffKind}
use supabash_fs.History.Snapshot.Laws.{Keyed, get-Keyed, get-of_entries, last_at, of_entries-Keyed}
use supabash_fs.History.Store.{HistoryStore}
use supabash_fs.History.Records.{RevisionEntry}
use supabash_fs.Core.Entries.{Bytes, WorkspaceEntryKind, directory, file, same_kind, symlink}
use supabash_fs.Core.Tracked.Staging.{any-sort}
use supabash_fs.Prelude.Dict.{Dict, get, has, keys}
use supabash_fs.Prelude.{
  ===_iff, ===_refl, All, Bool, List, Option, Ordering, Text, [], any, any-append, ap, ap₂, arith,
  false, includes, keep, none, not, refl, some, subst, sym, true, ℕ, ◌&&◌, ◌++◌, ◌===◌, ◌||◌, ◌↔◌,
  ◌∙◌, ◌∷◌, ◌≡◌,
}
use supabash_fs.History.Diff.{
  RevisionDiffEntry, all_paths, changed, describe_diff, detect_moves, diff_entry, diff_states,
  entry_map, is_selected, kind_of_change, raw_entries, same_hash, text_leb, unchanged_entry,
  with_preview,
}
use supabash_fs.History.Diff.Detection.{Plain, at_path, detect_moves-names, names, or_later}

-- Two entries are the same, their paths aside.
pub record SameEntry (before after : RevisionEntry) : Type 0 where
  pub kind : before.entry_kind ≡ after.entry_kind
  pub hash : before.content_hash ≡ after.content_hash
  pub mode : before.mode ≡ after.mode
  pub target : before.target ≡ after.target

-- Two states have the same at a path: nothing, or the same entry.
abbrev pub Agree : Option RevisionEntry → Option RevisionEntry → Type 0
Agree none none = Unit
Agree (some before) (some after) = SameEntry before after
Agree _ _ = ⊥

abbrev differs : Option RevisionEntry → Option RevisionEntry → Bool
differs none none = false
differs before after = is_some (describe_diff before after)

same_kind_iff : (a b : WorkspaceEntryKind) → (same_kind a b ≡ true) ↔ (a ≡ b)
same_kind_iff file file = ground arith
same_kind_iff file directory = ground arith
same_kind_iff file symlink = ground arith
same_kind_iff directory file = ground arith
same_kind_iff directory directory = ground arith
same_kind_iff directory symlink = ground arith
same_kind_iff symlink file = ground arith
same_kind_iff symlink directory = ground arith
same_kind_iff symlink symlink = ground arith

same_option_iff : (a b : Option Text) → (same_option ◌===◌ a b ≡ true) ↔ (a ≡ b)
same_option_iff none none = ground arith
same_option_iff none (some t) = ground arith
same_option_iff (some s) none = ground arith
same_option_iff (some s) (some t) = ground (arith, ===_iff s t)

changed-is_some :
    (kinds same hash : Bool) (before after : RevisionEntry)
    → is_some (changed before after (kind_of_change (not kinds) same hash)) ≡ not (kinds && same)
changed-is_some false same hash before after = refl
changed-is_some true true hash before after = refl
changed-is_some true false true before after = refl
changed-is_some true false false before after = refl

both_differ :
    (before after : RevisionEntry)
    → differs (some before) (some after)
      ≡ not (same_kind before.entry_kind after.entry_kind && unchanged_entry before after)
unfolding describe_diff
both_differ before after =
    changed-is_some (same_kind before.entry_kind after.entry_kind) (unchanged_entry before after)
      (same_hash before after) before after

differs-Agree :
    (before after : Option RevisionEntry) → (differs before after ≡ false) ↔ Agree before after
unfolding describe_diff
differs-Agree none none = ((λ _. tt), (λ _. refl))
differs-Agree none (some a) = ((λ h. absurd (not_both refl h)), (λ h. absurd h))
differs-Agree (some b) none = ((λ h. absurd (not_both refl h)), (λ h. absurd h))
differs-Agree (some b) (some a) =
    let kinds = same_kind_iff b.entry_kind a.entry_kind in
    let hashes = same_option_iff b.content_hash a.content_hash in
    let targets = same_option_iff b.target a.target in
    (
      (λ h.
          let e = sym (both_differ b a) ∙ h in
          record {
            kind = kinds.0 (ground arith);
            hash = hashes.0 (ground arith);
            mode = ground arith;
            target = targets.0 (ground arith);
          }),
      (λ same.
          both_differ b a
          ∙ (let k = kinds.1 same.kind in
              let h = hashes.1 same.hash in
              let m = same.mode in let t = targets.1 same.target in ground arith)),
    )

-- Each entry stands under its path.
abbrev Under : Text → Option RevisionEntry → Type 0
Under path none = Unit
Under path (some entry) = entry.path ≡ path

described-Under :
    (path : Text) (before after : Option RevisionEntry) (entry : RevisionDiffEntry)
    → Under path before
    → Under path after
    → (is_some before || is_some after) ≡ true
    → describe_diff before after ≡ some entry
    → (entry.path ≡ path) × Plain entry
unfolding describe_diff
described-Under path none none entry u v h e = absurd (not_both h refl)
described-Under path none (some a) entry u v h e =
    subst (λ (x : RevisionDiffEntry). (x.path ≡ path) × Plain x) (some_inj e) (v, refl)
described-Under path (some b) none entry u v h e =
    subst (λ (x : RevisionDiffEntry). (x.path ≡ path) × Plain x) (some_inj e) (u, refl)
described-Under path (some b) (some a) entry u v h e =
    by_kind
      (kind_of_change (not (same_kind b.entry_kind a.entry_kind)) (unchanged_entry b a)
        (same_hash b a))
      e
  where
    by_kind :
        (kind : Option RevisionDiffKind)
        → changed b a kind ≡ some entry
        → (entry.path ≡ path) × Plain entry
    by_kind none e = absurd (none-some e)
    by_kind (some k) e =
        subst (λ (x : RevisionDiffEntry). (x.path ≡ path) × Plain x) (some_inj e) (v, refl)

module _ (encode : Text → Bytes) (decode : Bytes → Option Text)
    (compare_paths : Text → Text → Ordering) (s : HistoryStore) (limit : ℕ) where
  raw_one :
      (path p : Text) (before after : Option RevisionEntry) (rest : List RevisionDiffEntry)
      (o : Option RevisionDiffEntry)
      → ((entry : RevisionDiffEntry) → o ≡ some entry → (entry.path ≡ path) × Plain entry)
      → All Plain rest
      → (any
            (at_path p)
            (push_some (with_preview encode decode compare_paths s before after limit o) rest)
          ≡ ((is_some o && path === p) || any (at_path p) rest))
        × All Plain
            (push_some (with_preview encode decode compare_paths s before after limit o) rest)
  raw_one path p before after rest none h plain = (refl, plain)
  raw_one path p before after rest (some entry) h plain =
      let (named, fresh) = h entry refl in
      (ap (λ q. q === p || any (at_path p) rest) named, (fresh, plain))

  module _ (from to : Dict RevisionEntry) (keyed : Keyed (λ (e : RevisionEntry). e.path) from)
      (keyed' : Keyed (λ (e : RevisionEntry). e.path) to) where
    found-Under :
        (m : Dict RevisionEntry) (path : Text) (o : Option RevisionEntry)
        → Keyed (λ (e : RevisionEntry). e.path) m
        → get m path ≡ o
        → Under path o
    found-Under m path none k e = tt
    found-Under m path (some entry) k e = get-Keyed (λ (e : RevisionEntry). e.path) m path k e

    raw-names :
        (paths : List Text) (p : Text)
        → All (λ path. (has from path || has to path) ≡ true) paths
        → (any (at_path p) (raw_entries encode decode compare_paths s limit from to paths)
            ≡ (includes paths p && is_some (describe_diff (get from p) (get to p))))
          × All Plain (raw_entries encode decode compare_paths s limit from to paths)
    unfolding diff_entry
    raw-names [] p h = (refl, tt)
    raw-names (path ∷ paths) p (there, h) =
        let (later, plain) = raw-names paths p h in
        let o = describe_diff (get from path) (get to path) in
        let (one, all_plain) =
          raw_one path p (get from path) (get to path)
            (raw_entries encode decode compare_paths s limit from to paths) o
            (λ entry e.
              described-Under path (get from path) (get to path) entry
                (found-Under from path (get from path) keyed refl)
                (found-Under to path (get to path) keyed' refl) there e)
            plain in
        (
          one
              ∙ ap (λ b. (is_some o && path === p) || b) later
              ∙ merged (is_some o) (path === p) (includes paths p)
                  (is_some (describe_diff (get from p) (get to p)))
                  (λ same.
                    ap (λ q. is_some (describe_diff (get from q) (get to q)))
                      ((===_iff path p).0 same)),
          all_plain,
        )
      where
        merged :
            (o same found d : Bool)
            → (same ≡ true → o ≡ d)
            → ((o && same) || (found && d)) ≡ ((same || found) && d)
        merged o same found d h = ground (arith)

keys-includes : {V : Type 0} (m : Dict V) (p : Text) → includes (keys m) p ≡ has m p
unfolding get
keys-includes [] p = refl
keys-includes ((k, v) ∷ m) p = listed (k === p) (keys-includes m p)
  where
    listed :
        (here : Bool)
        → includes (keys m) p ≡ has m p
        → (here || includes (keys m) p) ≡ is_some (if here then some v else get m p)
    listed true e = refl
    listed false e = e

keep-includes :
    (q : Text → Bool) (xs : List Text) (p : Text) → includes (keep q xs) p ≡ (includes xs p && q p)
keep-includes q [] p = refl
keep-includes q (x ∷ xs) p =
    chosen (q x)
    ∙ ap (λ b. (q x && x === p) || b) (keep-includes q xs p)
    ∙ merged (q x) (x === p) (includes xs p) (q p) (λ same. ap q ((===_iff x p).0 same))
  where
    chosen :
        (kept : Bool)
        → includes (if kept then x ∷ keep q xs else keep q xs) p
          ≡ ((kept && x === p) || includes (keep q xs) p)
    chosen true = refl
    chosen false = refl

    merged :
        (kept here found out : Bool)
        → (here ≡ true → kept ≡ out)
        → ((kept && here) || (found && out)) ≡ ((here || found) && out)
    merged kept here found out h = ground (arith)

all_paths-includes :
    (from to : Dict RevisionEntry) (p : Text)
    → includes (all_paths from to) p ≡ (has from p || has to p)
all_paths-includes from to p =
    any-sort text_leb (λ t. t === p) (keys from ++ keep (λ path. not (has from path)) (keys to))
    ∙ any-append (λ t. t === p) (keys from) (keep (λ path. not (has from path)) (keys to))
    ∙ ap₂ (λ a b. a || b) (keys-includes from p)
        (keep-includes (λ path. not (has from path)) (keys to) p
          ∙ ap (λ b. b && not (has from p)) (keys-includes to p))
    ∙ either (has from p) (has to p)
  where
    either : (a b : Bool) → (a || (b && not a)) ≡ (a || b)
    either a b = ground (arith)

each_listed :
    (test : Text → Bool) (xs : List Text)
    → ((p : Text) → includes xs p ≡ true → test p ≡ true)
    → All (λ p. test p ≡ true) xs
each_listed test [] h = tt
each_listed test (x ∷ xs) h = (
  h x (ap (λ b. b || includes xs x) (===_refl x)),
  each_listed test xs (λ p listed. h p (or_later (x === p) (includes xs p) listed)),
)

differs-has :
    (before after : Option RevisionEntry)
    → ((is_some before || is_some after) && is_some (describe_diff before after))
      ≡ differs before after
differs-has none none = refl
differs-has none (some a) = refl
differs-has (some b) none = refl
differs-has (some b) (some a) = refl

keep_all : (xs : List RevisionDiffEntry) → keep (is_selected none) xs ≡ xs
keep_all [] = refl
keep_all (x ∷ xs) = ap (λ ys. x ∷ ys) (keep_all xs)

names_lem :
    (encode : Text → Bytes) (decode : Bytes → Option Text) (compare_paths : Text → Text → Ordering)
    (s : HistoryStore) (limit : ℕ) (from to : List RevisionEntry) (p : Text)
    → any (names p) (diff_states encode decode compare_paths s limit none from to)
      ≡ differs (get (entry_map from) p) (get (entry_map to) p)
unfolding diff_states
names_lem encode decode compare_paths s limit from to p =
    let before = entry_map from in
    let after = entry_map to in
    let paths = all_paths before after in
    let raw = raw_entries encode decode compare_paths s limit before after paths in
    let path = λ (e : RevisionEntry). e.path in
    let (named, plain) =
      raw-names encode decode compare_paths s limit before after (of_entries-Keyed path [] from tt)
        (of_entries-Keyed path [] to tt) paths p
        (each_listed (λ q. has before q || has after q) paths
          (λ q listed. sym (all_paths-includes before after q) ∙ listed)) in
    ap (any (names p)) (keep_all (detect_moves before after compare_paths raw))
    ∙ detect_moves-names before after raw p compare_paths plain
    ∙ named
    ∙ ap (λ b. b && is_some (describe_diff (get before p) (get after p)))
        (all_paths-includes before after p)
    ∙ differs-has (get before p) (get after p)

-- The entry that a state has at a path: the last one listed for it.
abbrev pub entry_in : List RevisionEntry → Text → Option RevisionEntry
entry_in entries p = last_at (λ (e : RevisionEntry). e.path) none entries p

-- Without a selection of paths, the difference of two states does not name a path exactly when neither
-- state has it or both have entries of the same kind, hash, mode and target there; a move names both of
-- its ends.
pub diff_states-names :
    (encode : Text → Bytes) (decode : Bytes → Option Text) (compare_paths : Text → Text → Ordering)
    (s : HistoryStore) (limit : ℕ) (from to : List RevisionEntry) (p : Text)
    → (any (names p) (diff_states encode decode compare_paths s limit none from to) ≡ false)
      ↔ Agree (entry_in from p) (entry_in to p)
unfolding get
diff_states-names encode decode compare_paths s limit from to p =
    let at = λ (entries : List RevisionEntry).
      get-of_entries (λ (e : RevisionEntry). e.path) [] entries p in
    let named =
      names_lem encode decode compare_paths s limit from to p ∙ ap₂ differs (at from) (at to) in
    let same = differs-Agree (entry_in from p) (entry_in to p) in
    ((λ h. same.0 (sym named ∙ h)), (λ h. named ∙ same.1 h))
