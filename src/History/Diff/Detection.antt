-- ===== src/History/Diff/Detection.antt =====
-- The detection of moves keeps the paths that are named (src/history/diff.ts).
use supabash_fs.History.Records.{RevisionEntry}
use supabash_fs.Core.Entries.{sort_by_path}
use supabash_fs.Core.Tracked.Staging.{any-sort}
use supabash_fs.Prelude.Dict.{Dict}
use supabash_fs.Prelude.{
  ===_iff, All, Bool, List, Option, Ordering, Text, [], any, any-append, ap, ap₂, arith, false,
  find_first, if◌then◌else◌, includes, keep, none, none-some, not, not_both, refl, some, some_inj,
  subst, sym, true, ◌&&◌, ◌++◌, ◌===◌, ◌||◌, ◌∙◌, ◌∷◌, ◌≡◌,
}
use supabash_fs.History.Diff.{
  Moves, RevisionDiffEntry, detect_moves, find_moves, is_added, is_deleted, matching, move_of,
  no_moves, with_move,
}

abbrev pub source_is : Option Text → Text → Bool
source_is none p = false
source_is (some source) p = source === p

-- An entry names its path, and a move the path that it comes from too.
abbrev pub names : Text → RevisionDiffEntry → Bool
names p entry = entry.path === p || source_is entry.move_from p

abbrev pub at_path : Text → RevisionDiffEntry → Bool
at_path p entry = entry.path === p

-- No move yet
abbrev pub Plain : RevisionDiffEntry → Type 0
Plain entry = entry.move_from ≡ none

pub or_later : (a b : Bool) → b ≡ true → (a || b) ≡ true
or_later a b h = ground (arith)

found_within :
    (q : RevisionDiffEntry → Bool) (test : RevisionDiffEntry → Bool)
    (entries : List RevisionDiffEntry) (found : RevisionDiffEntry)
    → find_first q entries ≡ some found
    → test found ≡ true
    → any test entries ≡ true
found_within q test [] found e h = absurd (none-some e)
found_within q test (x ∷ xs) found e h =
    chosen (q x) e (λ later. found_within q test xs found later h)
  where
    chosen :
        (here : Bool)
        → (if here then some x else find_first q xs) ≡ some found
        → (find_first q xs ≡ some found → any test xs ≡ true)
        → (test x || any test xs) ≡ true
    chosen true same rest =
        ap (λ b. b || any test xs) (subst (λ y. test y ≡ true) (sym (some_inj same)) h)
    chosen false later rest = or_later (test x) (any test xs) (rest later)

any-keep-any :
    (test q : RevisionDiffEntry → Bool) (entries : List RevisionDiffEntry)
    → any test (keep q entries) ≡ true
    → any test entries ≡ true
any-keep-any test q [] h = h
any-keep-any test q (x ∷ xs) h = ground (arith, any-keep-any test q xs)

unconsumed :
    (consumed : List Text) (entries : List RevisionDiffEntry) (p : Text)
    → All Plain entries
    → any (names p) (keep (λ (e : RevisionDiffEntry). not (includes consumed e.path)) entries)
      ≡ (any (at_path p) entries && not (includes consumed p))
unconsumed consumed [] p h = refl
unconsumed consumed (x ∷ xs) p (plain, h) =
    kept (not (includes consumed x.path))
      (λ same. ap (λ q. not (includes consumed q)) ((===_iff x.path p).0 same))
      (unconsumed consumed xs p h)
  where
    named : names p x ≡ (x.path === p)
    named = ap (λ o. x.path === p || source_is o p) plain ∙ or_none (x.path === p)
      where
        or_none : (b : Bool) → (b || false) ≡ b
        or_none true = refl
        or_none false = refl

    joined :
        (n here found out : Bool)
        → n ≡ here
        → (here ≡ true → out ≡ true)
        → (n || (found && out)) ≡ ((here || found) && out)
    joined n here found out e h = ground (arith)

    apart :
        (here found out : Bool)
        → (here ≡ true → out ≡ false)
        → (found && out) ≡ ((here || found) && out)
    apart here found out h = ground (arith)

    kept :
        (b : Bool)
        → ((x.path === p) ≡ true → b ≡ not (includes consumed p))
        → any (names p) (keep (λ (e : RevisionDiffEntry). not (includes consumed e.path)) xs)
          ≡ (any (at_path p) xs && not (includes consumed p))
        → any (names p) (
            if b
            then x ∷ keep (λ (e : RevisionDiffEntry). not (includes consumed e.path)) xs
            else keep (λ (e : RevisionDiffEntry). not (includes consumed e.path)) xs)
          ≡ ((x.path === p || any (at_path p) xs) && not (includes consumed p))
    kept true same rest =
        ap (λ b. names p x || b) rest
        ∙ joined (names p x) (x.path === p) (any (at_path p) xs) (not (includes consumed p)) named
            (λ here. sym (same here))
    kept false same rest =
        rest
        ∙ apart (x.path === p) (any (at_path p) xs) (not (includes consumed p))
            (λ here. sym (same here))

-- The moves found name the paths that they consumed, which are paths of entries.
record Sound (entries : List RevisionDiffEntry) (found : Moves) (p : Text) : Type 0 where
  moved : any (names p) found.moves ≡ includes found.consumed p
  within : includes found.consumed p ≡ true → any (at_path p) entries ≡ true

module _ (before after : Dict RevisionEntry) (entries : List RevisionDiffEntry) (p : Text) where
  named_pair : (a b c : Bool) → (c || ((a || b) || false)) ≡ (a || (b || c))
  named_pair a b c = ground (arith)

  with_move-Sound :
      (found : Moves) (removed : RevisionDiffEntry) (new : Option RevisionDiffEntry)
      → Sound entries found p
      → (at_path p removed ≡ true → any (at_path p) entries ≡ true)
      → ((e : RevisionDiffEntry)
          → new ≡ some e
          → at_path p e ≡ true
          → any (at_path p) entries ≡ true)
      → Sound entries (with_move found removed new) p
  with_move-Sound found removed none s r n = record { moved = s.moved; within = s.within }
  with_move-Sound found removed (some new) s r n = record {
    moved =
        any-append (names p) found.moves (move_of removed new ∷ [])
        ∙ ap (λ c. c || ((new.path === p || removed.path === p) || false)) s.moved
        ∙ named_pair (new.path === p) (removed.path === p) (includes found.consumed p);
    within = λ h.
        cases (new.path === p) (removed.path === p) (includes found.consumed p) h (n new refl) r
          s.within;
  }
    where
      cases :
          (a b c : Bool)
          → (a || (b || c)) ≡ true
          → (a ≡ true → any (at_path p) entries ≡ true)
          → (b ≡ true → any (at_path p) entries ≡ true)
          → (c ≡ true → any (at_path p) entries ≡ true)
          → any (at_path p) entries ≡ true
      cases true b c h x y z = x refl
      cases false true c h x y z = y refl
      cases false false c h x y z = z h

  find_moves-Sound :
      (additions : List RevisionDiffEntry) (found : Moves) (removals : List RevisionDiffEntry)
      → Sound entries found p
      → (any (at_path p) removals ≡ true → any (at_path p) entries ≡ true)
      → (any (at_path p) additions ≡ true → any (at_path p) entries ≡ true)
      → Sound entries (find_moves before after additions found removals) p
  find_moves-Sound additions found [] s r a = s
  find_moves-Sound additions found (removed ∷ rest) s r a =
      let new = find_first (matching before after found.consumed removed) additions in
      find_moves-Sound additions (with_move found removed new) rest
        (with_move-Sound found removed new s (λ h. r (ap (λ b. b || any (at_path p) rest) h))
          (λ e chosen h. a (
            found_within (matching before after found.consumed removed) (at_path p) additions e
              chosen h)))
        (λ h. r (or_later (at_path p removed) (any (at_path p) rest) h)) a

  pub detect_moves-names :
      (compare_paths : Text → Text → Ordering)
      → All Plain entries
      → any (names p) (detect_moves before after compare_paths entries) ≡ any (at_path p) entries
  unfolding detect_moves sort_by_path
  detect_moves-names compare_paths plain =
      let found =
        find_moves before after (keep is_added entries) no_moves (keep is_deleted entries) in
      let sound =
        find_moves-Sound (keep is_added entries) no_moves (keep is_deleted entries)
          (record { moved = refl; within = λ h. absurd (not_both h refl) })
          (any-keep-any (at_path p) is_deleted entries)
          (any-keep-any (at_path p) is_added entries) in
      let left = keep (λ (e : RevisionDiffEntry). not (includes found.consumed e.path)) entries in
      any-sort _ (names p) (left ++ found.moves)
      ∙ any-append (names p) left found.moves
      ∙ ap₂ (λ a b. a || b) (unconsumed found.consumed entries p plain) sound.moved
      ∙ whole (any (at_path p) entries) (includes found.consumed p) sound.within
    where
      whole : (a c : Bool) → (c ≡ true → a ≡ true) → ((a && not c) || c) ≡ a
      whole a true h = ground (arith, h refl)
      whole a false h = ground (arith)
