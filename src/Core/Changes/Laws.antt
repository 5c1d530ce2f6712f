-- ===== src/Core/Changes/Laws.antt =====
-- What the changes of src/core/workspace-changes.ts report.
use supabash_fs.Core.Tracked.Staging.{any-sort}
use supabash_fs.Prelude.{
  ===_iff, >>=-eq-ok, Bool, List, Ordering, Result, Text, [], any, any-append, ap, ap₂, arith, each,
  includes, keep, map, not, ok, ok_inj, refl, same_option, some, sym, ◌++◌, ◌===◌, ◌>>=◌, ◌||◌, ◌∙◌,
  ◌∷◌, ◌≡◌,
}
use supabash_fs.Core.Entries.{
  PendingChanges, PendingMove, RemoteEntry, WorkspaceEntryKind, sort_by_path,
}
use supabash_fs.Core.Changes.{
  WorkspaceChange, bare_change, change_for_delete, move_change, moved_from, moved_to,
  preview_workspace_changes, upsert_change,
}

-- The change names the path, as its own or as the source of a move.
abbrev pub names : WorkspaceChange → Text → Bool
names c p = c.path === p || same_option ◌===◌ c.move_from (some p)

-- The path is deleted, upserted, or an end of a move.
abbrev pub touches : PendingChanges → Text → Bool
touches pending p =
    any (λ (m : PendingMove). m.to === p || m.from === p) pending.moves
    || (any (λ (e : RemoteEntry). e.path === p) pending.deletions || includes pending.upserts p)

any-each :
    {A B : Type 0} (f : A → Result B) (q : B → Bool) (p : A → Bool) (xs : List A) {ys : List B}
    → ((x : A) (y : B) → f x ≡ ok y → q y ≡ p x)
    → each f xs ≡ ok ys
    → any q ys ≡ any p xs
any-each f q p [] h e = rw (sym (ok_inj e)) refl
any-each f q p (x ∷ xs) h e =
    let (y, fx, e1) = >>=-eq-ok (f x) _ e in
    let (ys, fxs, e2) = >>=-eq-ok (each f xs) _ e1 in
    rw (sym (ok_inj e2)) (ap₂ ◌||◌ (h x y fx) (any-each f q p xs h fxs))

any-map {ℓ κ} :
    {A : Type ℓ} {B : Type κ} (f : A → B) (q : B → Bool) (xs : List A)
    → any q (map f xs) ≡ any (λ x. q (f x)) xs
any-map f q [] = refl
any-map f q (x ∷ xs) = rw (any-map f q xs) refl

-- Items that a filter by path leaves out, for paths that `taken` has.
any-keep :
    {A : Type 0} (path : A → Text) (taken : Text → Bool) (p : Text) (xs : List A)
    → (any (λ x. path x === p) (keep (λ x. not (taken (path x))) xs) || taken p)
      ≡ (any (λ x. path x === p) xs || taken p)
any-keep path taken p [] = refl
any-keep path taken p (x ∷ xs) = ground (arith, any-keep path taken p xs, ===_iff (path x) p)

delete-names :
    (p : Text) (es : List RemoteEntry)
    → any (λ e. names (change_for_delete e) p) es ≡ any (λ (e : RemoteEntry). e.path === p) es
unfolding change_for_delete
delete-names p [] = refl
delete-names p (e ∷ es) = ground (arith, delete-names p es)

any_or :
    (p : Text) (ms : List PendingMove)
    → any (λ (m : PendingMove). m.to === p || m.from === p) ms
      ≡ (any (λ (m : PendingMove). m.to === p) ms || any (λ (m : PendingMove). m.from === p) ms)
any_or p [] = refl
any_or p (m ∷ ms) = ground (arith, any_or p ms)

move-names :
    (kind_of : Text → Result WorkspaceEntryKind) (p : Text) (m : PendingMove) (y : WorkspaceChange)
    → (kind_of m.to >>= λ kind. ok (record (bare_change move_change kind m.to) {
      move_from = some m.from;
      move_to = some m.to;
    }))
      ≡ ok y
    → names y p ≡ (m.to === p || m.from === p)
move-names kind_of p m y e =
    let (kind, k, e1) = >>=-eq-ok (kind_of m.to) _ e in rw (sym (ok_inj e1)) refl

upsert-names :
    (kind_of : Text → Result WorkspaceEntryKind) (p path : Text) (y : WorkspaceChange)
    → (kind_of path >>= λ kind. ok (bare_change upsert_change kind path)) ≡ ok y
    → names y p ≡ path === p
upsert-names kind_of p path y e =
    let (kind, k, e1) = >>=-eq-ok (kind_of path) _ e in rw (sym (ok_inj e1)) (ground arith)

assemble :
    (a b c x d e f g h i : Bool)
    → a ≡ x
    → x ≡ (d || e)
    → b ≡ f
    → c ≡ g
    → (f || e) ≡ (h || e)
    → (g || d) ≡ (i || d)
    → (a || (b || c)) ≡ (x || (h || i))
assemble a b c x d e f g h i o p q r s t = ground arith

-- The preview of a commit hides nothing and invents nothing: when it returns, a path is named by one
-- of its changes exactly when it is pending as a deletion, an upsert or an end of a move.
pub preview-names :
    (compare_paths : Text → Text → Ordering) (pending : PendingChanges)
    (kind_of : Text → Result WorkspaceEntryKind) {changes : List WorkspaceChange} (p : Text)
    → preview_workspace_changes compare_paths pending kind_of ≡ ok changes
    → any (λ c. names c p) changes ≡ touches pending p
unfolding preview_workspace_changes sort_by_path
preview-names compare_paths pending kind_of p e =
    let (moves, ms, e1) = >>=-eq-ok (each _ pending.moves) _ e in
    let (upserts, us, e2) =
      >>=-eq-ok (each _ (keep (λ path. not (moved_to pending path)) pending.upserts)) _ e1 in
    let deletions = keep (λ (r : RemoteEntry). not (moved_from pending r.path)) pending.deletions in
    let a =
      any-each _ (λ c. names c p) (λ (m : PendingMove). m.to === p || m.from === p) pending.moves
        (move-names kind_of p) ms in
    let b =
      any-each _ (λ c. names c p) (λ path. path === p)
        (keep (λ path. not (moved_to pending path)) pending.upserts) (upsert-names kind_of p) us in
    rw (sym (ok_inj e2)) (
      any-sort _ (λ c. names c p) (moves ++ (map change_for_delete deletions ++ upserts))
      ∙ any-append (λ c. names c p) moves (map change_for_delete deletions ++ upserts)
      ∙ ap (λ t. any (λ c. names c p) moves || t)
          (any-append (λ c. names c p) (map change_for_delete deletions) upserts)
      ∙ assemble _ _ _ _ _ _ _ _ _ _ a (any_or p pending.moves)
          (any-map change_for_delete (λ c. names c p) deletions ∙ delete-names p deletions) b
          (any-keep (λ (r : RemoteEntry). r.path) (moved_from pending) p pending.deletions)
          (any-keep (λ path. path) (moved_to pending) p pending.upserts))
