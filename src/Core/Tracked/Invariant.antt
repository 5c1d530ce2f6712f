-- ===== src/Core/Tracked/Invariant.antt =====
-- What the bookkeeping keeps true, whatever the order of the calls (src/core/tracked-inspection.ts).
use supabash_fs.Core.Path.{normalize_virtual_path, parent_paths}
use supabash_fs.Prelude.{
  ===_iff, ===_refl, >>=-eq-ok, Bool, Bool-cases, List, Option, Option-cases, Text, [], any-append,
  arith, false, if◌then◌else◌, includes, inl, inr, none, not, ok, ok_inj, refl, some, subst, true,
  ◌&&◌, ◌===◌, ◌||◌, ◌∷◌, ◌≡◌,
}
use supabash_fs.Prelude.Dict.{Dict, delete, get, get-delete, get-set, has, set}
use supabash_fs.Core.Entries.{RemoteEntry, WorkspaceEntryKind, directory}
use supabash_fs.Core.Tracked.State.{
  Tracking, add, deleted, moves_after, record_deletion, record_move, record_upsert, remove,
  set_directories, set_some, source_of, upserted, without_target,
}

-- A deletion is an entry of the baseline; no path is both upserted and deleted; an upserted path
-- has a kind; and where the bookkeeping is exact, a path of the baseline is live or deleted, and a move
-- starts at a path of the baseline. A new baseline of `refreshBaseline` makes it inexact.
pub record IsTracked (exact : Bool) (t : Tracking) : Type 0 where
  pub stored : (p : Text) (e : RemoteEntry) → get t.deletions p ≡ some e → get t.baseline p ≡ some e
  pub apart : (p : Text) → includes t.upserts p ≡ true → has t.deletions p ≡ false
  pub known : (p : Text) → includes t.upserts p ≡ true → has t.kinds p ≡ true
  pub covered :
      exact ≡ true
      → (p : Text) → has t.baseline p ≡ true
      → (has t.kinds p || has t.deletions p) ≡ true
  pub sources : exact ≡ true → (p : Text) → has t.moves p ≡ true → has t.baseline p ≡ true

pub includes-add :
    (xs : List Text) (p q : Text) → includes (add xs p) q ≡ (includes xs q || (p === q))
unfolding add
includes-add xs p q = elim (Bool-cases (includes xs p)) [
  | inl e ↦ rw e (ground (arith, ===_iff p q))
  | inr e ↦ rw (e, any-append (λ t. t === q) xs (p ∷ [])) (ground arith)
]

pub includes-remove :
    (xs : List Text) (p q : Text) → includes (remove xs p) q ≡ (includes xs q && not (p === q))
unfolding remove
includes-remove [] p q = refl
includes-remove (x ∷ xs) p q =
    ground (arith, includes-remove xs p q, ===_iff x p, ===_iff x q, ===_iff p q)

pub has-set_directories :
    (kinds : Dict WorkspaceEntryKind) (ps : List Text) (q : Text)
    → has kinds q ≡ true
    → has (set_directories kinds ps) q ≡ true
unfolding set_directories
has-set_directories kinds [] q h = h
has-set_directories kinds (p ∷ ps) q h =
    has-set_directories (set kinds p directory) ps q (rw get-set (ground arith))

pub has-without_target :
    (moves : Dict Text) (to q : Text) → has (without_target moves to) q ≡ true → has moves q ≡ true
unfolding without_target get
has-without_target [] to q h = h
has-without_target ((from, target) ∷ moves) to q h = ground (arith, has-without_target moves to q)

abbrev first_some : Option RemoteEntry → Option RemoteEntry → Option RemoteEntry
first_some none b = b
first_some (some a) b = some a

get-set_some :
    (m : Dict RemoteEntry) (k p : Text) (o : Option RemoteEntry)
    → get (set_some m k o) p ≡ (if k === p then first_some o (get m p) else get m p)
get-set_some m k p none = ground arith
get-set_some m k p (some e) = get-set m k p e

has-source_of :
    (moves : Dict Text) (to : Text) {origin : Text}
    → source_of moves to ≡ some origin
    → has moves origin ≡ true
unfolding source_of get
has-source_of [] to h = cc
has-source_of ((from, target) ∷ moves) to {origin} h =
    ground (arith, has-source_of moves to {origin = origin}, ===_iff from origin)

moves_after-sources :
    (from to : Text) (t : Tracking)
    → ((p : Text) → has t.moves p ≡ true → has t.baseline p ≡ true)
    → (p : Text) → has (moves_after from to t) p ≡ true
    → has t.baseline p ≡ true
unfolding moves_after
moves_after-sources from to t v p h = elim (Option-cases (source_of t.moves from)) [
  | inl e ↦ ground (arith, get-set t.moves from p to, v p, ===_iff from p)
  | inr (origin, e) ↦ ground (
    arith,
    get-set (delete t.moves origin) origin p to,
    get-delete t.moves origin p,
    v p,
    v origin (has-source_of t.moves from e),
    ===_iff origin p,
  )
]

pub record_upsert-live :
    (path : Text) (kind : WorkspaceEntryKind) (t : Tracking) {t' : Tracking}
    → record_upsert path kind t ≡ ok t'
    → has t'.kinds path ≡ true
unfolding record_upsert
record_upsert-live path kind t e =
    let (parents, _, made) = >>=-eq-ok (parent_paths path) _ e in
    subst (λ t'. has t'.kinds path ≡ true) (ok_inj made)
      (rw (get-set (set_directories t.kinds parents) path path kind, ===_refl path) refl)

module _ {exact : Bool} where
  upserted-IsTracked :
      (path : Text) (kind : WorkspaceEntryKind) (parents : List Text) (t : Tracking)
      → IsTracked exact t
      → IsTracked exact (upserted path kind parents t)
  upserted-IsTracked path kind parents t v = record {
    stored = λ p r h. ground (arith, get-delete t.deletions path p, v.stored p r);
    apart = λ p h.
        ground (arith, get-delete t.deletions path p, includes-add t.upserts path p, v.apart p);
    known = λ p h. ground (
      arith,
      get-set (set_directories t.kinds parents) path p kind,
      includes-add t.upserts path p,
      v.known p,
      has-set_directories t.kinds parents p,
    );
    covered = λ x p h. ground (
      arith,
      get-set (set_directories t.kinds parents) path p kind,
      get-delete t.deletions path p,
      v.covered x p,
      has-set_directories t.kinds parents p,
    );
    sources = v.sources;
  }

  deleted-IsTracked :
      (path : Text) (t : Tracking) → IsTracked exact t → IsTracked exact (deleted path t)
  deleted-IsTracked path t v =
      let entry = get t.baseline path in
      record {
        stored = λ p r h.
            ground (arith, get-set_some t.deletions path p entry, v.stored p r, ===_iff path p);
        apart = λ p h. ground (
          arith,
          get-set_some t.deletions path p entry,
          includes-remove t.upserts path p,
          v.apart p,
        );
        known = λ p h.
            ground (arith, get-delete t.kinds path p, includes-remove t.upserts path p, v.known p);
        covered = λ x p h. ground (
          arith,
          get-set_some t.deletions path p entry,
          get-delete t.kinds path p,
          v.covered x p,
          ===_iff path p,
        );
        sources = λ x p h. v.sources x p (has-without_target t.moves path p h);
      }

  -- `recordUpsert` keeps the bookkeeping in order.
  pub record_upsert-IsTracked :
      (path : Text) (kind : WorkspaceEntryKind) (t : Tracking) {t' : Tracking}
      → IsTracked exact t
      → record_upsert path kind t ≡ ok t'
      → IsTracked exact t'
  unfolding record_upsert
  record_upsert-IsTracked path kind t v e =
      let (parents, _, made) = >>=-eq-ok (parent_paths path) _ e in
      subst (IsTracked exact) (ok_inj made) (upserted-IsTracked path kind parents t v)

  -- So does `recordDeletion`.
  pub record_deletion-IsTracked :
      (path : Text) (t : Tracking) {t' : Tracking}
      → IsTracked exact t
      → record_deletion path t ≡ ok t'
      → IsTracked exact t'
  unfolding record_deletion
  record_deletion-IsTracked path t v e =
      let (normalized, _, made) = >>=-eq-ok (normalize_virtual_path path) _ e in
      subst (IsTracked exact) (ok_inj made) (deleted-IsTracked normalized t v)

  -- So does `recordMove`.
  pub record_move-IsTracked :
      (from to : Text) (t : Tracking) → IsTracked exact t → IsTracked exact (record_move from to t)
  unfolding record_move
  record_move-IsTracked from to t v = record {
    stored = v.stored;
    apart = v.apart;
    known = v.known;
    covered = v.covered;
    sources = λ x p h. moves_after-sources from to t (v.sources x) p h;
  }
