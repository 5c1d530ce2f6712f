-- ===== src/History/Snapshot/Laws.antt =====
-- What `overlayByPath` of src/history/snapshot.ts keeps at each path.
use supabash_fs.Prelude.{
  ===_iff, Bool-cases, List, Option, Text, [], ap, arith, if◌then◌else◌, includes, inl, inr, keep,
  none, refl, some, sym, ◌===◌, ◌∙◌, ◌∷◌, ◌≡◌,
}
use supabash_fs.Prelude.Dict.{Dict, delete, get, get-delete, get-set, of_entries, set, values}
use supabash_fs.History.Snapshot.{by_path_pairs, delete_all, overlay_by_path}

abbrev pub to_list {ℓ} : {A : Type ℓ} → Option A → List A
to_list none = []
to_list (some a) = a ∷ []

-- The first that there is.
abbrev pub first_of {ℓ} : {A : Type ℓ} → Option A → Option A → Option A
first_of none b = b
first_of (some a) b = some a

module _ {A : Type 0} (path : A → Text) where
  -- The last item at a path, or else what `start` gives.
  abbrev pub last_at : Option A → List A → Text → Option A
  last_at start [] p = start
  last_at start (x ∷ xs) p = last_at (if path x === p then some x else start) xs p

  abbrev pub Keyed : Dict A → Type 0
  Keyed [] = Unit
  Keyed ((k, v) ∷ m) = (path v ≡ k) × (get m k ≡ none) × Keyed m

  set-Keyed : (m : Dict A) (v : A) → Keyed m → Keyed (set m (path v) v)
  unfolding set
  set-Keyed [] v h = unfold get in (refl, refl, tt)
  set-Keyed ((k, w) ∷ m) v (e, n, h) = elim (Bool-cases (k === path v)) [
    | inl q ↦ rw q (sym ((===_iff k (path v)).0 q), n, h)
    | inr q ↦ rw q (
      e,
      get-set m (path v) k v ∙ ground (arith, ===_iff k (path v), ===_iff (path v) k),
      set-Keyed m v h,
    )
  ]

  delete-Keyed : (m : Dict A) (p : Text) → Keyed m → Keyed (delete m p)
  unfolding delete
  delete-Keyed [] p h = tt
  delete-Keyed ((k, w) ∷ m) p (e, n, h) = elim (Bool-cases (k === p)) [
    | inl q ↦ rw q (delete-Keyed m p h)
    | inr q ↦ rw q (e, get-delete m p k ∙ ground (arith, n), delete-Keyed m p h)
  ]

  pub of_entries-Keyed :
      (m : Dict A) (xs : List A) → Keyed m → Keyed (of_entries m (by_path_pairs path xs))
  unfolding of_entries
  of_entries-Keyed m [] h = h
  of_entries-Keyed m (x ∷ xs) h = of_entries-Keyed (set m (path x) x) xs (set-Keyed m x h)

  delete_all-Keyed : (m : Dict A) (ps : List Text) → Keyed m → Keyed (delete_all path m ps)
  delete_all-Keyed m [] h = h
  delete_all-Keyed m (p ∷ ps) h = delete_all-Keyed (delete m p) ps (delete-Keyed m p h)

  pub get-of_entries :
      (m : Dict A) (xs : List A) (p : Text)
      → get (of_entries m (by_path_pairs path xs)) p ≡ last_at (get m p) xs p
  unfolding of_entries
  get-of_entries m [] p = refl
  get-of_entries m (x ∷ xs) p =
      get-of_entries (set m (path x) x) xs p ∙ ap (λ o. last_at o xs p) (get-set m (path x) p x)

  get-delete_all :
      (m : Dict A) (ps : List Text) (p : Text)
      → get (delete_all path m ps) p ≡ (if includes ps p then none else get m p)
  get-delete_all m [] p = refl
  get-delete_all m (q ∷ ps) p =
      get-delete_all (delete m q) ps p ∙ rw (get-delete m q p) (ground arith)

  pub get-Keyed : (m : Dict A) (p : Text) {v : A} → Keyed m → get m p ≡ some v → path v ≡ p
  unfolding get
  get-Keyed [] p h e = cc
  get-Keyed ((k, w) ∷ m) p (q, n, h) e = elim (Bool-cases (k === p)) [
    | inl t ↦ cc (rw t at e, q, (===_iff k p).0 t)
    | inr t ↦ get-Keyed m p h (rw t at e)
  ]

  get-empty : (p : Text) → get {V = A} [] p ≡ none
  unfolding get
  get-empty p = refl

  values-at :
      (m : Dict A) (p : Text) → Keyed m → keep (λ x. path x === p) (values m) ≡ to_list (get m p)
  unfolding get
  values-at [] p h = refl
  values-at ((k, v) ∷ m) p (e, n, h) = elim (Bool-cases (k === p)) [
    | inl q ↦ rw (e, q, values-at m p h, sym ((===_iff k p).0 q), n) refl
    | inr q ↦ rw (e, q) (values-at m p h)
  ]

  -- At each path the new tree has the last upsert of the path, or else, unless the path is deleted,
  -- the last entry of the baseline, and nothing more.
  pub overlay_by_path-at :
      (baseline : List A) (deletions : List Text) (upserts : List A) (p : Text)
      → keep (λ x. path x === p) (overlay_by_path path baseline deletions upserts)
        ≡ to_list
            (last_at (if includes deletions p then none else last_at none baseline p) upserts p)
  unfolding overlay_by_path
  overlay_by_path-at baseline deletions upserts p =
      let before = of_entries [] (by_path_pairs path baseline) in
      let left = delete_all path before deletions in
      values-at (of_entries left (by_path_pairs path upserts)) p (
        of_entries-Keyed left upserts
          (delete_all-Keyed before deletions (of_entries-Keyed [] baseline tt)))
      ∙ ap to_list (
          get-of_entries left upserts p
          ∙ ap (λ o. last_at o upserts p)
              (get-delete_all before deletions p
                ∙ ap (λ o. if includes deletions p then none else o)
                    (get-of_entries [] baseline p ∙ ap (λ o. last_at o baseline p) (get-empty p))))
