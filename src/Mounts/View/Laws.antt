-- ===== src/Mounts/View/Laws.antt =====
-- What a view hands on to the inner file system (src/core/filesystem-view.ts).
use supabash_fs.Core.Path.Move.{parent_virtual_path-render}
use supabash_fs.Core.Path.Canonical.{IsCanonical, IsSegment}
use supabash_fs.Prelude.Tests.{Bool-cases, if◌then◌else◌, not_both}
use supabash_fs.Mounts.Guard.{
  MountedCall, append_file, chmod, cp, mkdir, mv, null_device, rm, utimes, write_file,
}
use supabash_fs.Prelude.{
  ===_iff, ===_refl, >>=-eq-ok, All, All-left, Bool, List, Result, SupabashError, Text, [], any, ap,
  append_assoc, arith, err, false, inl, inr, join, length, length-append, ok, ok_inj, refl, some,
  starts_with, starts_with-append, subst, suc, sym, throw_if, true, zero, ℕ, ◌++◌, ◌<◌, ◌===◌, ◌||◌,
  ◌∙◌, ◌∷◌, ◌≡◌, ◌≤◌, ◌⊎◌,
}
use supabash_fs.Core.Path.{parent_virtual_path, render, root_path, slash}
use supabash_fs.Mounts.View.{
  FileSystemView, InnerFiles, Run, assert_real, assert_visible, check_candidates, checked,
  checked_for_access, checked_tree, climb, denied, followed_by, inside, to_inner_path, trunk,
  view_call, view_path, visible_actual_path, visited, walk,
}

-- `path` is `root`, or what is below it.
pub data Below (path root : Text) : Type 0 where
  itself : path ≡ root → Below path root
  deeper : (rest : Text) → path ≡ trunk root ++ slash ∷ rest → Below path root

starts_with-rest : (s t : Text) → starts_with s t ≡ true → (rest : Text) × (s ≡ t ++ rest)
unfolding starts_with
starts_with-rest s [] h = (s, refl)
starts_with-rest [] (d ∷ t) h = ground (arith, h)
starts_with-rest (c ∷ s) (d ∷ t) h =
    let (rest, e) = starts_with-rest s t (ground arith) in (rest, ground (arith, e))

inside-Below : (path root : Text) → inside path root ≡ true → Below path root
unfolding inside
inside-Below path root h = elim (Bool-cases (path === root)) [
  | inl e ↦ itself ((===_iff path root).0 e)
  | inr e ↦
      let t = trunk root ++ slash ∷ [] in
      let found : starts_with path t ≡ true = ground (arith, h, e) in
      let (rest, q) = starts_with-rest path t found in
      deeper rest (q ∙ append_assoc (trunk root) (slash ∷ []) rest)
]

Below-inside : (path root : Text) → Below path root → inside path root ≡ true
unfolding inside
Below-inside path root (itself e) = ground (arith, (===_iff path root).1 e)
Below-inside path root (deeper rest e) =
    let s = starts_with-append (trunk root ++ slash ∷ []) rest in
    ground (
      arith,
      subst (λ p. starts_with p (trunk root ++ slash ∷ []) ≡ true)
          (append_assoc (trunk root) (slash ∷ []) rest ∙ sym e) s,
    )

any-refutes :
    (test : Text → Bool) (P : Text → Type 0) (hidden : List Text)
    → ((h : Text) → P h → test h ≡ true)
    → any test hidden ≡ false
    → All (λ h. ¬ P h) hidden
any-refutes test P [] holds h = tt
any-refutes test P (x ∷ xs) holds h = (
  (λ p. not_both (holds x p) (ground (arith, h))),
  any-refutes test P xs holds (ground (arith, h)),
)

module _ (inner : InnerFiles) (view : FileSystemView) where
  -- A path that a view may show.
  pub record Visible (path : Text) : Type 0 where
    pub placed : (path ≡ null_device) ⊎ Below path view.root
    pub apart : All (λ hidden. ¬ Below path hidden) view.hidden_roots

  -- The first of `path` and its parents that exists, if one does within the root, is in truth a visible
  -- path.
  pub data Arrives : Text → Type 0 where
    existing :
        (path real : Text)
        → inner.exists path ≡ ok true
        → inner.realpath path ≡ ok real
        → Visible real
        → Arrives path
    topmost :
        (path : Text)
        → inner.exists path ≡ ok false
        → (path ≡ view.root) ⊎ (path ≡ root_path)
        → Arrives path
    above :
        (path parent : Text)
        → inner.exists path ≡ ok false
        → parent_virtual_path path ≡ ok parent
        → Arrives parent
        → Arrives path

  pub record Reached (path : Text) : Type 0 where
    pub visible : Visible path
    pub arrives : (path ≡ null_device) ⊎ Arrives path

  -- A visible path that is not above a hidden root.
  pub record WholeTree (path : Text) : Type 0 where
    pub reached : Reached path
    pub none_hidden : All (λ hidden. ¬ Below hidden path) view.hidden_roots

  -- Every path of a call is reached, and those of a call on trees with all that is below.
  unfoldable pub Confined : {O : Type 0} → MountedCall O → Type 0
  Confined (append_file path content options) = Reached path
  Confined (write_file path content options) = Reached path
  Confined (chmod path mode) = Reached path
  Confined (mkdir path options) = Reached path
  Confined (utimes path accessed modified) = Reached path
  Confined (rm path options) = WholeTree path
  Confined (cp source destination options) = WholeTree source × WholeTree destination
  Confined (mv source destination) = WholeTree source × WholeTree destination

  visible_actual_path-Visible :
      (path : Text) → visible_actual_path inner view path ≡ true → Visible path
  unfolding visible_actual_path
  visible_actual_path-Visible path h = record {
    placed = elim (Bool-cases (path === null_device)) [
      | inl e ↦ inl ((===_iff path null_device).0 e)
      | inr e ↦ inr (inside-Below path view.root (ground (arith, h, e)))
    ];
    apart =
        any-refutes (inside path) (Below path) view.hidden_roots (Below-inside path)
          (ground (arith, h));
  }

  -- `assert_visible`, when it passes
  assert_visible-Visible : (path : Text) → assert_visible inner view path ≡ ok tt → Visible path
  assert_visible-Visible path h = visible_actual_path-Visible path (ground (arith, h))

-- A run that is not out of fuel, and that returns only what `P` holds of.
pub data Settles {A : Type 0} (P : A → Type 0) : Run A → Type 0 where
  thrown : (e : SupabashError) → Settles P (some (err e))
  returned : (a : A) → P a → Settles P (some (ok a))

module _ {A B : Type 0} {P : A → Type 0} {Q : B → Type 0} where
  followed_by-Settles :
      (m : Run A) (f : A → Run B)
      → Settles P m
      → ((a : A) → P a → Settles Q (f a))
      → Settles Q (followed_by m f)
  followed_by-Settles _ f (thrown e) next = thrown e
  followed_by-Settles _ f (returned a p) next = next a p

settles :
    {A : Type 0} {P : A → Type 0} (r : Result A) → ((a : A) → r ≡ ok a → P a) → Settles P (some r)
settles (err e) h = thrown e
settles (ok a) h = returned a (h a refl)

module _ {A : Type 0} {P Q : A → Type 0} where
  Settles-map : (m : Run A) → ((a : A) → P a → Q a) → Settles P m → Settles Q m
  Settles-map _ f (thrown e) = thrown e
  Settles-map _ f (returned a p) = returned a (f a p)

module _ {A : Type 0} {P : A → Type 0} where
  choice-Settles :
      (b : Bool) (a : A) (m : Run A)
      → (b ≡ true → P a)
      → (b ≡ false → Settles P m)
      → Settles P (if b then some (ok a) else m)
  choice-Settles true a m stop go = returned a (stop refl)
  choice-Settles false a m stop go = go refl

split_last :
    {A : Type 0} (x : A) (xs : List A) → (parts : List A × A) × (x ∷ xs ≡ parts.0 ++ parts.1 ∷ [])
split_last x [] = (([], x), refl)
split_last x (y ∷ ys) = let ((front, t), e) = split_last y ys in ((x ∷ front, t), ap (λ l. x ∷ l) e)

module _ (inner : InnerFiles) (view : FileSystemView) where
  visited-Settles :
      (path : Text) (further : Text → Run (Unit {0})) (found : Result Bool)
      → inner.exists path ≡ found
      → (found ≡ ok false
          → (path === root_path) ≡ false
          → Settles
              (λ _. Arrives inner view path)
              (climb inner view further (parent_virtual_path path)))
      → Settles (λ _. Arrives inner view path) (visited inner view path further found)
  visited-Settles path further (err e) q next = thrown e
  visited-Settles path further (ok true) q next = settles (assert_real inner view path) (λ _ h.
      let (real, k, v) = >>=-eq-ok (inner.realpath path) (assert_visible inner view) h in
      existing path real q k (assert_visible-Visible inner view real v))
  visited-Settles path further (ok false) q next =
      choice-Settles (path === view.root || path === root_path) tt _
        (λ h. topmost path q (elim (Bool-cases (path === view.root)) [
          | inl e ↦ inl ((===_iff path view.root).0 e)
          | inr e ↦ inr ((===_iff path root_path).0 (ground (arith, h, e)))
        ]))
        (λ h. next refl (ground (arith, h)))

  walk-Settles :
      (n : ℕ) (ss : List Text)
      → All IsSegment ss
      → length ss < n
      → Settles (λ _. Arrives inner view (render ss)) (walk inner view n (render ss))
  unfolding walk render
  walk-Settles zero ss h fuel = absurd (omega arith)
  walk-Settles (suc n) [] h fuel =
      visited-Settles (render []) (walk inner view n) (inner.exists (render [])) refl
        (λ _ k. absurd (not_both (===_refl root_path) k))
  walk-Settles (suc n) (s ∷ rest) h fuel =
      let ss = s ∷ rest in
      let ((front, t), e) = split_last s rest in
      let plain = subst (All IsSegment) e h in
      let parent : parent_virtual_path (render ss) ≡ ok (render front) =
        subst (λ l. parent_virtual_path (render l) ≡ ok (render front)) (sym e)
          (parent_virtual_path-render front t plain) in
      let shorter : length front < n =
        omega (arith, fuel, ap length e, length-append front (t ∷ [])) in
      visited-Settles (render ss) (walk inner view n) (inner.exists (render ss)) refl (λ absent _.
        subst
          (λ r.
            Settles (λ _. Arrives inner view (render ss)) (climb inner view (walk inner view n) r))
          (sym parent)
          (Settles-map _ (λ _ arrived. above (render ss) (render front) absent parent arrived)
            (walk-Settles n front (All-left IsSegment front (t ∷ []) plain) shorter)))

length-join : (s : Text) (ss : List Text) → length ss ≤ length (join slash (s ∷ ss))
unfolding join
length-join s [] = omega arith
length-join s (t ∷ ss) =
    omega (arith, length-join t ss, length-append s (slash ∷ join slash (t ∷ ss)))

length-render : (ss : List Text) → length ss ≤ length (render ss)
unfolding render
length-render [] = omega arith
length-render (s ∷ ss) = omega (arith, length-join s ss)

if_ok :
    {A : Type 0} (b : Bool) {x y : Result A} {a : A}
    → (if b then x else y) ≡ ok a
    → ((b ≡ true) × (x ≡ ok a)) ⊎ (y ≡ ok a)
if_ok true h = inl (refl, h)
if_ok false h = inr h

-- What the tracked file system returns from `resolvePath`
pub record ResolvesCanonical (inner : InnerFiles) : Type 0 where
  pub at :
      (base path resolved : Text)
      → inner.resolve_path base path ≡ ok resolved
      → IsCanonical resolved

module _ (inner : InnerFiles) (view : FileSystemView) (resolves : ResolvesCanonical inner) where
  to_inner_path-IsCanonical :
      (root path actual : Text)
      → to_inner_path inner root path ≡ ok actual
      → (actual ≡ null_device) ⊎ IsCanonical actual
  unfolding to_inner_path
  to_inner_path-IsCanonical root path actual h = elim (if_ok (path === null_device) h) [
    | inl p ↦ inl (sym (ok_inj p.1) ∙ (===_iff path null_device).0 p.0)
    | inr k ↦ inr (elim (if_ok (root === root_path) k) [
      | inl p ↦ resolves.at _ _ actual p.1
      | inr l ↦ resolves.at _ _ actual l
    ])
  ]

  checked-Visible :
      (path actual : Text)
      → checked inner view path ≡ ok actual
      → Visible inner view actual × ((actual ≡ null_device) ⊎ IsCanonical actual)
  unfolding checked
  checked-Visible path actual h =
      let (seen, _, k) = >>=-eq-ok (view_path inner root_path path) _ h in
      let (found, l, m) = >>=-eq-ok (to_inner_path inner view.root seen) _ k in
      let (_, v, e) = >>=-eq-ok (assert_visible inner view found) _ m in
      let same : found ≡ actual = ok_inj e in
      (
        subst (Visible inner view) same (assert_visible-Visible inner view found v),
        to_inner_path-IsCanonical view.root seen actual
            (subst (λ p. to_inner_path inner view.root seen ≡ ok p) same l),
      )

  walk_canonical :
      (actual : Text)
      → IsCanonical actual
      → Settles (λ _. Arrives inner view actual) (walk inner view (suc (length actual)) actual)
  walk_canonical actual c =
      let ss = c.segments in
      subst (λ p. Settles (λ _. Arrives inner view p) (walk inner view (suc (length actual)) p))
        (sym c.rendered)
        (walk-Settles inner view (suc (length actual)) ss c.plain
          (omega (arith, ap length c.rendered, length-render ss)))

  checked_for_access-Reached :
      (path : Text) → Settles (Reached inner view) (checked_for_access inner view path)
  unfolding checked_for_access
  checked_for_access-Reached path =
      followed_by-Settles (some (checked inner view path)) _
        (settles (checked inner view path) (checked-Visible path))
        (λ actual p.
          choice-Settles (actual === null_device) actual _
            (λ h. record { visible = p.0; arrives = inl ((===_iff actual null_device).0 h) })
            (λ h. elim p.1 [
              | inl e ↦ absurd (not_both ((===_iff actual null_device).1 e) h)
              | inr c ↦
                  followed_by-Settles _ _ (walk_canonical actual c)
                    (λ _ arrived. returned actual (record { visible = p.0; arrives = inr arrived }))
            ]))

  checked_tree-WholeTree :
      (path : Text) → Settles (WholeTree inner view) (checked_tree inner view path)
  unfolding checked_tree
  checked_tree-WholeTree path =
      followed_by-Settles (checked_for_access inner view path) _ (checked_for_access-Reached path)
        (λ actual r. settles _ (λ out h.
          let (_, _, k) = >>=-eq-ok (check_candidates inner view actual inner.get_all_paths) _ h in
          let (_, open_, e) =
            >>=-eq-ok
              (throw_if (any (λ hidden. inside hidden actual) view.hidden_roots) (denied path)) _
              k in
          subst (WholeTree inner view) (ok_inj e) (record {
            reached = r;
            none_hidden =
                any-refutes (λ hidden. inside hidden actual) (λ hidden. Below hidden actual)
                  view.hidden_roots (λ hidden. Below-inside hidden actual) (ground (arith, open_));
          })))

  -- When inner paths are canonical, a changing call on a view ends: it throws, or makes a call on the
  -- inner file system of which every path is the null device or within the root, in no hidden root, and
  -- leads through links to such a path; below the paths of a move, a copy or a removal no root is hidden.
  pub view_call-Confined :
      {O : Type 0} (call : MountedCall O)
      → Settles (Confined inner view) (view_call inner view call)
  unfolding view_call Confined
  view_call-Confined (append_file path content options) =
      followed_by-Settles _ _ (checked_for_access-Reached path) (λ p r. returned _ r)
  view_call-Confined (write_file path content options) =
      followed_by-Settles _ _ (checked_for_access-Reached path) (λ p r. returned _ r)
  view_call-Confined (chmod path mode) =
      followed_by-Settles _ _ (checked_for_access-Reached path) (λ p r. returned _ r)
  view_call-Confined (mkdir path options) =
      followed_by-Settles _ _ (checked_for_access-Reached path) (λ p r. returned _ r)
  view_call-Confined (utimes path accessed modified) =
      followed_by-Settles _ _ (checked_for_access-Reached path) (λ p r. returned _ r)
  view_call-Confined (rm path options) =
      followed_by-Settles _ _ (checked_tree-WholeTree path) (λ p r. returned _ r)
  view_call-Confined (cp source destination options) =
      followed_by-Settles _ _ (checked_tree-WholeTree source) (λ p r.
        followed_by-Settles _ _ (checked_tree-WholeTree destination) (λ q t. returned _ (r, t)))
  view_call-Confined (mv source destination) =
      followed_by-Settles _ _ (checked_tree-WholeTree source) (λ p r.
        followed_by-Settles _ _ (checked_tree-WholeTree destination) (λ q t. returned _ (r, t)))
