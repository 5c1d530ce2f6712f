-- ===== src/Core/Path/Canonical.antt =====
-- What `normalizeVirtualPath` returns: an absolute path of plain segments (src/core/path.ts).
use supabash_fs.Prelude.{
  >>=-eq-ok, All, All-append, All-drop_last, Bool, Bool-cases, List, Text, [], ambiguous, any, ap,
  append-nil, append_assoc, arith, drop_last, false, includes, inl, inr, is_empty, join, ok, ok_inj,
  refl, split, starts_with, subst, sym, throw_if, ◌++◌, ◌===◌, ◌||◌, ◌∙◌, ◌∷◌, ◌≡◌,
}
use supabash_fs.Core.Path.{
  absolute_segments, dot, dot_dot, encoded_at, has_encoded, is_backslash, is_control, is_slash,
  normalize_virtual_path, path_error, render, reserved_segments, resolve, root_path, slash,
}
use supabash_fs.Core.Path.Segments.{
  dirty, dirty-append, dirty-join, join-split, split-join, split-no_slash, split-slash,
}

-- A segment that a canonical path may hold.
pub record IsSegment (s : Text) : Type 0 where
  pub named : is_empty s ≡ false
  pub not_dot : (s === dot) ≡ false
  pub not_dot_dot : (s === dot_dot) ≡ false
  pub not_reserved : includes reserved_segments s ≡ false
  pub within : any is_slash s ≡ false
  pub clean : dirty s ≡ false

-- A path is canonical if it is the rendering of such segments.
pub record IsCanonical (p : Text) : Type 0 where
  pub segments : List Text
  pub plain : All IsSegment segments
  pub rendered : p ≡ render segments

-- What is known of a segment before the loop looks at it.
abbrev IsRaw : Text → Type 0
IsRaw s = (any is_slash s ≡ false) × (dirty s ≡ false)

resolve-IsSegment :
    (input : Text) (segments rest : List Text) {out : List Text}
    → All IsSegment segments
    → All IsRaw rest
    → resolve input segments rest ≡ ok out
    → All IsSegment out
unfolding resolve
resolve-IsSegment input segments [] {out} h k e = subst (All IsSegment) (ok_inj e) h
resolve-IsSegment input segments (s ∷ rest) h ((w, c), k) e =
    elim (Bool-cases (is_empty s || s === dot)) [
      | inl skip ↦ resolve-IsSegment input segments rest h k (rw skip at e)
      | inr plain ↦ elim (Bool-cases (s === dot_dot)) [
        | inl up ↦
            resolve-IsSegment input (drop_last segments) rest (All-drop_last IsSegment segments h) k
              (ground arith)
        | inr name ↦
            resolve-IsSegment input (segments ++ s ∷ []) rest
              (All-append IsSegment segments (s ∷ []) h (
                record {
                  named = ground arith;
                  not_dot = ground arith;
                  not_dot_dot = name;
                  not_reserved = ground arith;
                  within = w;
                  clean = c;
                },
                tt,
              ))
              k (ground arith)
      ]
    ]

-- The loop keeps plain segments as they are.
pub resolve_of_IsSegment :
    (input : Text) (segments rest : List Text)
    → All IsSegment rest
    → resolve input segments rest ≡ ok (segments ++ rest)
unfolding resolve
resolve_of_IsSegment input segments [] h = rw append-nil
resolve_of_IsSegment input segments (s ∷ rest) (p, h) =
    rw (p.named, p.not_dot, p.not_dot_dot, p.not_reserved)
      (resolve_of_IsSegment input (segments ++ s ∷ []) rest h
        ∙ ap ok (append_assoc segments (s ∷ []) rest))

All-any {ℓ} :
    {A : Type ℓ} (p : A → Bool) (xs : List A) → any p xs ≡ false → All (λ x. p x ≡ false) xs
All-any p [] h = tt
All-any p (x ∷ xs) h = (ground arith, All-any p xs (ground arith))

pub any-All {ℓ} :
    {A : Type ℓ} (p : A → Bool) (xs : List A) → All (λ x. p x ≡ false) xs → any p xs ≡ false
any-All p [] h = refl
any-All p (x ∷ xs) (e, h) = rw (e, any-All p xs h)

All-IsRaw :
    (xs : List Text)
    → All (λ w. any is_slash w ≡ false) xs
    → All (λ w. dirty w ≡ false) xs
    → All IsRaw xs
All-IsRaw [] h k = tt
All-IsRaw (x ∷ xs) (a, h) (b, k) = ((a, b), All-IsRaw xs h k)

pub All-clean : (ss : List Text) → All IsSegment ss → All (λ s. dirty s ≡ false) ss
All-clean [] h = tt
All-clean (s ∷ ss) (p, h) = (p.clean, All-clean ss h)

pub All-within : (ss : List Text) → All IsSegment ss → All (λ s. any is_slash s ≡ false) ss
All-within [] h = tt
All-within (s ∷ ss) (p, h) = (p.within, All-within ss h)

split-IsRaw : (s : Text) → dirty s ≡ false → All IsRaw (split slash s)
split-IsRaw s h =
    All-IsRaw (split slash s) (split-no_slash s) (
      All-any dirty (split slash s)
        (sym (dirty-join (split slash s)) ∙ ap dirty (join-split s) ∙ h))

absolute_segments-IsRaw : (input : Text) → dirty input ≡ false → All IsRaw (absolute_segments input)
unfolding absolute_segments has_encoded encoded_at
absolute_segments-IsRaw input h = elim (Bool-cases (starts_with input root_path)) [
  | inl e ↦ rw e (split-IsRaw input h)
  | inr e ↦ rw e (split-IsRaw (slash ∷ input) (dirty-append [] input ∙ h))
]

-- Success of `normalizeVirtualPath`, taken apart.
pub record Normalizes (input p : Text) : Type 0 where
  pub segments : List Text
  pub clean : dirty input ≡ false
  pub resolved : resolve input [] (absolute_segments input) ≡ ok segments
  pub rendered : p ≡ render segments

pub normalize-Normalizes :
    (input : Text) {p : Text} → normalize_virtual_path input ≡ ok p → Normalizes input p
unfolding normalize_virtual_path
normalize-Normalizes input e =
    let (_, a, e1) = >>=-eq-ok (throw_if (is_empty input) (path_error input ambiguous)) _ e in
    let (_, b, e2) =
      >>=-eq-ok (throw_if (any is_control input) (path_error input ambiguous)) _ e1 in
    let (_, c, e3) =
      >>=-eq-ok
        (throw_if (any is_backslash input || has_encoded input) (path_error input ambiguous)) _
        e2 in
    let (segs, d, e4) = >>=-eq-ok (resolve input [] (absolute_segments input)) _ e3 in
    record { segments = segs; clean = ground arith; resolved = d; rendered = sym (ok_inj e4) }

-- Whatever the input, a normalised path is absolute, and none of its segments is empty, ".", "..",
-- reserved, or holds a slash, a control character, a backslash or an encoded separator.
pub normalize-IsCanonical :
    (input : Text) {p : Text} → normalize_virtual_path input ≡ ok p → IsCanonical p
normalize-IsCanonical input e =
    let n = normalize-Normalizes input e in
    record {
      segments = n.segments;
      plain =
          resolve-IsSegment input [] (absolute_segments input) tt
            (absolute_segments-IsRaw input n.clean) n.resolved;
      rendered = n.rendered;
    }

pub normalize_clean :
    (input : Text) (segs : List Text)
    → is_empty input ≡ false
    → dirty input ≡ false
    → resolve input [] (absolute_segments input) ≡ ok segs
    → normalize_virtual_path input ≡ ok (render segs)
unfolding normalize_virtual_path
normalize_clean input segs e c r = ground arith

absolute_segments-render :
    (s : Text) (ss : List Text)
    → All IsSegment (s ∷ ss)
    → absolute_segments (slash ∷ join slash (s ∷ ss)) ≡ [] ∷ s ∷ ss
unfolding absolute_segments starts_with
absolute_segments-render s ss h =
    split-slash slash (join slash (s ∷ ss)) refl
    ∙ ap (λ t. [] ∷ t) (split-join s ss (All-within (s ∷ ss) h))

-- Canonical paths are fixed points of the normalisation.
pub normalize-render :
    (ss : List Text) → All IsSegment ss → normalize_virtual_path (render ss) ≡ ok (render ss)
unfolding render
normalize-render [] h =
    unfold normalize_virtual_path has_encoded encoded_at absolute_segments resolve split
      starts_with in
    refl
normalize-render (s ∷ ss) h =
    normalize_clean (slash ∷ join slash (s ∷ ss)) (s ∷ ss) refl
      (unfold has_encoded encoded_at in
        dirty-append [] (join slash (s ∷ ss))
        ∙ dirty-join (s ∷ ss)
        ∙ any-All dirty (s ∷ ss) (All-clean (s ∷ ss) h))
      (rw (absolute_segments-render s ss h)
        (unfold resolve in resolve_of_IsSegment (slash ∷ join slash (s ∷ ss)) [] (s ∷ ss) h))

pub normalize-canonical : {p : Text} → IsCanonical p → normalize_virtual_path p ≡ ok p
normalize-canonical c = rw c.rendered (normalize-render c.segments c.plain)

-- Normalising a path a second time changes nothing.
pub normalize_idempotent :
    (input : Text) {p : Text}
    → normalize_virtual_path input ≡ ok p
    → normalize_virtual_path p ≡ ok p
normalize_idempotent input e = normalize-canonical (normalize-IsCanonical input e)
